-- ===== src/Profiler/ById.antt =====
-- The map from ids to profiles that Handle stores in the continuous and the conditional driver.
use apminsight_server_sdk_go.Prelude.{
  ◌≡◌, refl, List, [], ◌∷◌, Option, none, some, if◌then◌else◌, Bool-cases, Option-cases, ◌∙◌,
  some_inj, inl, inr,
}
use apminsight_server_sdk_go.Prelude.Int.{ℤ, eqb_ℤ, eq_of_eqb_ℤ}
use apminsight_server_sdk_go.Profiler.Task.{Profile}

abbrev pub ProfileMap : Type 0
ProfileMap = ℤ → Option Profile

abbrev pub no_profiles : ProfileMap
no_profiles id = none

unfoldable pub put : Profile → ProfileMap → ProfileMap
put p m id = if eqb_ℤ id p.profile_id then some p else m id

-- `tmp[p.ProfileId] = p` for each profile in turn.
unfoldable pub put_each : List Profile → ProfileMap → ProfileMap
put_each [] m = m
put_each (p ∷ ps) m = put_each ps (put p m)

-- The map that Handle stores.
unfoldable pub by_id : List Profile → ProfileMap
by_id ps = put_each ps no_profiles

-- A profile is stored under its id.
abbrev pub IsKeyed : ProfileMap → Type 0
IsKeyed m = (id : ℤ) (p : Profile) → m id ≡ some p → p.profile_id ≡ id

put_each-IsKeyed : (ps : List Profile) (m : ProfileMap) → IsKeyed m → IsKeyed (put_each ps m)
unfolding put_each put
put_each-IsKeyed [] m k = k
put_each-IsKeyed (q ∷ ps) m k = put_each-IsKeyed ps (put q m) λ id p h.
    elim (Bool-cases (eqb_ℤ id q.profile_id)) [
      | inl e ↦
          let same : q ≡ p = some_inj (rw e at h) in
          rw (← same) (rw (eq_of_eqb_ℤ id q.profile_id e) refl)
      | inr e ↦ k id p (rw e at h)
    ]

pub by_id-IsKeyed : (ps : List Profile) → IsKeyed (by_id ps)
unfolding by_id
by_id-IsKeyed ps = put_each-IsKeyed ps no_profiles (λ id p h. absurd cc)

-- The last profile of a list that has the id.
abbrev pub last_with : ℤ → List Profile → Option Profile
last_with id [] = none
last_with id (p ∷ ps) = elim (last_with id ps) [
  | none ↦ if eqb_ℤ id p.profile_id then some p else none
  | some q ↦ some q
]

put_each-last :
    (id : ℤ) (ps : List Profile) (m : ProfileMap)
    → put_each ps m id ≡ (elim (last_with id ps) [ none ↦ m id | some p ↦ some p ])
unfolding put_each put
put_each-last id [] m = refl
put_each-last id (p ∷ ps) m = elim (Option-cases (last_with id ps)) [
  | inr (q, e) ↦ put_each-last id ps (put p m) ∙ rw e refl
  | inl e ↦
      put_each-last id ps (put p m)
      ∙ rw e (elim (Bool-cases (eqb_ℤ id p.profile_id)) [ inl y ↦ rw y refl | inr n ↦ rw n refl ])
]

pub by_id-last : (id : ℤ) (ps : List Profile) → by_id ps id ≡ last_with id ps
unfolding by_id
by_id-last id ps =
    put_each-last id ps no_profiles
    ∙ elim (Option-cases (last_with id ps)) [ inl e ↦ rw e refl | inr (p, e) ↦ rw e refl ]
