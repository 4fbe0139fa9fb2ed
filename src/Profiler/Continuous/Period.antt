-- ===== src/Profiler/Continuous/Period.antt =====
-- What the ticks of the continuous driver offer the channel.
use apminsight_server_sdk_go.Prelude.{
  ℕ, suc, ◌+◌, ◌≡◌, refl, ◌∙◌, Bool, true, false, List, [], ◌∷◌, Option, none, some, Bytes, length,
  if◌then◌else◌, All, Bool-cases, Option-cases, inl, inr, arith,
}
use apminsight_server_sdk_go.Prelude.Int.{ℤ, eqb_ℤ, eq_of_eqb_ℤ}
use apminsight_server_sdk_go.Profiler.Task.{
  Profile, Task, continuous_task, preset_task, extract_profile_types,
}
use apminsight_server_sdk_go.Profiler.Channel.{Env, offered}
use apminsight_server_sdk_go.Profiler.ById.{
  ProfileMap, IsKeyed, by_id-IsKeyed, last_with, by_id-last,
}
use apminsight_server_sdk_go.Profiler.Continuous.{
  ContinuousDriver, handle, offer, visit_id, visit_all, tick, run_ticks,
}

-- A profile is there, and one of its profile types is valid.
abbrev has_types : Option (List Bytes) → Bool
has_types none = false
has_types (some pts) = true

abbrev pub is_runnable : Option Profile → Bool
is_runnable none = false
is_runnable (some p) = has_types (extract_profile_types p)

abbrev pub occurrences : ℤ → List ℤ → ℕ
occurrences id [] = 0
occurrences id (k ∷ ks) = if eqb_ℤ id k then suc (occurrences id ks) else occurrences id ks

-- How often a range over a map visits a key with this entry.
abbrev pub visits : Option Profile → ℕ
visits none = 0
visits (some p) = 1

runnable-visits : (entry : Option Profile) → is_runnable entry ≡ true → visits entry ≡ 1
runnable-visits none h = absurd cc
runnable-visits (some p) h = refl

abbrev once : ℤ → ℤ → Bool → ℕ
once id k b = if b then (if eqb_ℤ id k then 1 else 0) else 0

continuous_task-none :
    (id : Bytes) (p : Profile) → extract_profile_types p ≡ none → continuous_task id p ≡ none
unfolding continuous_task preset_task
continuous_task-none id p e = rw (e, preset_task) refl

continuous_task-some :
    (id : Bytes) (p : Profile) (pts : List Bytes)
    → extract_profile_types p ≡ some pts
    → (t : Task) × (continuous_task id p ≡ some t) × (t.profile_id ≡ p.profile_id)
unfolding continuous_task preset_task
continuous_task-some id p pts e = rw (e, preset_task) (_, refl, refl)

once_add :
    (id k : ℤ) (m : ProfileMap) (ks : List ℤ)
    → once id k (is_runnable (m k)) + (if is_runnable (m id) then occurrences id ks else 0)
      ≡ (if is_runnable (m id) then occurrences id (k ∷ ks) else 0)
once_add id k m ks = elim (Bool-cases (eqb_ℤ id k)) [
  | inl e ↦ rw (e, ← eq_of_eqb_ℤ id k e) (ground arith)
  | inr e ↦ rw e (ground arith)
]

module _ (env : Env) where
  -- A visit offers a task if the profile is runnable, and keeps the profiles.
  visit_id-offered :
      (d : ContinuousDriver) (k id : ℤ)
      → IsKeyed d.profiles
      → (offered id (visit_id env d k).attempts
          ≡ offered id d.attempts + once id k (is_runnable (d.profiles k)))
        × ((visit_id env d k).profiles ≡ d.profiles)
  unfolding visit_id offer
  visit_id-offered d k id keyed = elim (Option-cases (d.profiles k)) [
    | inl e ↦ rw (e, visit_id) (omega arith, refl)
    | inr (p, e) ↦ elim (Option-cases (extract_profile_types p)) [
      | inl f ↦ rw (e, visit_id, continuous_task-none _ p f, f) (omega arith, refl)
      | inr (pts, f) ↦
          let (t, made, own) = continuous_task-some (env.new_rand_id d.attempts) p pts f in
          rw (e, visit_id, made, f, own, keyed k p e)
            (elim (Bool-cases (eqb_ℤ id k)) [
              | inl same ↦ rw same (omega arith, refl)
              | inr other ↦ rw other (omega arith, refl)
            ])
    ]
  ]

  visit_all-offered :
      (d : ContinuousDriver) (ks : List ℤ) (id : ℤ)
      → IsKeyed d.profiles
      → (offered id (visit_all env d ks).attempts
          ≡ offered id d.attempts + (if is_runnable (d.profiles id) then occurrences id ks else 0))
        × ((visit_all env d ks).profiles ≡ d.profiles)
  unfolding visit_all visit_id
  visit_all-offered d [] id keyed = (ground arith, refl)
  visit_all-offered d (k ∷ ks) id keyed =
      let (e1, same1) = visit_id-offered d k id keyed in
      let (e2, same2) = visit_all-offered (visit_id env d k) ks id (rw same1 keyed) in
      (omega (arith, e1, rw same1 at e2, once_add id k d.profiles ks), same2 ∙ same1)

  run_ticks-eq :
      (d : ContinuousDriver) (orders : List (List ℤ)) (id : ℤ)
      → IsKeyed d.profiles
      → All (λ order. occurrences id order ≡ visits (d.profiles id)) orders
      → offered id (run_ticks env d orders).attempts
        ≡ offered id d.attempts + (if is_runnable (d.profiles id) then length orders else 0)
  unfolding run_ticks tick visit_all
  run_ticks-eq d [] id keyed h = ground arith
  run_ticks-eq d (order ∷ orders) id keyed h =
      let (e1, same) = visit_all-offered d order id keyed in
      let rest = run_ticks-eq (tick env order d) orders id (rw same keyed) (rw same h.1) in
      elim (Bool-cases (is_runnable (d.profiles id))) [
        | inl e ↦ rw e (
            omega
              (arith, rw (e, h.0, runnable-visits (d.profiles id) e) at e1, rw (same, e) at rest))
        | inr e ↦ rw e (omega (arith, rw e at e1, rw (same, e) at rest))
      ]

  -- After Handle, when every tick ranges over the map of the profiles, an id being visited once if
  -- the settings have a profile with it and not at all otherwise: each tick offers the channel one
  -- task of an id if the last profile in the settings that has this id has a valid type, and none
  -- otherwise.
  pub run_ticks-offered :
      (d : ContinuousDriver) (ps : List Profile) (orders : List (List ℤ)) (id : ℤ)
      → All (λ order. occurrences id order ≡ visits (last_with id ps)) orders
      → offered id (run_ticks env (handle ps d) orders).attempts
        ≡ offered id d.attempts + (if is_runnable (last_with id ps) then length orders else 0)
  unfolding handle
  run_ticks-offered d ps orders id h =
      let last = by_id-last id ps in
      rw (← last) (run_ticks-eq (handle ps d) orders id (by_id-IsKeyed ps) (rw last h))
