-- ===== src/Profiler/Conditional/Started.antt =====
-- The counts in the entries of the limits.
use apminsight_server_sdk_go.Prelude.{
  ℕ, ◌≤◌, ◌≡◌, List, [], ◌∷◌, none, some, ltb, leb, Bool-cases, Option-cases, some_inj, inl, inr,
  arith,
}
use apminsight_server_sdk_go.Prelude.Int.{ℤ, eqb_ℤ}
use apminsight_server_sdk_go.Profiler.Task.{Profile, conditional_task}
use apminsight_server_sdk_go.Profiler.Channel.{Env}
use apminsight_server_sdk_go.Profiler.Conditional.{
  Count, ConditionalDriver, new_conditional_driver, Floats, Readings, check_condition,
  remove_expired, set_limit, check_execution_limit, Tick, offer, execute, visit, visit_id,
  visit_all, tick, Event, handles, ticks, step, run, execution_limit_per_hour, handle,
}

abbrev pub Started : ConditionalDriver → Type 0
Started d = (id : ℤ) (limit : Count) → d.cnt_limit id ≡ some limit → 1 ≤ limit.cnt

set_limit-Started :
    (k : ℤ) (limit : Count) (d : ConditionalDriver)
    → 1 ≤ limit.cnt
    → Started d
    → Started (set_limit k limit d)
unfolding set_limit
set_limit-Started k limit d h s id l e = elim (Bool-cases (eqb_ℤ id k)) [
  | inl same ↦ let made : limit ≡ l = some_inj (rw same at e) in rw (← made) h
  | inr other ↦ s id l (rw other at e)
]

remove_expired-Started :
    (clock : ℤ → ℕ) (d : ConditionalDriver) → Started d → Started (remove_expired clock d)
unfolding remove_expired
remove_expired-Started clock d s id l e = elim (Option-cases (d.cnt_limit id)) [
  | inl f ↦ let k : none ≡ some l = (rw (f, remove_expired) at e) in absurd cc
  | inr (limit, f) ↦ elim (Bool-cases (ltb limit.expire_at (clock id))) [
    | inl old ↦ let k : none ≡ some l = (rw (f, remove_expired, old) at e) in absurd cc
    | inr young ↦
        let same : limit ≡ l = some_inj (rw (f, remove_expired, young) at e) in
        rw (← same) (s id limit f)
  ]
]

check_execution_limit-Started :
    (now : ℕ) (p : Profile) (d : ConditionalDriver)
    → Started d
    → Started (check_execution_limit now p d).1
unfolding check_execution_limit
check_execution_limit-Started now p d s = elim (Option-cases (d.cnt_limit p.profile_id)) [
  | inl e ↦ rw (e, check_execution_limit) (set_limit-Started p.profile_id _ d (omega arith) s)
  | inr (limit, e) ↦ elim (Bool-cases (leb execution_limit_per_hour limit.cnt)) [
    | inl f ↦ rw (e, f, check_execution_limit) s
    | inr f ↦ rw (e, f, check_execution_limit) (set_limit-Started p.profile_id _ d (omega arith) s)
  ]
]

module _ (floats : Floats) (env : Env) where
  execute-Started :
      (d : ConditionalDriver) (p : Profile) → Started d → Started (execute floats env d p)
  unfolding execute offer
  execute-Started d p s = elim (Option-cases (conditional_task (env.new_rand_id d.attempts) p)) [
    | inl e ↦ rw (e, execute) s
    | inr (t, e) ↦ rw (e, execute) s
  ]

  visit-Started :
      (now : ℕ) (r : Readings) (d : ConditionalDriver) (p : Profile)
      → Started d
      → Started (visit floats env now r d p)
  unfolding visit
  visit-Started now r d p s =
      let checked = check_execution_limit-Started now p d s in
      elim (Bool-cases (check_condition floats r p)) [
        | inr e ↦ rw (e, visit) s
        | inl e ↦ elim (Bool-cases (check_execution_limit now p d).0) [
          | inr f ↦ rw (e, f, visit) checked
          | inl f ↦ rw (e, f, visit) (execute-Started (check_execution_limit now p d).1 p checked)
        ]
      ]

  visit_all-Started :
      (t : Tick) (d : ConditionalDriver) (ids : List ℤ)
      → Started d
      → Started (visit_all floats env t d ids)
  unfolding visit_all visit_id
  visit_all-Started t d [] s = s
  visit_all-Started t d (k ∷ ids) s =
      visit_all-Started t (visit_id floats env t d k) ids (elim (Option-cases (d.profiles k)) [
        | inl e ↦ rw (e, visit_id) s
        | inr (p, e) ↦ rw (e, visit_id) (visit-Started (t.clock k) (t.readings k) d p s)
      ])

  step-Started : (d : ConditionalDriver) (e : Event) → Started d → Started (step floats env d e)
  unfolding step tick handle
  step-Started d (handles ps) s = s
  step-Started d (ticks t) s =
      visit_all-Started t (remove_expired t.expiry_clock d) t.order
        (remove_expired-Started t.expiry_clock d s)

  pub run-Started :
      (d : ConditionalDriver) (es : List Event) → Started d → Started (run floats env d es)
  unfolding run
  run-Started d [] s = s
  run-Started d (e ∷ es) s = run-Started (step floats env d e) es (step-Started d e s)

pub new-Started : Started new_conditional_driver
new-Started id limit h = absurd cc
