-- ===== src/Profiler/Timed/Delivery.antt =====
-- How often the timed driver sends a profile.
use mathlib.Core.Path.{subst}
use apminsight_server_sdk_go.Prelude.{
  ◌≤◌, ◌≡◌, refl, false, List, [], ◌∷◌, none, some, Bytes, if◌then◌else◌, Bool-cases, Option-cases,
  some_inj, inl, inr, arith,
}
use apminsight_server_sdk_go.Prelude.Int.{ℤ, ltb_ℤ, eqb_ℤ, eq_of_eqb_ℤ}
use apminsight_server_sdk_go.Profiler.Task.{Profile, Task, timed_task, extract_profile_types}
use apminsight_server_sdk_go.Profiler.Channel.{Env, sent}
use apminsight_server_sdk_go.Profiler.Timed.{
  TimedDriver, new_timed_driver, handle, is_handled, offer, visit, visit_all, tick, Event, handles,
  ticks, step, run,
}

-- The handled profiles are those of which a task was sent, and each of them was sent once.
abbrev pub Counts : TimedDriver → Type 0
Counts d = (id : ℤ) → sent id d.attempts ≡ (if is_handled id d.handled_set then 1 else 0)

timed_task-profile_id :
    (id : Bytes) (p : Profile) (t : Task) → timed_task id p ≡ some t → t.profile_id ≡ p.profile_id
unfolding timed_task
timed_task-profile_id id p t h = elim (Option-cases (extract_profile_types p)) [
  | inl e ↦ let k : none ≡ some t = (rw (e, timed_task) at h) in absurd cc
  | inr (pts, e) ↦
      subst (λ x. x.profile_id ≡ p.profile_id) (some_inj (rw (e, timed_task) at h)) refl
]

module _ (env : Env) where
  offer-Counts :
      (d : TimedDriver) (p : Profile) (t : Task)
      → t.profile_id ≡ p.profile_id
      → is_handled p.profile_id d.handled_set ≡ false
      → Counts d
      → Counts (offer env d p t)
  unfolding offer is_handled
  offer-Counts d p t same fresh c id = elim (Bool-cases (env.takes d.attempts t)) [
    | inl e ↦ elim (Bool-cases (eqb_ℤ id p.profile_id)) [
      | inl k ↦
          let unhandled : is_handled id d.handled_set ≡ false =
            rw (eq_of_eqb_ℤ id p.profile_id k) fresh in
          let none_sent : sent id d.attempts ≡ 0 = (rw unhandled at (c id)) in
          rw (e, same, k, none_sent) refl
      | inr k ↦ rw (e, same, k) (c id)
    ]
    | inr e ↦ rw e (c id)
  ]

  visit-Counts : (now : ℤ) (d : TimedDriver) (p : Profile) → Counts d → Counts (visit env now d p)
  unfolding visit
  visit-Counts now d p c = elim (Bool-cases (ltb_ℤ now p.start_time)) [
    | inl early ↦ rw (early, visit) c
    | inr due ↦ elim (Bool-cases (is_handled p.profile_id d.handled_set)) [
      | inl done ↦ rw (due, done, visit) c
      | inr fresh ↦ elim (Option-cases (timed_task (env.new_rand_id d.attempts) p)) [
        | inl e ↦ rw (due, fresh, e, visit) c
        | inr (t, e) ↦
            rw (due, fresh, e, visit) (offer-Counts d p t (timed_task-profile_id _ p t e) fresh c)
      ]
    ]
  ]

  visit_all-Counts :
      (now : ℤ) (d : TimedDriver) (ps : List Profile) → Counts d → Counts (visit_all env now d ps)
  unfolding visit_all
  visit_all-Counts now d [] c = c
  visit_all-Counts now d (p ∷ ps) c =
      visit_all-Counts now (visit env now d p) ps (visit-Counts now d p c)

  pub step-Counts : (d : TimedDriver) (e : Event) → Counts d → Counts (step env d e)
  unfolding step tick handle
  step-Counts d (handles ps) c = c
  step-Counts d (ticks now) c = visit_all-Counts now d d.profiles c

  pub run-Counts : (d : TimedDriver) (es : List Event) → Counts d → Counts (run env d es)
  unfolding run
  run-Counts d [] c = c
  run-Counts d (e ∷ es) c = run-Counts (step env d e) es (step-Counts d e c)

  pub new-Counts : Counts new_timed_driver
  unfolding is_handled
  new-Counts id = refl

  -- Whatever settings arrive, however the clock goes and whenever the channel is full: no timed
  -- profile is sent to the channel twice.
  pub run_sends_once :
      (es : List Event) (id : ℤ) → sent id (run env new_timed_driver es).attempts ≤ 1
  run_sends_once es id =
      elim (Bool-cases (is_handled id (run env new_timed_driver es).handled_set)) [
        | inl h ↦ omega (arith, rw h at (run-Counts new_timed_driver es new-Counts id))
        | inr h ↦ omega (arith, rw h at (run-Counts new_timed_driver es new-Counts id))
      ]
