-- ===== src/Profiler/Conditional/Limit.antt =====
-- How often a conditional profile is executed.
use mathlib.Core.Path.{subst}
use apminsight_server_sdk_go.Prelude.{
  ℕ, ◌+◌, ◌-◌, ◌≤◌, ◌≡◌, refl, true, false, List, [], ◌∷◌, Option, none, some, Bytes, ltb, leb,
  if◌then◌else◌, All, Bool-cases, Option-cases, some_inj, inl, inr, arith,
}
use apminsight_server_sdk_go.Prelude.Int.{ℤ, eqb_ℤ, eq_of_eqb_ℤ}
use apminsight_server_sdk_go.Profiler.Task.{
  Profile, Task, conditional_task, preset_task, extract_profile_types,
}
use apminsight_server_sdk_go.Profiler.Channel.{Env, offered}
use apminsight_server_sdk_go.Profiler.Conditional.{
  Count, ConditionalDriver, new_conditional_driver, Floats, Readings, check_condition,
  remove_expired, set_limit, check_execution_limit, Tick, offer, execute, visit, visit_id,
  visit_all, tick, Event, handles, ticks, step, run, limit_expire_time, execution_limit_per_hour,
  handle,
}
use apminsight_server_sdk_go.Profiler.Conditional.Started.{Started, run-Started, new-Started}

-- How many executions are left until the time `b`, if a new entry does not expire before `b`.
abbrev pub left : ℕ → Option Count → ℕ
left b none = 3
left b (some limit) = if ltb limit.expire_at b then (3 - limit.cnt) + 3 else 3 - limit.cnt

-- What was offered of a profile and what may still be.
abbrev pub budget : ℕ → ℤ → ConditionalDriver → ℕ
budget b id d = offered id d.attempts + left b (d.cnt_limit id)

remove_expired-budget :
    (b : ℕ) (id : ℤ) (clock : ℤ → ℕ) (d : ConditionalDriver)
    → clock id ≤ b
    → budget b id (remove_expired clock d) ≤ budget b id d
unfolding remove_expired
remove_expired-budget b id clock d h = elim (Option-cases (d.cnt_limit id)) [
  | inl e ↦ rw (e, remove_expired) (omega arith)
  | inr (limit, e) ↦ rw (e, remove_expired) (ground arith)
]

-- A permission to execute costs one of the executions that are left.
check_execution_limit-left :
    (b now : ℕ) (p : Profile) (d : ConditionalDriver)
    → b ≤ now + limit_expire_time
    → let (allowed, d') = check_execution_limit now p d in
      (if allowed then 1 else 0) + left b (d'.cnt_limit p.profile_id)
      ≤ left b (d.cnt_limit p.profile_id)
unfolding check_execution_limit set_limit
check_execution_limit-left b now p d h =
    let same : eqb_ℤ p.profile_id p.profile_id ≡ true = ground arith in
    elim (Option-cases (d.cnt_limit p.profile_id)) [
      | inl e ↦ rw (e, check_execution_limit, same) (ground arith)
      | inr (limit, e) ↦ elim (Bool-cases (leb execution_limit_per_hour limit.cnt)) [
        | inl f ↦ rw (e, f, check_execution_limit, e) (ground arith)
        | inr f ↦ rw (e, f, check_execution_limit, same) (ground arith)
      ]
    ]

check_execution_limit-attempts :
    (now : ℕ) (p : Profile) (d : ConditionalDriver)
    → (check_execution_limit now p d).1.attempts ≡ d.attempts
unfolding check_execution_limit set_limit
check_execution_limit-attempts now p d = elim (Option-cases (d.cnt_limit p.profile_id)) [
  | inl e ↦ rw (e, check_execution_limit) refl
  | inr (limit, e) ↦ elim (Bool-cases (leb execution_limit_per_hour limit.cnt)) [
    | inl f ↦ rw (e, f, check_execution_limit) refl
    | inr f ↦ rw (e, f, check_execution_limit) refl
  ]
]

check_execution_limit_other :
    (now : ℕ) (p : Profile) (d : ConditionalDriver) (id : ℤ)
    → eqb_ℤ id p.profile_id ≡ false
    → (check_execution_limit now p d).1.cnt_limit id ≡ d.cnt_limit id
unfolding check_execution_limit set_limit
check_execution_limit_other now p d id h = elim (Option-cases (d.cnt_limit p.profile_id)) [
  | inl e ↦ rw (e, check_execution_limit, h) refl
  | inr (limit, e) ↦ elim (Bool-cases (leb execution_limit_per_hour limit.cnt)) [
    | inl f ↦ rw (e, f, check_execution_limit) refl
    | inr f ↦ rw (e, f, check_execution_limit, h) refl
  ]
]

task-profile_id :
    (id : Bytes) (p : Profile) (t : Task)
    → conditional_task id p ≡ some t
    → t.profile_id ≡ p.profile_id
unfolding conditional_task preset_task
task-profile_id id p t h = elim (Option-cases (extract_profile_types p)) [
  | inl e ↦ let k : none ≡ some t = (rw (e, preset_task) at h) in absurd cc
  | inr (pts, e) ↦
      subst (λ x. x.profile_id ≡ p.profile_id) (some_inj (rw (e, preset_task) at h)) refl
]

abbrev own : ℤ → ℤ → ℕ
own id k = if eqb_ℤ id k then 1 else 0

own_refl : (id : ℤ) → own id id ≡ 1
own_refl id = ground arith

-- What a permission costs in the budget of any profile.
check_execution_limit-budget :
    (b now : ℕ) (p : Profile) (d : ConditionalDriver) (id : ℤ)
    → b ≤ now + limit_expire_time
    → (if (check_execution_limit now p d).0 then own id p.profile_id else 0)
        + budget b id (check_execution_limit now p d).1
      ≤ budget b id d
check_execution_limit-budget b now p d id h = elim (Bool-cases (eqb_ℤ id p.profile_id)) [
  | inl k ↦
      rw (eq_of_eqb_ℤ id p.profile_id k, own_refl, check_execution_limit-attempts)
        (omega (arith, check_execution_limit-left b now p d h))
  | inr k ↦
      rw (check_execution_limit_other now p d id k, check_execution_limit-attempts, k)
        (ground arith)
]

module _ (floats : Floats) (env : Env) where
  execute-budget :
      (b : ℕ) (id : ℤ) (d : ConditionalDriver) (p : Profile)
      → budget b id (execute floats env d p) ≤ budget b id d + own id p.profile_id
  unfolding execute offer
  execute-budget b id d p = elim (Option-cases (conditional_task (env.new_rand_id d.attempts) p)) [
    | inl e ↦ rw (e, execute) (ground arith)
    | inr (t, e) ↦
        rw (e, execute, task-profile_id _ p t e)
          (elim (Bool-cases (eqb_ℤ id p.profile_id)) [
            | inl k ↦ rw k (omega arith)
            | inr k ↦ rw k (omega arith)
          ])
  ]

  -- A visit within the hour does not raise the budget.
  visit-budget :
      (b now : ℕ) (r : Readings) (id : ℤ) (d : ConditionalDriver) (p : Profile)
      → b ≤ now + limit_expire_time
      → budget b id (visit floats env now r d p) ≤ budget b id d
  unfolding visit
  visit-budget b now r id d p h = elim (Bool-cases (check_condition floats r p)) [
    | inr e ↦ rw (e, visit) (omega arith)
    | inl e ↦ elim (Bool-cases (check_execution_limit now p d).0) [
      | inr f ↦
          rw (e, f, visit) (omega (arith, rw f at (check_execution_limit-budget b now p d id h)))
      | inl f ↦
          rw (e, f, visit)
            (omega (
              arith,
              execute-budget b id (check_execution_limit now p d).1 p,
              rw f at (check_execution_limit-budget b now p d id h),
            ))
    ]
  ]

  visit_id-budget :
      (b : ℕ) (t : Tick) (id : ℤ) (d : ConditionalDriver) (k : ℤ)
      → b ≤ t.clock k + limit_expire_time
      → budget b id (visit_id floats env t d k) ≤ budget b id d
  unfolding visit_id
  visit_id-budget b t id d k h = elim (Option-cases (d.profiles k)) [
    | inl e ↦ rw (e, visit_id) (omega arith)
    | inr (p, e) ↦ rw (e, visit_id) (visit-budget b (t.clock k) (t.readings k) id d p h)
  ]

  visit_all-budget :
      (b : ℕ) (t : Tick) (id : ℤ) (d : ConditionalDriver) (ids : List ℤ)
      → ((k : ℤ) → b ≤ t.clock k + limit_expire_time)
      → budget b id (visit_all floats env t d ids) ≤ budget b id d
  unfolding visit_all
  visit_all-budget b t id d [] h = omega arith
  visit_all-budget b t id d (k ∷ ids) h =
      let rest = visit_all-budget b t id (visit_id floats env t d k) ids h in
      omega (arith, rest, visit_id-budget b t id d k (h k))

-- All the clocks that the events read lie between `a` and `b`.
abbrev pub IsWithin : ℕ → ℕ → Event → Type 0
IsWithin a b (handles ps) = Unit
IsWithin a b (ticks t) = (id : ℤ) → (t.expiry_clock id ≤ b) × (a ≤ t.clock id) × (t.clock id ≤ b)

module _ (floats : Floats) (env : Env) where
  run-budget :
      (a b : ℕ) (id : ℤ) (d : ConditionalDriver) (es : List Event)
      → b ≤ a + limit_expire_time
      → All (IsWithin a b) es
      → budget b id (run floats env d es) ≤ budget b id d
  unfolding run step tick handle
  run-budget a b id d [] h w = omega arith
  run-budget a b id d (handles ps ∷ es) h w = run-budget a b id (handle ps d) es h w.1
  run-budget a b id d (ticks t ∷ es) h w =
      let removed = remove_expired-budget b id t.expiry_clock d (w.0 id).0 in
      let visited =
        visit_all-budget floats env b t id (remove_expired t.expiry_clock d) t.order
          (λ k. omega (arith, (w.0 k).1, h)) in
      let rest = run-budget a b id (tick floats env t d) es h w.1 in
      omega (arith, removed, visited, rest)

  Started-left : (b : ℕ) (id : ℤ) (d : ConditionalDriver) → Started d → left b (d.cnt_limit id) ≤ 5
  Started-left b id d s = elim (Option-cases (d.cnt_limit id)) [
    | inl e ↦ rw e (omega arith)
    | inr (limit, e) ↦ rw e (ground (arith, s id limit e))
  ]

  -- After any events, in any hour: at most five tasks of a profile are offered to the channel,
  -- whatever the settings, the readings and the order of the profiles.
  pub run_hour_bound :
      (before es : List Event) (a : ℕ) (id : ℤ)
      → All (IsWithin a (a + limit_expire_time)) es
      → offered id (run floats env (run floats env new_conditional_driver before) es).attempts
        ≤ offered id (run floats env new_conditional_driver before).attempts + 5
  run_hour_bound before es a id w =
      let d = run floats env new_conditional_driver before in
      omega (
        arith,
        run-budget a (a + limit_expire_time) id d es (omega arith) w,
        Started-left (a + limit_expire_time) id d
            (run-Started floats env new_conditional_driver before new-Started),
      )
