-- ===== src/Profiler/Manager/Cleared.antt =====
-- Settings without profiles, and the drivers after them.
use apminsight_server_sdk_go.Prelude.{◌≡◌, refl, ap, All, Bytes, false, List, [], ◌∷◌, none, Option}
use apminsight_server_sdk_go.Prelude.Int.{ℤ}
use apminsight_server_sdk_go.Profiler.Channel.{Env}
use apminsight_server_sdk_go.Profiler.Task.{Profile}
use apminsight_server_sdk_go.Profiler.ById.{by_id, put_each}
use apminsight_server_sdk_go.Profiler.Continuous
use apminsight_server_sdk_go.Profiler.Continuous.{ContinuousDriver}
use apminsight_server_sdk_go.Profiler.Timed
use apminsight_server_sdk_go.Profiler.Conditional
use apminsight_server_sdk_go.Profiler.Conditional.{ConditionalDriver, Floats, Tick}
use apminsight_server_sdk_go.Profiler.Manager.{
  Manager, instance_id_matched, handler_profile_tasks, record_type_continuous, record_type_task,
  record_type_conditional,
}
use apminsight_server_sdk_go.Profiler.Manager.Dispatch.{
  selected, settings_profiles, handler_profile_tasks-eq,
}

selected_none :
    (i rt : Bytes) (ps : List Profile)
    → All (λ p. instance_id_matched i p ≡ false) ps
    → selected i rt ps ≡ []
selected_none i rt [] h = refl
selected_none i rt (p ∷ ps) h = rw h.0 (selected_none i rt ps h.1)

continuous_quiet :
    (env : Env) (d : ContinuousDriver) (order : List ℤ)
    → ((id : ℤ) → d.profiles id ≡ none)
    → Continuous.visit_all env d order ≡ d
unfolding Continuous.visit_all Continuous.visit_id
continuous_quiet env d [] e = refl
continuous_quiet env d (id ∷ ids) e =
    let same : Continuous.visit_id env d id ≡ d = rw (e id, Continuous.visit_id) refl in
    rw same (continuous_quiet env d ids e)

conditional_quiet :
    (floats : Floats) (env : Env) (t : Tick) (d : ConditionalDriver) (ids : List ℤ)
    → ((id : ℤ) → d.profiles id ≡ none)
    → Conditional.visit_all floats env t d ids ≡ d
unfolding Conditional.visit_all Conditional.visit_id
conditional_quiet floats env t d [] e = refl
conditional_quiet floats env t d (id ∷ ids) e =
    let same : Conditional.visit_id floats env t d id ≡ d = rw (e id, Conditional.visit_id) refl in
    rw same (conditional_quiet floats env t d ids e)

-- When the settings have no profile for this instance, none at all, or are missing, no driver
-- offers anything to the channel at its next tick, whatever it held before.
pub handler_profile_tasks_quiet :
    (m : Manager) (s : Option (Option (List Profile))) (floats : Floats) (env : Env) (now : ℤ)
    (order : List ℤ) (t : Tick)
    → All (λ p. instance_id_matched m.instance_id p ≡ false) (settings_profiles s)
    → ((Timed.tick env now (handler_profile_tasks m s).timed_driver).attempts
        ≡ m.timed_driver.attempts)
      × ((Continuous.tick env order (handler_profile_tasks m s).continuous_driver).attempts
          ≡ m.continuous_driver.attempts)
      × ((Conditional.tick floats env t (handler_profile_tasks m s).conditional_driver).attempts
          ≡ m.conditional_driver.attempts)
unfolding Timed.tick Timed.visit_all Timed.handle Timed.sort_by_start Continuous.tick
    Continuous.handle Conditional.tick Conditional.handle Conditional.remove_expired by_id put_each
handler_profile_tasks_quiet m s floats env now order t h =
    rw
      (
        handler_profile_tasks-eq m s,
        selected_none m.instance_id record_type_continuous (settings_profiles s) h,
        selected_none m.instance_id record_type_task (settings_profiles s) h,
        selected_none m.instance_id record_type_conditional (settings_profiles s) h,
      )
      (
        refl,
        ap (λ d. d.attempts)
            (continuous_quiet env (Continuous.handle [] m.continuous_driver) order (λ id. refl)),
        ap (λ d. d.attempts)
            (conditional_quiet floats env t
              (Conditional.remove_expired t.expiry_clock
                (Conditional.handle [] m.conditional_driver))
              t.order (λ id. refl)),
      )
