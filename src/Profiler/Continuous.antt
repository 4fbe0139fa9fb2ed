-- ===== src/Profiler/Continuous.antt =====
-- aiprofiler/drivers/continuous_driver.go: the driver of the profiles that run all the time.
pub mod Period
use apminsight_server_sdk_go.Prelude.{List, [], ◌∷◌, Option, none, some}
use apminsight_server_sdk_go.Prelude.Int.{ℤ}
use apminsight_server_sdk_go.Profiler.Task.{Profile, Task, continuous_task}
use apminsight_server_sdk_go.Profiler.Channel.{Attempt, Env}
use apminsight_server_sdk_go.Profiler.ById.{ProfileMap, no_profiles, by_id}

pub record ContinuousDriver : Type 0 where
  pub profiles : ProfileMap
  pub attempts : List Attempt

abbrev pub new_continuous_driver : ContinuousDriver
new_continuous_driver = record { profiles = no_profiles; attempts = [] }

unfoldable pub handle : List Profile → ContinuousDriver → ContinuousDriver
handle ps d = record d { profiles = by_id ps }

module _ (env : Env) where
  unfoldable pub offer : ContinuousDriver → Option Task → ContinuousDriver
  offer d none = d
  offer d (some task) = record d {
    attempts = record { task = task; taken = env.takes d.attempts task } ∷ d.attempts;
  }

  -- The body of the loop over the profiles.
  unfoldable pub visit_id : ContinuousDriver → ℤ → ContinuousDriver
  visit_id d id = elim (d.profiles id) [
    | none ↦ d
    | some p ↦ offer d (continuous_task (env.new_rand_id d.attempts) p)
  ]

  unfoldable pub visit_all : ContinuousDriver → List ℤ → ContinuousDriver
  visit_all d [] = d
  visit_all d (id ∷ ids) = visit_all (visit_id d id) ids

  -- One tick of the loop of Start, which ranges over the ids in this order.
  unfoldable pub tick : List ℤ → ContinuousDriver → ContinuousDriver
  tick order d = visit_all d order

  -- One tick after the other.
  unfoldable pub run_ticks : ContinuousDriver → List (List ℤ) → ContinuousDriver
  run_ticks d [] = d
  run_ticks d (order ∷ orders) = run_ticks (tick order d) orders
