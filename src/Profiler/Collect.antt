-- ===== src/Profiler/Collect.antt =====
-- aiprofiler/profiler.go: a task is run, and what it collected is handed to the sender.
pub mod Complete
mod Tests
use apminsight_server_sdk_go.Prelude.{
  ℕ, Bool, true, false, List, [], ◌∷◌, Option, none, some, Bytes, length, ltb, ◌==◌, if◌then◌else◌,
}
use apminsight_server_sdk_go.Prelude.Int.{ℤ, pos, ltb_ℤ}
use apminsight_server_sdk_go.Profiler.Task.{Task, ProfileTypeConfig, find_config}
use apminsight_server_sdk_go.Profiler.ResMonitor.{
  Floats, Monitor, get_past_cpu_ratio, get_past_mem_ratio,
}

-- WithRetryCount: the count is cut to 0 .. 5.
unfoldable pub with_retry_count : ℤ → ℤ
with_retry_count count =
    if ltb_ℤ count (pos 0) then pos 0 else if ltb_ℤ (pos 5) count then pos 5 else count

-- The collectors of profile.go, and the generated Marshal: `none` for an error or a nil.
pub record Collectors (D : Type 0) : Type 0 where
  pub has_collector : Bytes → Bool
  pub pc_collect : Bytes → ProfileTypeConfig → Bool → Option D
  pub marshal : D → Option Bytes

-- What is sent of a task, as far as it depends on the task and on what was collected.
pub record ProfileInfo : Type 0 where
  pub profile_id : ℤ
  pub upload_id : Bytes
  pub start_time : ℕ
  pub end_time : ℕ
  pub process_cpu_usage_ratio : ℕ
  pub process_mem_rss_ratio : ℕ
  pub multi_data : List Bytes

module _ {D : Type 0} (collectors : Collectors D) where
  -- One of the goroutines of run: `none` if it returns without data.
  unfoldable pub collect_one : Task → Bytes → Option D
  collect_one task n =
      if collectors.has_collector n
      then elim (find_config task n) [
        | none ↦ none
        | some cfg ↦ collectors.pc_collect n cfg task.use_cache
      ]
      else none

  -- The goroutines, in the order in which they come to append what they have.
  unfoldable pub collect_all : Task → List Bytes → List D
  collect_all task [] = []
  collect_all task (n ∷ ns) =
      let rest = collect_all task ns in
      elim (collect_one task n) [ none ↦ rest | some d ↦ d ∷ rest ]

  unfoldable pub marshal_all : List D → List Bytes
  marshal_all [] = []
  marshal_all (d ∷ ds) =
      let rest = marshal_all ds in
      elim (collectors.marshal d) [
        | none ↦ rest
        | some b ↦ if length b == 0 then rest else b ∷ rest
      ]

  -- send, up to the channel: `none` when there are no data. `periods` rounds a number of seconds to
  -- periods of the resource monitor.
  unfoldable pub send : Floats → Monitor → (ℕ → ℕ → ℤ) → Task → ℕ → ℕ → List D → Option ProfileInfo
  send floats monitor periods task start_time end_time [] = none
  send floats monitor periods task start_time end_time (d ∷ ds) = some (record {
    profile_id = task.profile_id;
    upload_id = task.upload_id;
    start_time = start_time;
    end_time = end_time;
    process_cpu_usage_ratio = get_past_cpu_ratio floats monitor (periods start_time end_time);
    process_mem_rss_ratio = get_past_mem_ratio floats monitor (periods start_time end_time);
    multi_data = marshal_all (d ∷ ds);
  })

  unfoldable pub run :
      Floats → Monitor → (ℕ → ℕ → ℤ) → Task → ℕ → ℕ → List Bytes → Option ProfileInfo
  run floats monitor periods task start_time end_time order =
      send floats monitor periods task start_time end_time (collect_all task order)
