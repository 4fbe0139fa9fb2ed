-- ===== src/Profiler/Collect/Tests.antt =====
-- The collection of a task.
use apminsight_server_sdk_go.Prelude.{
  ◌≡◌, refl, true, [], ◌∷◌, some, Bytes, codes, length, bytes_eq, arith,
}
use apminsight_server_sdk_go.Prelude.Int.{pos, negsuc}
use apminsight_server_sdk_go.Profiler.Task.{
  Profile, Task, is_in, from_string, valid_types, extract_profile_types, preset_configs,
  preset_task,
}
use apminsight_server_sdk_go.Profiler.Collect.{
  Collectors, collect_all, marshal_all, with_retry_count,
}
use apminsight_server_sdk_go.Profiler.Collect.Complete.{IsWorking, collect_all_complete}

retry_counts :
    (with_retry_count (negsuc 3) ≡ pos 0)
    × (with_retry_count (pos 3) ≡ pos 3)
    × (with_retry_count (pos 9) ≡ pos 5)
unfolding with_retry_count
retry_counts = (refl, refl, refl)

-- Each type is its own data.
abbrev collectors : Collectors Bytes
collectors = record {
  has_collector = λ n. true;
  pc_collect = λ n cfg use_cache. some (codes "data");
  marshal = λ d. some d;
}

collectors-IsWorking : IsWorking collectors
collectors-IsWorking = record {
  available = λ n h. refl;
  collects = λ n cfg use_cache. (codes "data", codes "data", refl, refl, λ e. omega arith);
}

abbrev profile : Profile
profile = record {
  profile_id = pos 8;
  record_type = codes "continuous";
  instance_id_list = [];
  profile_type_list = codes "threads" ∷ codes "heap" ∷ codes "cpu" ∷ [];
  start_time = pos 0;
  trigger_condition_list = [];
  pt_config_list = [];
}

abbrev task : Task
task = record {
  profile_id = pos 8;
  upload_id = codes "id";
  profile_types = codes "heap" ∷ codes "cpu" ∷ [];
  pt_configs = preset_configs (codes "heap" ∷ codes "cpu" ∷ []);
  use_cache = true;
}

collect_all_complete_example :
    length (marshal_all collectors (collect_all collectors task (codes "cpu" ∷ codes "heap" ∷ [])))
    ≡ 2
unfolding preset_task extract_profile_types valid_types from_string is_in bytes_eq
collect_all_complete_example =
    collect_all_complete collectors true (codes "id") profile task (codes "cpu" ∷ codes "heap" ∷ [])
      collectors-IsWorking refl (refl, (refl, tt))
