-- ===== src/Profiler/Manager.antt =====
-- aiprofiler/manager/manager.go: the settings are dispatched to the three drivers.
pub mod Dispatch
pub mod Cleared
use apminsight_server_sdk_go.Prelude.{
  Bool, true, false, List, [], ◌∷◌, ◌++◌, Option, none, some, Bytes, codes, bytes_eq, length, ◌==◌,
  if◌then◌else◌,
}
use apminsight_server_sdk_go.Profiler.Task.{Profile, is_in}
use apminsight_server_sdk_go.Profiler.Continuous
use apminsight_server_sdk_go.Profiler.Continuous.{ContinuousDriver}
use apminsight_server_sdk_go.Profiler.Timed
use apminsight_server_sdk_go.Profiler.Timed.{TimedDriver}
use apminsight_server_sdk_go.Profiler.Conditional
use apminsight_server_sdk_go.Profiler.Conditional.{ConditionalDriver}

abbrev pub record_type_continuous : Bytes
record_type_continuous = codes "continuous"

abbrev pub record_type_task : Bytes
record_type_task = codes "task"

abbrev pub record_type_conditional : Bytes
record_type_conditional = codes "conditional"

pub record Manager : Type 0 where
  pub instance_id : Bytes
  pub continuous_driver : ContinuousDriver
  pub timed_driver : TimedDriver
  pub conditional_driver : ConditionalDriver

-- The three lists of HandlerProfileTasks.
pub record Lists : Type 0 where
  pub continuous_profiles : List Profile
  pub timed_profiles : List Profile
  pub conditional_profiles : List Profile

abbrev pub no_lists : Lists
no_lists = record { continuous_profiles = []; timed_profiles = []; conditional_profiles = [] }

unfoldable pub instance_id_matched : Bytes → Profile → Bool
instance_id_matched instance_id p =
    if length p.instance_id_list == 0 then true else is_in instance_id p.instance_id_list

-- The switch on the record type: another one is only logged.
unfoldable pub add_profile : Lists → Profile → Lists
add_profile l p =
    if bytes_eq p.record_type record_type_continuous
    then record l { continuous_profiles = l.continuous_profiles ++ p ∷ [] }
    else if bytes_eq p.record_type record_type_task
    then record l { timed_profiles = l.timed_profiles ++ p ∷ [] }
    else if bytes_eq p.record_type record_type_conditional
    then record l { conditional_profiles = l.conditional_profiles ++ p ∷ [] }
    else l

unfoldable pub dispatch : Bytes → Lists → List Profile → Lists
dispatch instance_id l [] = l
dispatch instance_id l (p ∷ ps) =
    dispatch instance_id (if instance_id_matched instance_id p then add_profile l p else l) ps

-- The deferred calls of Handle.
unfoldable pub handle_all : Manager → Lists → Manager
handle_all m l = record {
  instance_id = m.instance_id;
  continuous_driver = Continuous.handle l.continuous_profiles m.continuous_driver;
  timed_driver = Timed.handle l.timed_profiles m.timed_driver;
  conditional_driver = Conditional.handle l.conditional_profiles m.conditional_driver;
}

-- The outer `none` is a nil Settings, the inner one a nil ProfileSettings.
unfoldable pub handler_profile_tasks : Manager → Option (Option (List Profile)) → Manager
handler_profile_tasks m none = handle_all m no_lists
handler_profile_tasks m (some none) = handle_all m no_lists
handler_profile_tasks m (some (some ps)) = handle_all m (dispatch m.instance_id no_lists ps)
