-- ===== src/Profiler/Tests.antt =====
-- Runs of the profile drivers and their manager, and the theorems at concrete inputs.
use mathlib.Core.List.{Memᴰ}
use apminsight_server_sdk_go.Prelude.{
  ℕ, ◌+◌, ◌-◌, ◌/◌, ◌==◌, ◌*◌, ◌^◌, ◌≤◌, ◌≡◌, refl, true, false, List, [], ◌∷◌, Option, some, arith,
  Bytes, codes, ltb, bytes_eq, length,
}
use apminsight_server_sdk_go.Prelude.Int.{ℤ, pos}
use apminsight_server_sdk_go.Profiler.Task.{
  Profile, TriggerCondition, Task, ProfileTypeConfig, is_in, from_string, find_in, find_config,
  valid_types, extract_profile_types, preset_configs, listed_configs, preset_task, conditional_task,
  timed_task, valid_profile_types, preset_profile_type_configs,
}
use apminsight_server_sdk_go.Profiler.Channel.{Attempt, Env, sent, offered}
use apminsight_server_sdk_go.Profiler.ById.{put, put_each, by_id}
use apminsight_server_sdk_go.Profiler.Presets.{preset_task-find_config}
use apminsight_server_sdk_go.Profiler.Timed
use apminsight_server_sdk_go.Profiler.Timed.{new_timed_driver}
use apminsight_server_sdk_go.Profiler.Timed.Delivery.{run_sends_once}
use apminsight_server_sdk_go.Profiler.Timed.Due.{tick_sends_due}
use apminsight_server_sdk_go.Profiler.Continuous
use apminsight_server_sdk_go.Profiler.Continuous.{new_continuous_driver}
use apminsight_server_sdk_go.Profiler.Continuous.Period.{run_ticks-offered}
use apminsight_server_sdk_go.Profiler.Conditional
use apminsight_server_sdk_go.Profiler.Conditional.{
  Floats, Readings, Tick, new_conditional_driver, check_condition, limit_expire_time,
}
use apminsight_server_sdk_go.Profiler.Conditional.Limit.{IsWithin, run_hour_bound}
use apminsight_server_sdk_go.Profiler.Conditional.Conditions.{any, is_met, check_condition-any}
use apminsight_server_sdk_go.Profiler.ResMonitor
use apminsight_server_sdk_go.Profiler.ResMonitor.{Reading, new_monitor}
use apminsight_server_sdk_go.Profiler.ResMonitor.Window.{view, history_of, run-view}
use apminsight_server_sdk_go.Profiler.Manager.{
  Manager, handler_profile_tasks, instance_id_matched, record_type_continuous, record_type_task,
  record_type_conditional,
}
use apminsight_server_sdk_go.Profiler.Manager.Dispatch.{
  selected, settings_profiles, handler_profile_tasks-eq,
}
use apminsight_server_sdk_go.Profiler.Manager.Cleared.{handler_profile_tasks_quiet}

abbrev cpu_over_80 : TriggerCondition
cpu_over_80 = record {
  key = codes "cpu_ratio";
  compare = codes "threshold";
  op = codes ">";
  value = 80;
  unit = codes "%";
}

abbrev profile : ℤ → Bytes → Profile
profile id record_type = record {
  profile_id = id;
  record_type = record_type;
  instance_id_list = [];
  profile_type_list = codes "threads" ∷ codes "heap" ∷ codes "cpu" ∷ [];
  start_time = pos 100;
  trigger_condition_list = cpu_over_80 ∷ [];
  pt_config_list =
      record { profile_type = codes "cpu"; duration_seconds = pos 30; is_snapshot = false } ∷ [];
}

abbrev timed_profile : Profile
timed_profile = profile (pos 7) record_type_task

abbrev continuous_profile : Profile
continuous_profile = profile (pos 8) record_type_continuous

abbrev conditional_profile : Profile
conditional_profile = profile (pos 9) record_type_conditional

-- The channel takes nothing before the second offer.
abbrev second_env : Env
second_env = record {
  takes = λ log t. elim log [ [] ↦ false | a ∷ as' ↦ true ];
  new_rand_id = λ log. codes "id";
}

abbrev whole_numbers : Floats
whole_numbers = record { gt = λ a b. ltb b a; div_100 = λ n. n }

abbrev busy : Readings
busy = record {
  cpu_ratio = 95;
  cpu_ratio_delta = 0;
  mem_ratio = 10;
  mem_ratio_delta = 0;
  go_routine_num = 12;
  go_routine_num_delta = 0;
}

-- A tick in a second of the run, with the processor busy.
abbrev busy_tick : ℕ → Conditional.Event
busy_tick second = Conditional.ticks (record {
  order = pos 9 ∷ [];
  expiry_clock = λ id. second * 10 ^ 9;
  clock = λ id. second * 10 ^ 9;
  readings = λ id. busy;
})

abbrev hour_start : List Conditional.Event
hour_start = Conditional.handles (conditional_profile ∷ []) ∷ busy_tick 0 ∷ []

abbrev late_ticks : List Conditional.Event
late_ticks =
    busy_tick 3500
    ∷ busy_tick 3560
    ∷ busy_tick 3620
    ∷ busy_tick 3680
    ∷ busy_tick 3740
    ∷ busy_tick 3800
    ∷ []

heap_preset :
    (is_in (codes "heap") valid_profile_types ≡ true)
    × (c : ProfileTypeConfig) × (find_in preset_profile_type_configs (codes "heap") ≡ some c)
    × (find_in preset_profile_type_configs (codes "heap") ≡ some c)
    × (c.profile_type ≡ codes "heap")
unfolding preset_task find_config preset_configs find_in extract_profile_types valid_types
    from_string is_in bytes_eq
heap_preset =
    preset_task-find_config true (codes "id") continuous_profile
      (record {
        profile_id = pos 8;
        upload_id = codes "id";
        profile_types = codes "heap" ∷ codes "cpu" ∷ [];
        pt_configs = preset_configs (codes "heap" ∷ codes "cpu" ∷ []);
        use_cache = true;
      })
      (codes "heap") refl refl

run_sends_once_example :
    sent
      (pos 7)
      (Timed.run second_env new_timed_driver (
        Timed.handles (timed_profile ∷ timed_profile ∷ [])
        ∷ Timed.ticks (pos 99)
        ∷ Timed.ticks (pos 110)
        ∷ Timed.ticks (pos 120)
        ∷ [])).attempts
    ≤ 1
run_sends_once_example =
    run_sends_once second_env
      (Timed.handles (timed_profile ∷ timed_profile ∷ [])
        ∷ Timed.ticks (pos 99)
        ∷ Timed.ticks (pos 110)
        ∷ Timed.ticks (pos 120)
        ∷ [])
      (pos 7)

IsWithin-busy_tick :
    (second : ℕ)
    → 3500 ≤ second
    → second ≤ 7100
    → IsWithin (3500 * 10 ^ 9) (3500 * 10 ^ 9 + limit_expire_time) (busy_tick second)
IsWithin-busy_tick second h k id = (omega arith, omega arith, omega arith)

tick_sends_due_example :
    sent
      (pos 7)
      (Timed.tick second_env (pos 110) (
        Timed.run second_env new_timed_driver (
          Timed.handles []
          ∷ Timed.handles (timed_profile ∷ [])
          ∷ Timed.ticks (pos 105)
          ∷ []))).attempts
    ≡ 1
unfolding Timed.run Timed.step Timed.handle Timed.sort_by_start Timed.insert_by_start Timed.tick
    Timed.visit_all Timed.visit Timed.offer Timed.is_handled timed_task listed_configs
    extract_profile_types valid_types from_string is_in bytes_eq
tick_sends_due_example =
    tick_sends_due second_env (Timed.handles [] ∷ []) (timed_profile ∷ []) (pos 105 ∷ []) (pos 110)
      timed_profile (codes "heap" ∷ codes "cpu" ∷ []) (Memᴰ.head refl) refl refl room
  where
    room : (later : List Attempt) (t : Task) → 1 ≤ length later → second_env.takes later t ≡ true
    room [] t h = absurd (omega arith)
    room (a ∷ as') t h = refl

run_hour_bound_example :
    offered
      (pos 9)
      (Conditional.run whole_numbers second_env
        (Conditional.run whole_numbers second_env new_conditional_driver hour_start)
        late_ticks).attempts
    ≤ offered
        (pos 9)
        (Conditional.run whole_numbers second_env new_conditional_driver hour_start).attempts
      + 5
run_hour_bound_example =
    run_hour_bound whole_numbers second_env hour_start late_ticks (3500 * 10 ^ 9) (pos 9) (
      IsWithin-busy_tick 3500 (omega arith) (omega arith),
      (
        IsWithin-busy_tick 3560 (omega arith) (omega arith),
        (
          IsWithin-busy_tick 3620 (omega arith) (omega arith),
          (
            IsWithin-busy_tick 3680 (omega arith) (omega arith),
            (
              IsWithin-busy_tick 3740 (omega arith) (omega arith),
              (IsWithin-busy_tick 3800 (omega arith) (omega arith), tt),
            ),
          ),
        ),
      ),
    )

-- Five tasks of a profile within five minutes: the limit of three is one of each entry, and the old
-- entry expires in between.
five_in_five_minutes :
    (offered
        (pos 9)
        (Conditional.run whole_numbers second_env new_conditional_driver hour_start).attempts
      ≡ 1)
    × (offered
          (pos 9)
          (Conditional.run whole_numbers second_env
            (Conditional.run whole_numbers second_env new_conditional_driver hour_start)
            late_ticks).attempts
        ≡ 6)
unfolding Conditional.run Conditional.step Conditional.tick Conditional.visit_all
    Conditional.visit_id Conditional.remove_expired Conditional.handle by_id put_each put
    Conditional.visit check_condition Conditional.check_from Conditional.check_one
    Conditional.meet_condition Conditional.to_decimal Conditional.check_execution_limit
    Conditional.execute Conditional.offer Conditional.set_limit conditional_task preset_configs
    preset_task find_in extract_profile_types valid_types from_string is_in bytes_eq
five_in_five_minutes = (refl, refl)

check_condition-any_example :
    check_condition whole_numbers busy conditional_profile
    ≡ any (is_met whole_numbers busy) (cpu_over_80 ∷ [])
check_condition-any_example = check_condition-any whole_numbers busy conditional_profile

-- The first profile with the id 8 has no valid type, the last has.
abbrev repeated : List Profile
repeated = record continuous_profile { profile_type_list = [] } ∷ continuous_profile ∷ []

run_ticks-offered_example :
    offered
      (pos 8)
      (Continuous.run_ticks second_env
        (Continuous.handle repeated new_continuous_driver)
        ((pos 8 ∷ []) ∷ (pos 8 ∷ []) ∷ [])).attempts
    ≡ 2
unfolding extract_profile_types valid_types from_string is_in bytes_eq
run_ticks-offered_example =
    run_ticks-offered second_env new_continuous_driver repeated ((pos 8 ∷ []) ∷ (pos 8 ∷ []) ∷ [])
      (pos 8) (refl, (refl, tt))

abbrev manager : Manager
manager = record {
  instance_id = codes "host-1";
  continuous_driver = new_continuous_driver;
  timed_driver = new_timed_driver;
  conditional_driver = new_conditional_driver;
}

abbrev three_profiles : Option (Option (List Profile))
three_profiles = some (some (timed_profile ∷ continuous_profile ∷ conditional_profile ∷ []))

handler_profile_tasks-eq_example : handler_profile_tasks manager three_profiles ≡ record manager {
  continuous_driver =
      Continuous.handle
        (selected (codes "host-1") record_type_continuous (settings_profiles three_profiles))
        new_continuous_driver;
  timed_driver =
      Timed.handle
        (selected (codes "host-1") record_type_task (settings_profiles three_profiles))
        new_timed_driver;
  conditional_driver =
      Conditional.handle
        (selected (codes "host-1") record_type_conditional (settings_profiles three_profiles))
        new_conditional_driver;
}
handler_profile_tasks-eq_example = handler_profile_tasks-eq manager three_profiles

abbrev for_another_host : Profile
for_another_host = record timed_profile { instance_id_list = codes "host-2" ∷ [] }

abbrev quiet_tick : Tick
quiet_tick = record {
  order = pos 9 ∷ [];
  expiry_clock = λ id. 0;
  clock = λ id. 0;
  readings = λ id. busy;
}

other_host_quiet :
    ((Timed.tick second_env
        (pos 110)
        (handler_profile_tasks manager (some (some (for_another_host ∷ [])))).timed_driver).attempts
      ≡ [])
    × ((Continuous.tick second_env
          (pos 8 ∷ [])
          (handler_profile_tasks manager
            (some (some (for_another_host ∷ [])))).continuous_driver).attempts
        ≡ [])
    × ((Conditional.tick whole_numbers second_env quiet_tick
          (handler_profile_tasks manager
            (some (some (for_another_host ∷ [])))).conditional_driver).attempts
        ≡ [])
unfolding instance_id_matched is_in bytes_eq
other_host_quiet =
    handler_profile_tasks_quiet manager (some (some (for_another_host ∷ []))) whole_numbers
      second_env (pos 110) (pos 8 ∷ []) quiet_tick (refl, tt)

abbrev reading : ℕ → Reading
reading n = record { cpu = n; mem = 2 * n; goroutines = 7 }

-- Arithmetic on whole numbers, where a difference stops at 0.
abbrev whole_arithmetic : ResMonitor.Floats
whole_arithmetic = record {
  add = λ a b. a + b;
  sub = λ a b. a - b;
  div = λ a b. a / b;
  of_int = λ n. n;
  is_zero = λ n. n == 0;
}

abbrev twelve_readings : List Reading
twelve_readings =
    reading 1
    ∷ reading 1
    ∷ reading 1
    ∷ reading 1
    ∷ reading 1
    ∷ reading 1
    ∷ reading 1
    ∷ reading 1
    ∷ reading 1
    ∷ reading 1
    ∷ reading 1
    ∷ reading 5
    ∷ []

run-view_example :
    ResMonitor.run whole_arithmetic new_monitor twelve_readings
    ≡ view whole_arithmetic (history_of whole_arithmetic [] twelve_readings)
run-view_example = run-view whole_arithmetic twelve_readings

-- The last value is five times the mean before it: the change is four times the mean.
fourfold :
    (view whole_arithmetic (history_of whole_arithmetic [] twelve_readings)).cpu_ratio_delta ≡ 4
unfolding ResMonitor.cal_delta ResMonitor.avg ResMonitor.sum_from
fourfold = refl
