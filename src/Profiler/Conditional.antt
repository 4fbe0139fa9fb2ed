-- ===== src/Profiler/Conditional.antt =====
-- aiprofiler/drivers/conditional_diver.go: the driver of the profiles that are triggered by
-- conditions on the resources.
mod Started
pub mod Limit
pub mod Conditions
use apminsight_server_sdk_go.Prelude.{
  ℕ, ◌+◌, ◌*◌, ◌^◌, Bool, true, false, List, [], ◌∷◌, Option, none, some, Bytes, codes, bytes_eq,
  ltb, leb, if◌then◌else◌,
}
use apminsight_server_sdk_go.Prelude.Int.{ℤ, eqb_ℤ}
use apminsight_server_sdk_go.Profiler.Task.{TriggerCondition, Profile, Task, conditional_task}
use apminsight_server_sdk_go.Profiler.Channel.{Attempt, Env}
use apminsight_server_sdk_go.Profiler.ById.{ProfileMap, no_profiles, by_id}

abbrev pub execution_limit_per_hour : ℕ
execution_limit_per_hour = 3

-- time.Hour in nanoseconds
abbrev pub limit_expire_time : ℕ
limit_expire_time = 3600 * 10 ^ 9

-- The type `count`, with the time as nanoseconds.
pub record Count : Type 0 where
  pub cnt : ℕ
  pub expire_at : ℕ

pub record ConditionalDriver : Type 0 where
  pub profiles : ProfileMap
  pub cnt_limit : ℤ → Option Count
  pub attempts : List Attempt

abbrev pub new_conditional_driver : ConditionalDriver
new_conditional_driver = record { profiles = no_profiles; cnt_limit = λ id. none; attempts = [] }

-- float64's `>` and its division by 100, on bit patterns
pub record Floats : Type 0 where
  pub gt : ℕ → ℕ → Bool
  pub div_100 : ℕ → ℕ

-- What the resource monitor answers while a profile is checked.
pub record Readings : Type 0 where
  pub cpu_ratio : ℕ
  pub cpu_ratio_delta : ℕ
  pub mem_ratio : ℕ
  pub mem_ratio_delta : ℕ
  pub go_routine_num : ℕ
  pub go_routine_num_delta : ℕ

unfoldable pub handle : List Profile → ConditionalDriver → ConditionalDriver
handle ps d = record d { profiles = by_id ps }

module _ (floats : Floats) where
  unfoldable pub to_decimal : ℕ → Bytes → ℕ
  to_decimal f unit = if bytes_eq unit (codes "%") then floats.div_100 f else f

  unfoldable pub meet_condition : TriggerCondition → ℕ → ℕ → Bool
  meet_condition cond cur_value delta_value =
      if bytes_eq cond.compare (codes "threshold")
      then (if bytes_eq cond.op (codes ">")
          then floats.gt cur_value (to_decimal cond.value cond.unit)
          else false)
      else if bytes_eq cond.compare (codes "windows")
      then (if bytes_eq cond.op (codes ">")
          then floats.gt delta_value (to_decimal cond.value cond.unit)
          else false)
      else false

  -- The switch on the key: `result` is kept at another key.
  unfoldable pub check_one : Readings → Bool → TriggerCondition → Bool
  check_one r result cond =
      if bytes_eq cond.key (codes "cpu_ratio")
      then meet_condition cond r.cpu_ratio r.cpu_ratio_delta
      else if bytes_eq cond.key (codes "mem_ratio")
      then meet_condition cond r.mem_ratio r.mem_ratio_delta
      else if bytes_eq cond.key (codes "goroutine_num")
      then meet_condition cond r.go_routine_num r.go_routine_num_delta
      else result

  unfoldable pub check_from : Readings → Bool → List TriggerCondition → Bool
  check_from r result [] = result
  check_from r result (cond ∷ conds) =
      let met = check_one r result cond in
      let rest = check_from r met conds in if met then met else rest

  unfoldable pub check_condition : Readings → Profile → Bool
  check_condition r p = check_from r false p.trigger_condition_list

-- The entries that expired before the time at which the loop of removeExpired looked at them.
unfoldable pub remove_expired : (ℤ → ℕ) → ConditionalDriver → ConditionalDriver
remove_expired clock d = record d {
  cnt_limit = λ id. elim (d.cnt_limit id) [
    | none ↦ none
    | some limit ↦ if ltb limit.expire_at (clock id) then none else some limit
  ];
}

unfoldable pub set_limit : ℤ → Count → ConditionalDriver → ConditionalDriver
set_limit k limit d = record d {
  cnt_limit = λ id. if eqb_ℤ id k then some limit else d.cnt_limit id;
}

unfoldable pub check_execution_limit : ℕ → Profile → ConditionalDriver → Bool × ConditionalDriver
check_execution_limit now p d = elim (d.cnt_limit p.profile_id) [
  | some limit ↦
      if leb execution_limit_per_hour limit.cnt
      then (false, d)
      else (true, set_limit p.profile_id (record limit { cnt = limit.cnt + 1 }) d)
  | none ↦
      (true, set_limit p.profile_id (record { cnt = 1; expire_at = now + limit_expire_time }) d)
]

-- What happens beside the driver during one tick: the order in which Go ranges over the ids, and
-- for each id the clock of removeExpired, the clock of checkExecutionLimit, and the readings.
pub record Tick : Type 0 where
  pub order : List ℤ
  pub expiry_clock : ℤ → ℕ
  pub clock : ℤ → ℕ
  pub readings : ℤ → Readings

module _ (floats : Floats) (env : Env) where
  unfoldable pub offer : ConditionalDriver → Option Task → ConditionalDriver
  offer d none = d
  offer d (some task) = record d {
    attempts = record { task = task; taken = env.takes d.attempts task } ∷ d.attempts;
  }

  unfoldable pub execute : ConditionalDriver → Profile → ConditionalDriver
  execute d p = offer d (conditional_task (env.new_rand_id d.attempts) p)

  -- The body of the loop over the profiles.
  unfoldable pub visit : ℕ → Readings → ConditionalDriver → Profile → ConditionalDriver
  visit now r d p =
      let (allowed, d') = check_execution_limit now p d in
      if check_condition floats r p then (if allowed then execute d' p else d') else d

  unfoldable pub visit_id : Tick → ConditionalDriver → ℤ → ConditionalDriver
  visit_id t d id = elim (d.profiles id) [
    | none ↦ d
    | some p ↦ visit (t.clock id) (t.readings id) d p
  ]

  unfoldable pub visit_all : Tick → ConditionalDriver → List ℤ → ConditionalDriver
  visit_all t d [] = d
  visit_all t d (id ∷ ids) = visit_all t (visit_id t d id) ids

  unfoldable pub tick : Tick → ConditionalDriver → ConditionalDriver
  tick t d = visit_all t (remove_expired t.expiry_clock d) t.order

pub data Event : Type 0 where
  handles : List Profile → Event
  ticks : Tick → Event

unfoldable pub step : Floats → Env → ConditionalDriver → Event → ConditionalDriver
step floats env d (handles ps) = handle ps d
step floats env d (ticks t) = tick floats env t d

unfoldable pub run : Floats → Env → ConditionalDriver → List Event → ConditionalDriver
run floats env d [] = d
run floats env d (e ∷ es) = run floats env (step floats env d e) es
