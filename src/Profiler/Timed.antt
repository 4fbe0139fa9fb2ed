-- ===== src/Profiler/Timed.antt =====
-- aiprofiler/drivers/timed_driver.go: the driver of the profiles with a start time.
pub mod Delivery
pub mod Due
use apminsight_server_sdk_go.Prelude.{
  Bool, true, false, ◌||◌, List, [], ◌∷◌, none, some, if◌then◌else◌,
}
use apminsight_server_sdk_go.Prelude.Int.{ℤ, ltb_ℤ, eqb_ℤ}
use apminsight_server_sdk_go.Profiler.Task.{Profile, Task, timed_task}
use apminsight_server_sdk_go.Profiler.Channel.{Attempt, Env}

-- `profiles` as Handle stored it, the keys of `handledSet`, and what was offered to `taskChan`.
pub record TimedDriver : Type 0 where
  pub profiles : List Profile
  pub handled_set : List ℤ
  pub attempts : List Attempt

abbrev pub new_timed_driver : TimedDriver
new_timed_driver = record { profiles = []; handled_set = []; attempts = [] }

-- sort.SliceStable by StartTime: the stable order is unique.
unfoldable pub insert_by_start : Profile → List Profile → List Profile
insert_by_start p [] = p ∷ []
insert_by_start p (q ∷ qs) =
    let rest = insert_by_start p qs in
    if ltb_ℤ q.start_time p.start_time then q ∷ rest else p ∷ q ∷ qs

unfoldable pub sort_by_start : List Profile → List Profile
sort_by_start [] = []
sort_by_start (p ∷ ps) = insert_by_start p (sort_by_start ps)

unfoldable pub handle : List Profile → TimedDriver → TimedDriver
handle ps d = record d { profiles = sort_by_start ps }

unfoldable pub is_handled : ℤ → List ℤ → Bool
is_handled id [] = false
is_handled id (k ∷ ks) = eqb_ℤ id k || is_handled id ks

module _ (env : Env) where
  -- `select { case d.taskChan <- task: mark the profile default: }`
  unfoldable pub offer : TimedDriver → Profile → Task → TimedDriver
  offer d p task =
      let taken = env.takes d.attempts task in
      record {
        profiles = d.profiles;
        handled_set = if taken then p.profile_id ∷ d.handled_set else d.handled_set;
        attempts = record { task = task; taken = taken } ∷ d.attempts;
      }

  -- The body of the loop over the profiles.
  unfoldable pub visit : ℤ → TimedDriver → Profile → TimedDriver
  visit now d p =
      if ltb_ℤ now p.start_time
      then d
      else if is_handled p.profile_id d.handled_set
      then d
      else elim (timed_task (env.new_rand_id d.attempts) p) [
        | none ↦ d
        | some task ↦ offer d p task
      ]

  unfoldable pub visit_all : ℤ → TimedDriver → List Profile → TimedDriver
  visit_all now d [] = d
  visit_all now d (p ∷ ps) = visit_all now (visit now d p) ps

  -- One tick of the loop of Start, at the time `now`.
  unfoldable pub tick : ℤ → TimedDriver → TimedDriver
  tick now d = visit_all now d d.profiles

pub data Event : Type 0 where
  handles : List Profile → Event
  ticks : ℤ → Event

unfoldable pub step : Env → TimedDriver → Event → TimedDriver
step env d (handles ps) = handle ps d
step env d (ticks now) = tick env now d

-- What the goroutine of Start and the callers of Handle do, one event after the other.
unfoldable pub run : Env → TimedDriver → List Event → TimedDriver
run env d [] = d
run env d (e ∷ es) = run env (step env d e) es
