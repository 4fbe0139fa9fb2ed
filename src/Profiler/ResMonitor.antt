-- ===== src/Profiler/ResMonitor.antt =====
-- aiprofiler/res_monitor/res_monitor.go: the current readings, the window of the readings before,
-- and the change against them. A float64 is its bit pattern.
pub mod Window
use apminsight_server_sdk_go.Prelude.{
  ℕ, zero, suc, ◌+◌, Bool, true, false, List, [], ◌∷◌, Option, none, some, length, take, get_elem?,
  replicate, leb, ◌==◌, if◌then◌else◌,
}
use apminsight_server_sdk_go.Prelude.Int.{ℤ, pos, ltb_ℤ}

abbrev pub compare_count : ℕ
compare_count = 5

abbrev pub reserve_count : ℕ
reserve_count = 12

-- float64's arithmetic, and `x == 0`. The zero is the pattern 0.
pub record Floats : Type 0 where
  pub add : ℕ → ℕ → ℕ
  pub sub : ℕ → ℕ → ℕ
  pub div : ℕ → ℕ → ℕ
  pub of_int : ℕ → ℕ
  pub is_zero : ℕ → Bool

-- What the three monitors of the resources answer.
pub record Reading : Type 0 where
  pub cpu : ℕ
  pub mem : ℕ
  pub goroutines : ℕ

pub record Monitor : Type 0 where
  pub cpu_ratio : ℕ
  pub mem_ratio : ℕ
  pub goroutine_num : ℕ
  pub cpu_ratio_delta : ℕ
  pub mem_ratio_delta : ℕ
  pub goroutine_num_delta : ℕ
  pub previous_cpu_ratio : List ℕ
  pub previous_mem_ratio : List ℕ
  pub previous_goroutine_num : List ℕ
  pub cnt : ℕ

abbrev pub new_monitor : Monitor
new_monitor = record {
  cpu_ratio = 0;
  mem_ratio = 0;
  goroutine_num = 0;
  cpu_ratio_delta = 0;
  mem_ratio_delta = 0;
  goroutine_num_delta = 0;
  previous_cpu_ratio = replicate reserve_count 0;
  previous_mem_ratio = replicate reserve_count 0;
  previous_goroutine_num = replicate reserve_count 0;
  cnt = 0;
}

-- `a[i] = x` and `a[i]`, within the bounds
unfoldable pub set : List ℕ → ℕ → ℕ → List ℕ
set [] i x = []
set (a ∷ as') zero x = x ∷ as'
set (a ∷ as') (suc i) x = a ∷ set as' i x

unfoldable pub entry : List ℕ → ℕ → ℕ
entry [] i = 0
entry (a ∷ as') zero = a
entry (a ∷ as') (suc i) = entry as' i

-- The loop from the index `n` down to 1.
unfoldable pub shift_down : ℕ → List ℕ → List ℕ
shift_down zero a = a
shift_down (suc i) a = shift_down i (set a (suc i) (entry a i))

unfoldable pub store_previous : List ℕ → ℕ → List ℕ
store_previous a x = set (shift_down 11 a) 0 x

module _ (floats : Floats) where
  unfoldable pub sum_from : ℕ → List ℕ → ℕ
  sum_from sum [] = sum
  sum_from sum (f ∷ fs) = sum_from (floats.add sum f) fs

  unfoldable pub avg : List ℕ → ℕ
  avg fs = if length fs == 0 then 0 else floats.div (sum_from 0 fs) (floats.of_int (length fs))

  unfoldable pub cal_delta : ℕ → List ℕ → ℕ
  cal_delta cur pre_list =
      let pre_avg = avg pre_list in
      if floats.is_zero pre_avg then 0 else floats.div (floats.sub cur pre_avg) pre_avg

  -- The delta after the cold start.
  unfoldable pub next_delta : ℕ → ℕ → ℕ → List ℕ → ℕ
  next_delta cnt old cur previous =
      if leb reserve_count cnt then cal_delta cur (take compare_count previous) else old

  unfoldable pub update : Monitor → Reading → Monitor
  update r now = record {
    cpu_ratio = now.cpu;
    mem_ratio = now.mem;
    goroutine_num = now.goroutines;
    cpu_ratio_delta = next_delta (r.cnt + 1) r.cpu_ratio_delta now.cpu r.previous_cpu_ratio;
    mem_ratio_delta = next_delta (r.cnt + 1) r.mem_ratio_delta now.mem r.previous_mem_ratio;
    goroutine_num_delta =
        next_delta (r.cnt + 1) r.goroutine_num_delta now.goroutines r.previous_goroutine_num;
    previous_cpu_ratio = store_previous r.previous_cpu_ratio now.cpu;
    previous_mem_ratio = store_previous r.previous_mem_ratio now.mem;
    previous_goroutine_num = store_previous r.previous_goroutine_num now.goroutines;
    cnt = r.cnt + 1;
  }

  -- Start: one update, then one at each tick.
  unfoldable pub run : Monitor → List Reading → Monitor
  run r [] = r
  run r (now ∷ rest) = run (update r now) rest

-- `cnt` is math.Round of the seconds in periods.
unfoldable pub get_right_index : ℤ → ℕ
get_right_index (pos cnt) =
    if cnt == 0 then 1 else if leb cnt reserve_count then cnt else reserve_count
get_right_index _ = 1

unfoldable pub get_past_cpu_ratio : Floats → Monitor → ℤ → ℕ
get_past_cpu_ratio floats r cnt = avg floats (take (get_right_index cnt) r.previous_cpu_ratio)

unfoldable pub get_past_mem_ratio : Floats → Monitor → ℤ → ℕ
get_past_mem_ratio floats r cnt = avg floats (take (get_right_index cnt) r.previous_mem_ratio)
