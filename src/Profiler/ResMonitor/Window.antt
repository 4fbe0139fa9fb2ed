-- ===== src/Profiler/ResMonitor/Window.antt =====
-- The arrays of the monitor beside the history of its readings.
use apminsight_server_sdk_go.Prelude.{
  ℕ, zero, suc, ◌+◌, ◌≤◌, ◌<◌, ◌≡◌, refl, ap, ◌∙◌, true, false, List, [], ◌∷◌, ◌++◌, map, arith,
  length, take, drop, replicate, length-append, length-take, length-replicate, drop-nil_of_le,
  append-nil, leb, if◌then◌else◌, Bool-cases, inl, inr,
}
use apminsight_server_sdk_go.Profiler.ResMonitor.{
  Floats, Reading, Monitor, new_monitor, set, entry, shift_down, store_previous, cal_delta,
  next_delta, update, run, compare_count, reserve_count, get_right_index,
}
use apminsight_server_sdk_go.Prelude.Int.{ℤ, pos, negsuc}

take-set : (n i x : ℕ) (a : List ℕ) → n ≤ i → take n (set a i x) ≡ take n a
unfolding set
take-set zero i x a h = refl
take-set (suc n) i x [] h = refl
take-set (suc n) zero x (b ∷ a) h = absurd (omega arith)
take-set (suc n) (suc i) x (b ∷ a) h = rw (take-set n i x a (omega arith)) refl

drop-set : (i x : ℕ) (a : List ℕ) → i < length a → drop i (set a i x) ≡ x ∷ drop (suc i) a
unfolding set
drop-set i x [] h = absurd (omega arith)
drop-set zero x (b ∷ a) h = refl
drop-set (suc i) x (b ∷ a) h = drop-set i x a (omega arith)

length-set : (i x : ℕ) (a : List ℕ) → length (set a i x) ≡ length a
unfolding set
length-set i x [] = refl
length-set zero x (b ∷ a) = refl
length-set (suc i) x (b ∷ a) = ap suc (length-set i x a)

take-entry :
    (n : ℕ) (a rest : List ℕ) → n < length a → take n a ++ entry a n ∷ rest ≡ take (suc n) a ++ rest
unfolding entry
take-entry n [] rest h = absurd (omega arith)
take-entry zero (b ∷ a) rest h = refl
take-entry (suc n) (b ∷ a) rest h = rw (take-entry n a rest (omega arith)) refl

take-take : (n m : ℕ) (a : List ℕ) → n ≤ m → take n (take m a) ≡ take n a
take-take zero m a h = refl
take-take (suc n) zero a h = absurd (omega arith)
take-take (suc n) (suc m) [] h = refl
take-take (suc n) (suc m) (b ∷ a) h = rw (take-take n m a (omega arith)) refl

take_append_le : (n : ℕ) (a b : List ℕ) → n ≤ length a → take n (a ++ b) ≡ take n a
take_append_le zero a b h = refl
take_append_le (suc n) [] b h = absurd (omega arith)
take_append_le (suc n) (x ∷ a) b h = rw (take_append_le n a b (omega arith)) refl

-- The loop moves the first entries up by one place.
set-shift_down :
    (n x : ℕ) (a : List ℕ)
    → n < length a
    → set (shift_down n a) 0 x ≡ x ∷ (take n a ++ drop (suc n) a)
unfolding shift_down
set-shift_down zero x [] h = absurd (omega arith)
set-shift_down zero x (b ∷ a) h = unfold set in refl
set-shift_down (suc n) x a h =
    let e = entry a n in
    let moved = set-shift_down n x (set a (suc n) e) (omega (arith, length-set (suc n) e a)) in
    moved
    ∙ rw (take-set n (suc n) e a (omega arith), drop-set (suc n) e a h)
        (ap (λ t. x ∷ t) (take-entry n a (drop (suc (suc n)) a) (omega arith)))

-- The last twelve values, the newest first, with zeros for those that there were not.
abbrev pub window : List ℕ → List ℕ
window xs = take reserve_count (xs ++ replicate reserve_count 0)

length-window : (xs : List ℕ) → length (window xs) ≡ 12
length-window xs = omega (
  arith,
  length-take 12 (xs ++ replicate 12 0),
  length-append xs (replicate 12 0),
  length-replicate {A = ℕ} 12 0,
)

store_previous-window : (x : ℕ) (xs : List ℕ) → store_previous (window xs) x ≡ window (x ∷ xs)
unfolding store_previous
store_previous-window x xs =
    set-shift_down 11 x (window xs) (omega (arith, length-window xs))
    ∙ rw
        (
          drop-nil_of_le 12 (window xs) (omega (arith, length-window xs)),
          append-nil,
          take-take 11 12 (xs ++ replicate 12 0) (omega arith),
        )
        refl

abbrev newest : List ℕ → ℕ
newest [] = 0
newest (x ∷ xs) = x

length-map : (f : Reading → ℕ) (rs : List Reading) → length (map f rs) ≡ length rs
length-map f [] = refl
length-map f (r ∷ rs) = ap suc (length-map f rs)

module _ (floats : Floats) where
  -- The change against the mean of the five values before, once there were eleven.
  abbrev pub change : List ℕ → ℕ
  change [] = 0
  change (x ∷ older) =
      if leb 11 (length older) then cal_delta floats x (take compare_count older) else 0

  change_cold : (xs : List ℕ) → length xs ≤ 11 → change xs ≡ 0
  change_cold [] h = refl
  change_cold (x ∷ older) h = let few : leb 11 (length older) ≡ false = ground arith in rw few refl

  next_delta-change :
      (n x : ℕ) (xs : List ℕ)
      → length xs ≡ n
      → next_delta floats (n + 1) (change xs) x (window xs) ≡ change (x ∷ xs)
  unfolding next_delta
  next_delta-change n x xs e = elim (Bool-cases (leb 11 (length xs))) [
    | inl warm ↦
        let on : leb 12 (n + 1) ≡ true = ground arith in
        rw
          (
            on,
            warm,
            take-take 5 12 (xs ++ replicate 12 0) (omega arith),
            take_append_le 5 xs (replicate 12 0) (ground arith),
          )
          refl
    | inr cold ↦
        let off : leb 12 (n + 1) ≡ false = ground arith in
        rw (off, cold) (change_cold xs (ground arith))
  ]

  -- The monitor, as a function of all the readings so far, the newest first.
  abbrev pub view : List Reading → Monitor
  view history = record {
    cpu_ratio = newest (map (λ r. r.cpu) history);
    mem_ratio = newest (map (λ r. r.mem) history);
    goroutine_num = newest (map (λ r. r.goroutines) history);
    cpu_ratio_delta = change (map (λ r. r.cpu) history);
    mem_ratio_delta = change (map (λ r. r.mem) history);
    goroutine_num_delta = change (map (λ r. r.goroutines) history);
    previous_cpu_ratio = window (map (λ r. r.cpu) history);
    previous_mem_ratio = window (map (λ r. r.mem) history);
    previous_goroutine_num = window (map (λ r. r.goroutines) history);
    cnt = length history;
  }

  update-view :
      (history : List Reading) (now : Reading)
      → update floats (view history) now ≡ view (now ∷ history)
  unfolding update
  update-view history now =
      rw
        (
          store_previous-window,
          store_previous-window,
          store_previous-window,
          next_delta-change (length history) now.cpu (map (λ r. r.cpu) history)
              (length-map (λ r. r.cpu) history),
          next_delta-change (length history) now.mem (map (λ r. r.mem) history)
              (length-map (λ r. r.mem) history),
          next_delta-change (length history) now.goroutines (map (λ r. r.goroutines) history)
              (length-map (λ r. r.goroutines) history),
        )
        (ap (λ n. record (view (now ∷ history)) { cnt = n }) (omega arith))

  abbrev pub history_of : List Reading → List Reading → List Reading
  history_of before [] = before
  history_of before (now ∷ rest) = history_of (now ∷ before) rest

  run-view_from :
      (history rs : List Reading) → run floats (view history) rs ≡ view (history_of history rs)
  unfolding run
  run-view_from history [] = refl
  run-view_from history (now ∷ rest) =
      rw (update-view history now) (run-view_from (now ∷ history) rest)

  -- After any updates the state of the monitor is a function of the readings: the current values
  -- are the last ones, the arrays hold the last twelve, the newest first and zeros behind the
  -- first reading, and a delta is 0 for the first eleven readings and then the change of the last
  -- value against the mean of the five before it.
  pub run-view : (rs : List Reading) → run floats new_monitor rs ≡ view (history_of [] rs)
  run-view rs = run-view_from [] rs

-- The average over the past never asks for more values than there are, nor for none.
pub get_right_index-bound :
    (cnt : ℤ) → (1 ≤ get_right_index cnt) × (get_right_index cnt ≤ reserve_count)
unfolding get_right_index
get_right_index-bound (pos cnt) = ground arith
get_right_index-bound (negsuc n) = (omega arith, omega arith)
