-- ===== src/Profiler/Upload.antt =====
-- aiprofiler/sender/sender.go: an upload and its retries.
pub mod Retries
mod Tests
use apminsight_server_sdk_go.Prelude.{
  ℕ, zero, suc, ◌+◌, ◌*◌, ◌^◌, Bool, true, false, ◌&&◌, not, List, [], ◌∷◌, Option, none, some,
  Bytes, ltb, length, ◌==◌, if◌then◌else◌,
}
use apminsight_server_sdk_go.Prelude.Int.{ℤ, pos, eqb_ℤ}

-- What the client's Do and the reading of the body give, with the header X-ByteAPM-Stop of an answer.
pub data Reply : Type 0 where
  http_fail : Reply
  read_fail : Reply
  answer : Bytes → Reply

-- strconv.ParseInt, without its error, and a time.Duration of so many minutes
pub record Library : Type 0 where
  pub parse_int : Bytes → ℤ
  pub minutes : ℤ → ℤ

-- `backoff_interval` in nanoseconds, and the retries after the first request.
pub record HttpSender : Type 0 where
  pub backoff_interval : ℤ
  pub retry_count : ℕ

-- The requests that were made, the sleeps, the latest first, and whether a request was answered.
pub record Outcome : Type 0 where
  pub requests : ℕ
  pub sleeps : List ℤ
  pub answered : Bool

module _ (lib : Library) (s : HttpSender) where
  unfoldable pub get_stop_duration : Bytes → ℤ
  get_stop_duration stop_minute_str =
      if length stop_minute_str == 0 then pos 0 else lib.minutes (lib.parse_int stop_minute_str)

  unfoldable pub send_request : Reply → Bool × ℤ
  send_request http_fail = (false, s.backoff_interval)
  send_request read_fail = (false, s.backoff_interval)
  send_request (answer stop) = (true, get_stop_duration stop)

  unfoldable pub sleep : ℤ → List ℤ → List ℤ
  sleep stop_duration sleeps =
      if not (eqb_ℤ stop_duration (pos 0)) && ltb 0 s.retry_count
      then stop_duration ∷ sleeps
      else sleeps

  -- The loop from `i` on, with `left` rounds to go. `replies` answers the requests by their number.
  unfoldable pub send_from : (ℕ → Reply) → ℕ → ℕ → List ℤ → Outcome
  send_from replies zero i sleeps = record { requests = i; sleeps = sleeps; answered = false }
  send_from replies (suc left) i sleeps =
      let (succ, stop) = send_request (replies i) in
      let slept = sleep stop sleeps in
      let rest = send_from replies left (i + 1) slept in
      if succ then record { requests = i + 1; sleeps = slept; answered = true } else rest

  -- `for i := 0; i <= s.retryCount; i++`
  unfoldable pub upload : (ℕ → Reply) → Outcome
  upload replies = send_from replies (s.retry_count + 1) 0 []
