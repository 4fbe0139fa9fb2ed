-- ===== src/Sampler.antt =====
-- trace/aitracer/trace_sampler. Times are nanoseconds since the zero time.Time. `none` is a panic.
pub mod RateLimit
mod Tests
use apminsight_server_sdk_go.Prelude.{
  ℕ, ◌+◌, ◌-◌, ◌*◌, ◌/◌, ◌^◌, min, Bool, true, false, Option, none, some, ltb, ◌==◌, if◌then◌else◌,
  List, [], ◌∷◌,
}

pub data InternalSampler : Type 0 where
  all_sampler : InternalSampler
  no_sampler : InternalSampler
  -- permil, weight
  ratio_sampler : ℕ → ℕ → InternalSampler
  -- interval, last, noSampled
  ratelimit_sampler : ℕ → ℕ → ℕ → InternalSampler

pub data Strategy : Type 0 where
  strategy_all : Strategy
  strategy_ratio : Strategy
  strategy_rate_limit : Strategy

-- What RefreshConfig computes from the float64 of a SamplerConfig: `Value > 0`, `int(Value * 1000)`,
-- `int(1 / Value)` and `time.Duration(Value)`.
pub record SamplerValue : Type 0 where
  pub positive : Bool
  pub times_1000 : ℕ
  pub inverse : ℕ
  pub as_duration : ℕ

abbrev pub second : ℕ
second = 1000000000

abbrev pub max_duration : ℕ
max_duration = 2 ^ 63 - 1

unfoldable pub refresh_config : Strategy → SamplerValue → Option InternalSampler
refresh_config strategy_all v = some all_sampler
refresh_config strategy_ratio v =
    if v.positive then some (ratio_sampler v.times_1000 v.inverse) else some no_sampler
refresh_config strategy_rate_limit v =
    if v.positive
    then (if v.as_duration == 0
        then none
        else some (ratelimit_sampler (second / v.as_duration) 0 0))
    else some no_sampler

-- `now.Sub(last)`, which stops at the longest Duration; `last` is never after `now`.
pub since : ℕ → ℕ → ℕ
since now last = min (now - last) max_duration

-- Sample of a ratelimitSampler: the sampler afterwards, and the two results.
pub sample_ratelimit : ℕ → ℕ → ℕ → ℕ → Option (InternalSampler × Bool × ℕ)
unfolding since
sample_ratelimit interval last no_sampled now =
    if ltb (since now last) interval
    then some (ratelimit_sampler interval last (no_sampled + 1), false, 0)
    else if interval == 0
    then none
    else some (
      ratelimit_sampler interval (last + since now last / interval * interval) 0,
      true,
      no_sampled + 1,
    )

-- Sample at the time `now`, `random` being the result of rand.Intn(1000).
pub sample : InternalSampler → ℕ → ℕ → Option (InternalSampler × Bool × ℕ)
unfolding sample_ratelimit
sample all_sampler now random = some (all_sampler, true, 1)
sample no_sampler now random = some (no_sampler, false, 0)
sample (ratio_sampler permil weight) now random =
    if ltb random permil
    then some (ratio_sampler permil weight, true, weight)
    else some (ratio_sampler permil weight, false, 0)
sample (ratelimit_sampler interval last no_sampled) now random =
    sample_ratelimit interval last no_sampled now
