-- ===== src/Sampler/Tests.antt =====
-- A sampler of ten traces a second.
use apminsight_server_sdk_go.Prelude.{
  ℕ, ◌+◌, ◌*◌, ◌≤◌, ◌≡◌, refl, List, [], ◌∷◌, none, some, true, arith, length,
}
use apminsight_server_sdk_go.Sampler.{
  refresh_config, strategy_rate_limit, ratelimit_sampler, sample, sample_ratelimit, since,
}
use apminsight_server_sdk_go.Sampler.RateLimit.{Limiter, calls, call, latest, After, calls-limits}

refresh_config_values :
    (refresh_config strategy_rate_limit
        (record { positive = true; times_1000 = 10000; inverse = 0; as_duration = 10 })
      ≡ some (ratelimit_sampler 100000000 0 0))
    × (refresh_config strategy_rate_limit
          (record { positive = true; times_1000 = 500; inverse = 2; as_duration = 0 })
        ≡ none)
unfolding refresh_config
refresh_config_values = (refl, refl)

-- `last` is the zero time at first, and the difference to it stops at 292 years: the first calls
-- of a sampler that was just made are all answered with `true`, however close they are.
start_up :
    calls 100000000
      (record { last = 0; no_sampled = 0; taken = 0; weights = 0 })
      (63900000000000000000 ∷ 63900000000000000001 ∷ 63900000000000000002 ∷ [])
    ≡ some (record { last = 27670116110400000000; no_sampled = 0; taken = 3; weights = 3 })
unfolding calls call sample sample_ratelimit since
start_up = refl

abbrev times : List ℕ
times = 1000 ∷ 1010 ∷ 1050 ∷ 1130 ∷ []

times-After : After 1000 times
times-After = (omega arith, (omega arith, (omega arith, (omega arith, tt))))

calls-limits_example :
    (l : Limiter) × (calls 100
        (record { last = 1000; no_sampled = 0; taken = 0; weights = 0 })
        times
      ≡ some l)
    × (l.weights + l.no_sampled ≡ length times)
    × (l.taken * 100 + 1000 ≤ latest 1000 times)
calls-limits_example = calls-limits 100 1000 times (omega arith) times-After
