-- ===== src/Tracer/Dynamic.antt =====
-- handleSettings of trace/aitracer/tracer.go: what the settings that the fetcher tells do to the
-- sampler and to the dynamic config.
pub mod Latest
use apminsight_server_sdk_go.Prelude.{
  ℕ, ◌+◌, ◌*◌, ◌≡◌, refl, ap, ◌∙◌, Bool, true, false, List, [], ◌∷◌, Option, none, some, ◌>>=◌,
  if◌then◌else◌, ◌==◌, All, Option-cases, Bool-cases, inl, inr, arith,
}
use apminsight_server_sdk_go.Prelude.Int.{ℤ, pos, negsuc}
use apminsight_server_sdk_go.Sampler.{
  InternalSampler, Strategy, strategy_all, strategy_ratio, strategy_rate_limit, SamplerValue,
  refresh_config,
}

-- The part of the settings that the tracer reads. The strategy is the number of the enumeration.
pub record SampleConfig : Type 0 where
  pub strategy : ℤ
  pub value : SamplerValue

pub record TraceSettings : Type 0 where
  pub sample_config : Option SampleConfig

pub record TracerSettings : Type 0 where
  pub trace : Option TraceSettings
  pub slow_query_millseconds : Option ℤ

-- `none` is a dynamic config that has not been stored; a duration is in nanoseconds.
pub record Dynamic : Type 0 where
  pub sampler : InternalSampler
  pub db_slow_query : Option ℤ

-- The switch over the strategies.
unfoldable pub strategy_of : ℤ → Option Strategy
strategy_of (pos n) =
    if n == 0
    then some strategy_all
    else if n == 1
    then some strategy_ratio
    else if n == 2
    then some strategy_rate_limit
    else none
strategy_of (negsuc n) = none

-- `none` is the panic of RefreshConfig.
unfoldable pub handle_settings_for_sampler : Option TracerSettings → Dynamic → Option Dynamic
handle_settings_for_sampler none d = some d
handle_settings_for_sampler (some settings) d = elim settings.trace [
  | none ↦ some d
  | some trace ↦ elim trace.sample_config [
    | none ↦ some d
    | some sample ↦ elim (strategy_of sample.strategy) [
      | none ↦ some d
      | some strategy ↦ elim (refresh_config strategy sample.value) [
        | none ↦ none
        | some sampler ↦ some (record d { sampler = sampler })
      ]
    ]
  ]
]

-- `time.Duration(ms) * time.Millisecond`; `ms` is an int32, so that the product does not overflow.
abbrev pub milliseconds : ℤ → ℤ
milliseconds (pos n) = pos (n * 1000000)
milliseconds (negsuc n) = negsuc (n * 1000000 + 999999)

unfoldable pub handle_settings_for_dynamic_config : Option TracerSettings → Dynamic → Dynamic
handle_settings_for_dynamic_config none d = d
handle_settings_for_dynamic_config (some settings) d = record d {
  db_slow_query = elim settings.slow_query_millseconds [
    | none ↦ some (pos 0)
    | some ms ↦ some (milliseconds ms)
  ];
}

unfoldable pub handle_settings : Option TracerSettings → Dynamic → Option Dynamic
handle_settings settings d = do
  d' ← handle_settings_for_sampler settings d
  some (handle_settings_for_dynamic_config settings d')

unfoldable pub handle_all : List (Option TracerSettings) → Dynamic → Option Dynamic
handle_all [] d = some d
handle_all (s ∷ ss) d = do d' ← handle_settings s d; handle_all ss d'
