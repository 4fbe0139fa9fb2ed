-- ===== src/Tracer/Tests.antt =====
-- A tracer whose runtime metric is off, propagators that override one another, and some settings.
use apminsight_server_sdk_go.Prelude.{
  ℕ, ◌≡◌, refl, true, false, List, [], ◌∷◌, Option, none, some, codes,
}
use apminsight_server_sdk_go.Prelude.Int.{pos}
use apminsight_server_sdk_go.Propagation.{SpanContext, sampled, flags_server_sampled}
use apminsight_server_sdk_go.Sampler.{
  strategy_ratio, all_sampler, ratio_sampler, SamplerValue, refresh_config,
}
use apminsight_server_sdk_go.Tracer.Config.{
  binary, custom, ok, err, invalid_carrier, unsupported_format, Injector, Extractor, TracerConfig,
  new_default_tracer_config, with_runtime_metric, with_sender_number, with_propagator, config_of,
}
use apminsight_server_sdk_go.Tracer.Propagators.{inject, extract, injects, extractors, put}
use apminsight_server_sdk_go.Tracer.Lifecycle.{
  stop, stop_part, close_trace_chan, service_register, trace_senders, trace_sender, runtime_monitor,
  settings_fetcher, log_collector, metrics_client,
}
use apminsight_server_sdk_go.Tracer.Dynamic.{TracerSettings, Dynamic, handle_all, strategy_of}
use apminsight_server_sdk_go.Tracer.Dynamic.Latest.{
  IsSamplerOf, last_chosen, last_slow, handle_all-latest,
}

-- Carriers are numbers; an injector counts.
abbrev write : ℕ → Injector ℕ
write n sc carrier = ok n

abbrev read : Extractor ℕ
read carrier = err invalid_carrier

abbrev default_config : TracerConfig ℕ
default_config = new_default_tracer_config ℕ (write 1) read (write 2) read

abbrev quiet : TracerConfig ℕ
quiet = config_of ℕ (with_runtime_metric ℕ false ∷ with_sender_number ℕ 1 ∷ []) default_config

-- Without the runtime monitor neither method returns, and the channel is never closed.
no_monitor : stop quiet ≡ (stop_part service_register ∷ [], false)
unfolding stop config_of with_runtime_metric with_sender_number new_default_tracer_config
no_monitor = refl

stop_default : stop (with_sender_number ℕ 2 default_config) ≡ (
  stop_part service_register
      ∷ stop_part runtime_monitor
      ∷ close_trace_chan
      ∷ stop_part (trace_sender 0)
      ∷ stop_part (trace_sender 1)
      ∷ stop_part metrics_client
      ∷ stop_part log_collector
      ∷ stop_part settings_fetcher
      ∷ [],
  true,
)
unfolding stop with_sender_number new_default_tracer_config trace_senders
stop_default = refl

overridden :
    (sc : SpanContext)
    → inject ℕ (with_propagator ℕ binary (write 3) read default_config) sc binary 0 ≡ ok 3
unfolding inject injects with_propagator new_default_tracer_config put
overridden sc = refl

unknown_format : extract ℕ default_config (custom 7) 0 ≡ err unsupported_format
unfolding extract extractors new_default_tracer_config put
unknown_format = refl

abbrev context : SpanContext
context = record {
  trace_id = codes "t";
  span_id = codes "a";
  strategy = sampled;
  weight = pos 1;
  client_sampled = false;
  flags = flags_server_sampled;
  baggage = [];
}

abbrev half : SamplerValue
half = record { positive = true; times_1000 = 500; inverse = 2; as_duration = 0 }

abbrev settings : List (Option TracerSettings)
settings =
    some (record {
      trace = some (record { sample_config = some (record { strategy = pos 1; value = half }) });
      slow_query_millseconds = some (pos 100);
    })
    ∷ none
    ∷ some (record { trace = none; slow_query_millseconds = none })
    ∷ []

abbrev before : Dynamic
before = record { sampler = all_sampler; db_slow_query = none }

half_ratio : refresh_config strategy_ratio half ≡ some (ratio_sampler 500 2)
unfolding refresh_config
half_ratio = refl

handle_all-latest_example :
    (d' : Dynamic) × (handle_all settings before ≡ some d')
    × IsSamplerOf all_sampler (last_chosen settings none) d'.sampler
    × (d'.db_slow_query ≡ last_slow settings none)
unfolding strategy_of
handle_all-latest_example =
    handle_all-latest settings before ((ratio_sampler 500 2, half_ratio), (tt, (tt, tt)))

-- Settings without a section for the database, such as the empty ones, set the limit to 0.
no_section :
    (d' : Dynamic) × (handle_all settings before ≡ some d') × (d'.db_slow_query ≡ some (pos 0))
unfolding strategy_of
no_section =
    let (d', run, sampler, slow) =
      handle_all-latest settings before ((ratio_sampler 500 2, half_ratio), (tt, (tt, tt))) in
    (d', run, slow)
