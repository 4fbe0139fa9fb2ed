-- ===== src/Tracer/Config.antt =====
-- TracerConfig and its options in trace/aitracer/interface.go, the defaults in trace_config.go, and
-- BuiltinFormat of propagation.go. The logger and the context adapter are left out.
use apminsight_server_sdk_go.Prelude.{
  ℕ, Bool, true, false, List, [], ◌∷◌, ◌++◌, Option, Bytes, codes, ◌==◌,
}
use apminsight_server_sdk_go.Propagation.{SpanContext}

-- The key of a propagator. A custom one stands for any other value, by a number.
pub data Format : Type 0 where
  http_headers : Format
  binary : Format
  custom : ℕ → Format

abbrev pub format_eq : Format → Format → Bool
format_eq http_headers http_headers = true
format_eq http_headers binary = false
format_eq http_headers (custom n) = false
format_eq binary http_headers = false
format_eq binary binary = true
format_eq binary (custom n) = false
format_eq (custom m) http_headers = false
format_eq (custom m) binary = false
format_eq (custom m) (custom n) = m == n

pub data Error : Type 0 where
  unsupported_format : Error
  invalid_carrier : Error
  other_error : Bytes → Error

pub data Result {ℓ} (A : Type ℓ) : Type ℓ where
  ok : A → Result A
  err : Error → Result A

module _ {ℓ} (C : Type ℓ) where
  -- An injector writes the context into a carrier; an extractor finds a context in it, or none.
  abbrev pub Injector : Type ℓ
  Injector = SpanContext → C → Result C

  abbrev pub Extractor : Type ℓ
  Extractor = C → Result (Option SpanContext)

  pub record PropagatorConfig : Type ℓ where
    pub format : Format
    pub injector : SpanContext → C → Result C
    pub extractor : C → Result (Option SpanContext)

  pub record TracerConfig : Type ℓ where
    pub service_type : Bytes
    pub service : Bytes
    pub sender_chan_size : ℕ
    pub sender_sock : Bytes
    pub sender_stream_sock : Bytes
    pub sender_number : ℕ
    pub enable_metric : Bool
    pub metric_sock : Bytes
    pub enable_log_sender : Bool
    pub log_sender_debug : Bool
    pub log_sender_sock : Bytes
    pub log_sender_stream_sock : Bytes
    pub log_sender_number : ℕ
    pub log_sender_chan_size : ℕ
    pub enable_runtime_metric : Bool
    pub settings_fetcher_sock : Bytes
    pub propagator_configs : List PropagatorConfig
    pub server_register_sock : Bytes

  -- The default, with the two builtin propagators.
  unfoldable pub new_default_tracer_config :
      Injector → Extractor → Injector → Extractor → TracerConfig
  new_default_tracer_config headers_in headers_out binary_in binary_out = record {
    service_type = [];
    service = [];
    sender_chan_size = 1024;
    sender_sock = codes "/var/run/apminsight/trace.sock";
    sender_stream_sock = codes "/var/run/apminsight/trace_stream.sock";
    sender_number = 4;
    enable_metric = true;
    metric_sock = codes "/var/run/apminsight/metrics.sock";
    enable_log_sender = true;
    log_sender_debug = false;
    log_sender_sock = codes "/var/run/apminsight/log.sock";
    log_sender_stream_sock = codes "/var/run/apminsight/log_stream.sock";
    log_sender_number = 4;
    log_sender_chan_size = 1024;
    enable_runtime_metric = true;
    settings_fetcher_sock = codes "/var/run/apminsight/comm.sock";
    propagator_configs =
        record { format = http_headers; injector = headers_in; extractor = headers_out }
        ∷ record { format = binary; injector = binary_in; extractor = binary_out }
        ∷ [];
    server_register_sock = codes "/var/run/apminsight/comm.sock";
  }

  abbrev pub TracerOption : Type ℓ
  TracerOption = TracerConfig → TracerConfig

  unfoldable pub with_service : Bytes → Bytes → TracerOption
  with_service service_type service config = record config {
    service_type = service_type;
    service = service;
  }

  unfoldable pub with_sender_chan_size : ℕ → TracerOption
  with_sender_chan_size chan_size config = record config { sender_chan_size = chan_size }

  unfoldable pub with_sender_sock : Bytes → TracerOption
  with_sender_sock sock config = record config { sender_sock = sock }

  unfoldable pub with_sender_stream_sock : Bytes → TracerOption
  with_sender_stream_sock sock config = record config { sender_stream_sock = sock }

  unfoldable pub with_sender_number : ℕ → TracerOption
  with_sender_number number config = record config { sender_number = number }

  unfoldable pub with_metrics : Bool → TracerOption
  with_metrics enable config = record config { enable_metric = enable }

  unfoldable pub with_metrics_address : Bytes → TracerOption
  with_metrics_address address config = record config { metric_sock = address }

  unfoldable pub with_log_sender : Bool → TracerOption
  with_log_sender enable config = record config { enable_log_sender = enable }

  unfoldable pub with_log_sender_debug : Bool → TracerOption
  with_log_sender_debug enable config = record config { log_sender_debug = enable }

  unfoldable pub with_runtime_metric : Bool → TracerOption
  with_runtime_metric enable config = record config { enable_runtime_metric = enable }

  unfoldable pub with_propagator : Format → Injector → Extractor → TracerOption
  with_propagator format injector extractor config = record config {
    propagator_configs =
        config.propagator_configs
        ++ record { format = format; injector = injector; extractor = extractor } ∷ [];
  }

  -- NewTracer applies the options to the default one after the other.
  unfoldable pub config_of : List TracerOption → TracerConfig → TracerConfig
  config_of [] config = config
  config_of (opt ∷ opts) config = config_of opts (opt config)
