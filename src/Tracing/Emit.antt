-- ===== src/Tracing/Emit.antt =====
-- emitMetric of trace/aitracer/span.go, and collect and emitTrace of trace/aitracer/tracer.go.
use apminsight_server_sdk_go.Prelude.{
  ℕ, ◌+◌, ◌/◌, ◌-◌, Bool, true, false, ◌||◌, List, [], ◌∷◌, ◌++◌, Option, none, some, Bytes, codes,
  length, ◌==◌, if◌then◌else◌, bytes_eq,
}
use apminsight_server_sdk_go.Prelude.Int.{ℤ, pos, negsuc}
use apminsight_server_sdk_go.Propagation.{
  SampleStrategy, unknown, not_sampled, sampled, flags_sampled,
}
use apminsight_server_sdk_go.Tracing.Span.{
  SpanType, common_span_type, server_span_type, client_span_type, ErrorInfo, Dict, MapOf, Span,
  set_key, get_key, baggage_item,
}
use apminsight_server_sdk_go.Tracing.Sampling.{TraceContext}

-- What a tracer is set up with: `with_metrics` is `metricsClient != nil`, `emit_control` whether
-- BYTEAPM_TL_EMIT_CONTROL is "1", `slow_query` the dynamic config's DbSlowQuery, `format_int`
-- strconv.FormatInt to base 10, `widen` the conversion of a float32 to float64.
pub record Setup : Type 0 where
  pub service_type : Bytes
  pub service : Bytes
  pub container_id : Bytes
  pub instance_id : Bytes
  pub server_tag_keys : List Bytes
  pub client_tag_keys : List Bytes
  pub with_metrics : Bool
  pub emit_control : Bool
  pub slow_query : Option ℤ
  pub chan_size : ℕ
  pub format_int : ℤ → Bytes
  pub widen : ℕ → ℕ

-- A call of the metrics client.
pub data MetricCall : Type 0 where
  counter : Bytes → ℤ → Dict → MetricCall
  timer : Bytes → ℤ → Dict → MetricCall

-- `d.Microseconds()`, which rounds toward 0.
pub microseconds : ℤ → ℤ
microseconds (pos n) = pos (n / 1000)
microseconds (negsuc n) = if (n + 1) / 1000 == 0 then pos 0 else negsuc ((n + 1) / 1000 - 1)

-- The registered keys that the span has a value for that is not empty.
pub add_tags : List Bytes → Dict → Dict → Dict
unfolding get_key set_key
add_tags [] have tags = tags
add_tags (k ∷ ks) have tags = add_tags ks have (elim (get_key k have) [
  | none ↦ tags
  | some v ↦ if length v == 0 then tags else set_key k v tags
])

pub base_tags : Setup → TraceContext → Span → Dict
base_tags u tc s =
    (codes "service_type", u.service_type)
    ∷ (codes "service", u.service)
    ∷ (codes "resource", tc.resource)
    ∷ (codes "status", u.format_int s.status)
    ∷ (codes "instance_id", u.instance_id)
    ∷ []

pub server_tags : Setup → TraceContext → Span → Dict
unfolding base_tags add_tags
server_tags u tc s = add_tags u.server_tag_keys s.tags_string (base_tags u tc s)

pub client_tags : Setup → TraceContext → Span → Dict
unfolding base_tags add_tags
client_tags u tc s = add_tags u.client_tag_keys s.tags_string (
    base_tags u tc s
    ++ (codes "call_service_type", s.client_type)
      ∷ (codes "call_service", s.client_service)
      ∷ (codes "call_resource", s.client_resource)
      ∷ [])

unfoldable pub metric_calls : Setup → TraceContext → Span → List MetricCall
unfolding server_tags client_tags microseconds
metric_calls u tc s =
    if u.with_metrics
    then (elim s.span_type [
      | common_span_type ↦ []
      | server_span_type ↦
          counter (codes "apminsight.service.trace.called.throughput") (pos 1) (server_tags u tc s)
          ∷ timer (codes "apminsight.service.trace.called.latency.us") (microseconds s.duration)
              (server_tags u tc s)
          ∷ []
      | client_span_type ↦
          counter (codes "apminsight.service.trace.call.throughput") (pos 1) (client_tags u tc s)
          ∷ timer (codes "apminsight.service.trace.call.latency.us") (microseconds s.duration)
              (client_tags u tc s)
          ∷ []
    ])
    else []

-- trace_models.Span
pub record EmittedSpan : Type 0 where
  pub span_type : SpanType
  pub span_id : Bytes
  pub parent_span_id : Bytes
  pub operation_name : Bytes
  pub start_time_millisecond : ℕ
  pub end_time_millisecond : ℕ
  pub duration_microseconds : ℤ
  pub start_time_microsecond : ℕ
  pub status : ℤ
  pub param_int : MapOf ℤ
  pub param_float : MapOf ℕ
  pub param_string : Dict
  pub resource : Bytes
  pub call_service_type : Bytes
  pub call_service : Bytes
  pub call_resource : Bytes
  pub error_info_list : List ErrorInfo

-- trace_models.Trace
pub record Trace : Type 0 where
  pub service_type : Bytes
  pub service : Bytes
  pub container_id : Bytes
  pub instance_id : Bytes
  pub trace_id : Bytes
  pub spans : List EmittedSpan

-- The app id and the origin of the baggage, copied into the tags.
pub copy_origin : Dict → Dict → Dict
unfolding set_key
copy_origin [] tags = tags
copy_origin ((k, v) ∷ baggage) tags = copy_origin baggage (
    if bytes_eq k (codes "apmplus.app_id") || bytes_eq k (codes "apmplus.origin")
    then set_key k v tags
    else tags)

-- The swap of `collected`, and the resource and the tags that emitTrace writes into the span. The
-- tags of a span that has finished are not nil, so that the map is the span's own.
unfoldable pub mark : Bytes → Span → Span
unfolding copy_origin
mark resource s = record s {
  collected = true;
  server_resource = if length s.server_resource == 0 then resource else s.server_resource;
  tags_string = copy_origin s.baggage s.tags_string;
}

unfoldable pub emitted : Span → EmittedSpan
unfolding microseconds
emitted s = record {
  span_type = s.span_type;
  span_id = s.span_id;
  parent_span_id = s.parent_span_id;
  operation_name = s.operation_name;
  start_time_millisecond = s.start_time / 1000000;
  end_time_millisecond = s.finish_time / 1000000;
  duration_microseconds = microseconds s.duration;
  start_time_microsecond = s.start_time / 1000;
  status = s.status;
  param_int = s.tags_int64;
  param_float = s.tags_float64;
  param_string = s.tags_string;
  resource = s.server_resource;
  call_service_type = s.client_type;
  call_service = s.client_service;
  call_resource = s.client_resource;
  error_info_list = s.error_info_list;
}

-- The loop of emitTrace: the spans afterwards, and those that are emitted.
unfoldable pub emit_spans : Bytes → List Span → List Span × List EmittedSpan
unfolding mark emitted
emit_spans resource [] = ([], [])
emit_spans resource (s ∷ spans) =
    let rest = emit_spans resource spans in
    if s.collected
    then (s ∷ rest.0, rest.1)
    else (mark resource s ∷ rest.0, emitted (mark resource s) ∷ rest.1)

-- `serverResource`, from the first span.
pub first_resource : Span → Bytes
first_resource s = elim s.span_type [
  | server_span_type ↦ s.server_resource
  | common_span_type ↦ []
  | client_span_type ↦ []
]

unfoldable pub should_emit : Setup → Span → Bool
unfolding baggage_item
should_emit u s =
    if u.emit_control then bytes_eq (baggage_item (codes "byteapm-tl-emit") s) (codes "1") else true

-- The spans afterwards, and the trace that is offered to the channel, if one is.
unfoldable pub emit_trace : Setup → Bytes → List Span → List Span × Option Trace
unfolding first_resource should_emit emit_spans
emit_trace u trace_id [] = ([], none)
emit_trace u trace_id (s ∷ spans) =
    if should_emit u s
    then (
      (emit_spans (first_resource s) (s ∷ spans)).0,
      some (record {
        service_type = u.service_type;
        service = u.service;
        container_id = u.container_id;
        instance_id = u.instance_id;
        trace_id = trace_id;
        spans = (emit_spans (first_resource s) (s ∷ spans)).1;
      }),
    )
    else (s ∷ spans, none)

pub strategy_sampled : SampleStrategy → Bool
strategy_sampled sampled = true
strategy_sampled not_sampled = false
strategy_sampled unknown = false

-- The test of `collect`.
unfoldable pub wanted : TraceContext → Bool
unfolding strategy_sampled flags_sampled
wanted tc = strategy_sampled tc.sample_strategy || flags_sampled tc.sample_flags
