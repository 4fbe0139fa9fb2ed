-- ===== src/Contrib/Gin.antt =====
-- The middleware of trace/contrib/gin-gonic/gin/middleware.go, as the calls that it makes on a trace
-- of Tracing. A gin.Context is what the code reads of it; its request is not nil, since the code
-- reads its header without a test.
use apminsight_server_sdk_go.Prelude.{
  ℕ, Bool, true, false, List, [], ◌∷◌, ◌++◌, Option, none, some, Bytes, codes, length, leb, ◌==◌,
  map, if◌then◌else◌,
}
use apminsight_server_sdk_go.Prelude.Int.{ℤ, pos}
use apminsight_server_sdk_go.Propagation.{SpanContext}
use apminsight_server_sdk_go.Tracing.Span.{
  server_span_type, ErrorInfo, business_error, string_value, int_value,
}
use apminsight_server_sdk_go.Tracing.Sampling.{
  TraceContext, new_context, remote_context, trace_resource,
}
use apminsight_server_sdk_go.Tracing.Emit.{Setup, Trace}
use apminsight_server_sdk_go.Tracing.Run.{
  World, StartSpanConfig, start_trace, Event, finish_event, status_event, error_event, tag_event,
  run,
}
use apminsight_server_sdk_go.Contrib.Url.{Url, url_tags}
use apminsight_server_sdk_go.Contrib.Path.{default_path_normalizer}
pub mod Reported
mod Tests

pub record GinContext : Type 0 where
  pub full_path : Bytes
  pub method : Bytes
  pub url : Option Url

-- A nil function is `none`. The map of the tags is in the order in which Go ranges over it.
pub record Config : Type 0 where
  pub ignore_request : Option (GinContext → Bool)
  pub path_normalizer : Bytes → Bytes
  pub tags_extractor : Option (GinContext → List (Bytes × Bytes))
  pub resource_getter : Option (GinContext → Bytes)

unfoldable pub with_ignore_request : Option (GinContext → Bool) → Config → Config
with_ignore_request none cfg = cfg
with_ignore_request (some f) cfg = record cfg { ignore_request = some f }

unfoldable pub with_path_normalizer : Option (Bytes → Bytes) → Config → Config
with_path_normalizer none cfg = cfg
with_path_normalizer (some f) cfg = record cfg { path_normalizer = f }

unfoldable pub with_tags_extractor : Option (GinContext → List (Bytes × Bytes)) → Config → Config
with_tags_extractor none cfg = cfg
with_tags_extractor (some f) cfg = record cfg { tags_extractor = some f }

unfoldable pub with_resource_getter : Option (GinContext → Bytes) → Config → Config
with_resource_getter none cfg = cfg
with_resource_getter (some f) cfg = record cfg { resource_getter = some f }

abbrev pub new_default_config : Config
new_default_config = record {
  ignore_request = none;
  path_normalizer = default_path_normalizer;
  tags_extractor = none;
  resource_getter = none;
}

-- The options, applied to the default one after the other.
unfoldable pub config_of : List (Config → Config) → Config → Config
config_of [] cfg = cfg
config_of (opt ∷ opts) cfg = config_of opts (opt cfg)

unfoldable pub resource_name : Config → GinContext → Bytes
resource_name cfg c = elim cfg.resource_getter [
  | some f ↦ f c
  | none ↦
      if length c.full_path == 0
      then (elim c.url [
        | none ↦ codes "unknown"
        | some url ↦ if length url.path == 0 then codes "unknown" else cfg.path_normalizer url.path
      ])
      else c.full_path
]

unfoldable pub ignores : Config → GinContext → Bool
ignores cfg c = elim cfg.ignore_request [ none ↦ false | some f ↦ f c ]

-- The ids and times that startSpan reads, the sampler's answer, the channel of the tracer, and the
-- context that Extract found in the headers, if it found one.
pub record Arrival : Type 0 where
  pub trace_id : Bytes
  pub span_id : Bytes
  pub start_time : ℕ
  pub answer : Bool × ℕ
  pub chan : List Trace
  pub chain : Option SpanContext

module _ (u : Setup) where
  -- What happens in c.Next(): calls on the trace, a panic, the status and the errors that are
  -- left, and the time at its end.
  pub record Handling : Type 0 where
    pub events : List (Event u)
    pub panic : Option Bytes
    pub writer_status : ℕ
    pub errors : List Bytes
    pub end_time : ℕ

  unfoldable pub start_server_span : Config → GinContext → Arrival → World
  start_server_span cfg c a =
      let name = resource_name cfg c in
      let span_config : StartSpanConfig = record {
        name = codes "request";
        span_type = server_span_type;
        server_resource = name;
        client_service_type = [];
        client_service = [];
        client_resource = [];
      } in
      elim a.chain [
        | none ↦
            start_trace u (new_context a.trace_id (trace_resource name)) span_config a.start_time
              a.span_id [] [] a.answer a.chan
        | some sc ↦
            start_trace u (remote_context sc (trace_resource name)) span_config a.start_time
              a.span_id sc.span_id sc.baggage a.answer a.chan
      ]

  pub custom_tags : Config → GinContext → List (Bytes × Bytes)
  custom_tags cfg c = elim cfg.tags_extractor [ none ↦ [] | some f ↦ f c ]

  -- The calls before c.Next().
  pub before_next : Config → GinContext → List (Event u)
  unfolding custom_tags
  before_next cfg c =
      map (λ t. tag_event 0 t.0 (string_value t.1))
        ((codes "http.method", c.method) ∷ (url_tags c.url ++ custom_tags cfg c))

  pub final_status : Handling → ℕ
  final_status h = elim h.panic [ none ↦ h.writer_status | some m ↦ 500 ]

  -- The deferred calls, last in first out.
  pub deferred : Handling → List (Event u)
  unfolding final_status
  deferred h =
      tag_event 0 (codes "http.status_code") (int_value (pos (final_status h)))
      ∷ ((if leb 400 (final_status h) then status_event 0 (pos 1) ∷ [] else [])
          ++ (map (λ m. error_event 0 (record { error_kind = business_error; error_message = m }))
                h.errors
              ++ finish_event 0 h.end_time h.panic ∷ []))

  -- The trace afterwards; none is started for a request that is ignored.
  unfoldable pub middleware :
      List (Config → Config) → GinContext → Arrival → Handling → Option World
  unfolding start_server_span before_next deferred ignores
  middleware opts c a h =
      let cfg = config_of opts new_default_config in
      if ignores cfg c
      then none
      else some (run u (start_server_span cfg c a) (before_next cfg c ++ (h.events ++ deferred h)))
