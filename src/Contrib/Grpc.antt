-- ===== src/Contrib/Grpc.antt =====
-- The interceptors of trace/contrib/grpc/grpc-go/unaryinterceptor.go. The metadata of
-- google.golang.org/grpc is a list of its keys and values; its Set is an argument.
use apminsight_server_sdk_go.Prelude.{
  ℕ, Bool, List, [], ◌∷◌, ◌++◌, Option, none, some, Bytes, codes, get_elem?, map,
}
use apminsight_server_sdk_go.Prelude.Int.{ℤ, pos}
use apminsight_server_sdk_go.Propagation.Headers.{Header, Library, inject_headers, chain_of}
use apminsight_server_sdk_go.Tracing.Span.{
  Span, ErrorKind, business_error, external_service_error, ErrorInfo, server_span_type,
  client_span_type, int_value,
}
use apminsight_server_sdk_go.Tracing.Sampling.{new_context, remote_context, trace_resource}
use apminsight_server_sdk_go.Tracing.Emit.{Setup, Trace}
use apminsight_server_sdk_go.Tracing.Run.{
  World, StartSpanConfig, start_trace, Event, run, tag_event, status_event, error_event,
  finish_event, baggage_event,
}
use apminsight_server_sdk_go.Tracing.Context.{
  Context, Starting, span_context, start_span_from_context,
}
pub mod Reported
mod Tests

-- What the server interceptor reads of an incoming call.
pub record Incoming : Type 0 where
  pub full_method : Bytes
  pub metadata : List Header

pub record Config : Type 0 where
  pub target_service_type : Bytes
  pub baggage_setter : Option (Incoming → List (Bytes × Bytes))

abbrev pub new_default_config : Config
new_default_config = record { target_service_type = codes "grpc"; baggage_setter = none }

unfoldable pub with_target_service_type : Bytes → Config → Config
with_target_service_type tst cfg = record cfg { target_service_type = tst }

unfoldable pub with_baggage_setter : Option (Incoming → List (Bytes × Bytes)) → Config → Config
with_baggage_setter none cfg = cfg
with_baggage_setter (some f) cfg = record cfg { baggage_setter = some f }

unfoldable pub config_of : List (Config → Config) → Config → Config
config_of [] cfg = cfg
config_of (opt ∷ opts) cfg = config_of opts (opt cfg)

-- How the handler or the invoker ends: without an error, with one, of which status.FromError makes
-- a code, or with a panic.
pub data Ending : Type 0 where
  succeeded : Ending
  failed : ℕ → Bytes → Ending
  panicked : Bytes → Ending

module _ (u : Setup) where
  -- What happens during the call, how it ends, and when.
  pub record Call : Type 0 where
    pub events : List (Event u)
    pub ending : Ending
    pub end_time : ℕ

  -- The calls on the span after the handler or the invoker, and the deferred Finish.
  pub calls_after : ErrorKind → ℕ → ℕ → Ending → List (Event u)
  calls_after kind place now succeeded =
      tag_event place (codes "grpc.status_code") (int_value (pos 0))
      ∷ finish_event place now none
      ∷ []
  calls_after kind place now (failed code message) =
      status_event place (pos 1)
      ∷ tag_event place (codes "grpc.status_code") (int_value (pos code))
      ∷ error_event place (record { error_kind = kind; error_message = message })
      ∷ finish_event place now none
      ∷ []
  calls_after kind place now (panicked message) = finish_event place now (some message) ∷ []

  -- The span of the server, a child of the context that Extract finds in the metadata, if it finds
  -- one; `items` is the baggage of that context in the order in which Go ranges over it.
  unfoldable pub start_called : Incoming → List (Bytes × Bytes) → Starting → List Trace → World
  start_called c items a chan =
      let span_config : StartSpanConfig = record {
        name = codes "grpc.called";
        span_type = server_span_type;
        server_resource = c.full_method;
        client_service_type = [];
        client_service = [];
        client_resource = [];
      } in
      elim (chain_of items c.metadata) [
        | none ↦
            start_trace u (new_context a.trace_id (trace_resource c.full_method)) span_config
              a.start_time a.span_id [] [] a.answer chan
        | some sc ↦
            start_trace u (remote_context sc (trace_resource c.full_method)) span_config
              a.start_time a.span_id sc.span_id sc.baggage a.answer chan
      ]

  pub set_baggage_items : Config → Incoming → List (Event u)
  set_baggage_items cfg c = elim cfg.baggage_setter [
    | none ↦ []
    | some f ↦ map (λ t. baggage_event 0 t.0 t.1) (f c)
  ]

  -- The trace after a call that the server interceptor handles.
  unfoldable pub unary_server :
      List (Config → Config)
      → Incoming
      → List (Bytes × Bytes)
      → Starting
      → List Trace
      → Call
      → World
  unfolding start_called set_baggage_items calls_after
  unary_server opts c items a chan x = run u (start_called c items a chan) (
      set_baggage_items (config_of opts new_default_config) c
      ++ (x.events ++ calls_after business_error 0 x.end_time x.ending))

  pub call_config : Config → Bytes → Bytes → StartSpanConfig
  call_config cfg target method = record {
    name = codes "grpc.call";
    span_type = client_span_type;
    server_resource = [];
    client_service_type = cfg.target_service_type;
    client_service = target;
    client_resource = method;
  }

  -- `md_set` is Set of the metadata, `range` the order in which Go ranges over the headers.
  pub set_each :
      (Bytes → Bytes → List Header → List Header) → List Header → List Header → List Header
  set_each md_set [] meta = meta
  set_each md_set (h ∷ hs) meta = set_each md_set hs (md_set h.0 h.1 meta)

  pub sent_metadata :
      Library
      → (Bytes → Bytes → List Header → List Header)
      → (List Header → List Header)
      → ℕ
      → List Header
      → World
      → List Header
  unfolding set_each
  sent_metadata lib md_set range place meta w = elim (get_elem? w.ctx.spans place) [
    | none ↦ meta
    | some s ↦ set_each md_set (range (inject_headers lib (span_context w.ctx s) [])) meta
  ]

  -- A call through the client interceptor: the place of the span, the trace afterwards, and the
  -- metadata that was sent, `meta` being the outgoing one.
  unfoldable pub unary_client :
      Library
      → (Bytes → Bytes → List Header → List Header)
      → (List Header → List Header)
      → Option (Context → Option Context)
      → List (Config → Config)
      → Bytes
      → Bytes
      → List Header
      → Context
      → Starting
      → Call
      → World
      → ℕ × World × List Header
  unfolding call_config calls_after sent_metadata
  unary_client lib md_set range adapter opts target method meta ctx a x w =
      let cfg = config_of opts new_default_config in
      let (place, started, ctx') =
        start_span_from_context u adapter ctx (call_config cfg target method) a w in
      (
        place,
        run u started (x.events ++ calls_after external_service_error place x.end_time x.ending),
        sent_metadata lib md_set range place meta started,
      )
