-- ===== src/Contrib/HttpClient.antt =====
-- trace/contrib/net/http/client.go: the round trip of a wrapped http.Client, as the calls that it
-- makes on a trace of Tracing. The tracer has the default propagators. The base round tripper, which
-- performs the request, gives the outcome.
use apminsight_server_sdk_go.Prelude.{
  ℕ, false, List, [], ◌∷◌, ◌++◌, Option, none, some, Bytes, codes, length, get_elem?, ◌==◌, map,
  if◌then◌else◌,
}
use apminsight_server_sdk_go.Prelude.Int.{pos}
use apminsight_server_sdk_go.Propagation.Headers.{Header, Library, inject_headers}
use apminsight_server_sdk_go.Tracing.Span.{
  client_span_type, external_service_error, string_value, int_value, FinishSpanOption,
}
use apminsight_server_sdk_go.Tracing.Emit.{Setup}
use apminsight_server_sdk_go.Tracing.Run.{
  World, StartSpanConfig, Event, finish_event, finish_option_event, error_event, tag_event, run,
}
use apminsight_server_sdk_go.Tracing.Context.{
  Context, Starting, span_context, start_span_from_context,
}
use apminsight_server_sdk_go.Contrib.Url.{Url, url_tags}
use apminsight_server_sdk_go.Contrib.Path.{default_path_normalizer}
pub mod Reported
pub mod Sent
mod Tests

pub record Request : Type 0 where
  pub method : Bytes
  pub url : Option Url
  pub header : List Header

-- The map of the tags is in the order in which Go ranges over it; a nil extractor is `none`.
pub record Config : Type 0 where
  pub client_service_type : Bytes
  pub client_service_getter : Request → Bytes
  pub client_resource_getter : Request → Bytes
  pub operation : Bytes
  pub tags_extractor : Option (Request → List (Bytes × Bytes))

unfoldable pub with_client_service_type : Bytes → Config → Config
with_client_service_type svc_type cfg = record cfg { client_service_type = svc_type }

unfoldable pub with_client_service_getter : Option (Request → Bytes) → Config → Config
with_client_service_getter none cfg = cfg
with_client_service_getter (some f) cfg = record cfg { client_service_getter = f }

unfoldable pub with_client_resource_getter : Option (Request → Bytes) → Config → Config
with_client_resource_getter none cfg = cfg
with_client_resource_getter (some f) cfg = record cfg { client_resource_getter = f }

unfoldable pub with_operation : Bytes → Config → Config
with_operation op cfg = record cfg { operation = op }

unfoldable pub with_tags_extractor : Option (Request → List (Bytes × Bytes)) → Config → Config
with_tags_extractor f cfg = record cfg { tags_extractor = f }

pub host_of : Request → Bytes
host_of req = elim req.url [ none ↦ [] | some url ↦ url.host ]

pub normalized_path_of : Request → Bytes
normalized_path_of req = elim req.url [ none ↦ [] | some url ↦ default_path_normalizer url.path ]

unfoldable pub new_default_config : Config
unfolding host_of normalized_path_of
new_default_config = record {
  client_service_type = codes "http";
  client_service_getter = host_of;
  client_resource_getter = normalized_path_of;
  operation = codes "http_call";
  tags_extractor = none;
}

-- WrapClient applies the options to the default one after the other.
unfoldable pub wrap_client : List (Config → Config) → Config → Config
wrap_client [] cfg = cfg
wrap_client (opt ∷ opts) cfg = wrap_client opts (opt cfg)

-- The first text, unless it is empty.
pub or_else : Bytes → Bytes → Bytes
or_else s other = if length s == 0 then other else s

pub client_span_config : Config → Request → StartSpanConfig
unfolding or_else
client_span_config cfg req = record {
  name = cfg.operation;
  span_type = client_span_type;
  server_resource = [];
  client_service_type = cfg.client_service_type;
  client_service = or_else (cfg.client_service_getter req) (codes "empty");
  client_resource = or_else (cfg.client_resource_getter req) req.method;
}

-- An error of the base round tripper with its message, or a response with its status code.
pub data Outcome : Type 0 where
  failed : Bytes → Outcome
  responded : ℕ → Outcome

pub custom_tags : Config → Request → List (Bytes × Bytes)
custom_tags cfg req = elim cfg.tags_extractor [ none ↦ [] | some f ↦ f req ]

abbrev pub option_of : ℕ → FinishSpanOption
option_of status = record {
  option_status = pos status;
  option_finish_time = none;
  disable_panic_capture = false;
}

module _ (u : Setup) where
  -- What happens while the request is performed, how it ends, and when.
  pub record Exchange : Type 0 where
    pub events : List (Event u)
    pub outcome : Outcome
    pub end_time : ℕ

  pub tags_before : ℕ → Config → Request → List (Event u)
  unfolding custom_tags
  tags_before place cfg req =
      map (λ t. tag_event place t.0 (string_value t.1))
        ((codes "http.method", req.method) ∷ (url_tags req.url ++ custom_tags cfg req))

  -- The calls after the base round tripper. No panic is under way, so that recover() finds none.
  pub calls_after : ℕ → ℕ → Outcome → List (Event u)
  calls_after place now (failed message) =
      tag_event place (codes "http.status_code") (int_value (pos 500))
      ∷ error_event place (record { error_kind = external_service_error; error_message = message })
      ∷ finish_option_event place now none (option_of 1)
      ∷ []
  calls_after place now (responded code) =
      tag_event place (codes "http.status_code") (int_value (pos code))
      ∷ (if code == 200
          then finish_event place now none
          else finish_option_event place now none (option_of code))
      ∷ []

  -- The headers that are sent: the request's, with the context of the span at `place` injected.
  pub sent_headers : Library → ℕ → Request → World → List Header
  sent_headers lib place req w = elim (get_elem? w.ctx.spans place) [
    | none ↦ req.header
    | some s ↦ inject_headers lib (span_context w.ctx s) req.header
  ]

  -- RoundTrip of a request that is not nil: the place of the span, the trace when the round trip
  -- is over, and the headers that were sent.
  unfoldable pub round_trip :
      Library
      → Option (Context → Option Context)
      → Config
      → Request
      → Context
      → Starting
      → Exchange
      → World
      → ℕ × World × List Header
  round_trip lib adapter cfg req ctx a x w =
      let (place, started, ctx') =
        start_span_from_context u adapter ctx (client_span_config cfg req) a w in
      let tagged = run u started (tags_before place cfg req) in
      (
        place,
        run u tagged (x.events ++ calls_after place x.end_time x.outcome),
        sent_headers lib place req tagged,
      )
