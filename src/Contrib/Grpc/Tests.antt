-- ===== src/Contrib/Grpc/Tests.antt =====
-- A call that the server answers with an error of code 5, and one from the client that panics.
use apminsight_server_sdk_go.Prelude.{◌≡◌, refl, true, false, List, [], ◌∷◌, none, some, codes, inl}
use apminsight_server_sdk_go.Propagation.Headers.{Library}
use apminsight_server_sdk_go.Tracing.Span.{business_error, external_service_error}
use apminsight_server_sdk_go.Tracing.Sampling.{new_context}
use apminsight_server_sdk_go.Tracing.Emit.{Setup}
use apminsight_server_sdk_go.Tracing.Run.{World, receive_event}
use apminsight_server_sdk_go.Tracing.Run.Report.{report_at}
use apminsight_server_sdk_go.Tracing.Context.{Context, Starting, get_span_from_context}
use apminsight_server_sdk_go.Contrib.Grpc.{
  Incoming, Config, with_baggage_setter, with_target_service_type, failed, panicked, Call,
  unary_server, unary_client,
}
use apminsight_server_sdk_go.Contrib.Grpc.Reported.{reported, unary-reports}

abbrev setup : Setup
setup = record {
  service_type = codes "grpc";
  service = codes "shop";
  container_id = [];
  instance_id = [];
  server_tag_keys = [];
  client_tag_keys = [];
  with_metrics = false;
  emit_control = false;
  slow_query = none;
  chan_size = 4;
  format_int = λ n. codes "0";
  widen = λ bits. bits;
}

abbrev incoming : Incoming
incoming = record {
  full_method = codes "/Shop/Get";
  metadata = (codes "x-trace-id", codes "t") ∷ (codes "x-span-id", codes "s") ∷ [];
}

abbrev options : List (Config → Config)
options =
    with_baggage_setter (some (λ c. (codes "method", c.full_method) ∷ []))
    ∷ with_target_service_type (codes "rpc")
    ∷ []

abbrev starting : Starting
starting = record { trace_id = codes "u"; span_id = codes "a"; start_time = 5; answer = (true, 1) }

abbrev answered : Call setup
answered = record { events = receive_event ∷ []; ending = failed 5 (codes "no item"); end_time = 9 }

abbrev lost : Call setup
lost = record { events = []; ending = panicked (codes "oops"); end_time = 9 }

abbrev empty : World
empty = record { ctx = new_context (codes "t") []; chan = []; metrics = []; offered = [] }

abbrev outside : Context
outside = record { active_span = none }

outside_inactive : get_span_from_context none (some outside) ≡ none
unfolding get_span_from_context
outside_inactive = refl

-- No key changes, and the weight is 1.
abbrev library : Library
library = record { canonical = λ k. k; itoa = λ z. codes "1" }

unary-reports_example :
    (report_at 0 (unary_server setup options incoming [] starting [] answered).ctx.spans
      ≡ some (reported business_error (failed 5 (codes "no item"))))
    × (let (place, w', sent) =
          unary_client setup library
            (λ k v meta. (k, v) ∷ meta)
            (λ hs. hs)
            none
            options
            (codes "shop:80")
            (codes "/Shop/Get")
            []
            outside
            starting
            lost
            empty in
        report_at place w'.ctx.spans
        ≡ some (reported external_service_error (panicked (codes "oops"))))
unary-reports_example =
    unary-reports setup options incoming [] [] library (λ k v meta. (k, v) ∷ meta) (λ hs. hs) none
      (codes "shop:80") (codes "/Shop/Get") [] outside starting answered lost empty (tt, tt)
      (inl outside_inactive) tt
