-- ===== src/Contrib/HttpClient/Tests.antt =====
-- A request inside a span, answered with the code 404.
use apminsight_server_sdk_go.Prelude.{
  ◌≡◌, ◌≢◌, refl, sym, ◌∙◌, length, true, false, List, [], ◌∷◌, none, some, codes, inr, arith,
  get_elem?,
}
use apminsight_server_sdk_go.Prelude.Int.{pos, atoi}
use apminsight_server_sdk_go.Propagation.Headers.{chain_of, Library, Header}
use apminsight_server_sdk_go.Tracing.Span.{Span, server_span_type}
use apminsight_server_sdk_go.Tracing.Sampling.{new_context, decide, add_span}
use apminsight_server_sdk_go.Tracing.Emit.{Setup}
use apminsight_server_sdk_go.Tracing.Run.{
  World, StartSpanConfig, start_trace, new_span, receive_event,
}
use apminsight_server_sdk_go.Tracing.Run.Report.{report_at}
use apminsight_server_sdk_go.Tracing.Context.{Context, Starting, get_span_from_context}
use apminsight_server_sdk_go.Contrib.HttpClient.{
  Request, new_default_config, responded, Exchange, round_trip,
}
use apminsight_server_sdk_go.Contrib.HttpClient.Reported.{reported, round_trip-reports}
use apminsight_server_sdk_go.Tracing.Emit.{wanted}
use apminsight_server_sdk_go.Contrib.Gin
use apminsight_server_sdk_go.Contrib.Gin.{GinContext, Arrival, start_server_span}
use apminsight_server_sdk_go.Contrib.Linked.{round_trip-links}
use apminsight_server_sdk_go.Prelude.{map}

abbrev setup : Setup
setup = record {
  service_type = codes "http";
  service = codes "shop";
  container_id = [];
  instance_id = [];
  server_tag_keys = [];
  client_tag_keys = [];
  with_metrics = false;
  emit_control = false;
  slow_query = none;
  chan_size = 4;
  format_int = λ n. codes "0";
  widen = λ bits. bits;
}

abbrev server : StartSpanConfig
server = record {
  name = codes "request";
  span_type = server_span_type;
  server_resource = codes "/";
  client_service_type = [];
  client_service = [];
  client_resource = [];
}

abbrev parent : Span
parent = new_span server 5 (codes "a") [] []

abbrev begun : World
begun =
    start_trace setup (new_context (codes "t") (codes "/")) server 5 (codes "a") [] [] (true, 1) []

parent_there : get_elem? begun.ctx.spans 0 ≡ some parent
unfolding start_trace add_span decide new_context new_span
parent_there = refl

abbrev inside : Context
inside = record { active_span = some 0 }

inside_active : get_span_from_context none (some inside) ≡ some 0
unfolding get_span_from_context
inside_active = refl

abbrev request : Request
request = record {
  method = codes "GET";
  url = some (record { scheme = codes "http"; host = codes "stock"; path = codes "/item/17" });
  header = [];
}

abbrev starting : Starting
starting = record { trace_id = codes "x"; span_id = codes "b"; start_time = 6; answer = (false, 0) }

abbrev exchange : Exchange setup
exchange = record { events = receive_event ∷ []; outcome = responded 404; end_time = 9 }

-- No key changes, and the weight is 1.
abbrev library : Library
library = record { canonical = λ k. k; itoa = λ z. codes "1" }

round_trip-reports_example :
    report_at
      (round_trip setup library none new_default_config request inside starting exchange begun).0
      (round_trip setup library none new_default_config request inside starting exchange
        begun).1.ctx.spans
    ≡ some (reported (responded 404))
round_trip-reports_example =
    round_trip-reports setup library none new_default_config request inside starting exchange begun
      (inr (0, parent, inside_active, parent_there)) (tt, tt)

weight_one : (decide (false, 0) begun.ctx).sample_weight ≡ pos 1
unfolding start_trace add_span decide new_context
weight_one = refl

weight_read : (atoi (codes "1")).0 ≡ pos 1
unfolding atoi
weight_read = refl

trace_named : length begun.ctx.trace_id ≢ 0
unfolding start_trace add_span decide new_context
trace_named e = omega arith

abbrev carrier : List Header
carrier =
    (round_trip setup library none new_default_config request inside starting exchange begun).2

abbrev called : GinContext
called = record { full_path = codes "/item/:id"; method = codes "GET"; url = none }

abbrev arrival : Arrival
arrival = record {
  trace_id = codes "u";
  span_id = codes "c";
  start_time = 7;
  answer = (false, 0);
  chan = [];
  chain = chain_of [] carrier;
}

round_trip-links_example :
    ((start_server_span setup Gin.new_default_config called arrival).ctx.trace_id
      ≡ begun.ctx.trace_id)
    × (map
          (λ s. s.parent_span_id)
          (start_server_span setup Gin.new_default_config called arrival).ctx.spans
        ≡ codes "b" ∷ [])
    × (wanted (start_server_span setup Gin.new_default_config called arrival).ctx
        ≡ wanted (decide starting.answer begun.ctx))
round_trip-links_example =
    round_trip-links setup setup library none new_default_config request inside starting exchange
      begun 0 parent carrier Gin.new_default_config called arrival [] (λ k. refl)
      (weight_read ∙ sym weight_one) inside_active parent_there refl trace_named (λ e. omega arith)
      (λ h m. m, λ h m. m) refl
