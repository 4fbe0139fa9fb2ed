-- ===== src/Tracing/Tests.antt =====
-- A trace of two spans.
use apminsight_server_sdk_go.Prelude.{
  arith, ◌+◌, ◌≡◌, refl, true, false, List, [], ◌∷◌, ◌++◌, none, some, codes, length, ltb,
  if◌then◌else◌, get_elem?, All,
}
use apminsight_server_sdk_go.Prelude.Int.{pos}
use apminsight_server_sdk_go.Propagation.Binary.{inject, extract, ok}
use apminsight_server_sdk_go.Propagation.Binary.RoundTrip.{IsWritable, Fresh}
use apminsight_server_sdk_go.Tracing.Sampling.Remote.{decide-remote_context}
use apminsight_server_sdk_go.Propagation.{
  sampled, flags_server_sampled, SpanContext, flags_unknown, flags_sampled,
}
use apminsight_server_sdk_go.Tracing.Span.{
  server_span_type, client_span_type, FinishSpanOption, string_value,
}
use apminsight_server_sdk_go.Tracing.Sampling.{
  TraceContext, new_context, remote_context, decide, add_span,
}
use apminsight_server_sdk_go.Tracing.Emit.{Setup, Trace, wanted}
use apminsight_server_sdk_go.Tracing.Run.{
  World, StartSpanConfig, start_trace, new_span, Event, start_event, finish_event, tag_event,
  receive_event, finish, finish_with_option, run,
}
use apminsight_server_sdk_go.Tracing.Run.Offers.{IsValid, run-accounts}
use apminsight_server_sdk_go.Tracing.Run.Finish.{finish-twice, finish-last}

abbrev setup : Setup
setup = record {
  service_type = codes "http";
  service = codes "shop";
  container_id = codes "c";
  instance_id = codes "i";
  server_tag_keys = [];
  client_tag_keys = [];
  with_metrics = true;
  emit_control = false;
  slow_query = none;
  chan_size = 4;
  format_int = λ n. codes "0";
  widen = λ bits. bits;
}

abbrev server : StartSpanConfig
server = record {
  name = codes "get";
  span_type = server_span_type;
  server_resource = codes "/";
  client_service_type = [];
  client_service = [];
  client_resource = [];
}

abbrev client : StartSpanConfig
client = record server { name = codes "query"; span_type = client_span_type }

abbrev context : TraceContext
context = new_context (codes "t") (codes "/")

abbrev begun : World
begun = start_trace setup context server 5 (codes "a") [] [] (true, 1) []

abbrev events : List (Event setup)
events =
    start_event 0 client 6 (codes "b") (false, 0)
    ∷ tag_event 1 (codes "k") (string_value (codes "v"))
    ∷ finish_event 1 8 none
    ∷ finish_event 0 9 (some (codes "oops"))
    ∷ finish_event 0 10 none
    ∷ receive_event
    ∷ []

context_spans : (new_context (codes "t") (codes "/")).spans ≡ []
unfolding new_context
context_spans = refl

context_count : (new_context (codes "t") (codes "/")).finish_count ≡ 0
unfolding new_context
context_count = refl

context_flags : (new_context (codes "t") (codes "/")).sample_flags ≡ flags_unknown
unfolding new_context
context_flags = refl

run-accounts_example : IsValid (run setup begun events)
run-accounts_example =
    run-accounts setup context server 5 (codes "a") [] [] (true, 1) [] events context_spans
      context_count

abbrev opt : FinishSpanOption
opt = record { option_status = pos 1; option_finish_time = some 7; disable_panic_capture = true }

finish-twice_example :
    (finish setup 0 9 (some (codes "oops")) (finish setup 0 8 none begun)
      ≡ finish setup 0 8 none begun)
    × (finish_with_option setup 0 9 (some (codes "oops")) opt (finish setup 0 8 none begun)
        ≡ finish setup 0 8 none begun)
    × (finish setup 0 9 (some (codes "oops")) (finish_with_option setup 0 8 none opt begun)
        ≡ finish_with_option setup 0 8 none opt begun)
finish-twice_example = finish-twice setup 0 8 9 none (some (codes "oops")) opt begun

begun_span : get_elem? begun.ctx.spans 0 ≡ some (new_span server 5 (codes "a") [] [])
unfolding start_trace add_span decide new_context
begun_span = refl

span_running : (new_span server 5 (codes "a") [] []).finished ≡ false
unfolding new_span
span_running = refl

begun_count : begun.ctx.finish_count + 1 ≡ length begun.ctx.spans
unfolding start_trace add_span decide new_context
begun_count = refl

begun_wanted : wanted begun.ctx ≡ true
unfolding start_trace add_span decide new_context wanted flags_sampled
begun_wanted = refl

finish-last_example :
    All (λ t. t.collected ≡ true) (finish setup 0 9 none begun).ctx.spans
    × ((t : Trace) × ((finish setup 0 9 none begun).offered ≡ begun.offered ++ t ∷ [])
        × (t.trace_id ≡ begun.ctx.trace_id)
        × ((finish setup 0 9 none begun).chan
            ≡ (if ltb (length begun.chan) 4 then begun.chan ++ t ∷ [] else begun.chan)))
finish-last_example =
    finish-last setup 0 9 none begun (new_span server 5 (codes "a") [] []) refl begun_span
      span_running begun_count begun_wanted

abbrev incoming : SpanContext
incoming = record {
  trace_id = codes "t";
  span_id = codes "s";
  strategy = sampled;
  weight = pos 3;
  client_sampled = true;
  flags = flags_server_sampled;
  baggage = [];
}

no_keys : Fresh [] []
unfolding Fresh
no_keys = tt

incoming-IsWritable : IsWritable incoming
incoming-IsWritable = record {
  decided = λ e. cc;
  trace_in = omega arith;
  span_in = omega arith;
  weight_in = (omega arith, omega arith);
  count_in = omega arith;
  keys = no_keys;
}

decide-remote_context_example :
    (received : SpanContext) × (extract (inject incoming ++ []) ≡ ok (received, []))
    × ((decide (false, 0) (remote_context received (codes "/"))).trace_id ≡ codes "t")
    × ((decide (false, 0) (remote_context received (codes "/"))).sample_strategy ≡ sampled)
    × ((decide (false, 0) (remote_context received (codes "/"))).sample_weight ≡ pos 3)
    × ((decide (false, 0) (remote_context received (codes "/"))).sample_flags
        ≡ flags_server_sampled)
    × ((decide (false, 0) (remote_context received (codes "/"))).resource ≡ codes "/")
decide-remote_context_example =
    decide-remote_context incoming [] (codes "/") (false, 0) incoming-IsWritable (λ e. cc)
