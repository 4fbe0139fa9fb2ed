-- ===== src/Tracing/Run.antt =====
-- A trace that runs: Finish and FinishWithOption of trace/aitracer/span.go, finishSpan of
-- trace_context.go, startSpan of tracer.go, and the channel to the trace senders. A span is named
-- by its place in the trace. Other traces of the tracer share the channel.
pub mod Counts
pub mod Offers
pub mod Finish
pub mod Report
pub mod Calls
use apminsight_server_sdk_go.Prelude.{
  ℕ, zero, suc, ◌+◌, Bool, true, false, List, [], ◌∷◌, ◌++◌, Option, none, some, Bytes, length,
  get_elem?, ltb, ◌==◌, if◌then◌else◌,
}
use apminsight_server_sdk_go.Prelude.Int.{ℤ, pos}
use apminsight_server_sdk_go.Propagation.{SpanContext}
use apminsight_server_sdk_go.Tracing.Span.{
  SpanType, ErrorInfo, Dict, Span, FinishSpanOption, set_status, record_error, TagValue, set_tag,
  set_baggage_item, finish_fields, finish_fields_with_option,
}
use apminsight_server_sdk_go.Tracing.Sampling.{TraceContext, decide, add_span}
use apminsight_server_sdk_go.Tracing.Emit.{
  Setup, MetricCall, Trace, metric_calls, emit_trace, wanted,
}

-- `chan` is the channel to the senders, oldest first; `metrics` the calls of the metrics client and
-- `offered` the traces that were offered to the channel, both oldest first.
pub record World : Type 0 where
  pub ctx : TraceContext
  pub chan : List Trace
  pub metrics : List MetricCall
  pub offered : List Trace

-- StartSpanConfig without the parent, with the name of the span.
pub record StartSpanConfig : Type 0 where
  pub name : Bytes
  pub span_type : SpanType
  pub server_resource : Bytes
  pub client_service_type : Bytes
  pub client_service : Bytes
  pub client_resource : Bytes

unfoldable pub new_span : StartSpanConfig → ℕ → Bytes → Bytes → Dict → Span
new_span cfg now span_id parent_span_id baggage = record {
  span_type = cfg.span_type;
  status = pos 0;
  operation_name = cfg.name;
  server_resource = cfg.server_resource;
  client_type = cfg.client_service_type;
  client_service = cfg.client_service;
  client_resource = cfg.client_resource;
  error_info_list = [];
  start_time = now;
  finish_time = 0;
  duration = pos 0;
  tags_string = [];
  tags_int64 = [];
  tags_float64 = [];
  span_id = span_id;
  parent_span_id = parent_span_id;
  baggage = baggage;
  finished = false;
  collected = false;
}

-- A write through the pointer to the span at a place.
pub update_at : ℕ → (Span → Span) → List Span → List Span
update_at i f [] = []
update_at zero f (s ∷ spans) = f s ∷ spans
update_at (suc i) f (s ∷ spans) = s ∷ update_at i f spans

pub update : ℕ → (Span → Span) → World → World
unfolding update_at
update i f w = record w { ctx = record (w.ctx) { spans = update_at i f w.ctx.spans } }

-- The `select` with a default: a full channel drops the trace.
pub offer : ℕ → Option Trace → World → World
offer size none w = w
offer size (some t) w = record w {
  chan = if ltb (length w.chan) size then w.chan ++ t ∷ [] else w.chan;
  offered = w.offered ++ t ∷ [];
}

module _ (u : Setup) where
  pub collect : World → World
  unfolding offer
  collect w =
      if wanted w.ctx
      then (let (spans, trace) = emit_trace u w.ctx.trace_id w.ctx.spans in
          offer u.chan_size trace (record w { ctx = record (w.ctx) { spans = spans } }))
      else w

  pub finish_span : World → World
  unfolding collect
  finish_span w =
      let w' = record w { ctx = record (w.ctx) { finish_count = w.ctx.finish_count + 1 } } in
      if w'.ctx.finish_count == length w'.ctx.spans then collect w' else w'

  -- What follows the swap of `finished`: `f` writes the fields of the span, then come emitMetric
  -- and finishSpan.
  pub finish_by : ℕ → (Span → Span) → World → World
  unfolding update finish_span
  finish_by i f w = elim (get_elem? w.ctx.spans i) [
    | none ↦ w
    | some s ↦
        if s.finished
        then w
        else finish_span
            (record (update i f w) { metrics = w.metrics ++ metric_calls u w.ctx (f s) })
  ]

  -- Finish at the time `now`, with the message of the panic that recover() finds.
  pub finish : ℕ → ℕ → Option Bytes → World → World
  unfolding finish_by
  finish i now panic = finish_by i (finish_fields u.slow_query now panic)

  pub finish_with_option : ℕ → ℕ → Option Bytes → FinishSpanOption → World → World
  unfolding finish_by
  finish_with_option i now panic opt =
      finish_by i (finish_fields_with_option u.slow_query now panic opt)

  -- startSpan with the span at `i` as its parent, `answer` being what the sampler would answer.
  unfoldable pub start_child : ℕ → StartSpanConfig → ℕ → Bytes → Bool × ℕ → World → World
  unfolding new_span
  start_child i cfg now span_id answer w = elim (get_elem? w.ctx.spans i) [
    | none ↦ w
    | some parent ↦ record w {
      ctx = add_span (new_span cfg now span_id parent.span_id parent.baggage) (decide answer w.ctx);
    }
  ]

  -- The first span of a trace: startSpan without a parent, or with a propagated one, `tc` being
  -- the context that it makes.
  unfoldable pub start_trace :
      TraceContext → StartSpanConfig → ℕ → Bytes → Bytes → Dict → Bool × ℕ → List Trace → World
  unfolding new_span
  start_trace tc cfg now span_id parent_span_id baggage answer chan = record {
    ctx = add_span (new_span cfg now span_id parent_span_id baggage) (decide answer tc);
    chan = chan;
    metrics = [];
    offered = [];
  }

  -- What the goroutines do, one call at a time: the calls on spans of this trace, a sender that
  -- receives, another trace that is offered.
  pub data Event : Type 0 where
    start_event : ℕ → StartSpanConfig → ℕ → Bytes → Bool × ℕ → Event
    finish_event : ℕ → ℕ → Option Bytes → Event
    finish_option_event : ℕ → ℕ → Option Bytes → FinishSpanOption → Event
    status_event : ℕ → ℤ → Event
    error_event : ℕ → ErrorInfo → Event
    tag_event : ℕ → Bytes → TagValue → Event
    baggage_event : ℕ → Bytes → Bytes → Event
    receive_event : Event
    other_event : Trace → Event

  pub receive : World → World
  receive w = elim w.chan [ [] ↦ w | t ∷ rest ↦ record w { chan = rest } ]

  pub step : World → Event → World
  unfolding start_child finish finish_with_option update receive
  step w (start_event i cfg now id answer) = start_child i cfg now id answer w
  step w (finish_event i now panic) = finish i now panic w
  step w (finish_option_event i now panic opt) = finish_with_option i now panic opt w
  step w (status_event i status) = update i (set_status status) w
  step w (error_event i e) = update i (record_error e) w
  step w (tag_event i k v) = update i (set_tag u.widen k v) w
  step w (baggage_event i k v) = update i (set_baggage_item k v) w
  step w receive_event = receive w
  step w (other_event t) = record w {
    chan = if ltb (length w.chan) u.chan_size then w.chan ++ t ∷ [] else w.chan;
  }

  pub run : World → List Event → World
  unfolding step
  run w [] = w
  run w (e ∷ es) = run (step w e) es
