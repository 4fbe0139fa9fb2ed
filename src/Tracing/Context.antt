-- ===== src/Tracing/Context.antt =====
-- Spans carried by a context.Context: startSpanFromContext and GetSpanFromContext of
-- trace/aitracer/tracer.go, ContextWithSpan of interface.go, and trace/aitracer/span_context.go.
use apminsight_server_sdk_go.Prelude.{
  ℕ, Bool, List, [], ◌∷◌, Option, none, some, Bytes, length, get_elem?,
}
use apminsight_server_sdk_go.Propagation.{SpanContext}
use apminsight_server_sdk_go.Tracing.Span.{Span}
use apminsight_server_sdk_go.Tracing.Sampling.{TraceContext, new_context, trace_resource}
use apminsight_server_sdk_go.Tracing.Emit.{Setup}
use apminsight_server_sdk_go.Tracing.Run.{World, StartSpanConfig, start_trace, start_child}
pub mod Nested

-- What SpanID, TraceID, Sample, SampleFlags, ClientSampled and ForeachBaggageItem read.
unfoldable pub span_context : TraceContext → Span → SpanContext
span_context tc s = record {
  trace_id = tc.trace_id;
  span_id = s.span_id;
  strategy = tc.sample_strategy;
  weight = tc.sample_weight;
  client_sampled = tc.client_sampled;
  flags = tc.sample_flags;
  baggage = s.baggage;
}

-- A context is what it holds under `activeSpanContextKey`: the place of a span in the trace.
pub record Context : Type 0 where
  pub active_span : Option ℕ

unfoldable pub context_with_span : ℕ → Context → Context
context_with_span i ctx = record ctx { active_span = some i }

-- GetSpanFromContext, with the adapter of the tracer, if there is one. A nil context is `none`.
unfoldable pub get_span_from_context : Option (Context → Option Context) → Option Context → Option ℕ
get_span_from_context adapter none = none
get_span_from_context none (some ctx) = ctx.active_span
get_span_from_context (some adapt) (some ctx) = elim (adapt ctx) [
  | none ↦ ctx.active_span
  | some c ↦ c.active_span
]

-- The ids and the time that startSpan reads, and what the sampler would answer.
pub record Starting : Type 0 where
  pub trace_id : Bytes
  pub span_id : Bytes
  pub start_time : ℕ
  pub answer : Bool × ℕ

module _ (u : Setup) where
  -- The place of the span, its trace, and the context that has it. Without a span in the context
  -- the trace is a new one, on the same channel. The context is not nil: context.WithValue would
  -- panic.
  unfoldable pub start_span_from_context :
      Option (Context → Option Context)
      → Context
      → StartSpanConfig
      → Starting
      → World
      → ℕ × World × Context
  start_span_from_context adapter ctx cfg a w = elim (get_span_from_context adapter (some ctx)) [
    | none ↦ (
      0,
      start_trace u (new_context a.trace_id (trace_resource cfg.server_resource)) cfg a.start_time
          a.span_id [] [] a.answer w.chan,
      context_with_span 0 ctx,
    )
    | some i ↦ (
      length w.ctx.spans,
      start_child u i cfg a.start_time a.span_id a.answer w,
      context_with_span (length w.ctx.spans) ctx,
    )
  ]
