-- ===== src/Tracing/Context/Nested.antt =====
-- The span that is started from a context, beside the span of that context.
use apminsight_server_sdk_go.Prelude.{
  ℕ, ◌≡◌, refl, List, [], ◌∷◌, ◌++◌, Option, none, some, length, get_elem?, ◌⊎◌, inl, inr,
}
use apminsight_server_sdk_go.Propagation.{SpanContext}
use apminsight_server_sdk_go.Tracing.Span.{Span}
use apminsight_server_sdk_go.Tracing.Span.Reports.{report}
use apminsight_server_sdk_go.Tracing.Sampling.{decide, add_span, new_context, trace_resource}
use apminsight_server_sdk_go.Tracing.Sampling.Decision.{decide-once}
use apminsight_server_sdk_go.Tracing.Emit.{Setup}
use apminsight_server_sdk_go.Tracing.Run.{
  World, StartSpanConfig, start_child, start_trace, new_span,
}
use apminsight_server_sdk_go.Tracing.Run.Report.{report_at}
use apminsight_server_sdk_go.Tracing.Run.Calls.{fresh, report_at-start_trace}
use apminsight_server_sdk_go.Tracing.Context.{
  Context, span_context, context_with_span, get_span_from_context, Starting,
  start_span_from_context,
}

get_elem?-last {ℓ} :
    {A : Type ℓ} (xs : List A) (x : A) → get_elem? (xs ++ x ∷ []) (length xs) ≡ some x
get_elem?-last [] x = refl
get_elem?-last (y ∷ xs) x = get_elem?-last xs x

report_at-last :
    (ss : List Span) (s : Span) → report_at (length ss) (ss ++ s ∷ []) ≡ some (report s)
report_at-last [] s = refl
report_at-last (t ∷ ss) s = report_at-last ss s

module _ (u : Setup) where
  pub start_span_from_context-active :
      (adapter : Option (Context → Option Context)) (ctx : Context) (cfg : StartSpanConfig)
      (a : Starting) (w : World) (i : ℕ) (parent : Span)
      → get_span_from_context adapter (some ctx) ≡ some i
      → get_elem? w.ctx.spans i ≡ some parent
      → start_span_from_context u adapter ctx cfg a w ≡ (
        length w.ctx.spans,
        record w {
          ctx =
              add_span
                (new_span cfg a.start_time a.span_id parent.span_id parent.baggage)
                (decide a.answer w.ctx);
        },
        context_with_span (length w.ctx.spans) ctx,
      )
  unfolding start_span_from_context start_child
  start_span_from_context-active adapter ctx cfg a w i parent active there =
      rw (start_span_from_context, active, start_child, there) refl

  start_span_from_context-root :
      (adapter : Option (Context → Option Context)) (ctx : Context) (cfg : StartSpanConfig)
      (a : Starting) (w : World)
      → get_span_from_context adapter (some ctx) ≡ none
      → start_span_from_context u adapter ctx cfg a w ≡ (
        0,
        start_trace u
            (new_context a.trace_id (trace_resource cfg.server_resource))
            cfg
            a.start_time
            a.span_id
            []
            []
            a.answer
            w.chan,
        context_with_span 0 ctx,
      )
  unfolding start_span_from_context
  start_span_from_context-root adapter ctx cfg a w e = rw (start_span_from_context, e) refl

  -- With a span in the context, the new span is the last of its trace, whose id stays; its parent
  -- is that span, and it has that span's baggage; the other spans are not touched. Without an
  -- adapter the context that is returned has the new span.
  pub start_span_from_context-IsNested :
      (adapter : Option (Context → Option Context)) (ctx : Context) (cfg : StartSpanConfig)
      (a : Starting) (w : World) (i : ℕ) (parent : Span)
      → get_span_from_context adapter (some ctx) ≡ some i
      → get_elem? w.ctx.spans i ≡ some parent
      → let (place, w', ctx') = start_span_from_context u adapter ctx cfg a w in
        (s : Span) × (w'.ctx.spans ≡ w.ctx.spans ++ s ∷ [])
        × (get_elem? w'.ctx.spans place ≡ some s)
        × (s.span_id ≡ a.span_id)
        × (s.parent_span_id ≡ parent.span_id)
        × (s.baggage ≡ parent.baggage)
        × (w'.ctx.trace_id ≡ w.ctx.trace_id)
        × (get_span_from_context none (some ctx') ≡ some place)
  unfolding context_with_span get_span_from_context new_span add_span
  start_span_from_context-IsNested adapter ctx cfg a w i parent active there =
      let d = (decide-once a.answer a.answer w.ctx).0 in
      let s = new_span cfg a.start_time a.span_id parent.span_id parent.baggage in
      rw
        (
          start_span_from_context-active adapter ctx cfg a w i parent active there,
          d.same_spans,
          d.same_id,
        )
        (s, refl, get_elem?-last w.ctx.spans s, refl, refl, refl, refl, refl)

  -- What the new span propagates.
  abbrev pub propagated : Starting → World → Span → SpanContext
  propagated a w parent = record {
    trace_id = w.ctx.trace_id;
    span_id = a.span_id;
    strategy = (decide a.answer w.ctx).sample_strategy;
    weight = (decide a.answer w.ctx).sample_weight;
    client_sampled = (decide a.answer w.ctx).client_sampled;
    flags = (decide a.answer w.ctx).sample_flags;
    baggage = parent.baggage;
  }

  pub start_span_from_context-propagated :
      (adapter : Option (Context → Option Context)) (ctx : Context) (cfg : StartSpanConfig)
      (a : Starting) (w : World) (i : ℕ) (parent : Span)
      → get_span_from_context adapter (some ctx) ≡ some i
      → get_elem? w.ctx.spans i ≡ some parent
      → let (place, w', ctx') = start_span_from_context u adapter ctx cfg a w in
        (s : Span) × (get_elem? w'.ctx.spans place ≡ some s)
        × (span_context w'.ctx s ≡ propagated a w parent)
  unfolding new_span add_span span_context
  start_span_from_context-propagated adapter ctx cfg a w i parent active there =
      let d = (decide-once a.answer a.answer w.ctx).0 in
      let s = new_span cfg a.start_time a.span_id parent.span_id parent.baggage in
      rw
        (
          start_span_from_context-active adapter ctx cfg a w i parent active there,
          d.same_spans,
          d.same_id,
        )
        (s, get_elem?-last w.ctx.spans s, refl)

  -- The span of the context, if it has one, is in the trace.
  abbrev pub Carries : Option (Context → Option Context) → Context → World → Type 0
  Carries adapter ctx w =
      (get_span_from_context adapter (some ctx) ≡ none)
      ⊎ ((i : ℕ) × (parent : Span) × (get_span_from_context adapter (some ctx) ≡ some i)
          × (get_elem? w.ctx.spans i ≡ some parent))

  pub start_span_from_context-fresh :
      (adapter : Option (Context → Option Context)) (ctx : Context) (cfg : StartSpanConfig)
      (a : Starting) (w : World)
      → Carries adapter ctx w
      → report_at
          (start_span_from_context u adapter ctx cfg a w).0
          (start_span_from_context u adapter ctx cfg a w).1.ctx.spans
        ≡ some fresh
  unfolding new_context new_span add_span
  start_span_from_context-fresh adapter ctx cfg a w (inl e) =
      rw (start_span_from_context-root adapter ctx cfg a w e)
        (report_at-start_trace u _ _ _ _ _ _ _ _ refl)
  start_span_from_context-fresh adapter ctx cfg a w (inr (i, parent, active, there)) =
      let d = (decide-once a.answer a.answer w.ctx).0 in
      let s = new_span cfg a.start_time a.span_id parent.span_id parent.baggage in
      rw (start_span_from_context-active adapter ctx cfg a w i parent active there, d.same_spans)
        (report_at-last w.ctx.spans s)
