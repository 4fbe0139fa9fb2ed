-- ===== src/Tracing/Run/Finish.antt =====
-- What one Finish does: on a span that has finished, and on the last span of a trace.
use apminsight_server_sdk_go.Prelude.{
  ℕ, zero, suc, ◌+◌, ◌<◌, ◌≡◌, refl, ap, ◌∙◌, sym, true, false, List, [], ◌∷◌, ◌++◌, Option, none,
  some, Bytes, length, get_elem?, if◌then◌else◌, All, Bool-cases, Option-cases, inl, inr, arith,
  some_inj, ltb, ◌==◌,
}
use apminsight_server_sdk_go.Tracing.Span.{Span, FinishSpanOption, finish_fields}
use apminsight_server_sdk_go.Tracing.Span.Flags.{
  IsFinishing, finish_fields-IsFinishing, finish_fields_with_option-IsFinishing,
}
use apminsight_server_sdk_go.Tracing.Emit.{
  Setup, Trace, metric_calls, mark, emit_spans, emit_trace, wanted, should_emit, first_resource,
}
use apminsight_server_sdk_go.Tracing.Run.{
  World, update_at, update, offer, collect, finish_span, finish_by, finish, finish_with_option,
}
use apminsight_server_sdk_go.Tracing.Run.Counts.{length-update_at, emit_spans-All}

-- The span at a place has finished.
abbrev pub FinishedAt : ℕ → List Span → Type 0
FinishedAt i ss = (s : Span) × (get_elem? ss i ≡ some s) × (s.finished ≡ true)

FinishedAt-update_at :
    (i : ℕ) (f : Span → Span) (ss : List Span) (s : Span)
    → IsFinishing f
    → get_elem? ss i ≡ some s
    → FinishedAt i (update_at i f ss)
unfolding update_at
FinishedAt-update_at i f [] s q e = absurd cc
FinishedAt-update_at zero f (t ∷ ss) s q e = (f t, refl, q.finished_set t)
FinishedAt-update_at (suc i) f (t ∷ ss) s q e = FinishedAt-update_at i f ss s q e

FinishedAt-emit_spans :
    (r : Bytes) (i : ℕ) (ss : List Span) → FinishedAt i ss → FinishedAt i (emit_spans r ss).0
unfolding emit_spans mark
FinishedAt-emit_spans r i [] h = h
FinishedAt-emit_spans r zero (t ∷ ss) (s, e, h) = elim (Bool-cases t.collected) [
  | inl y ↦ rw y (_, refl, rw (some_inj e) h)
  | inr n ↦ rw n (_, refl, rw (some_inj e) h)
]
FinishedAt-emit_spans r (suc i) (t ∷ ss) h = elim (Bool-cases t.collected) [
  | inl y ↦ rw y (FinishedAt-emit_spans r i ss h)
  | inr n ↦ rw n (FinishedAt-emit_spans r i ss h)
]

module _ (u : Setup) where
  FinishedAt-emit :
      (i : ℕ) (ss : List Span) (w : World)
      → FinishedAt i ss
      → FinishedAt i
          (offer u.chan_size (emit_trace u w.ctx.trace_id ss).1 (record w {
            ctx = record (w.ctx) { spans = (emit_trace u w.ctx.trace_id ss).0 };
          })).ctx.spans
  unfolding emit_trace offer
  FinishedAt-emit i [] w h = h
  FinishedAt-emit i (s ∷ ss) w h = elim (Bool-cases (should_emit u s)) [
    | inl y ↦ rw y (FinishedAt-emit_spans (first_resource s) i (s ∷ ss) h)
    | inr n ↦ rw n h
  ]

  FinishedAt-finish_span :
      (i : ℕ) (w : World) → FinishedAt i w.ctx.spans → FinishedAt i (finish_span u w).ctx.spans
  unfolding finish_span collect
  FinishedAt-finish_span i w h = elim (Bool-cases (w.ctx.finish_count + 1 == length w.ctx.spans)) [
    | inl y ↦
        elim (Bool-cases (wanted (record (w.ctx) { finish_count = w.ctx.finish_count + 1 }))) [
          | inl sampled ↦
              rw (y, sampled)
                (FinishedAt-emit i w.ctx.spans
                  (record w { ctx = record (w.ctx) { finish_count = w.ctx.finish_count + 1 } }) h)
          | inr not ↦ rw (y, not) h
        ]
    | inr n ↦ rw n h
  ]

  finish_by-again :
      (i : ℕ) (f : Span → Span) (w : World) → FinishedAt i w.ctx.spans → finish_by u i f w ≡ w
  unfolding finish_by
  finish_by-again i f w (s, e, h) = rw (finish_by, e, h) refl

  finish_by-absent :
      (i : ℕ) (f : Span → Span) (w : World) → get_elem? w.ctx.spans i ≡ none → finish_by u i f w ≡ w
  unfolding finish_by
  finish_by-absent i f w e = rw (finish_by, e) refl

  finish_by-twice :
      (i : ℕ) (f g : Span → Span) (w : World)
      → IsFinishing f
      → finish_by u i g (finish_by u i f w) ≡ finish_by u i f w
  unfolding finish_by update
  finish_by-twice i f g w q = elim (Option-cases (get_elem? w.ctx.spans i)) [
    | inl e ↦
        ap (finish_by u i g) (finish_by-absent i f w e)
        ∙ finish_by-absent i g w e
        ∙ sym (finish_by-absent i f w e)
    | inr (s, e) ↦ elim (Bool-cases s.finished) [
      | inl y ↦
          let stays = finish_by-again i f w (s, e, y) in
          ap (finish_by u i g) stays ∙ finish_by-again i g w (s, e, y) ∙ sym stays
      | inr n ↦ finish_by-again i g (finish_by u i f w) (
          rw (finish_by, e, n)
            (FinishedAt-finish_span i _ (FinishedAt-update_at i f w.ctx.spans s q e)))
    ]
  ]

  -- Once a span was finished, by Finish or FinishWithOption, a Finish does nothing, whatever panic
  -- it finds; nor does a FinishWithOption after a Finish.
  pub finish-twice :
      (i now later : ℕ) (panic second_panic : Option Bytes) (opt : FinishSpanOption) (w : World)
      → (finish u i later second_panic (finish u i now panic w) ≡ finish u i now panic w)
        × (finish_with_option u i later second_panic opt (finish u i now panic w)
            ≡ finish u i now panic w)
        × (finish u i later second_panic (finish_with_option u i now panic opt w)
            ≡ finish_with_option u i now panic opt w)
  unfolding finish finish_with_option
  finish-twice i now later panic second_panic opt w = (
    finish_by-twice i _ _ w (finish_fields-IsFinishing u.slow_query now panic),
    finish_by-twice i _ _ w (finish_fields-IsFinishing u.slow_query now panic),
    finish_by-twice i _ _ w (finish_fields_with_option-IsFinishing u.slow_query now panic opt),
  )

  emit-All :
      (ss : List Span) (w : World)
      → u.emit_control ≡ false
      → 0 < length ss
      → let w' =
          offer u.chan_size
            (emit_trace u w.ctx.trace_id ss).1
            (record w { ctx = record (w.ctx) { spans = (emit_trace u w.ctx.trace_id ss).0 } }) in
        All (λ s. s.collected ≡ true) w'.ctx.spans
        × ((t : Trace) × (w'.offered ≡ w.offered ++ t ∷ [])
            × (t.trace_id ≡ w.ctx.trace_id)
            × (w'.chan ≡ (if ltb (length w.chan) u.chan_size then w.chan ++ t ∷ [] else w.chan)))
  unfolding emit_trace offer should_emit
  emit-All [] w free some_span = absurd (omega arith)
  emit-All (s ∷ ss) w free some_span =
      rw free (emit_spans-All (first_resource s) (s ∷ ss), (_, refl, refl, refl))

  finish_by-running :
      (i : ℕ) (f : Span → Span) (w : World) (s : Span)
      → get_elem? w.ctx.spans i ≡ some s
      → s.finished ≡ false
      → finish_by u i f w
        ≡ finish_span u
            (record (update i f w) { metrics = w.metrics ++ metric_calls u w.ctx (f s) })
  unfolding finish_by
  finish_by-running i f w s e running = rw (finish_by, e, running) refl

  finish_span-last :
      (w : World)
      → u.emit_control ≡ false
      → w.ctx.finish_count + 1 ≡ length w.ctx.spans
      → wanted w.ctx ≡ true
      → All (λ t. t.collected ≡ true) (finish_span u w).ctx.spans
        × ((t : Trace) × ((finish_span u w).offered ≡ w.offered ++ t ∷ [])
            × (t.trace_id ≡ w.ctx.trace_id)
            × ((finish_span u w).chan
                ≡ (if ltb (length w.chan) u.chan_size then w.chan ++ t ∷ [] else w.chan)))
  unfolding finish_span collect wanted
  finish_span-last w free last sampled =
      let is_last : (w.ctx.finish_count + 1 == length w.ctx.spans) ≡ true = ground arith in
      rw (is_last, sampled)
        (emit-All w.ctx.spans
          (record w { ctx = record (w.ctx) { finish_count = w.ctx.finish_count + 1 } }) free
          (omega (arith, last)))

  -- When the last span of a trace that is wanted finishes, without the emission control, every
  -- span is collected and one trace, with the id of the context, is offered: the channel takes it
  -- if it has room, and drops it otherwise.
  pub finish-last :
      (i now : ℕ) (panic : Option Bytes) (w : World) (s : Span)
      → u.emit_control ≡ false
      → get_elem? w.ctx.spans i ≡ some s
      → s.finished ≡ false
      → w.ctx.finish_count + 1 ≡ length w.ctx.spans
      → wanted w.ctx ≡ true
      → All (λ t. t.collected ≡ true) (finish u i now panic w).ctx.spans
        × ((t : Trace) × ((finish u i now panic w).offered ≡ w.offered ++ t ∷ [])
            × (t.trace_id ≡ w.ctx.trace_id)
            × ((finish u i now panic w).chan
                ≡ (if ltb (length w.chan) u.chan_size then w.chan ++ t ∷ [] else w.chan)))
  unfolding finish update wanted
  finish-last i now panic w s free e running last sampled =
      let f = finish_fields u.slow_query now panic in
      rw (finish_by-running i f w s e running) (
        finish_span-last
          (record (update i f w) { metrics = w.metrics ++ metric_calls u w.ctx (f s) }) free
          (rw (length-update_at i f w.ctx.spans) (omega (arith, last))) sampled)
