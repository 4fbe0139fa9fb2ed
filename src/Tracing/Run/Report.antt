-- ===== src/Tracing/Run/Report.antt =====
-- What a trace reports of one span, whatever happens to the others.
use apminsight_server_sdk_go.Prelude.{
  ℕ, zero, suc, ◌+◌, ◌≡◌, ◌≢◌, refl, ap, ◌∙◌, Bool, List, [], ◌∷◌, ◌++◌, Option, none, some, Bytes,
  length, get_elem?, All, Bool-cases, List-cases, Option-cases, inl, inr, some_inj, ◌==◌,
}
use apminsight_server_sdk_go.Tracing.Span.{Span}
use apminsight_server_sdk_go.Tracing.Span.Reports.{Report, report}
use apminsight_server_sdk_go.Tracing.Sampling.{add_span}
use apminsight_server_sdk_go.Tracing.Sampling.Decision.{decide-once}
use apminsight_server_sdk_go.Tracing.Emit.{
  Setup, Trace, mark, emit_spans, emit_trace, wanted, should_emit, first_resource,
}
use apminsight_server_sdk_go.Tracing.Run.{
  World, StartSpanConfig, update_at, update, offer, collect, finish_span, finish_by, finish,
  finish_with_option, start_child, new_span, Event, start_event, finish_event, finish_option_event,
  status_event, error_event, tag_event, baggage_event, receive_event, other_event, receive, step,
  run,
}

abbrev pub report_at : ℕ → List Span → Option Report
report_at i [] = none
report_at zero (s ∷ ss) = some (report s)
report_at (suc i) (s ∷ ss) = report_at i ss

report_at-update_at_other :
    (i j : ℕ) (f : Span → Span) (ss : List Span)
    → i ≢ j
    → report_at i (update_at j f ss) ≡ report_at i ss
unfolding update_at
report_at-update_at_other i j f [] h = refl
report_at-update_at_other zero zero f (s ∷ ss) h = absurd (h refl)
report_at-update_at_other zero (suc j) f (s ∷ ss) h = refl
report_at-update_at_other (suc i) zero f (s ∷ ss) h = refl
report_at-update_at_other (suc i) (suc j) f (s ∷ ss) h =
    report_at-update_at_other i j f ss (λ e. h (ap suc e))

-- A write that acts on reports.
pub report_at-update_at :
    (i : ℕ) (f : Span → Span) (g : Report → Report) (ss : List Span) (r : Report)
    → ((s : Span) → report (f s) ≡ g (report s))
    → report_at i ss ≡ some r
    → report_at i (update_at i f ss) ≡ some (g r)
unfolding update_at
report_at-update_at i f g [] r q e = absurd cc
report_at-update_at zero f g (s ∷ ss) r q e = ap some (q s ∙ ap g (some_inj e))
report_at-update_at (suc i) f g (s ∷ ss) r q e = report_at-update_at i f g ss r q e

report_at-add :
    (i : ℕ) (ss : List Span) (t : Span) (r : Report)
    → report_at i ss ≡ some r
    → report_at i (ss ++ t ∷ []) ≡ some r
report_at-add i [] t r e = absurd cc
report_at-add zero (s ∷ ss) t r e = e
report_at-add (suc i) (s ∷ ss) t r e = report_at-add i ss t r e

report_at-emit_spans :
    (resource : Bytes) (i : ℕ) (ss : List Span)
    → report_at i (emit_spans resource ss).0 ≡ report_at i ss
unfolding emit_spans mark
report_at-emit_spans resource i [] = refl
report_at-emit_spans resource zero (s ∷ ss) = elim (Bool-cases s.collected) [
  | inl y ↦ rw y refl
  | inr n ↦ rw n refl
]
report_at-emit_spans resource (suc i) (s ∷ ss) = elim (Bool-cases s.collected) [
  | inl y ↦ rw y (report_at-emit_spans resource i ss)
  | inr n ↦ rw n (report_at-emit_spans resource i ss)
]

module _ (u : Setup) where
  report_at-emit_trace :
      (id : Bytes) (i : ℕ) (ss : List Span) → report_at i (emit_trace u id ss).0 ≡ report_at i ss
  unfolding emit_trace
  report_at-emit_trace id i [] = refl
  report_at-emit_trace id i (s ∷ ss) = elim (Bool-cases (should_emit u s)) [
    | inl y ↦ rw y (report_at-emit_spans (first_resource s) i (s ∷ ss))
    | inr n ↦ rw n refl
  ]

  report_at-offer :
      (t : Option Trace) (i : ℕ) (w : World)
      → report_at i (offer u.chan_size t w).ctx.spans ≡ report_at i w.ctx.spans
  unfolding offer
  report_at-offer none i w = refl
  report_at-offer (some t) i w = refl

  pub report_at-finish_span :
      (i : ℕ) (w : World) → report_at i (finish_span u w).ctx.spans ≡ report_at i w.ctx.spans
  unfolding finish_span collect
  report_at-finish_span i w = elim (Bool-cases (w.ctx.finish_count + 1 == length w.ctx.spans)) [
    | inl y ↦
        elim (Bool-cases (wanted (record (w.ctx) { finish_count = w.ctx.finish_count + 1 }))) [
          | inl sampled ↦
              rw (y, sampled)
                (report_at-offer (emit_trace u w.ctx.trace_id w.ctx.spans).1 i _
                  ∙ report_at-emit_trace w.ctx.trace_id i w.ctx.spans)
          | inr not ↦ rw (y, not) refl
        ]
    | inr n ↦ rw n refl
  ]

  report_at-finish_by_other :
      (i j : ℕ) (f : Span → Span) (w : World)
      → i ≢ j
      → report_at i (finish_by u j f w).ctx.spans ≡ report_at i w.ctx.spans
  unfolding finish_by update
  report_at-finish_by_other i j f w h = elim (Option-cases (get_elem? w.ctx.spans j)) [
    | inl e ↦ rw (finish_by, e) refl
    | inr (s, e) ↦ elim (Bool-cases s.finished) [
      | inl y ↦ rw (finish_by, e, y) refl
      | inr n ↦
          rw (finish_by, e, n)
            (report_at-finish_span i _ ∙ report_at-update_at_other i j f w.ctx.spans h)
    ]
  ]

  -- An event that is not a call on the span at `i`, but for a child that starts there.
  abbrev pub Elsewhere : ℕ → Event u → Type 0
  Elsewhere i (start_event j cfg now id answer) = Unit
  Elsewhere i (finish_event j now panic) = i ≢ j
  Elsewhere i (finish_option_event j now panic opt) = i ≢ j
  Elsewhere i (status_event j status) = i ≢ j
  Elsewhere i (error_event j e) = i ≢ j
  Elsewhere i (tag_event j k v) = i ≢ j
  Elsewhere i (baggage_event j k v) = i ≢ j
  Elsewhere i receive_event = Unit
  Elsewhere i (other_event t) = Unit

  report_at-start_child :
      (i j : ℕ) (cfg : StartSpanConfig) (now : ℕ) (id : Bytes) (answer : Bool × ℕ) (w : World)
      (r : Report)
      → report_at i w.ctx.spans ≡ some r
      → report_at i (start_child u j cfg now id answer w).ctx.spans ≡ some r
  unfolding start_child new_span add_span
  report_at-start_child i j cfg now id answer w r h =
      elim (Option-cases (get_elem? w.ctx.spans j)) [
        | inl e ↦ rw (start_child, e) h
        | inr (parent, e) ↦
            let d = (decide-once answer answer w.ctx).0 in
            rw (start_child, e, d.same_spans) (report_at-add i w.ctx.spans _ r h)
      ]

  report_at-receive :
      (i : ℕ) (w : World) → report_at i (receive u w).ctx.spans ≡ report_at i w.ctx.spans
  unfolding receive
  report_at-receive i w = elim (List-cases w.chan) [
    | inl e ↦ rw (receive, e) refl
    | inr (t, rest, e) ↦ rw (receive, e) refl
  ]

  report_at-step :
      (i : ℕ) (e : Event u) (w : World) (r : Report)
      → Elsewhere i e
      → report_at i w.ctx.spans ≡ some r
      → report_at i (step u w e).ctx.spans ≡ some r
  unfolding step finish finish_with_option update
  report_at-step i (start_event j cfg now id answer) w r o h =
      report_at-start_child i j cfg now id answer w r h
  report_at-step i (finish_event j now panic) w r o h = report_at-finish_by_other i j _ w o ∙ h
  report_at-step i (finish_option_event j now panic opt) w r o h =
      report_at-finish_by_other i j _ w o ∙ h
  report_at-step i (status_event j status) w r o h =
      report_at-update_at_other i j _ w.ctx.spans o ∙ h
  report_at-step i (error_event j e) w r o h = report_at-update_at_other i j _ w.ctx.spans o ∙ h
  report_at-step i (tag_event j k v) w r o h = report_at-update_at_other i j _ w.ctx.spans o ∙ h
  report_at-step i (baggage_event j k v) w r o h = report_at-update_at_other i j _ w.ctx.spans o ∙ h
  report_at-step i receive_event w r o h = report_at-receive i w ∙ h
  report_at-step i (other_event t) w r o h = h

  pub report_at-run :
      (i : ℕ) (es : List (Event u)) (w : World) (r : Report)
      → All (Elsewhere i) es
      → report_at i w.ctx.spans ≡ some r
      → report_at i (run u w es).ctx.spans ≡ some r
  unfolding run
  report_at-run i [] w r o h = h
  report_at-run i (e ∷ es) w r o h =
      report_at-run i es (step u w e) r o.1 (report_at-step i e w r o.0 h)

  pub run-append : (es fs : List (Event u)) (w : World) → run u w (es ++ fs) ≡ run u (run u w es) fs
  unfolding run
  run-append [] fs w = refl
  run-append (e ∷ es) fs w = run-append es fs (step u w e)

  pub run-nil : (w : World) → run u w [] ≡ w
  unfolding run
  run-nil w = refl

  pub run-cons :
      (e : Event u) (es : List (Event u)) (w : World) → run u w (e ∷ es) ≡ run u (step u w e) es
  unfolding run
  run-cons e es w = refl
