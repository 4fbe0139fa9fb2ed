-- ===== src/Tracing/Run/Calls.antt =====
-- What the calls on one span make of its report.
use apminsight_server_sdk_go.Tracing.Span.{set_baggage_item}
use apminsight_server_sdk_go.Tracing.Run.{baggage_event}
use apminsight_server_sdk_go.Prelude.{
  ℕ, zero, suc, ◌≡◌, refl, ap, ◌∙◌, Bool, true, false, List, [], ◌∷◌, ◌++◌, Option, none, some,
  Bytes, get_elem?, some_inj, map, append_assoc, append-nil,
}
use apminsight_server_sdk_go.Prelude.Int.{ℤ, pos}
use apminsight_server_sdk_go.Tracing.Span.{
  Dict, ErrorInfo, Span, string_value, int_value, FinishSpanOption, set_key, set_tag, finish_fields,
  finish_fields_with_option,
}
use apminsight_server_sdk_go.Tracing.Span.Reports.{
  Report, report, finished_report, with_status, with_error, report-set_status, report-record_error,
  report-finish_fields, report-finish_fields_with_option,
}
use apminsight_server_sdk_go.Tracing.Emit.{Setup, Trace, metric_calls}
use apminsight_server_sdk_go.Tracing.Sampling.{TraceContext, add_span}
use apminsight_server_sdk_go.Tracing.Sampling.Decision.{decide-once}
use apminsight_server_sdk_go.Tracing.Run.{
  World, StartSpanConfig, start_trace, new_span, update_at, update, finish_by, finish,
  finish_with_option, Event, finish_event, finish_option_event, status_event, error_event,
  tag_event, step, run,
}
use apminsight_server_sdk_go.Tracing.Context.{span_context}
use apminsight_server_sdk_go.Tracing.Run.Report.{
  report_at, report_at-update_at, report_at-finish_span,
}

get_elem?-report_at :
    (i : ℕ) (ss : List Span) (r : Report)
    → report_at i ss ≡ some r
    → (s : Span) × (get_elem? ss i ≡ some s) × (report s ≡ r)
get_elem?-report_at i [] r h = absurd cc
get_elem?-report_at zero (s ∷ ss) r h = (s, refl, some_inj h)
get_elem?-report_at (suc i) (s ∷ ss) r h = get_elem?-report_at i ss r h

module _ (u : Setup) (i : ℕ) (w : World) (r : Report) (h : report_at i w.ctx.spans ≡ some r) where
  pub report_at-string_tag :
      (k v : Bytes) → report_at i (step u w (tag_event i k (string_value v))).ctx.spans ≡ some r
  unfolding step update set_tag
  report_at-string_tag k v = report_at-update_at i _ (λ r. r) w.ctx.spans r (λ s. refl) h

  pub report_at-int_tag :
      (k : Bytes) (v : ℤ)
      → report_at i (step u w (tag_event i k (int_value v))).ctx.spans
        ≡ some (record r { ints = set_key k v r.ints })
  unfolding step update set_tag
  report_at-int_tag k v =
      report_at-update_at i _ (λ r. record r { ints = set_key k v r.ints }) w.ctx.spans r
        (λ s. refl) h

  pub report_at-status :
      (status : ℤ)
      → r.finished ≡ false
      → report_at i (step u w (status_event i status)).ctx.spans
        ≡ some (record r { status = status })
  unfolding step update
  report_at-status status running =
      report_at-update_at i _ (with_status status) w.ctx.spans r (report-set_status status) h
      ∙ rw running refl

  pub report_at-error :
      (e : ErrorInfo)
      → r.finished ≡ false
      → report_at i (step u w (error_event i e)).ctx.spans
        ≡ some (record r { errors = r.errors ++ e ∷ [] })
  unfolding step update
  report_at-error e running =
      report_at-update_at i _ (with_error e) w.ctx.spans r (report-record_error e) h
      ∙ rw running refl

  report_at-finish_by :
      (f : Span → Span) (g : Report → Report)
      → ((s : Span) → report (f s) ≡ g (report s))
      → r.finished ≡ false
      → report_at i (finish_by u i f w).ctx.spans ≡ some (g r)
  unfolding finish_by update
  report_at-finish_by f g q running =
      let (s, e, same) = get_elem?-report_at i w.ctx.spans r h in
      let n : s.finished ≡ false = ap (λ (r : Report). r.finished) same ∙ running in
      rw (finish_by, e, n)
        (report_at-finish_span u i
            (record (update i f w) { metrics = w.metrics ++ metric_calls u w.ctx (f s) })
          ∙ report_at-update_at i f g w.ctx.spans r q h)

  pub report_at-finish :
      (now : ℕ) (panic : Option Bytes)
      → r.finished ≡ false
      → report_at i (step u w (finish_event i now panic)).ctx.spans ≡ some (finished_report panic r)
  unfolding step finish
  report_at-finish now panic running =
      report_at-finish_by (finish_fields u.slow_query now panic) (finished_report panic)
        (report-finish_fields u.slow_query now panic) running

  -- Not deferred, FinishWithOption finds no panic.
  pub report_at-finish_with_option :
      (now : ℕ) (opt : FinishSpanOption)
      → r.finished ≡ false
      → report_at i (step u w (finish_option_event i now none opt)).ctx.spans
        ≡ some (record r { finished = true; status = opt.option_status })
  unfolding step finish_with_option
  report_at-finish_with_option now opt running =
      report_at-finish_by (finish_fields_with_option u.slow_query now none opt)
        (λ r. record r { finished = true; status = opt.option_status })
        (report-finish_fields_with_option u.slow_query now opt) running

module _ (u : Setup) (i : ℕ) where
  abbrev pub string_tags : List (Bytes × Bytes) → List (Event u)
  string_tags = map (λ t. tag_event i t.0 (string_value t.1))

  abbrev pub errors_of : List ErrorInfo → List (Event u)
  errors_of = map (error_event i)

  pub report_at-string_tags :
      (tags : List (Bytes × Bytes)) (w : World) (r : Report)
      → report_at i w.ctx.spans ≡ some r
      → report_at i (run u w (string_tags tags)).ctx.spans ≡ some r
  unfolding run
  report_at-string_tags [] w r h = h
  report_at-string_tags ((k, v) ∷ tags) w r h =
      report_at-string_tags tags (step u w (tag_event i k (string_value v))) r
        (report_at-string_tag u i w r h k v)

  pub report_at-baggage_items :
      (items : List (Bytes × Bytes)) (w : World) (r : Report)
      → report_at i w.ctx.spans ≡ some r
      → report_at i (run u w (map (λ t. baggage_event i t.0 t.1) items)).ctx.spans ≡ some r
  unfolding run step update set_baggage_item
  report_at-baggage_items [] w r h = h
  report_at-baggage_items ((k, v) ∷ items) w r h =
      report_at-baggage_items items (step u w (baggage_event i k v)) r
        (report_at-update_at i _ (λ r. r) w.ctx.spans r (λ s. refl) h)

  pub report_at-errors :
      (es : List ErrorInfo) (w : World) (r : Report)
      → r.finished ≡ false
      → report_at i w.ctx.spans ≡ some r
      → report_at i (run u w (errors_of es)).ctx.spans ≡ some (record r { errors = r.errors ++ es })
  unfolding run
  report_at-errors [] w r running h = rw append-nil h
  report_at-errors (e ∷ es) w r running h = rw (← append_assoc r.errors (e ∷ []) es) (
      report_at-errors es (step u w (error_event i e)) (record r { errors = r.errors ++ e ∷ [] })
        running (report_at-error u i w r h e running))

-- A span that has just started.
abbrev pub fresh : Report
fresh = record { status = pos 0; errors = []; ints = []; finished = false }

pub report_at-start_trace :
    (u : Setup) (tc : TraceContext) (cfg : StartSpanConfig) (now : ℕ) (id parent : Bytes)
    (baggage : Dict) (answer : Bool × ℕ) (chan : List Trace)
    → tc.spans ≡ []
    → report_at 0 (start_trace u tc cfg now id parent baggage answer chan).ctx.spans ≡ some fresh
unfolding start_trace new_span add_span
report_at-start_trace u tc cfg now id parent baggage answer chan empty =
    let d = (decide-once answer answer tc).0 in rw (d.same_spans, empty) refl

get_elem?-update_at :
    (i : ℕ) (f : Span → Span) (ss : List Span) (s : Span)
    → get_elem? ss i ≡ some s
    → get_elem? (update_at i f ss) i ≡ some (f s)
unfolding update_at
get_elem?-update_at i f [] s e = absurd cc
get_elem?-update_at zero f (t ∷ ss) s e = ap some (ap f (some_inj e))
get_elem?-update_at (suc i) f (t ∷ ss) s e = get_elem?-update_at i f ss s e

-- A string tag leaves what a span propagates.
pub step-string_tag :
    (u : Setup) (i : ℕ) (k v : Bytes) (w : World) (s : Span)
    → get_elem? w.ctx.spans i ≡ some s
    → (t : Span) × (get_elem? (step u w (tag_event i k (string_value v))).ctx.spans i ≡ some t)
      × (span_context (step u w (tag_event i k (string_value v))).ctx t ≡ span_context w.ctx s)
unfolding step update set_tag span_context
step-string_tag u i k v w s there =
    (set_tag u.widen k (string_value v) s, get_elem?-update_at i _ w.ctx.spans s there, refl)
