-- ===== src/Tracing/Run/Offers.antt =====
-- What the calls on the spans of a trace keep, in whatever order they come.
use mathlib.Core.List.{Perm}
use mathlib.Core.List.Perm
use apminsight_server_sdk_go.Prelude.{
  ℕ, ◌+◌, ◌≡◌, refl, Bool, true, false, List, [], ◌∷◌, ◌++◌, Bytes, length, get_elem?, All-append,
  Bool-cases, List-cases, Option-cases, inl, inr, arith, append-nil, append_assoc, ◌==◌,
}
use apminsight_server_sdk_go.Tracing.Span.{Dict, Span}
use apminsight_server_sdk_go.Tracing.Span.Flags.{
  IsQuiet, IsFinishing, set_status-IsQuiet, record_error-IsQuiet, set_tag-IsQuiet,
  set_baggage_item-IsQuiet, finish_fields-IsFinishing, finish_fields_with_option-IsFinishing,
}
use apminsight_server_sdk_go.Tracing.Sampling.{TraceContext, add_span}
use apminsight_server_sdk_go.Tracing.Sampling.Decision.{decide-once}
use apminsight_server_sdk_go.Tracing.Emit.{
  Setup, Trace, emit_trace, wanted, should_emit, first_resource,
}
use apminsight_server_sdk_go.Tracing.Run.{
  World, StartSpanConfig, new_span, update, offer, collect, finish_span, finish_by, finish,
  finish_with_option, start_child, start_trace, Event, start_event, finish_event,
  finish_option_event, status_event, error_event, tag_event, baggage_event, receive_event,
  other_event, receive, step, run,
}
use apminsight_server_sdk_go.Tracing.Run.Counts.{
  finished_count, collected_ids, emitted_ids, AllFinished, CollectedFinished, finished_count-quiet,
  collected_ids-update_at, finished_count-finishing, CollectedFinished-quiet,
  CollectedFinished-finishing, AllFinished-count, finished_count-emit_spans, AllFinished-emit_spans,
  collected_ids-emit_spans,
}

-- The ids of the spans in all the traces that were offered.
abbrev pub offered_ids : List Trace → List Bytes
offered_ids [] = []
offered_ids (t ∷ ts) = emitted_ids t.spans ++ offered_ids ts

offered_ids-append :
    (ts us : List Trace) → offered_ids (ts ++ us) ≡ offered_ids ts ++ offered_ids us
offered_ids-append [] us = refl
offered_ids-append (t ∷ ts) us = rw (offered_ids-append ts us, append_assoc) refl

pub record IsValid (w : World) : Type 0 where
  pub counted : w.ctx.finish_count ≡ finished_count w.ctx.spans
  pub ordered : CollectedFinished w.ctx.spans
  pub ledger : Perm (offered_ids w.offered) (collected_ids w.ctx.spans)

update-IsValid :
    (i : ℕ) (f : Span → Span) (w : World) → IsQuiet f → IsValid w → IsValid (update i f w)
unfolding update
update-IsValid i f w q v = record {
  counted = rw (finished_count-quiet i f w.ctx.spans q) v.counted;
  ordered = CollectedFinished-quiet i f w.ctx.spans q v.ordered;
  ledger = rw (collected_ids-update_at i f w.ctx.spans q.collected_same q.id_same) v.ledger;
}

finished_count-append :
    (ss : List Span) (s : Span)
    → s.finished ≡ false
    → finished_count (ss ++ s ∷ []) ≡ finished_count ss
finished_count-append [] s h = rw h refl
finished_count-append (t ∷ ss) s h = rw (finished_count-append ss s h) refl

collected_ids-append :
    (ss : List Span) (s : Span)
    → s.collected ≡ false
    → collected_ids (ss ++ s ∷ []) ≡ collected_ids ss
collected_ids-append [] s h = rw h refl
collected_ids-append (t ∷ ss) s h = rw (collected_ids-append ss s h) refl

-- A new span that has neither finished nor been collected.
add_span-IsValid :
    (s : Span) (tc : TraceContext) (w : World)
    → s.finished ≡ false
    → s.collected ≡ false
    → tc.spans ≡ w.ctx.spans
    → tc.finish_count ≡ w.ctx.finish_count
    → IsValid w
    → IsValid (record w { ctx = add_span s tc })
unfolding add_span
add_span-IsValid s tc w nf nc es ec v = record {
  counted = rw (ec, es, finished_count-append w.ctx.spans s nf) v.counted;
  ordered = rw es (
      All-append (λ t. t.collected ≡ true → t.finished ≡ true) w.ctx.spans (s ∷ []) v.ordered
        ((λ c. cc), tt));
  ledger = rw (es, collected_ids-append w.ctx.spans s nc) v.ledger;
}

module _ (u : Setup) where
  emit-IsValid :
      (ss : List Span) (w : World)
      → AllFinished ss
      → IsValid (record w { ctx = record (w.ctx) { spans = ss } })
      → IsValid (
          offer u.chan_size
            (emit_trace u w.ctx.trace_id ss).1
            (record w { ctx = record (w.ctx) { spans = (emit_trace u w.ctx.trace_id ss).0 } }))
  unfolding emit_trace offer
  emit-IsValid [] w all v = v
  emit-IsValid (s ∷ ss) w all v = elim (Bool-cases (should_emit u s)) [
    | inl y ↦ rw y (record {
      counted = rw finished_count-emit_spans v.counted;
      ordered = AllFinished-emit_spans (first_resource s) (s ∷ ss) all;
      ledger =
          rw (offered_ids-append, append-nil)
            (Perm.trans (Perm.append_right _ v.ledger)
              (collected_ids-emit_spans (first_resource s) (s ∷ ss)));
    })
    | inr n ↦ rw n v
  ]

  collect-IsValid : (w : World) → AllFinished w.ctx.spans → IsValid w → IsValid (collect u w)
  unfolding collect
  collect-IsValid w all v = elim (Bool-cases (wanted w.ctx)) [
    | inl y ↦ rw y (emit-IsValid w.ctx.spans w all v)
    | inr n ↦ rw n v
  ]

  finish_span-IsValid :
      (w : World)
      → IsValid (record w { ctx = record (w.ctx) { finish_count = w.ctx.finish_count + 1 } })
      → IsValid (finish_span u w)
  unfolding finish_span
  finish_span-IsValid w v = elim (Bool-cases (w.ctx.finish_count + 1 == length w.ctx.spans)) [
    | inl y ↦ rw y (collect-IsValid _ (AllFinished-count w.ctx.spans (ground (arith, v.counted))) v)
    | inr n ↦ rw n v
  ]

  finish_by-IsValid :
      (i : ℕ) (f : Span → Span) (w : World)
      → IsFinishing f
      → IsValid w
      → IsValid (finish_by u i f w)
  unfolding finish_by update
  finish_by-IsValid i f w q v = elim (Option-cases (get_elem? w.ctx.spans i)) [
    | inl e ↦ rw (finish_by, e) v
    | inr (s, e) ↦ elim (Bool-cases s.finished) [
      | inl y ↦ rw (finish_by, e, y) v
      | inr n ↦
          rw (finish_by, e, n)
            (finish_span-IsValid _ (record {
              counted =
                  rw (finished_count-finishing i f w.ctx.spans s q e n) (omega (arith, v.counted));
              ordered = CollectedFinished-finishing i f w.ctx.spans q v.ordered;
              ledger =
                  rw (collected_ids-update_at i f w.ctx.spans q.collected_kept q.id_kept) v.ledger;
            }))
    ]
  ]

  start_child-IsValid :
      (i : ℕ) (cfg : StartSpanConfig) (now : ℕ) (id : Bytes) (answer : Bool × ℕ) (w : World)
      → IsValid w
      → IsValid (start_child u i cfg now id answer w)
  unfolding start_child new_span
  start_child-IsValid i cfg now id answer w v = elim (Option-cases (get_elem? w.ctx.spans i)) [
    | inl e ↦ rw (start_child, e) v
    | inr (parent, e) ↦
        let d = (decide-once answer answer w.ctx).0 in
        rw (start_child, e) (add_span-IsValid _ _ w refl refl d.same_spans d.same_count v)
  ]

  receive-IsValid : (w : World) → IsValid w → IsValid (receive u w)
  unfolding receive
  receive-IsValid w v = elim (List-cases w.chan) [
    | inl e ↦ rw (receive, e) v
    | inr (t, rest, e) ↦
        rw (receive, e) (record { counted = v.counted; ordered = v.ordered; ledger = v.ledger })
  ]

  step-IsValid : (e : Event u) (w : World) → IsValid w → IsValid (step u w e)
  unfolding step finish finish_with_option receive
  step-IsValid (start_event i cfg now id answer) w v = start_child-IsValid i cfg now id answer w v
  step-IsValid (finish_event i now panic) w v =
      finish_by-IsValid i _ w (finish_fields-IsFinishing u.slow_query now panic) v
  step-IsValid (finish_option_event i now panic opt) w v =
      finish_by-IsValid i _ w (finish_fields_with_option-IsFinishing u.slow_query now panic opt) v
  step-IsValid (status_event i status) w v = update-IsValid i _ w (set_status-IsQuiet status) v
  step-IsValid (error_event i e) w v = update-IsValid i _ w (record_error-IsQuiet e) v
  step-IsValid (tag_event i k t) w v = update-IsValid i _ w (set_tag-IsQuiet u.widen k t) v
  step-IsValid (baggage_event i k t) w v = update-IsValid i _ w (set_baggage_item-IsQuiet k t) v
  step-IsValid receive_event w v = receive-IsValid w v
  step-IsValid (other_event t) w v = record {
    counted = v.counted;
    ordered = v.ordered;
    ledger = v.ledger;
  }

  run-IsValid : (es : List (Event u)) (w : World) → IsValid w → IsValid (run u w es)
  unfolding run
  run-IsValid [] w v = v
  run-IsValid (e ∷ es) w v = run-IsValid es (step u w e) (step-IsValid e w v)

  start_trace-IsValid :
      (tc : TraceContext) (cfg : StartSpanConfig) (now : ℕ) (id parent : Bytes) (baggage : Dict)
      (answer : Bool × ℕ) (chan : List Trace)
      → tc.spans ≡ []
      → tc.finish_count ≡ 0
      → IsValid (start_trace u tc cfg now id parent baggage answer chan)
  unfolding start_trace new_span add_span
  start_trace-IsValid tc cfg now id parent baggage answer chan es ec =
      let d = (decide-once answer answer tc).0 in
      record {
        counted = rw (d.same_count, d.same_spans, es) ec;
        ordered = rw (d.same_spans, es) ((λ c. cc), tt);
        ledger = rw (d.same_spans, es) (Perm.refl []);
      }

  -- From the start of a trace, in a context that has no span yet, whatever calls come on its spans
  -- and whatever else happens to the channel: the count is that of the spans that have finished,
  -- only those were collected, and the ids in the traces that were offered are those of the
  -- collected spans, each as often.
  pub run-accounts :
      (tc : TraceContext) (cfg : StartSpanConfig) (now : ℕ) (id parent : Bytes) (baggage : Dict)
      (answer : Bool × ℕ) (chan : List Trace) (es : List (Event u))
      → tc.spans ≡ []
      → tc.finish_count ≡ 0
      → IsValid (run u (start_trace u tc cfg now id parent baggage answer chan) es)
  run-accounts tc cfg now id parent baggage answer chan es none_yet zero_yet =
      run-IsValid es _
        (start_trace-IsValid tc cfg now id parent baggage answer chan none_yet zero_yet)
