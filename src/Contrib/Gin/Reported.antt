-- ===== src/Contrib/Gin/Reported.antt =====
-- What the middleware makes the span of a request report.
use mathlib.Core.List.{map-map}
use apminsight_server_sdk_go.Prelude.{
  ℕ, ◌≡◌, refl, sym, ap, ◌∙◌, true, false, List, [], ◌∷◌, ◌++◌, none, some, Bytes, codes, leb, map,
  if◌then◌else◌, All, Bool-cases, Option-cases, inl, inr,
}
use apminsight_server_sdk_go.Prelude.Int.{pos}
use apminsight_server_sdk_go.Tracing.Span.{
  ErrorInfo, business_error, panic_error, set_key, int_value,
}
use apminsight_server_sdk_go.Tracing.Span.Reports.{Report, finished_report}
use apminsight_server_sdk_go.Tracing.Sampling.{new_context, remote_context}
use apminsight_server_sdk_go.Tracing.Emit.{Setup}
use apminsight_server_sdk_go.Tracing.Run.{
  World, run, step, Event, tag_event, status_event, error_event,
}
use apminsight_server_sdk_go.Tracing.Run.Report.{
  report_at, Elsewhere, report_at-run, run-append, run-cons, run-nil,
}
use apminsight_server_sdk_go.Tracing.Run.Calls.{
  fresh, report_at-start_trace, report_at-string_tags, report_at-int_tag, report_at-status,
  report_at-errors, report_at-finish,
}
use apminsight_server_sdk_go.Contrib.Url.{url_tags}
use apminsight_server_sdk_go.Contrib.Gin.{
  GinContext, Config, new_default_config, config_of, ignores, Arrival, Handling, start_server_span,
  custom_tags, before_next, final_status, deferred, middleware,
}

module _ (u : Setup) where
  abbrev pub business_errors : List Bytes → List ErrorInfo
  business_errors = map (λ m. record { error_kind = business_error; error_message = m })

  -- Status 1 for a panic or an HTTP status of 400 or more, 0 otherwise; the code, which is 500 for a
  -- panic; the errors of the context, and then the panic.
  abbrev pub reported : Handling u → Report
  reported h = elim h.panic [
    | none ↦ record {
      status = if leb 400 h.writer_status then pos 1 else pos 0;
      errors = business_errors h.errors;
      ints = (codes "http.status_code", pos h.writer_status) ∷ [];
      finished = true;
    }
    | some m ↦ record {
      status = pos 1;
      errors =
          business_errors h.errors ++ record { error_kind = panic_error; error_message = m } ∷ [];
      ints = (codes "http.status_code", pos 500) ∷ [];
      finished = true;
    }
  ]

  start_server_span-fresh :
      (cfg : Config) (c : GinContext) (a : Arrival)
      → report_at 0 (start_server_span u cfg c a).ctx.spans ≡ some fresh
  unfolding start_server_span new_context remote_context
  start_server_span-fresh cfg c a = elim (Option-cases a.chain) [
    | inl e ↦ rw e (report_at-start_trace u _ _ _ _ _ _ _ _ refl)
    | inr (sc, e) ↦ rw e (report_at-start_trace u _ _ _ _ _ _ _ _ refl)
  ]

  errors_part :
      (errors : List Bytes) (w : World) (r : Report)
      → r.finished ≡ false
      → report_at 0 w.ctx.spans ≡ some r
      → report_at 0
          (run u w (
            map
              (λ m. error_event 0 (record { error_kind = business_error; error_message = m }))
              errors)).ctx.spans
        ≡ some (record r { errors = r.errors ++ business_errors errors })
  errors_part errors w r running h =
      rw
        (sym (
          map-map {C = Event u} (error_event 0)
            (λ m. record { error_kind = business_error; error_message = m }) errors))
        (report_at-errors u 0 (business_errors errors) w r running h)

  status_part :
      (code : ℕ) (w : World) (r : Report)
      → r.finished ≡ false
      → r.status ≡ pos 0
      → report_at 0 w.ctx.spans ≡ some r
      → report_at 0 (run u w (if leb 400 code then status_event 0 (pos 1) ∷ [] else [])).ctx.spans
        ≡ some (record r { status = if leb 400 code then pos 1 else pos 0 })
  status_part code w r running zero_status h = elim (Bool-cases (leb 400 code)) [
    | inl y ↦ rw (y, run-cons, run-nil) (report_at-status u 0 w r h (pos 1) running)
    | inr n ↦ rw (n, run-nil, ← zero_status) h
  ]

  reported_of :
      (h : Handling u)
      → finished_report h.panic (record {
        status = if leb 400 (final_status u h) then pos 1 else pos 0;
        errors = business_errors h.errors;
        ints = (codes "http.status_code", pos (final_status u h)) ∷ [];
        finished = false;
      })
        ≡ reported h
  unfolding final_status
  reported_of h = elim (Option-cases h.panic) [ inl e ↦ rw e refl | inr (m, e) ↦ rw e refl ]

  deferred-reported :
      (h : Handling u) (w : World)
      → report_at 0 w.ctx.spans ≡ some fresh
      → report_at 0 (run u w (deferred u h)).ctx.spans ≡ some (reported h)
  unfolding deferred set_key
  deferred-reported h w e =
      let code = final_status u h in
      let statuses : List (Event u) = if leb 400 code then status_event 0 (pos 1) ∷ [] else [] in
      let w1 = step u w (tag_event 0 (codes "http.status_code") (int_value (pos code))) in
      let r1 = report_at-int_tag u 0 w fresh e (codes "http.status_code") (pos code) in
      let w2 = run u w1 statuses in
      let r2 = status_part code w1 _ refl refl r1 in
      let r3 = errors_part h.errors w2 _ refl r2 in
      let w3 = run u w2 (
        map (λ m. error_event 0 (record { error_kind = business_error; error_message = m }))
          h.errors) in
      rw (run-cons, run-append, run-append, run-cons, run-nil)
        (report_at-finish u 0 w3 _ r3 h.end_time h.panic refl ∙ ap some (reported_of h))

  -- For a request that is not ignored, whatever c.Next() does to other spans, the span of the
  -- request has finished; it has status 1 if c.Next() panicked or left an HTTP status of 400 or
  -- more, and 0 otherwise; it has the HTTP status as its one integer tag, 500 for a panic; and its
  -- errors are those of the context, in order, and then the panic, if there was one.
  pub middleware-reports :
      (opts : List (Config → Config)) (c : GinContext) (a : Arrival) (h : Handling u)
      → ignores (config_of opts new_default_config) c ≡ false
      → All (Elsewhere u 0) h.events
      → (w : World) × (middleware u opts c a h ≡ some w)
        × (report_at 0 w.ctx.spans ≡ some (reported h))
  unfolding middleware before_next
  middleware-reports opts c a h taken others =
      let cfg = config_of opts new_default_config in
      let w0 = start_server_span u cfg c a in
      let w1 = run u w0 (before_next u cfg c) in
      let tagged : report_at 0 w1.ctx.spans ≡ some fresh =
        report_at-string_tags u 0
          ((codes "http.method", c.method) ∷ (url_tags c.url ++ custom_tags u cfg c)) w0 fresh
          (start_server_span-fresh cfg c a) in
      let w2 = run u w1 h.events in
      let next : report_at 0 w2.ctx.spans ≡ some fresh =
        report_at-run u 0 h.events w1 fresh others tagged in
      (
        run u w0 (before_next u cfg c ++ (h.events ++ deferred u h)),
        rw taken refl,
        rw
            (
              run-append u (before_next u cfg c) (h.events ++ deferred u h) w0,
              run-append u h.events (deferred u h) w1,
            )
            (deferred-reported h w2 next),
      )
