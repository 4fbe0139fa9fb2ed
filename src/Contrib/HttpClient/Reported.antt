-- ===== src/Contrib/HttpClient/Reported.antt =====
-- What a round trip makes its span report.
use apminsight_server_sdk_go.Prelude.{
  ℕ, ◌≡◌, refl, true, [], ◌∷◌, ◌++◌, Option, none, some, codes, ◌==◌, if◌then◌else◌, All,
  Bool-cases, inl, inr,
}
use apminsight_server_sdk_go.Prelude.Int.{pos}
use apminsight_server_sdk_go.Propagation.Headers.{Library}
use apminsight_server_sdk_go.Tracing.Span.{ErrorInfo, external_service_error, set_key, int_value}
use apminsight_server_sdk_go.Tracing.Span.Reports.{Report}
use apminsight_server_sdk_go.Tracing.Emit.{Setup}
use apminsight_server_sdk_go.Tracing.Run.{World, run, step, tag_event, error_event}
use apminsight_server_sdk_go.Tracing.Run.Report.{
  report_at, Elsewhere, report_at-run, run-append, run-cons, run-nil,
}
use apminsight_server_sdk_go.Tracing.Run.Calls.{
  fresh, report_at-string_tags, report_at-int_tag, report_at-error, report_at-finish,
  report_at-finish_with_option,
}
use apminsight_server_sdk_go.Tracing.Context.{Context, Starting, start_span_from_context}
use apminsight_server_sdk_go.Tracing.Context.Nested.{Carries, start_span_from_context-fresh}
use apminsight_server_sdk_go.Contrib.Url.{url_tags}
use apminsight_server_sdk_go.Contrib.HttpClient.{
  Request, Config, client_span_config, Outcome, failed, responded, Exchange, custom_tags,
  tags_before, option_of, calls_after, round_trip,
}

-- Status 1 and the error for a request that failed, with code 500; status 0 for the code 200; and
-- the code as the status for any other.
abbrev pub reported : Outcome → Report
reported (failed message) = record {
  status = pos 1;
  errors = record { error_kind = external_service_error; error_message = message } ∷ [];
  ints = (codes "http.status_code", pos 500) ∷ [];
  finished = true;
}
reported (responded code) = record {
  status = if code == 200 then pos 0 else pos code;
  errors = [];
  ints = (codes "http.status_code", pos code) ∷ [];
  finished = true;
}

module _ (u : Setup) where
  calls_after-reported :
      (place now : ℕ) (o : Outcome) (w : World)
      → report_at place w.ctx.spans ≡ some fresh
      → report_at place (run u w (calls_after u place now o)).ctx.spans ≡ some (reported o)
  unfolding calls_after set_key
  calls_after-reported place now (failed message) w h =
      let e : ErrorInfo = record { error_kind = external_service_error; error_message = message } in
      let w1 = step u w (tag_event place (codes "http.status_code") (int_value (pos 500))) in
      let r1 = report_at-int_tag u place w fresh h (codes "http.status_code") (pos 500) in
      let w2 = step u w1 (error_event place e) in
      let r2 = report_at-error u place w1 _ r1 e refl in
      rw (run-cons, run-cons, run-cons, run-nil)
        (report_at-finish_with_option u place w2 _ r2 now (option_of 1) refl)
  calls_after-reported place now (responded code) w h =
      let w1 = step u w (tag_event place (codes "http.status_code") (int_value (pos code))) in
      let r1 = report_at-int_tag u place w fresh h (codes "http.status_code") (pos code) in
      elim (Bool-cases (code == 200)) [
        | inl y ↦
            rw (y, run-cons, run-cons, run-nil) (report_at-finish u place w1 _ r1 now none refl)
        | inr n ↦
            rw (n, run-cons, run-cons, run-nil)
              (report_at-finish_with_option u place w1 _ r1 now (option_of code) refl)
      ]

  -- Whatever happens to other spans while the request is performed, the span of the round trip has
  -- finished afterwards: for an error with status 1, that error, and the integer tag 500; for a
  -- response without errors, with the code as its tag, and status 0 for 200, the code otherwise. The
  -- span of the context, if there is one, is in the trace.
  pub round_trip-reports :
      (lib : Library) (adapter : Option (Context → Option Context)) (cfg : Config) (req : Request)
      (ctx : Context) (a : Starting) (x : Exchange u) (w : World)
      → Carries u adapter ctx w
      → All
          (Elsewhere u (start_span_from_context u adapter ctx (client_span_config cfg req) a w).0)
          x.events
      → let (place, w', headers) = round_trip u lib adapter cfg req ctx a x w in
        report_at place w'.ctx.spans ≡ some (reported x.outcome)
  unfolding round_trip tags_before
  round_trip-reports lib adapter cfg req ctx a x w carried others =
      let start = start_span_from_context u adapter ctx (client_span_config cfg req) a w in
      let place = start.0 in
      let tagged = run u start.1 (tags_before u place cfg req) in
      let r1 : report_at place tagged.ctx.spans ≡ some fresh =
        report_at-string_tags u place
          ((codes "http.method", req.method) ∷ (url_tags req.url ++ custom_tags cfg req)) start.1
          fresh
          (start_span_from_context-fresh u adapter ctx (client_span_config cfg req) a w carried) in
      rw (run-append u x.events (calls_after u place x.end_time x.outcome) tagged) (
        calls_after-reported place x.end_time x.outcome (run u tagged x.events)
          (report_at-run u place x.events tagged fresh others r1))
