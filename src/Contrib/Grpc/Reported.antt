-- ===== src/Contrib/Grpc/Reported.antt =====
-- What the interceptors make the span of a unary call report.
use apminsight_server_sdk_go.Prelude.{
  ℕ, ◌≡◌, refl, true, List, [], ◌∷◌, Option, none, some, Bytes, codes, All, Option-cases, inl, inr,
}
use apminsight_server_sdk_go.Prelude.Int.{pos}
use apminsight_server_sdk_go.Propagation.Headers.{Header, Library, chain_of}
use apminsight_server_sdk_go.Tracing.Span.{
  ErrorKind, business_error, external_service_error, panic_error, ErrorInfo, int_value, set_key,
}
use apminsight_server_sdk_go.Tracing.Span.Reports.{Report}
use apminsight_server_sdk_go.Tracing.Sampling.{new_context, remote_context}
use apminsight_server_sdk_go.Tracing.Emit.{Setup, Trace}
use apminsight_server_sdk_go.Tracing.Run.{World, run, step, tag_event, status_event, error_event}
use apminsight_server_sdk_go.Tracing.Run.Report.{
  report_at, Elsewhere, report_at-run, run-append, run-cons, run-nil,
}
use apminsight_server_sdk_go.Tracing.Run.Calls.{
  fresh, report_at-start_trace, report_at-baggage_items, report_at-int_tag, report_at-status,
  report_at-error, report_at-finish,
}
use apminsight_server_sdk_go.Tracing.Context.{Context, Starting, start_span_from_context}
use apminsight_server_sdk_go.Tracing.Context.Nested.{Carries, start_span_from_context-fresh}
use apminsight_server_sdk_go.Contrib.Grpc.{
  Incoming, Config, new_default_config, config_of, Ending, succeeded, failed, panicked, Call,
  calls_after, start_called, set_baggage_items, unary_server, call_config, unary_client,
}

-- The code 0 without an error; status 1, the code and an error of the kind for an error; status 1
-- and a panic for a panic, without a code.
abbrev pub reported : ErrorKind → Ending → Report
reported kind succeeded = record {
  status = pos 0;
  errors = [];
  ints = (codes "grpc.status_code", pos 0) ∷ [];
  finished = true;
}
reported kind (failed code message) = record {
  status = pos 1;
  errors = record { error_kind = kind; error_message = message } ∷ [];
  ints = (codes "grpc.status_code", pos code) ∷ [];
  finished = true;
}
reported kind (panicked message) = record {
  status = pos 1;
  errors = record { error_kind = panic_error; error_message = message } ∷ [];
  ints = [];
  finished = true;
}

module _ (u : Setup) where
  calls_after-reported :
      (kind : ErrorKind) (place now : ℕ) (ending : Ending) (w : World)
      → report_at place w.ctx.spans ≡ some fresh
      → report_at place (run u w (calls_after u kind place now ending)).ctx.spans
        ≡ some (reported kind ending)
  unfolding calls_after set_key
  calls_after-reported kind place now succeeded w h =
      let w1 = step u w (tag_event place (codes "grpc.status_code") (int_value (pos 0))) in
      let r1 = report_at-int_tag u place w fresh h (codes "grpc.status_code") (pos 0) in
      rw (run-cons, run-cons, run-nil) (report_at-finish u place w1 _ r1 now none refl)
  calls_after-reported kind place now (failed code message) w h =
      let e : ErrorInfo = record { error_kind = kind; error_message = message } in
      let w1 = step u w (status_event place (pos 1)) in
      let r1 = report_at-status u place w fresh h (pos 1) refl in
      let w2 = step u w1 (tag_event place (codes "grpc.status_code") (int_value (pos code))) in
      let r2 = report_at-int_tag u place w1 _ r1 (codes "grpc.status_code") (pos code) in
      let w3 = step u w2 (error_event place e) in
      let r3 = report_at-error u place w2 _ r2 e refl in
      rw (run-cons, run-cons, run-cons, run-cons, run-nil)
        (report_at-finish u place w3 _ r3 now none refl)
  calls_after-reported kind place now (panicked message) w h =
      rw (run-cons, run-nil) (report_at-finish u place w fresh h now (some message) refl)

  set_baggage_items-fresh :
      (cfg : Config) (c : Incoming) (w : World)
      → report_at 0 w.ctx.spans ≡ some fresh
      → report_at 0 (run u w (set_baggage_items u cfg c)).ctx.spans ≡ some fresh
  unfolding set_baggage_items
  set_baggage_items-fresh cfg c w h = elim (Option-cases cfg.baggage_setter) [
    | inl e ↦ rw (set_baggage_items, e, run-nil) h
    | inr (f, e) ↦ rw (set_baggage_items, e) (report_at-baggage_items u 0 (f c) w fresh h)
  ]

  start_called-fresh :
      (c : Incoming) (baggage : List (Bytes × Bytes)) (a : Starting) (chan : List Trace)
      → report_at 0 (start_called u c baggage a chan).ctx.spans ≡ some fresh
  unfolding start_called new_context remote_context
  start_called-fresh c baggage a chan = elim (Option-cases (chain_of baggage c.metadata)) [
    | inl e ↦ rw (start_called, e) (report_at-start_trace u _ _ _ _ _ _ _ _ refl)
    | inr (sc, e) ↦ rw (start_called, e) (report_at-start_trace u _ _ _ _ _ _ _ _ refl)
  ]

  unary_server-reported :
      (opts : List (Config → Config)) (c : Incoming) (baggage : List (Bytes × Bytes)) (a : Starting)
      (chan : List Trace) (x : Call u)
      → All (Elsewhere u 0) x.events
      → report_at 0 (unary_server u opts c baggage a chan x).ctx.spans
        ≡ some (reported business_error x.ending)
  unfolding unary_server
  unary_server-reported opts c baggage a chan x others =
      let w0 = start_called u c baggage a chan in
      let items = set_baggage_items u (config_of opts new_default_config) c in
      rw (run-append, run-append)
        (calls_after-reported business_error 0 x.end_time x.ending (run u (run u w0 items) x.events)
          (report_at-run u 0 x.events (run u w0 items) fresh others (
            set_baggage_items-fresh (config_of opts new_default_config) c w0
              (start_called-fresh c baggage a chan))))

  -- The span of a unary call, whatever happens to other spans during it; the span of the client's
  -- context, if there is one, is in the trace. On either side it has
  -- finished afterwards, with the code 0 as its integer tag and status 0 when there is no error; for
  -- an error with status 1, the code, and that error, as one of the business for the server and of
  -- an external service for the client; for a panic with status 1, that panic, and no code.
  pub unary-reports :
      (opts : List (Config → Config)) (c : Incoming) (baggage : List (Bytes × Bytes))
      (chan : List Trace) (lib : Library) (md_set : Bytes → Bytes → List Header → List Header)
      (range : List Header → List Header) (adapter : Option (Context → Option Context))
      (target method : Bytes) (meta : List Header) (ctx : Context) (a : Starting) (x y : Call u)
      (w : World)
      → All (Elsewhere u 0) x.events
      → Carries u adapter ctx w
      → All
          (Elsewhere u
            (start_span_from_context u adapter ctx
              (call_config u (config_of opts new_default_config) target method)
              a
              w).0)
          y.events
      → (report_at 0 (unary_server u opts c baggage a chan x).ctx.spans
          ≡ some (reported business_error x.ending))
        × (let (place, w', sent) =
              unary_client u lib md_set range adapter opts target method meta ctx a y w in
            report_at place w'.ctx.spans ≡ some (reported external_service_error y.ending))
  unfolding unary_client
  unary-reports opts c baggage chan lib md_set range adapter target method meta ctx a x y w others
        carried elsewhere =
      let span_config = call_config u (config_of opts new_default_config) target method in
      let start = start_span_from_context u adapter ctx span_config a w in
      (
        unary_server-reported opts c baggage a chan x others,
        rw run-append (
            calls_after-reported external_service_error start.0 y.end_time y.ending
              (run u start.1 y.events)
              (report_at-run u start.0 y.events start.1 fresh elsewhere
                (start_span_from_context-fresh u adapter ctx span_config a w carried))),
      )
