-- ===== src/Contrib/HttpClient/Sent.antt =====
-- What the next service reads in the headers that a round trip sends.
use apminsight_server_sdk_go.Prelude.{
  ℕ, ◌≡◌, ◌≢◌, refl, ◌∙◌, List, [], ◌∷◌, ◌++◌, Option, some, Bytes, codes, length, get_elem?,
}
use apminsight_server_sdk_go.Prelude.Int.{atoi}
use apminsight_server_sdk_go.Propagation.Headers.{
  Header, Library, HeaderContext, inject_headers, extract_headers,
}
use apminsight_server_sdk_go.Propagation.Headers.Injected.{KeepsLetters}
use apminsight_server_sdk_go.Propagation.Headers.RoundTrip.{SameHeaders, extract_headers-inject}
use apminsight_server_sdk_go.Tracing.Span.{Span, string_value}
use apminsight_server_sdk_go.Tracing.Sampling.{decide}
use apminsight_server_sdk_go.Tracing.Sampling.Decision.{decide-once}
use apminsight_server_sdk_go.Tracing.Emit.{Setup}
use apminsight_server_sdk_go.Tracing.Run.{World, run, step, tag_event}
use apminsight_server_sdk_go.Tracing.Run.Report.{run-nil, run-cons}
use apminsight_server_sdk_go.Tracing.Run.Calls.{string_tags, step-string_tag}
use apminsight_server_sdk_go.Tracing.Context.{
  Context, Starting, span_context, get_span_from_context, start_span_from_context,
}
use apminsight_server_sdk_go.Tracing.Context.Nested.{propagated, start_span_from_context-propagated}
use apminsight_server_sdk_go.Contrib.Url.{url_tags}
use apminsight_server_sdk_go.Contrib.HttpClient.{
  Request, Config, client_span_config, Exchange, custom_tags, tags_before, sent_headers, round_trip,
}

module _ (u : Setup) where
  -- String tags leave what a span propagates.
  string_tags-span_context :
      (place : ℕ) (tags : List (Bytes × Bytes)) (w : World) (s : Span)
      → get_elem? w.ctx.spans place ≡ some s
      → (t : Span) × (get_elem? (run u w (string_tags u place tags)).ctx.spans place ≡ some t)
        × (span_context (run u w (string_tags u place tags)).ctx t ≡ span_context w.ctx s)
  string_tags-span_context place [] w s there = rw run-nil (s, there, refl)
  string_tags-span_context place ((k, v) ∷ tags) w s there =
      let (t, now, same) = step-string_tag u place k v w s there in
      let (t', now', same') =
        string_tags-span_context place tags (step u w (tag_event place k (string_value v))) t now in
      rw run-cons (t', now', same' ∙ same)

  sent_headers-eq :
      (lib : Library) (place : ℕ) (req : Request) (w : World) (s : Span)
      → get_elem? w.ctx.spans place ≡ some s
      → sent_headers u lib place req w ≡ inject_headers lib (span_context w.ctx s) req.header
  unfolding sent_headers
  sent_headers-eq lib place req w s there = rw (sent_headers, there) refl

  -- A round trip inside a span, on a request without headers, sends headers that the next service
  -- reads, in whatever order, as the trace of the caller's span, the new span as the parent, and the
  -- sampling that this service has decided on.
  pub round_trip-propagates :
      (lib : Library) (adapter : Option (Context → Option Context)) (cfg : Config) (req : Request)
      (ctx : Context) (a : Starting) (x : Exchange u) (w : World) (i : ℕ) (parent : Span)
      (hs : List Header)
      → KeepsLetters lib
      → (atoi (lib.itoa (decide a.answer w.ctx).sample_weight)).0
        ≡ (decide a.answer w.ctx).sample_weight
      → get_span_from_context adapter (some ctx) ≡ some i
      → get_elem? w.ctx.spans i ≡ some parent
      → req.header ≡ []
      → length w.ctx.trace_id ≢ 0
      → length a.span_id ≢ 0
      → SameHeaders hs (round_trip u lib adapter cfg req ctx a x w).2
      → (received : HeaderContext) × (extract_headers hs ≡ some received)
        × (received.trace_id ≡ w.ctx.trace_id)
        × (received.span_id ≡ a.span_id)
        × (received.sample_strategy ≡ (decide a.answer w.ctx).sample_strategy)
        × (received.sample_weight ≡ (decide a.answer w.ctx).sample_weight)
        × (received.sample_flags ≡ (decide a.answer w.ctx).sample_flags)
  unfolding round_trip tags_before
  round_trip-propagates lib adapter cfg req ctx a x w i parent hs letters read active there bare
        has_trace has_span same =
      let start = start_span_from_context u adapter ctx (client_span_config cfg req) a w in
      let tags = (codes "http.method", req.method) ∷ (url_tags req.url ++ custom_tags cfg req) in
      let (s, first, context) =
        start_span_from_context-propagated u adapter ctx (client_span_config cfg req) a w i parent
          active there in
      let (t, now, kept) = string_tags-span_context start.0 tags start.1 s first in
      let sent =
        sent_headers-eq lib start.0 req (run u start.1 (string_tags u start.0 tags)) t now in
      let (received, extracted, agrees) =
        extract_headers-inject lib (propagated u a w parent) letters hs read
          (decide-once a.answer a.answer w.ctx).0.known has_trace has_span
          (rw (sent, kept, context, bare) at same) in
      (
        received, extracted, agrees.same_trace_id, agrees.same_span_id, agrees.same_strategy,
        agrees.same_weight, agrees.same_flags,
      )
