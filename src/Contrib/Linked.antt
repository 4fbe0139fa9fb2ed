-- ===== src/Contrib/Linked.antt =====
-- A request from a service that uses the HTTP client to one that uses the gin middleware.
use mathlib.Core.Path.{sym}
use apminsight_server_sdk_go.Prelude.{
  ℕ, Bool, ◌≡◌, ◌≢◌, refl, ap, ◌∙◌, List, [], ◌∷◌, Option, some, length, get_elem?, map,
}
use apminsight_server_sdk_go.Prelude.Int.{atoi}
use apminsight_server_sdk_go.Propagation.{SpanContext}
use apminsight_server_sdk_go.Propagation.Headers.{Header, Library, span_context_of, chain_of}
use apminsight_server_sdk_go.Propagation.Headers.Injected.{KeepsLetters}
use apminsight_server_sdk_go.Propagation.Headers.RoundTrip.{SameHeaders}
use apminsight_server_sdk_go.Tracing.Span.{Span, Dict}
use apminsight_server_sdk_go.Tracing.Sampling.{
  TraceContext, trace_resource, remote_context, decide, add_span,
}
use apminsight_server_sdk_go.Tracing.Sampling.Decision.{decide-once, decide-known}
use apminsight_server_sdk_go.Tracing.Emit.{Setup, wanted}
use apminsight_server_sdk_go.Tracing.Run.{World, new_span, start_trace}
use apminsight_server_sdk_go.Tracing.Context.{Context, Starting, get_span_from_context}
use apminsight_server_sdk_go.Contrib.Gin
use apminsight_server_sdk_go.Contrib.Gin.{GinContext, Arrival, resource_name, start_server_span}
use apminsight_server_sdk_go.Contrib.HttpClient
use apminsight_server_sdk_go.Contrib.HttpClient.{Request, Exchange, round_trip}
use apminsight_server_sdk_go.Contrib.HttpClient.Sent.{round_trip-propagates}

wanted-eq :
    (tc uc : TraceContext)
    → tc.sample_strategy ≡ uc.sample_strategy
    → tc.sample_flags ≡ uc.sample_flags
    → wanted tc ≡ wanted uc
unfolding wanted
wanted-eq tc uc e f = rw (e, f) refl

module _ (u : Setup) where
  -- The first span of a service whose caller has decided joins the caller's trace.
  start_server_span-joins :
      (cfg : Gin.Config) (c : GinContext) (b : Arrival) (sc : SpanContext) (answer : Bool × ℕ)
      (before : TraceContext)
      → b.chain ≡ some sc
      → sc.strategy ≡ (decide answer before).sample_strategy
      → sc.flags ≡ (decide answer before).sample_flags
      → ((start_server_span u cfg c b).ctx.trace_id ≡ sc.trace_id)
        × (map (λ s. s.parent_span_id) (start_server_span u cfg c b).ctx.spans ≡ sc.span_id ∷ [])
        × (wanted (start_server_span u cfg c b).ctx ≡ wanted (decide answer before))
  unfolding start_server_span start_trace add_span new_span remote_context wanted
  start_server_span-joins cfg c b sc answer before chain st fl =
      let d = (decide-once answer answer before).0 in
      let joined = remote_context sc (trace_resource (resource_name cfg c)) in
      let stays : decide b.answer joined ≡ joined =
        decide-known b.answer joined (λ e. d.known (sym st ∙ e)) (λ e. d.flagged (sym fl ∙ e)) in
      rw (start_server_span, chain, stays)
        (refl, refl, wanted-eq joined (decide answer before) st fl)

module _ (u v : Setup) where
  -- When a request that the HTTP client sends inside a span, without headers of its own, reaches a
  -- service with the gin middleware, its headers in whatever order, the span of the server is in
  -- the trace of the caller, its parent is the client's span, and the two services agree on whether
  -- they send what they have of the trace, whatever the server's sampler would answer. The ids of
  -- the trace and of the client's span are not empty; the canonical form of a header's key changes
  -- the case of letters at most; and strconv.Atoi reads back what strconv.Itoa writes of the weight.
  pub round_trip-links :
      (lib : Library) (adapter : Option (Context → Option Context)) (cfg : HttpClient.Config)
      (req : Request) (ctx : Context) (a : Starting) (x : Exchange u) (w : World) (i : ℕ)
      (parent : Span) (hs : List Header) (server : Gin.Config) (c : GinContext) (b : Arrival)
      (items : Dict)
      → KeepsLetters lib
      → (atoi (lib.itoa (decide a.answer w.ctx).sample_weight)).0
        ≡ (decide a.answer w.ctx).sample_weight
      → get_span_from_context adapter (some ctx) ≡ some i
      → get_elem? w.ctx.spans i ≡ some parent
      → req.header ≡ []
      → length w.ctx.trace_id ≢ 0
      → length a.span_id ≢ 0
      → SameHeaders hs (round_trip u lib adapter cfg req ctx a x w).2
      → b.chain ≡ chain_of items hs
      → ((start_server_span v server c b).ctx.trace_id ≡ w.ctx.trace_id)
        × (map (λ s. s.parent_span_id) (start_server_span v server c b).ctx.spans ≡ a.span_id ∷ [])
        × (wanted (start_server_span v server c b).ctx ≡ wanted (decide a.answer w.ctx))
  round_trip-links lib adapter cfg req ctx a x w i parent hs server c b items letters read active
        there bare has_trace has_span same chain =
      let (received, extracted, id, span_id, strategy, weight, flags) =
        round_trip-propagates u lib adapter cfg req ctx a x w i parent hs letters read active there
          bare has_trace has_span same in
      let sc = span_context_of items received in
      let found : b.chain ≡ some sc = chain ∙ rw (chain_of, extracted) refl in
      let (joins, nested, agrees) =
        start_server_span-joins v server c b sc a.answer w.ctx found strategy flags in
      (joins ∙ id, nested ∙ ap (λ s. s ∷ []) span_id, agrees)
