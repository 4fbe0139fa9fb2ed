-- ===== src/Tracing/Sampling/Remote.antt =====
-- A trace that goes on in the next service, through the binary carrier.
use apminsight_server_sdk_go.Prelude.{ℕ, ◌≡◌, ◌≢◌, ap, ◌++◌, Bool, false, Bytes}
use apminsight_server_sdk_go.Propagation.{flags_unknown, SpanContext}
use apminsight_server_sdk_go.Propagation.Binary.{inject, extract, ok}
use apminsight_server_sdk_go.Propagation.Binary.RoundTrip.{IsWritable, extract-inject}
use apminsight_server_sdk_go.Tracing.Sampling.{remote_context, decide}
use apminsight_server_sdk_go.Tracing.Sampling.Decision.{decide-known}

-- A context that can be written and whose flags are known reaches the next service: the trace
-- context that its first span gets there has the same trace id, strategy, weight and flags, and
-- the resource of that service, whatever its sampler would answer.
pub decide-remote_context :
    (sc : SpanContext) (rest resource : Bytes) (answer : Bool × ℕ)
    → IsWritable sc
    → sc.flags ≢ flags_unknown
    → (received : SpanContext) × (extract (inject sc ++ rest) ≡ ok (received, rest))
      × ((decide answer (remote_context received resource)).trace_id ≡ sc.trace_id)
      × ((decide answer (remote_context received resource)).sample_strategy ≡ sc.strategy)
      × ((decide answer (remote_context received resource)).sample_weight ≡ sc.weight)
      × ((decide answer (remote_context received resource)).sample_flags ≡ sc.flags)
      × ((decide answer (remote_context received resource)).resource ≡ resource)
unfolding remote_context
decide-remote_context sc rest resource answer h known =
    let received : SpanContext = record sc { client_sampled = false } in
    let stays : decide answer (remote_context received resource)
        ≡ remote_context received resource =
      decide-known answer (remote_context received resource) h.decided known in
    (
      received,
      extract-inject sc rest h,
      ap (λ t. t.trace_id) stays,
      ap (λ t. t.sample_strategy) stays,
      ap (λ t. t.sample_weight) stays,
      ap (λ t. t.sample_flags) stays,
      ap (λ t. t.resource) stays,
    )
