-- ===== src/Tracing/Sampling.antt =====
-- The part of startSpan in trace/aitracer/tracer.go that makes or joins a traceContext, and
-- trace/aitracer/trace_context.go.
pub mod Decision
pub mod Remote
use apminsight_server_sdk_go.Prelude.{
  ℕ, Bool, true, false, List, [], ◌∷◌, ◌++◌, Option, none, some, Bytes, codes, length, ◌==◌,
  if◌then◌else◌,
}
use apminsight_server_sdk_go.Prelude.Int.{ℤ, pos}
use apminsight_server_sdk_go.Propagation.{
  SampleStrategy, unknown, not_sampled, sampled, SampleFlags, flags_unknown, flags_not_sampled,
  flags_client_sampled, flags_server_sampled, flags_client_and_server_sampled, SpanContext,
}
use apminsight_server_sdk_go.Tracing.Span.{Span, Dict}

pub record TraceContext : Type 0 where
  pub trace_id : Bytes
  pub resource : Bytes
  pub sample_strategy : SampleStrategy
  pub sample_weight : ℤ
  pub client_sampled : Bool
  pub sample_flags : SampleFlags
  pub finish_count : ℕ
  pub spans : List Span

-- `traceResource`
pub trace_resource : Bytes → Bytes
trace_resource server_resource =
    if length server_resource == 0 then codes "empty" else server_resource

-- The context of a trace that starts here, and of one that a propagated parent started.
unfoldable pub new_context : Bytes → Bytes → TraceContext
new_context trace_id resource = record {
  trace_id = trace_id;
  resource = resource;
  sample_strategy = unknown;
  sample_weight = pos 0;
  client_sampled = false;
  sample_flags = flags_unknown;
  finish_count = 0;
  spans = [];
}

unfoldable pub remote_context : SpanContext → Bytes → TraceContext
remote_context parent resource = record {
  trace_id = parent.trace_id;
  resource = resource;
  sample_strategy = parent.strategy;
  sample_weight = parent.weight;
  client_sampled = parent.client_sampled;
  sample_flags = parent.flags;
  finish_count = 0;
  spans = [];
}

-- The sampler is asked only when the strategy is not known. `answer` is what it would answer.
pub decide_strategy : Bool × ℕ → TraceContext → TraceContext
decide_strategy answer tc = elim tc.sample_strategy [
  | unknown ↦
      if answer.0
      then record tc { sample_strategy = sampled; sample_weight = pos answer.1 }
      else record tc { sample_strategy = not_sampled }
  | not_sampled ↦ tc
  | sampled ↦ tc
]

pub flags_for : SampleStrategy → Bool → SampleFlags
flags_for not_sampled client = if client then flags_client_sampled else flags_not_sampled
flags_for sampled client = if client then flags_client_and_server_sampled else flags_server_sampled
flags_for unknown client = flags_unknown

pub decide_flags : TraceContext → TraceContext
unfolding flags_for
decide_flags tc = elim tc.sample_flags [
  | flags_unknown ↦ record tc { sample_flags = flags_for tc.sample_strategy tc.client_sampled }
  | flags_not_sampled ↦ tc
  | flags_client_sampled ↦ tc
  | flags_server_sampled ↦ tc
  | flags_client_and_server_sampled ↦ tc
]

unfoldable pub decide : Bool × ℕ → TraceContext → TraceContext
unfolding decide_strategy decide_flags
decide answer tc = decide_flags (decide_strategy answer tc)

unfoldable pub add_span : Span → TraceContext → TraceContext
add_span s tc = record tc { spans = tc.spans ++ s ∷ [] }
