-- ===== src/Tracing/Sampling/Decision.antt =====
-- What is decided about the sampling of a trace when its first span starts.
use mathlib.Core.Path.{subst, sym}
use apminsight_server_sdk_go.Prelude.{ℕ, Bool, true, false, ◌≡◌, ◌≢◌, refl, ◌||◌, ap, ◌∙◌}
use apminsight_server_sdk_go.Prelude.Int.{pos}
use apminsight_server_sdk_go.Propagation.{
  SampleStrategy, unknown, not_sampled, sampled, SampleFlags, flags_unknown, flags_not_sampled,
  flags_client_sampled, flags_server_sampled, flags_client_and_server_sampled, flags_sampled,
  flags_int32,
}
use apminsight_server_sdk_go.Tracing.Sampling.{
  TraceContext, decide_strategy, flags_for, decide_flags, decide,
}

abbrev pub was_sampled : SampleStrategy → Bool
was_sampled sampled = true
was_sampled not_sampled = false
was_sampled unknown = false

-- The context with other values where a decision looks.
abbrev with_sampling : TraceContext → SampleStrategy → SampleFlags → TraceContext
with_sampling tc st fl = record tc { sample_strategy = st; sample_flags = fl }

-- What a decision leaves.
pub record Decided (before after : TraceContext) : Type 0 where
  pub known : after.sample_strategy ≢ unknown
  pub flagged : after.sample_flags ≢ flags_unknown
  pub same_id : after.trace_id ≡ before.trace_id
  pub same_spans : after.spans ≡ before.spans
  pub same_count : after.finish_count ≡ before.finish_count

flags_for-known :
    (st : SampleStrategy) (client : Bool)
    → st ≢ unknown
    → (flags_for st client ≢ flags_unknown)
      × (flags_sampled (flags_for st client) ≡ (was_sampled st || client))
unfolding flags_for flags_sampled flags_int32
flags_for-known not_sampled false h = ((λ e. cc), refl)
flags_for-known not_sampled true h = ((λ e. cc), refl)
flags_for-known sampled false h = ((λ e. cc), refl)
flags_for-known sampled true h = ((λ e. cc), refl)
flags_for-known unknown client h = absurd (h refl)

decide_flags-Decided :
    (tc : TraceContext) (fl : SampleFlags)
    → tc.sample_strategy ≢ unknown
    → Decided tc (decide_flags (record tc { sample_flags = fl }))
unfolding decide_flags
decide_flags-Decided tc flags_unknown h = record {
  known = h;
  flagged = (flags_for-known tc.sample_strategy tc.client_sampled h).0;
  same_id = refl;
  same_spans = refl;
  same_count = refl;
}
decide_flags-Decided tc flags_not_sampled h = record {
  known = h;
  flagged = λ e. cc;
  same_id = refl;
  same_spans = refl;
  same_count = refl;
}
decide_flags-Decided tc flags_client_sampled h = record {
  known = h;
  flagged = λ e. cc;
  same_id = refl;
  same_spans = refl;
  same_count = refl;
}
decide_flags-Decided tc flags_server_sampled h = record {
  known = h;
  flagged = λ e. cc;
  same_id = refl;
  same_spans = refl;
  same_count = refl;
}
decide_flags-Decided tc flags_client_and_server_sampled h = record {
  known = h;
  flagged = λ e. cc;
  same_id = refl;
  same_spans = refl;
  same_count = refl;
}

decide_in :
    (answer : Bool × ℕ) (tc : TraceContext) (st : SampleStrategy)
    → Decided tc (decide answer (record tc { sample_strategy = st }))
unfolding decide decide_strategy
decide_in (true, w) tc unknown =
    let d =
      decide_flags-Decided (record tc { sample_strategy = sampled; sample_weight = pos w })
        tc.sample_flags (λ e. cc) in
    record {
      known = d.known;
      flagged = d.flagged;
      same_id = d.same_id;
      same_spans = d.same_spans;
      same_count = d.same_count;
    }
decide_in (false, w) tc unknown =
    let d =
      decide_flags-Decided (record tc { sample_strategy = not_sampled }) tc.sample_flags
        (λ e. cc) in
    record {
      known = d.known;
      flagged = d.flagged;
      same_id = d.same_id;
      same_spans = d.same_spans;
      same_count = d.same_count;
    }
decide_in answer tc not_sampled =
    let d =
      decide_flags-Decided (record tc { sample_strategy = not_sampled }) tc.sample_flags
        (λ e. cc) in
    record {
      known = d.known;
      flagged = d.flagged;
      same_id = d.same_id;
      same_spans = d.same_spans;
      same_count = d.same_count;
    }
decide_in answer tc sampled =
    let d =
      decide_flags-Decided (record tc { sample_strategy = sampled }) tc.sample_flags (λ e. cc) in
    record {
      known = d.known;
      flagged = d.flagged;
      same_id = d.same_id;
      same_spans = d.same_spans;
      same_count = d.same_count;
    }

stays_strategy :
    (answer : Bool × ℕ) (tc : TraceContext) (st : SampleStrategy)
    → st ≢ unknown
    → decide_strategy answer (record tc { sample_strategy = st })
      ≡ record tc { sample_strategy = st }
unfolding decide_strategy
stays_strategy answer tc sampled h = refl
stays_strategy answer tc not_sampled h = refl
stays_strategy answer tc unknown h = absurd (h refl)

stays_flags :
    (tc : TraceContext) (fl : SampleFlags)
    → fl ≢ flags_unknown
    → decide_flags (record tc { sample_flags = fl }) ≡ record tc { sample_flags = fl }
unfolding decide_flags
stays_flags tc flags_unknown h = absurd (h refl)
stays_flags tc flags_not_sampled h = refl
stays_flags tc flags_client_sampled h = refl
stays_flags tc flags_server_sampled h = refl
stays_flags tc flags_client_and_server_sampled h = refl

-- A context whose strategy and flags are known is not changed by a decision.
pub decide-known :
    (answer : Bool × ℕ) (tc : TraceContext)
    → tc.sample_strategy ≢ unknown
    → tc.sample_flags ≢ flags_unknown
    → decide answer tc ≡ tc
unfolding decide
decide-known answer tc known flagged =
    ap decide_flags (stays_strategy answer tc tc.sample_strategy known)
    ∙ stays_flags tc tc.sample_flags flagged

-- Whatever the sampler answers, after the first span has started the strategy and the flags of the
-- trace are known, and whatever it answers when later spans of the trace start, they stay. The id,
-- the spans and the count of the trace are not touched.
pub decide-once :
    (answer later : Bool × ℕ) (tc : TraceContext)
    → Decided tc (decide answer tc) × (decide later (decide answer tc) ≡ decide answer tc)
decide-once answer later tc =
    let d = decide_in answer tc tc.sample_strategy in
    (d, decide-known later (decide answer tc) d.known d.flagged)

flags_sampled_in :
    (answer : Bool × ℕ) (tc : TraceContext) (st : SampleStrategy)
    → flags_sampled (decide answer (with_sampling tc st flags_unknown)).sample_flags ≡ (
        was_sampled (decide answer (with_sampling tc st flags_unknown)).sample_strategy
        || tc.client_sampled)
unfolding decide decide_strategy decide_flags
flags_sampled_in (true, w) tc unknown = (flags_for-known sampled tc.client_sampled (λ e. cc)).1
flags_sampled_in (false, w) tc unknown = (flags_for-known not_sampled tc.client_sampled (λ e. cc)).1
flags_sampled_in answer tc not_sampled = (flags_for-known not_sampled tc.client_sampled (λ e. cc)).1
flags_sampled_in answer tc sampled = (flags_for-known sampled tc.client_sampled (λ e. cc)).1

-- When the flags are not known, those that are decided say "sampled" exactly when the strategy is
-- sampled or the client sampled.
decide-flags_sampled :
    (answer : Bool × ℕ) (tc : TraceContext)
    → tc.sample_flags ≡ flags_unknown
    → flags_sampled (decide answer tc).sample_flags
      ≡ (was_sampled (decide answer tc).sample_strategy || tc.client_sampled)
decide-flags_sampled answer tc h =
    subst
      (λ c.
        flags_sampled (decide answer c).sample_flags
        ≡ (was_sampled (decide answer c).sample_strategy || c.client_sampled))
      (sym (ap (λ f. record tc { sample_flags = f }) h))
      (flags_sampled_in answer tc tc.sample_strategy)
