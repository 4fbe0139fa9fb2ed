-- ===== src/Propagation/Headers/RoundTrip.antt =====
-- What HTTPHeadersExtractor makes of the headers that HTTPHeadersInjector has set.
use mathlib.Core.List.{Memᴰ}
use apminsight_server_sdk_go.Prelude.{
  ◌≡◌, ◌≢◌, refl, false, List, [], some, Bytes, length, ◌==◌, arith,
}
use apminsight_server_sdk_go.Prelude.Int.{atoi}
use apminsight_server_sdk_go.Propagation.{unknown, flags_to_string, SpanContext}
use apminsight_server_sdk_go.Propagation.Headers.{
  Header, Library, HeaderContext, new_context, inject_headers, put_baggage, foreach_key,
  extract_headers,
}
use apminsight_server_sdk_go.Propagation.Headers.Injected.{
  Kind, trace, span, hit, weight, flags, item, key_of, Fine, foreach_key-Sets, apply, hit_text,
  hit_strategy-hit_text, flags-flags_to_string, ValueOf, Injected, KeepsLetters,
  inject_headers-Injected,
}
use apminsight_server_sdk_go.Propagation.Headers.Carried.{
  All-of_Mem, Mem-of_All, Injected-Fine, Sets-apply, Mem-trace, Mem-span, Mem-hit, Mem-weight,
  Mem-flags,
}

-- The same headers, in any order and as often as one likes.
abbrev pub SameHeaders : List Header → List Header → Type 0
SameHeaders hs gs = ((h : Header) → Memᴰ h hs → Memᴰ h gs) × ((h : Header) → Memᴰ h gs → Memᴰ h hs)

-- The context agrees with the one that was injected on the ids, the sampling and the flags.
pub record Agrees (sc : SpanContext) (ctx : HeaderContext) : Type 0 where
  pub same_trace_id : ctx.trace_id ≡ sc.trace_id
  pub same_span_id : ctx.span_id ≡ sc.span_id
  pub same_strategy : ctx.sample_strategy ≡ sc.strategy
  pub same_weight : ctx.sample_weight ≡ sc.weight
  pub same_flags : ctx.sample_flags ≡ sc.flags

module _ (lib : Library) (sc : SpanContext) (letters : KeepsLetters lib) where
  -- A field that each kind keeps right, and one kind sets, is right in the end.
  field_right :
      {X : Type 0} (field : HeaderContext → X) (x : X) (kind : Kind) (v : Bytes) (hs : List Header)
      → ((k : Kind) (w : Bytes) (c : HeaderContext)
          → ValueOf lib sc k w
          → field c ≡ x
          → field (apply k w c) ≡ x)
      → ((c : HeaderContext) → field (apply kind v c) ≡ x)
      → sc.strategy ≢ unknown
      → SameHeaders hs (inject_headers lib sc [])
      → Memᴰ (lib.canonical (key_of kind), v) (inject_headers lib sc [])
      → field (foreach_key hs new_context) ≡ x
  field_right field x kind v hs keeps sets known same m =
      foreach_key-Sets field x hs (lib.canonical (key_of kind), v) new_context
        (All-of_Mem (Fine field x) hs (λ h n. Injected-Fine lib sc letters field x keeps h (
          Mem-of_All (Injected lib sc) (inject_headers lib sc []) h
            (inject_headers-Injected lib sc known) (same.0 h n))))
        (same.1 (lib.canonical (key_of kind), v) m) (Sets-apply lib sc letters field x kind v sets)

  keeps_trace_id :
      (k : Kind) (w : Bytes) (c : HeaderContext)
      → ValueOf lib sc k w
      → c.trace_id ≡ sc.trace_id
      → (apply k w c).trace_id ≡ sc.trace_id
  unfolding put_baggage
  keeps_trace_id trace w c r e = r
  keeps_trace_id span w c r e = e
  keeps_trace_id hit w c r e = e
  keeps_trace_id weight w c r e = e
  keeps_trace_id flags w c r e = e
  keeps_trace_id (item k x) w c r e = e

  keeps_span_id :
      (k : Kind) (w : Bytes) (c : HeaderContext)
      → ValueOf lib sc k w
      → c.span_id ≡ sc.span_id
      → (apply k w c).span_id ≡ sc.span_id
  unfolding put_baggage
  keeps_span_id trace w c r e = e
  keeps_span_id span w c r e = r
  keeps_span_id hit w c r e = e
  keeps_span_id weight w c r e = e
  keeps_span_id flags w c r e = e
  keeps_span_id (item k x) w c r e = e

  keeps_strategy :
      sc.strategy ≢ unknown
      → (k : Kind) (w : Bytes) (c : HeaderContext) → ValueOf lib sc k w
      → c.sample_strategy ≡ sc.strategy
      → (apply k w c).sample_strategy ≡ sc.strategy
  unfolding put_baggage
  keeps_strategy known trace w c r e = e
  keeps_strategy known span w c r e = e
  keeps_strategy known hit w c r e =
      rw r (hit_strategy-hit_text sc.strategy c.sample_strategy known)
  keeps_strategy known weight w c r e = e
  keeps_strategy known flags w c r e = e
  keeps_strategy known (item k x) w c r e = e

  keeps_weight :
      (atoi (lib.itoa sc.weight)).0 ≡ sc.weight
      → (k : Kind) (w : Bytes) (c : HeaderContext) → ValueOf lib sc k w
      → c.sample_weight ≡ sc.weight
      → (apply k w c).sample_weight ≡ sc.weight
  unfolding put_baggage
  keeps_weight read trace w c r e = e
  keeps_weight read span w c r e = e
  keeps_weight read hit w c r e = e
  keeps_weight read weight w c r e = rw r read
  keeps_weight read flags w c r e = e
  keeps_weight read (item k x) w c r e = e

  keeps_flags :
      (k : Kind) (w : Bytes) (c : HeaderContext)
      → ValueOf lib sc k w
      → c.sample_flags ≡ sc.flags
      → (apply k w c).sample_flags ≡ sc.flags
  unfolding put_baggage
  keeps_flags trace w c r e = e
  keeps_flags span w c r e = e
  keeps_flags hit w c r e = e
  keeps_flags weight w c r e = e
  keeps_flags flags w c r e = rw r (flags-flags_to_string sc.flags)
  keeps_flags (item k x) w c r e = e

  foreach_key-Agrees :
      (hs : List Header)
      → (atoi (lib.itoa sc.weight)).0 ≡ sc.weight
      → sc.strategy ≢ unknown
      → SameHeaders hs (inject_headers lib sc [])
      → Agrees sc (foreach_key hs new_context)
  foreach_key-Agrees hs read known same = record {
    same_trace_id =
        field_right (λ c. c.trace_id) sc.trace_id trace sc.trace_id hs keeps_trace_id (λ c. refl)
          known same (Mem-trace lib sc letters known);
    same_span_id =
        field_right (λ c. c.span_id) sc.span_id span sc.span_id hs keeps_span_id (λ c. refl) known
          same (Mem-span lib sc letters known);
    same_strategy =
        field_right (λ c. c.sample_strategy) sc.strategy hit (hit_text sc.strategy) hs
          (keeps_strategy known) (λ c. hit_strategy-hit_text sc.strategy c.sample_strategy known)
          known same (Mem-hit lib sc letters known);
    same_weight =
        field_right (λ c. c.sample_weight) sc.weight weight (lib.itoa sc.weight) hs
          (keeps_weight read) (λ c. read) known same (Mem-weight lib sc letters known);
    same_flags =
        field_right (λ c. c.sample_flags) sc.flags flags (flags_to_string sc.flags) hs keeps_flags
          (λ c. flags-flags_to_string sc.flags) known same (Mem-flags lib sc letters known);
  }

  -- A context with a decided strategy and non-empty ids that was injected into empty headers is
  -- extracted from the same headers, in whatever order Go ranges over them, with the same ids,
  -- strategy, weight and flags, if canonical keys differ in the case of letters at most, and the
  -- weight is read back from its digits.
  pub extract_headers-inject :
      (hs : List Header)
      → (atoi (lib.itoa sc.weight)).0 ≡ sc.weight
      → sc.strategy ≢ unknown
      → length sc.trace_id ≢ 0
      → length sc.span_id ≢ 0
      → SameHeaders hs (inject_headers lib sc [])
      → (ctx : HeaderContext) × (extract_headers hs ≡ some ctx) × Agrees sc ctx
  unfolding extract_headers
  extract_headers-inject hs read known t s same =
      let agrees = foreach_key-Agrees hs read known same in
      let has_trace : (length sc.trace_id == 0) ≡ false = ground arith in
      let has_span : (length sc.span_id == 0) ≡ false = ground arith in
      (
        foreach_key hs new_context,
        rw (agrees.same_trace_id, agrees.same_span_id, has_trace, has_span) refl,
        agrees,
      )
