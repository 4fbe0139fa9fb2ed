-- ===== src/Propagation/Binary/RoundTrip.antt =====
-- What Extract makes of what Inject wrote.
use apminsight_server_sdk_go.Prelude.{
  ℕ, ◌^◌, ◌<◌, ◌≡◌, ◌≢◌, refl, ap, true, false, List, [], ◌∷◌, ◌++◌, append_assoc, append-nil,
  arith, Bytes, length, leb, put_u32, get_u32, bytes_eq, get_u32-put_u32_bound, length-append,
  take-append_of, drop-append_of, All,
}
use apminsight_server_sdk_go.Prelude.Int.{
  ℤ, pos, to_u32, of_u32, IsInt32, of_u32-to_u32, to_u32_bound,
}
use apminsight_server_sdk_go.Propagation.{
  SampleStrategy, unknown, not_sampled, sampled, SampleFlags, flags_unknown, flags_not_sampled,
  flags_client_sampled, flags_server_sampled, flags_client_and_server_sampled, flags_int32,
  sample_flags_from_int32, SpanContext,
}
use apminsight_server_sdk_go.Propagation.Binary.{
  write_string, write_sample, write_baggage, inject, ok, failed, read_int32, read_text, read_string,
  set_item, read_baggage, read_flags, strategy_of_hit, extract,
}

-- A text whose length is an int32.
abbrev pub Short : Bytes → Type 0
Short s = length s < 2 ^ 31

read_int32-put :
    (z : ℤ) (rest : Bytes) → IsInt32 z → read_int32 (put_u32 (to_u32 z) ++ rest) ≡ ok (z, rest)
unfolding read_int32
read_int32-put z rest h =
    rw (read_int32, get_u32-put_u32_bound (to_u32 z) rest (to_u32_bound z), of_u32-to_u32 z h) refl

read_int32-count :
    (n : ℕ) (rest : Bytes) → n < 2 ^ 31 → read_int32 (put_u32 n ++ rest) ≡ ok (pos n, rest)
unfolding read_int32 of_u32
read_int32-count n rest h =
    rw (read_int32, get_u32-put_u32_bound n rest (omega (arith, h))) (ground arith)

read_string-write_string :
    (s rest : Bytes) → Short s → read_string (write_string s ++ rest) ≡ ok (s, rest)
unfolding read_string write_string read_text
read_string-write_string s rest h =
    let enough : leb (length s) (length (s ++ rest)) ≡ true =
      ground (arith, length-append s rest) in
    rw
      (
        append_assoc,
        read_int32-count (length s) (s ++ rest) h,
        enough,
        take-append_of (length s) s rest refl,
        drop-append_of (length s) s rest refl,
      )
      refl

-- No key of `b` is in `m`, or twice in `b`, and the texts are short.
unfoldable pub Fresh : List (Bytes × Bytes) → List (Bytes × Bytes) → Type 0
Fresh m [] = Unit
Fresh m ((k, v) ∷ b) =
    All (λ p. bytes_eq k p.0 ≡ false) m × Short k × Short v × Fresh (m ++ (k, v) ∷ []) b

set_item-fresh :
    (k v : Bytes) (m : List (Bytes × Bytes))
    → All (λ p. bytes_eq k p.0 ≡ false) m
    → set_item k v m ≡ m ++ (k, v) ∷ []
unfolding set_item
set_item-fresh k v [] h = refl
set_item-fresh k v ((k', v') ∷ m) h = rw h.0 (ap (λ t. (k', v') ∷ t) (set_item-fresh k v m h.1))

read_baggage-write_baggage :
    (b m : List (Bytes × Bytes)) (rest : Bytes)
    → Fresh m b
    → read_baggage (length b) m (write_baggage b ++ rest) ≡ ok (m ++ b, rest)
unfolding read_baggage write_baggage Fresh
read_baggage-write_baggage [] m rest h = rw append-nil refl
read_baggage-write_baggage ((k, v) ∷ b) m rest h =
    let (fresh, hk, hv, more) = h in
    rw
      (
        append_assoc,
        read_string-write_string k _ hk,
        append_assoc,
        read_string-write_string v _ hv,
        set_item-fresh k v m fresh,
        read_baggage-write_baggage b (m ++ (k, v) ∷ []) rest more,
        append_assoc,
      )
      refl

-- A context that Inject can write: its sampling is decided, its numbers are int32s, and its flags
-- are among those that are defined.
pub record IsWritable (sc : SpanContext) : Type 0 where
  pub decided : sc.strategy ≢ unknown
  pub trace_in : Short sc.trace_id
  pub span_in : Short sc.span_id
  pub weight_in : IsInt32 sc.weight
  pub count_in : length sc.baggage < 2 ^ 31
  pub keys : Fresh [] sc.baggage

flags-round : (f : SampleFlags) → sample_flags_from_int32 (flags_int32 f) ≡ f
unfolding sample_flags_from_int32 flags_int32
flags-round flags_unknown = refl
flags-round flags_not_sampled = refl
flags-round flags_client_sampled = refl
flags-round flags_server_sampled = refl
flags-round flags_client_and_server_sampled = refl

flags-IsInt32 : (f : SampleFlags) → IsInt32 (flags_int32 f)
unfolding flags_int32
flags-IsInt32 flags_unknown = (omega arith, omega arith)
flags-IsInt32 flags_not_sampled = (omega arith, omega arith)
flags-IsInt32 flags_client_sampled = (omega arith, omega arith)
flags-IsInt32 flags_server_sampled = (omega arith, omega arith)
flags-IsInt32 flags_client_and_server_sampled = (omega arith, omega arith)

read_flags-put :
    (f : SampleFlags) (rest : Bytes)
    → read_flags (put_u32 (to_u32 (flags_int32 f)) ++ rest) ≡ (f, rest)
unfolding read_flags
read_flags-put f rest =
    rw
      (
        read_flags,
        get_u32-put_u32_bound _ rest (to_u32_bound (flags_int32 f)),
        of_u32-to_u32 (flags_int32 f) (flags-IsInt32 f),
        flags-round f,
      )
      refl

-- The number that stands for a decided strategy.
hit_of : SampleStrategy → ℕ
hit_of sampled = 1
hit_of not_sampled = 0
hit_of unknown = 0

write_sample-decided :
    (st : SampleStrategy) (w : ℤ)
    → st ≢ unknown
    → (write_sample st w ≡ put_u32 (hit_of st) ++ put_u32 (to_u32 w))
      × (hit_of st < 2 ^ 31)
      × (strategy_of_hit (pos (hit_of st)) ≡ st)
unfolding write_sample hit_of strategy_of_hit
write_sample-decided sampled w h = (refl, omega arith, refl)
write_sample-decided not_sampled w h = (refl, omega arith, refl)
write_sample-decided unknown w h = absurd (h refl)

-- Extract reads back what Inject wrote, whatever follows it in the carrier, and leaves that: the
-- ids, the sampling, the flags and the baggage are those of the context that was injected, and
-- `ClientSampled` is false. The sampling is decided, the weight is an int32, the texts and the
-- baggage are shorter than 2 ^ 31, and no key of the baggage occurs twice.
pub extract-inject :
    (sc : SpanContext) (rest : Bytes)
    → IsWritable sc
    → extract (inject sc ++ rest) ≡ ok (record sc { client_sampled = false }, rest)
unfolding extract inject
extract-inject sc rest h =
    let (es, eh, ek) = write_sample-decided sc.strategy sc.weight h.decided in
    rw
      (
        append_assoc,
        read_string-write_string sc.trace_id _ h.trace_in,
        append_assoc,
        read_string-write_string sc.span_id _ h.span_in,
        es,
        append_assoc,
        append_assoc,
        read_int32-count (hit_of sc.strategy) _ eh,
        read_int32-put sc.weight _ h.weight_in,
        append_assoc,
        read_int32-count (length sc.baggage) _ h.count_in,
        append_assoc,
        read_baggage-write_baggage sc.baggage [] _ h.keys,
        read_flags-put sc.flags rest,
        ek,
      )
      refl

-- A context whose sampling is not decided, with ids shorter than 2 ^ 31 and no baggage, is
-- injected without an error, and what was written cannot be extracted.
pub extract-inject_undecided :
    (sc : SpanContext)
    → sc.strategy ≡ unknown
    → sc.baggage ≡ []
    → Short sc.trace_id
    → Short sc.span_id
    → extract (inject sc) ≡ failed
unfolding extract inject write_sample write_baggage
extract-inject_undecided sc e none_left ht hs =
    rw
      (
        read_string-write_string sc.trace_id _ ht,
        read_string-write_string sc.span_id _ hs,
        e,
        write_sample,
        none_left,
        read_int32-count 0 _ (omega arith),
        read_int32,
      )
      (unfold get_u32 put_u32 in refl)
