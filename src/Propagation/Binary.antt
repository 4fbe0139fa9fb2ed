-- ===== src/Propagation/Binary.antt =====
-- BinaryCarrierInjector and BinaryCarrierExtractor on a bytes.Buffer, whose writes do not fail.
pub mod RoundTrip
use apminsight_server_sdk_go.Prelude.{
  ℕ, zero, suc, ◌+◌, ◌≡◌, Bool, false, List, [], ◌∷◌, ◌++◌, Option, none, some, Bytes, length, take,
  drop, ltb, ◌==◌, if◌then◌else◌, put_u32, get_u32, bytes_eq, leb,
}
use apminsight_server_sdk_go.Prelude.Int.{ℤ, eqb_ℤ, pos, negsuc, to_u32, of_u32}
use apminsight_server_sdk_go.Propagation.{
  SampleStrategy, unknown, not_sampled, sampled, SampleFlags, flags_unknown, flags_int32,
  sample_flags_from_int32, SpanContext,
}

-- writeString, with `int32(len(s))` as four bytes.
pub write_string : Bytes → Bytes
write_string s = put_u32 (length s) ++ s

pub write_sample : SampleStrategy → ℤ → Bytes
write_sample sampled weight = put_u32 1 ++ put_u32 (to_u32 weight)
write_sample not_sampled weight = put_u32 0 ++ put_u32 (to_u32 weight)
write_sample unknown weight = []

pub write_baggage : List (Bytes × Bytes) → Bytes
unfolding write_string
write_baggage [] = []
write_baggage ((k, v) ∷ baggage) = write_string k ++ (write_string v ++ write_baggage baggage)

pub inject : SpanContext → Bytes
unfolding write_string write_sample write_baggage flags_int32
inject sc =
    write_string sc.trace_id
    ++ (write_string sc.span_id
        ++ (write_sample sc.strategy sc.weight
            ++ (put_u32 (length sc.baggage)
                ++ (write_baggage sc.baggage ++ put_u32 (to_u32 (flags_int32 sc.flags))))))

-- What a read ends in: a value, an error, or a panic.
pub data Result {ℓ} (A : Type ℓ) : Type ℓ where
  ok : A → Result A
  failed : Result A
  panicked : Result A

infixl 5 ◌>>=◌
abbrev pub ◌>>=◌ {ℓ κ} : {A : Type ℓ} {B : Type κ} → Result A → (A → Result B) → Result B
ok a >>= f = f a
failed >>= f = failed
panicked >>= f = panicked

-- binary.Read of an int32, and the unread rest.
pub read_int32 : Bytes → Result (ℤ × Bytes)
read_int32 bs = elim (get_u32 bs) [ none ↦ failed | some (w, rest) ↦ ok (of_u32 w, rest) ]

-- `sb.Grow(int(l))` and io.CopyN: Grow of a negative count panics, and CopyN fails when the reader
-- has fewer bytes than the count.
pub read_text : ℤ → Bytes → Result (Bytes × Bytes)
read_text (pos l) bs = if leb l (length bs) then ok (take l bs, drop l bs) else failed
read_text (negsuc l) bs = panicked

pub read_string : Bytes → Result (Bytes × Bytes)
unfolding read_int32 read_text
read_string bs = do (l, rest) ← read_int32 bs; read_text l rest

-- `baggage[key] = value`, the keys in the order in which they were first set.
pub set_item : Bytes → Bytes → List (Bytes × Bytes) → List (Bytes × Bytes)
set_item k v [] = (k, v) ∷ []
set_item k v ((k', v') ∷ m) = if bytes_eq k k' then (k, v) ∷ m else (k', v') ∷ set_item k v m

pub read_baggage : ℕ → List (Bytes × Bytes) → Bytes → Result (List (Bytes × Bytes) × Bytes)
unfolding read_string set_item
read_baggage zero m bs = ok (m, bs)
read_baggage (suc n) m bs = do
  (k, r1) ← read_string bs
  (v, r2) ← read_string r1
  read_baggage n (set_item k v m) r2

-- `for i := 0; i < int(cnt); i++`
abbrev pub rounds : ℤ → ℕ
rounds (pos n) = n
rounds (negsuc n) = 0

-- The optional last field: an error leaves `SampleFlagsUnknown`.
pub read_flags : Bytes → SampleFlags × Bytes
unfolding sample_flags_from_int32 flags_int32
read_flags bs = elim (get_u32 bs) [
  | none ↦ (sample_flags_from_int32 (flags_int32 flags_unknown), [])
  | some (w, rest) ↦ (sample_flags_from_int32 (of_u32 w), rest)
]

pub strategy_of_hit : ℤ → SampleStrategy
strategy_of_hit hit = if eqb_ℤ hit (pos 1) then sampled else not_sampled

-- The context, and the bytes that Extract leaves in the carrier.
pub extract : Bytes → Result (SpanContext × Bytes)
unfolding read_int32 read_string read_baggage read_flags strategy_of_hit
extract bs = do
  (trace_id, r1) ← read_string bs
  (span_id, r2) ← read_string r1
  (hit, r3) ← read_int32 r2
  (weight, r4) ← read_int32 r3
  (cnt, r5) ← read_int32 r4
  (baggage, r6) ← read_baggage (rounds cnt) [] r5
  ok (
    record {
      trace_id = trace_id;
      span_id = span_id;
      strategy = strategy_of_hit hit;
      weight = weight;
      client_sampled = false;
      flags = (read_flags r6).0;
      baggage = baggage;
    },
    (read_flags r6).1,
  )
