-- ===== src/Propagation/TraceParent/Accepted.antt =====
-- Which headers ParseTraceParent accepts, and what it makes of them.
use mathlib.Core.Path.{subst}
use apminsight_server_sdk_go.Prelude.{
  ℕ, ◌<◌, ◌≡◌, refl, true, false, List, [], ◌∷◌, ◌++◌, none, some, bind-some, Bytes, length, ltb,
  ◌==◌, bytes_eq, replicate, arith, Bool-cases, inl, inr, some_inj, All, length-append,
}
use apminsight_server_sdk_go.Prelude.Strings.{split}
use apminsight_server_sdk_go.Propagation.TraceParent.{
  TraceParent, min_length, hex_digit, hex_field, id_field, version_field, parse_fields,
  parse_trace_parent,
}

hex_digit-bound : (c n : ℕ) → hex_digit c ≡ some n → n < 16
unfolding hex_digit
hex_digit-bound c n h = ground arith

hex_field-bound : (s : Bytes) (n : ℕ) → hex_field s ≡ some n → n < 256
unfolding hex_field
hex_field-bound (a ∷ b ∷ []) n h =
    let (high, e, h1) = bind-some (hex_digit a) _ h in
    let (low, k, h2) = bind-some (hex_digit b) _ h1 in
    ground (arith, hex_digit-bound a high e, hex_digit-bound b low k, some_inj h2)
hex_field-bound [] n h = absurd cc
hex_field-bound (a ∷ []) n h = absurd cc
hex_field-bound (a ∷ b ∷ c ∷ s) n h = absurd cc

id_field-some :
    (n : ℕ) (s id : Bytes)
    → id_field n s ≡ some id
    → (length id ≡ n) × (bytes_eq id (replicate n b'0') ≡ false)
unfolding id_field
id_field-some n s id h = elim (Bool-cases (length s == n)) [
  | inl fits ↦ elim (Bool-cases (bytes_eq s (replicate n b'0'))) [
    | inl zeros ↦ let k : none ≡ some id = (rw (fits, zeros) at h) in absurd cc
    | inr mixed ↦
        subst (λ t. (length t ≡ n) × (bytes_eq t (replicate n b'0') ≡ false))
          (some_inj (rw (fits, mixed) at h)) (ground arith, mixed)
  ]
  | inr other ↦ let k : none ≡ some id = (rw other at h) in absurd cc
]

id_field-valid :
    (n : ℕ) (s : Bytes)
    → length s ≡ n
    → bytes_eq s (replicate n b'0') ≡ false
    → id_field n s ≡ some s
unfolding id_field
id_field-valid n s h k = let fits : (length s == n) ≡ true = ground arith in rw (fits, k) refl

version_field-some : (s : Bytes) (n : ℕ) → version_field s ≡ some n → n ≡ 0
unfolding version_field
version_field-some s n h =
    let (v, e, h1) = bind-some (hex_field s) _ h in
    elim (Bool-cases (v == 0)) [
      | inl y ↦ subst (λ m. m ≡ 0) (some_inj (rw y at h1)) (ground arith)
      | inr other ↦ let k : none ≡ some n = (rw other at h1) in absurd cc
    ]

-- What ParseTraceParent accepts.
pub record IsAccepted (tp : TraceParent) : Type 0 where
  pub version_zero : tp.version ≡ 0
  pub trace_id_length : length tp.trace_id ≡ 32
  pub trace_id_mixed : bytes_eq tp.trace_id (replicate 32 b'0') ≡ false
  pub span_id_length : length tp.parent_span_id ≡ 16
  pub span_id_mixed : bytes_eq tp.parent_span_id (replicate 16 b'0') ≡ false
  pub flags_byte : tp.trace_flags < 256

parse_fields-IsAccepted :
    (fields : List Bytes) (tp : TraceParent) → parse_fields fields ≡ some tp → IsAccepted tp
unfolding parse_fields
parse_fields-IsAccepted (v ∷ t ∷ p ∷ f ∷ rest) tp h =
    let (version, ev, h1) = bind-some (version_field v) _ h in
    let (trace_id, et, h2) = bind-some (id_field 32 t) _ h1 in
    let (span_id, ep, h3) = bind-some (id_field 16 p) _ h2 in
    let (flags, ef, h4) = bind-some (hex_field f) _ h3 in
    subst IsAccepted (some_inj h4) (record {
      version_zero = version_field-some v version ev;
      trace_id_length = (id_field-some 32 t trace_id et).0;
      trace_id_mixed = (id_field-some 32 t trace_id et).1;
      span_id_length = (id_field-some 16 p span_id ep).0;
      span_id_mixed = (id_field-some 16 p span_id ep).1;
      flags_byte = hex_field-bound f flags ef;
    })
parse_fields-IsAccepted [] tp h = absurd cc
parse_fields-IsAccepted (v ∷ []) tp h = absurd cc
parse_fields-IsAccepted (v ∷ t ∷ []) tp h = absurd cc
parse_fields-IsAccepted (v ∷ t ∷ p ∷ []) tp h = absurd cc

-- What is accepted has version 0, a trace id of 32 and a span id of 16 characters, neither all
-- zeros, and flags of one byte.
pub parse_trace_parent-IsAccepted :
    (s : Bytes) (tp : TraceParent) → parse_trace_parent s ≡ some tp → IsAccepted tp
unfolding parse_trace_parent
parse_trace_parent-IsAccepted s tp h = elim (Bool-cases (ltb (length s) min_length)) [
  | inl short ↦ let k : none ≡ some tp = (rw short at h) in absurd cc
  | inr enough ↦ parse_fields-IsAccepted (split b'-' s) tp (rw enough at h)
]

split-field :
    (a rest : Bytes)
    → All (λ c. (c == b'-') ≡ false) a
    → split b'-' (a ++ b'-' ∷ rest) ≡ a ∷ split b'-' rest
unfolding split
split-field [] rest h = refl
split-field (c ∷ a) rest h = rw (h.0, split-field a rest h.1) refl

-- What may follow the flags: nothing, or a dash and any text.
abbrev pub IsTail : Bytes → Type 0
IsTail [] = Unit {0}
IsTail (c ∷ s) = (c == b'-') ≡ true

-- Before such a tail the last field ends.
split-tail :
    (a tail : Bytes)
    → All (λ c. (c == b'-') ≡ false) a
    → IsTail tail
    → (more : List Bytes) × (split b'-' (a ++ tail) ≡ a ∷ more)
unfolding split
split-tail [] [] h t = ([], refl)
split-tail [] (c ∷ s) h t = (split b'-' s, rw t refl)
split-tail (c ∷ a) tail h t = let (more, e) = split-tail a tail h.1 t in (more, rw (h.0, e) refl)

-- A header of version 0 with valid ids that have no dash, and flags of two hexadecimal digits, is
-- accepted and yields those ids and flags, whether it ends after the flags, with 55 bytes, or has a
-- dash and any text there.
pub parse_trace_parent-header :
    (trace_id span_id tail : Bytes) (a b flags : ℕ)
    → length trace_id ≡ 32
    → length span_id ≡ 16
    → bytes_eq trace_id (replicate 32 b'0') ≡ false
    → bytes_eq span_id (replicate 16 b'0') ≡ false
    → All (λ c. (c == b'-') ≡ false) trace_id
    → All (λ c. (c == b'-') ≡ false) span_id
    → All (λ c. (c == b'-') ≡ false) (a ∷ b ∷ [])
    → hex_field (a ∷ b ∷ []) ≡ some flags
    → IsTail tail
    → parse_trace_parent
        (b'0' ∷ b'0' ∷ b'-' ∷ (trace_id ++ b'-' ∷ (span_id ++ b'-' ∷ (a ∷ b ∷ tail))))
      ≡ some (record {
        version = 0;
        trace_id = trace_id;
        parent_span_id = span_id;
        trace_flags = flags;
      })
unfolding parse_trace_parent parse_fields version_field
parse_trace_parent-header trace_id span_id tail a b flags lt ls mt ms nt ns nf hf ends =
    let long : ltb
          (length (b'0' ∷ b'0' ∷ b'-' ∷ (trace_id ++ b'-' ∷ (span_id ++ b'-' ∷ (a ∷ b ∷ tail)))))
          min_length
        ≡ false =
      ground (
        arith,
        length-append trace_id (b'-' ∷ (span_id ++ b'-' ∷ (a ∷ b ∷ tail))),
        length-append span_id (b'-' ∷ (a ∷ b ∷ tail)),
      ) in
    let (more, last) = split-tail (a ∷ b ∷ []) tail nf ends in
    rw
      (
        long,
        split-field (b'0' ∷ b'0' ∷ []) (trace_id ++ b'-' ∷ (span_id ++ b'-' ∷ (a ∷ b ∷ tail)))
            (refl, (refl, tt)),
        split-field trace_id (span_id ++ b'-' ∷ (a ∷ b ∷ tail)) nt,
        split-field span_id (a ∷ b ∷ tail) ns,
        last,
        id_field-valid 32 trace_id lt mt,
        id_field-valid 16 span_id ls ms,
        hf,
      )
      refl
