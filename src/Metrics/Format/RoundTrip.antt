-- ===== src/Metrics/Format/RoundTrip.antt =====
-- A reader of the wire format, for what formatCommon writes.
use mathlib.Core.Path.{subst}
use apminsight_server_sdk_go.Prelude.{
  ◌>>=◌, bind-some, ℕ, zero, suc, ◌+◌, ◌*◌, ◌^◌, ◌≤◌, ◌<◌, ◌≡◌, refl, ap, sym, false, List, [], ◌∷◌,
  ◌++◌, append_assoc, Option, none, some, arith, Bytes, length, take, drop, ltb, leb, ◌==◌,
  if◌then◌else◌, put_u64, get_u32, take-append, drop-append, length-append, All, Bool-cases,
  some_inj, inl, inr,
}
use apminsight_server_sdk_go.Metrics.Format.{
  Tag, max_string_len, write_string, write_name, write_float64, write_all, write_tags,
  format_common,
}

-- A length in one byte, and that many bytes.
pub read_string : Bytes → Option (Bytes × Bytes)
read_string [] = none
read_string (n ∷ r) = if leb n (length r) then some (take n r, drop n r) else none

pub read_u64 : Bytes → Option (ℕ × Bytes)
unfolding get_u32
read_u64 s = do (lo, r) ← get_u32 s; (hi, r') ← get_u32 r; some (lo + 2 ^ 32 * hi, r')

pub read_tags : ℕ → Bytes → Option (List Tag × Bytes)
unfolding read_string
read_tags zero s = some ([], s)
read_tags (suc n) s = do
  (k, r1) ← read_string s
  (v, r2) ← read_string r1
  (tags, r3) ← read_tags n r2
  some (record { key = k; value = v } ∷ tags, r3)

pub read_item : Bytes → Option (ℕ × Bytes × ℕ × List Tag × Bytes)
unfolding read_string read_u64 read_tags
read_item [] = none
read_item (mt ∷ s) = do
  (name, r1) ← read_string s
  (value, r2) ← read_u64 r1
  elim r2 [
    | [] ↦ none
    | n ∷ r3 ↦ (do (tags, r4) ← read_tags n r3; some (mt, name, value, tags, r4))
  ]

-- The name on the wire.
unfoldable pub full_name : Bytes → Bytes → Bytes
full_name prefix name = if length prefix == 0 then name else prefix ++ b'.' ∷ name

read_string-written : (s rest : Bytes) → read_string (length s ∷ (s ++ rest)) ≡ some (s, rest)
unfolding read_string
read_string-written s rest =
    ground (arith, take-append s rest, drop-append s rest, length-append s rest)

read_string-write_string :
    (s rest b : Bytes) → write_string s ≡ some b → read_string (b ++ rest) ≡ some (s, rest)
unfolding write_string
read_string-write_string s rest b h = elim (Bool-cases (ltb max_string_len (length s))) [
  | inl long ↦ let no_bytes : none ≡ some b = (rw long at h) in cc
  | inr short ↦
      let e : some (length s ∷ s) ≡ some b = (rw short at h) in
      subst (λ t. read_string (t ++ rest) ≡ some (s, rest)) (some_inj e)
        (read_string-written s rest)
]

read_string-write_name :
    (prefix name rest b : Bytes)
    → write_name prefix name ≡ some b
    → read_string (b ++ rest) ≡ some (full_name prefix name, rest)
unfolding write_name full_name
read_string-write_name prefix name rest b h = elim (Bool-cases (length prefix == 0)) [
  | inl bare ↦ rw bare (read_string-write_string name rest b (rw bare at h))
  | inr dotted ↦
      rw dotted (elim (Bool-cases (ltb max_string_len (length prefix + length name + 1))) [
        | inl long ↦ let no_bytes : none ≡ some b = (rw (dotted, long) at h) in cc
        | inr short ↦
            let e : some ((length prefix + length name + 1) ∷ (prefix ++ b'.' ∷ name)) ≡ some b =
              (rw (dotted, short) at h) in
            subst (λ t. read_string (t ++ rest) ≡ some (prefix ++ b'.' ∷ name, rest)) (some_inj e)
              (rw
                (let k : length prefix + length name + 1 ≡ length (prefix ++ b'.' ∷ name) =
                    omega (arith, length-append prefix (b'.' ∷ name)) in
                  k)
                (read_string-written (prefix ++ b'.' ∷ name) rest))
      ])
]

read_u64-write_float64 :
    (v : ℕ) (rest : Bytes) → v < 2 ^ 64 → read_u64 (write_float64 v ++ rest) ≡ some (v, rest)
unfolding read_u64 write_float64 put_u64
read_u64-write_float64 v rest h = ap (λ w. some (w, rest)) (omega arith)

read_tags-write_all :
    (tags : List Tag) (rest b : Bytes)
    → write_all tags ≡ some b
    → read_tags (length tags) (b ++ rest) ≡ some (tags, rest)
unfolding read_tags write_all
read_tags-write_all [] rest b h =
    subst (λ t. read_tags 0 (t ++ rest) ≡ some ([], rest)) (some_inj h) refl
read_tags-write_all (tag ∷ tags) rest b h =
    let (k, ek, h1) = bind-some (write_string tag.key) _ h in
    let (v, ev, h2) = bind-some (write_string tag.value) _ h1 in
    let (r, er, h3) = bind-some (write_all tags) _ h2 in
    subst (λ t. read_tags (suc (length tags)) (t ++ rest) ≡ some (tag ∷ tags, rest)) (some_inj h3)
      (simp append_assoc (
        rw (
          read_string-write_string tag.key (v ++ (r ++ rest)) k ek,
          read_string-write_string tag.value (r ++ rest) v ev,
          read_tags-write_all tags rest r er,
        )))

read_tags-write_tags :
    (tags : List Tag) (rest b : Bytes)
    → write_tags tags ≡ some b
    → (body : Bytes) × (b ≡ length tags ∷ body)
      × (read_tags (length tags) (body ++ rest) ≡ some (tags, rest))
unfolding write_tags
read_tags-write_tags tags rest b h = elim (Bool-cases (ltb max_string_len (length tags))) [
  | inl many ↦ let no_bytes : none ≡ some b = (rw many at h) in cc
  | inr few ↦
      let (body, e, k) = bind-some (write_all tags) _ (rw few at h) in
      (body, sym (some_inj k), read_tags-write_all tags rest body e)
]

-- What formatCommon writes is read back: the type, the prefixed name, the 64 bits of the value, and
-- the tags, up to the bytes that follow.
pub read_item-format_common :
    (mt : ℕ) (prefix name : Bytes) (value : ℕ) (tags : List Tag) (rest b : Bytes)
    → value < 2 ^ 64
    → format_common mt prefix name value tags ≡ some b
    → read_item (b ++ rest) ≡ some (mt, full_name prefix name, value, tags, rest)
unfolding read_item format_common
read_item-format_common mt prefix name value tags rest b small h =
    let (n, en, h1) = bind-some (write_name prefix name) _ h in
    let (t, et, h2) = bind-some (write_tags tags) _ h1 in
    let (body, eb, read) = read_tags-write_tags tags rest t et in
    subst (λ u. read_item (u ++ rest) ≡ some (mt, full_name prefix name, value, tags, rest))
      (some_inj h2)
      (simp append_assoc (
        rw (
          read_string-write_name prefix name (write_float64 value ++ (t ++ rest)) n en,
          read_u64-write_float64 value (t ++ rest) small,
          eb,
          read,
        )))

-- Every text on the wire, and the list of tags, has a length of one byte.
abbrev pub Short : Tag → Type 0
Short tag = (length tag.key ≤ max_string_len) × (length tag.value ≤ max_string_len)

pub record Encodable (prefix name : Bytes) (tags : List Tag) : Type 0 where
  pub name_short : length (full_name prefix name) ≤ max_string_len
  pub few_tags : length tags ≤ max_string_len
  pub short_tags : All Short tags

write_string_short : (s : Bytes) → length s ≤ max_string_len → write_string s ≡ some (length s ∷ s)
unfolding write_string
write_string_short s h = ground arith

short_write_string : (s b : Bytes) → write_string s ≡ some b → length s ≤ max_string_len
unfolding write_string
short_write_string s b h = ground arith

write_name_short :
    (prefix name : Bytes)
    → length (full_name prefix name) ≤ max_string_len
    → (b : Bytes) × (write_name prefix name ≡ some b)
unfolding write_name full_name write_string
write_name_short prefix name h = elim (Bool-cases (length prefix == 0)) [
  | inl bare ↦ (length name ∷ name, rw bare (write_string_short name (rw bare at h)))
  | inr dotted ↦ (
    (length prefix + length name + 1) ∷ (prefix ++ b'.' ∷ name),
    ground (arith, length-append prefix (b'.' ∷ name)),
  )
]

short_write_name :
    (prefix name b : Bytes)
    → write_name prefix name ≡ some b
    → length (full_name prefix name) ≤ max_string_len
unfolding write_name full_name write_string
short_write_name prefix name b h = ground (arith, length-append prefix (b'.' ∷ name))

write_all-Short : (tags : List Tag) → All Short tags → (b : Bytes) × (write_all tags ≡ some b)
unfolding write_all
write_all-Short [] h = ([], refl)
write_all-Short (tag ∷ tags) h =
    let (b, e) = write_all-Short tags h.1 in
    (
      (length tag.key ∷ tag.key) ++ ((length tag.value ∷ tag.value) ++ b),
      rw (write_string_short tag.key h.0.0, write_string_short tag.value h.0.1, e),
    )

Short-write_all : (tags : List Tag) (b : Bytes) → write_all tags ≡ some b → All Short tags
unfolding write_all
Short-write_all [] b h = tt
Short-write_all (tag ∷ tags) b h =
    let (k, ek, h1) = bind-some (write_string tag.key) _ h in
    let (v, ev, h2) = bind-some (write_string tag.value) _ h1 in
    let (r, er, h3) = bind-some (write_all tags) _ h2 in
    (
      (short_write_string tag.key k ek, short_write_string tag.value v ev),
      Short-write_all tags r er,
    )

-- formatCommon succeeds exactly when every text and the list of tags fit a length of one byte.
pub format_common-Encodable :
    (mt : ℕ) (prefix name : Bytes) (value : ℕ) (tags : List Tag)
    → (Encodable prefix name tags
        → (b : Bytes) × (format_common mt prefix name value tags ≡ some b))
      × ((b : Bytes)
          → format_common mt prefix name value tags ≡ some b
          → Encodable prefix name tags)
unfolding format_common write_tags
format_common-Encodable mt prefix name value tags = (
  λ v.
      let (n, en) = write_name_short prefix name v.name_short in
      let (t, et) = write_all-Short tags v.short_tags in
      let few : ltb max_string_len (length tags) ≡ false = ground arith in
      (mt ∷ (n ++ (write_float64 value ++ length tags ∷ t)), rw (en, few, et)),
  λ b h.
      let (n, en, h1) = bind-some (write_name prefix name) _ h in
      let (t, et, h2) = bind-some (write_tags tags) _ h1 in
      elim (Bool-cases (ltb max_string_len (length tags))) [
        | inl many ↦ let no_bytes : none ≡ some t = (rw many at et) in cc
        | inr few ↦
            let (body, e, k) = bind-some (write_all tags) _ (rw few at et) in
            record {
              name_short = short_write_name prefix name n en;
              few_tags = ground arith;
              short_tags = Short-write_all tags body e;
            }
      ],
)
