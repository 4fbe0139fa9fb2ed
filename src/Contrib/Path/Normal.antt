-- ===== src/Contrib/Path/Normal.antt =====
-- The segments of a normalized path, and normalizing it again.
use apminsight_server_sdk_go.Prelude.{
  ℕ, ◌≤◌, ◌≡◌, refl, sym, ap, ap₂, ◌∙◌, true, false, ◌&&◌, List, [], ◌∷◌, ◌++◌, map, Bytes, length,
  drop, ltb, leb, ◌==◌, append-nil, arith, Bool-cases, inl, inr, ◌⊎◌, All,
}
use apminsight_server_sdk_go.Prelude.Strings.{split, cons_head}
use apminsight_server_sdk_go.Contrib.Path.{
  has_number, all_digits, version_letter, write_segment, default_path_normalizer,
}
use apminsight_server_sdk_go.Contrib.Path.Pieces.{
  nonempty, segments, join_after, or_slash, NoSlash, default_path_normalizer-eq,
}

-- `v` or `V` and one or two digits.
abbrev pub IsVersion : Bytes → Type 0
IsVersion seg = (version_letter seg ≡ true) × (all_digits (drop 1 seg) ≡ true) × (length seg ≤ 3)

-- A segment of low cardinality: `?`, or a text of 2 to 24 bytes with no digit, or a version.
abbrev pub IsPattern : Bytes → Type 0
IsPattern seg =
    (seg ≡ b'?' ∷ [])
    ⊎ ((2 ≤ length seg) × (length seg ≤ 24) × ((has_number seg ≡ false) ⊎ IsVersion seg))

-- A segment that `write_segment` keeps.
abbrev IsKept : Bytes → Type 0
IsKept seg = (2 ≤ length seg) × (length seg ≤ 24) × ((has_number seg ≡ false) ⊎ IsVersion seg)

write_segment-cases :
    (seg : Bytes) → (write_segment seg ≡ b'?' ∷ []) ⊎ ((write_segment seg ≡ seg) × IsKept seg)
unfolding write_segment
write_segment-cases seg = elim (Bool-cases (ltb 1 (length seg) && leb (length seg) 3)) [
  | inl short ↦ elim (Bool-cases (has_number seg)) [
    | inl digit ↦ elim (Bool-cases (version_letter seg)) [
      | inl v ↦ elim (Bool-cases (all_digits (drop 1 seg))) [
        | inl all ↦
            inr (rw (short, v, all), (ground arith, ground arith, inr (v, all, ground arith)))
        | inr some_not ↦ inl (rw (short, v, some_not, digit))
      ]
      | inr other ↦ inl (rw (short, other, digit))
    ]
    | inr none_is ↦ inr (ground arith, (ground arith, ground arith, inl none_is))
  ]
  | inr long ↦ elim (Bool-cases (ltb 3 (length seg) && leb (length seg) 24)) [
    | inl middle ↦ elim (Bool-cases (has_number seg)) [
      | inl digit ↦ inl (rw (long, middle, digit))
      | inr none_is ↦ inr (rw (long, middle, none_is), (ground arith, ground arith, inl none_is))
    ]
    | inr huge ↦ inl (rw (long, huge))
  ]
]

write_segment-IsPattern : (seg : Bytes) → IsPattern (write_segment seg)
write_segment-IsPattern seg = elim (write_segment-cases seg) [
  | inl e ↦ inl e
  | inr (e, kept) ↦ rw e (inr kept)
]

-- What is kept stays as it is, and so does `?`.
write_segment_of_IsPattern : (seg : Bytes) → IsPattern seg → write_segment seg ≡ seg
unfolding write_segment
write_segment_of_IsPattern seg (inl e) = rw e refl
write_segment_of_IsPattern seg (inr (lo, hi, inl none_is)) = ground arith
write_segment_of_IsPattern seg (inr (lo, hi, inr v)) = ground arith

-- Pieces that have no slash and are not empty.
abbrev IsPiece : Bytes → Type 0
IsPiece p = NoSlash p × (1 ≤ length p)

write_segment-IsPiece : (seg : Bytes) → NoSlash seg → IsPiece (write_segment seg)
write_segment-IsPiece seg h = elim (write_segment-cases seg) [
  | inl e ↦ rw e ((refl, tt), omega arith)
  | inr (e, kept) ↦ rw e (h, omega (arith, kept.0))
]

-- A text without a slash, and what follows it up to the end or the next slash.
split-append : (p rest : Bytes) → NoSlash p → split b'/' (p ++ b'/' ∷ rest) ≡ p ∷ split b'/' rest
unfolding split
split-append [] rest h = refl
split-append (c ∷ p) rest h = rw (h.0, split-append p rest h.1)

split_of_NoSlash : (p : Bytes) → NoSlash p → split b'/' p ≡ p ∷ []
unfolding split
split_of_NoSlash [] h = refl
split_of_NoSlash (c ∷ p) h = rw (h.0, split_of_NoSlash p h.1)

cons_head-NoSlash :
    (c : ℕ) (ps : List Bytes) → (c == b'/') ≡ false → All NoSlash ps → All NoSlash (cons_head c ps)
cons_head-NoSlash c [] e h = ((e, tt), tt)
cons_head-NoSlash c (p ∷ ps) e h = ((e, h.0), h.1)

split-NoSlash : (s : Bytes) → All NoSlash (split b'/' s)
unfolding split
split-NoSlash [] = (tt, tt)
split-NoSlash (c ∷ s) = elim (Bool-cases (c == b'/')) [
  | inl e ↦ rw e (tt, split-NoSlash s)
  | inr e ↦ rw e (cons_head-NoSlash c (split b'/' s) e (split-NoSlash s))
]

map-nonempty : (ps : List Bytes) → All NoSlash ps → All IsPiece (map write_segment (nonempty ps))
map-nonempty [] h = tt
map-nonempty ([] ∷ ps) h = map-nonempty ps h.1
map-nonempty ((c ∷ p) ∷ ps) h = (write_segment-IsPiece (c ∷ p) h.0, map-nonempty ps h.1)

-- The segments of joined pieces are the pieces.
nonempty-join_after :
    (p : Bytes) (ps : List Bytes)
    → IsPiece p
    → All IsPiece ps
    → nonempty (split b'/' (p ++ join_after ps)) ≡ p ∷ ps
nonempty-join_after [] ps hp h = absurd (omega (arith, hp.1))
nonempty-join_after (c ∷ p) [] hp h = rw (append-nil (c ∷ p), split_of_NoSlash (c ∷ p) hp.0)
nonempty-join_after (c ∷ p) (q ∷ ps) hp h =
    rw (split-append (c ∷ p) (q ++ join_after ps) hp.0, nonempty-join_after q ps h.0 h.1)

segments-join_after : (ps : List Bytes) → All IsPiece ps → segments (or_slash (join_after ps)) ≡ ps
unfolding split
segments-join_after [] h = refl
segments-join_after (p ∷ ps) h = nonempty-join_after p ps h.0 h.1

map-IsPattern : (ps : List Bytes) → All IsPattern (map write_segment ps)
map-IsPattern [] = tt
map-IsPattern (p ∷ ps) = (write_segment-IsPattern p, map-IsPattern ps)

map_of_pattern : (ps : List Bytes) → All IsPattern ps → map write_segment ps ≡ ps
map_of_pattern [] h = refl
map_of_pattern (p ∷ ps) h =
    ap₂ (λ q qs. q ∷ qs) (write_segment_of_IsPattern p h.0) (map_of_pattern ps h.1)

segments-default_path_normalizer :
    (path : Bytes) → segments (default_path_normalizer path) ≡ map write_segment (segments path)
segments-default_path_normalizer path = rw (default_path_normalizer-eq path) (
    segments-join_after (map write_segment (segments path))
      (map-nonempty (split b'/' path) (split-NoSlash path)))

-- Every segment of a normalized path is of low cardinality, `?`, or 2 to 24 bytes with no digit, or
-- a version of one or two digits; and normalizing once more changes nothing.
pub default_path_normalizer_idempotent :
    (path : Bytes)
    → All IsPattern (segments (default_path_normalizer path))
      × (default_path_normalizer (default_path_normalizer path) ≡ default_path_normalizer path)
default_path_normalizer_idempotent path =
    let patterns = map-IsPattern (segments path) in
    (
      rw (segments-default_path_normalizer path) patterns,
      default_path_normalizer-eq (default_path_normalizer path)
          ∙ ap (λ ps. or_slash (join_after (map write_segment ps)))
              (segments-default_path_normalizer path)
          ∙ ap (λ ps. or_slash (join_after ps))
              (map_of_pattern (map write_segment (segments path)) patterns)
          ∙ sym (default_path_normalizer-eq path),
    )
