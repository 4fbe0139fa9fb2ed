-- ===== src/Tags/Merged.antt =====
-- The keys of a merged register.
use mathlib.Core.List.{Perm, Permᴰ}
use mathlib.Core.Logic.{∥∥₁_elim}
use mathlib.Core.Bool.{Bool-set}
use apminsight_server_sdk_go.Prelude.{
  ◌≡◌, refl, sym, ap, ap₂, ◌∙◌, Bool, true, false, ◌||◌, ◌&&◌, not, List, [], ◌∷◌, Option, none,
  some, Bytes, bytes_eq, bytes_eq→eq, bytes_eq_refl, Bool-cases, inl, inr,
}
use apminsight_server_sdk_go.Tags.{TagKeysRegister, contains, put, put_all, merge_tag_keys_register}

-- No key stands twice.
unfoldable pub distinct : List Bytes → Bool
distinct [] = true
distinct (k ∷ ks) = not (contains k ks) && distinct ks

pub record IsUnion (a b out : List Bytes) : Type 0 where
  pub members : (k : Bytes) → contains k out ≡ contains k a || contains k b
  pub once : distinct out ≡ true

-- What a register becomes when another, or nil, is merged into it.
abbrev pub IsMerged : TagKeysRegister → Option TagKeysRegister → TagKeysRegister → Type 0
IsMerged t none out = out ≡ t
IsMerged t (some from) out =
    IsUnion t.server_tag_keys from.server_tag_keys out.server_tag_keys
    × IsUnion t.client_tag_keys from.client_tag_keys out.client_tag_keys

or_swap : (a b c : Bool) → a || (b || c) ≡ b || (a || c)
or_swap true true c = refl
or_swap true false c = refl
or_swap false b c = refl

or_rotate : (a b c : Bool) → a || (b || c) ≡ (b || a) || c
or_rotate true true c = refl
or_rotate true false c = refl
or_rotate false true c = refl
or_rotate false false c = refl

or_swap_nil : (b a : Bool) → b || (a || false) ≡ a || b
or_swap_nil true true = refl
or_swap_nil true false = refl
or_swap_nil false true = refl
or_swap_nil false false = refl

bytes_eq_sym : (a b : Bytes) → bytes_eq a b ≡ bytes_eq b a
bytes_eq_sym a b = elim (Bool-cases (bytes_eq a b)) [
  | inl e ↦ rw (bytes_eq→eq a b e)
  | inr e ↦ elim (Bool-cases (bytes_eq b a)) [
    | inl e' ↦ rw (bytes_eq→eq b a e')
    | inr e' ↦ e ∙ sym e'
  ]
]

and_swap : (x y c d r : Bool) → x ≡ y → not (x || c) && (not d && r) ≡ not (y || d) && (not c && r)
and_swap true true c d r e = refl
and_swap true false c d r e = absurd cc
and_swap false true c d r e = absurd cc
and_swap false false true true r e = refl
and_swap false false true false r e = refl
and_swap false false false true r e = refl
and_swap false false false false r e = refl

contains-perm : {xs ys : List Bytes} (k : Bytes) → Permᴰ xs ys → contains k xs ≡ contains k ys
unfolding contains
contains-perm k Permᴰ.nil = refl
contains-perm k (Permᴰ.cons e p) = rw (e, contains-perm k p)
contains-perm k (Permᴰ.swap {a = a} {b = b} {l = l} e f) =
    rw (← e, ← f) (or_swap (bytes_eq k a) (bytes_eq k b) (contains k l))
contains-perm k (Permᴰ.trans p q) = contains-perm k p ∙ contains-perm k q

distinct-swap : (a b : Bytes) (l : List Bytes) → distinct (a ∷ b ∷ l) ≡ distinct (b ∷ a ∷ l)
unfolding distinct contains
distinct-swap a b l =
    and_swap (bytes_eq a b) (bytes_eq b a) (contains a l) (contains b l) (distinct l)
      (bytes_eq_sym a b)

distinct-perm : {xs ys : List Bytes} → Permᴰ xs ys → distinct xs ≡ distinct ys
unfolding distinct
distinct-perm Permᴰ.nil = refl
distinct-perm (Permᴰ.cons e p) = rw (e, contains-perm _ p, distinct-perm p)
distinct-perm (Permᴰ.swap {a = a} {b = b} {l = l} e f) =
    distinct-swap a b l ∙ ap₂ (λ x y. distinct (x ∷ y ∷ l)) f e
distinct-perm (Permᴰ.trans p q) = distinct-perm p ∙ distinct-perm q

contains-put : (k j : Bytes) (m : List Bytes) → contains k (put j m) ≡ bytes_eq k j || contains k m
unfolding put contains
contains-put k j m = elim (Bool-cases (contains j m)) [
  | inl e ↦ elim (Bool-cases (bytes_eq k j)) [
    | inl same ↦ rw (e, bytes_eq→eq k j same, bytes_eq_refl j, e)
    | inr other ↦ rw (e, other)
  ]
  | inr e ↦ rw e
]

contains-put_all :
    (k : Bytes) (ks m : List Bytes) → contains k (put_all ks m) ≡ contains k ks || contains k m
unfolding put_all contains
contains-put_all k [] m = refl
contains-put_all k (j ∷ ks) m =
    rw (contains-put_all k ks (put j m), contains-put k j m)
      (or_rotate (contains k ks) (bytes_eq k j) (contains k m))

distinct-put : (j : Bytes) (m : List Bytes) → distinct m ≡ true → distinct (put j m) ≡ true
unfolding put distinct
distinct-put j m h = elim (Bool-cases (contains j m)) [ inl e ↦ rw e h | inr e ↦ rw (e, e) h ]

distinct-put_all : (ks m : List Bytes) → distinct m ≡ true → distinct (put_all ks m) ≡ true
unfolding put_all
distinct-put_all [] m h = h
distinct-put_all (k ∷ ks) m h = distinct-put_all ks (put k m) (distinct-put k m h)

module _ (range : List Bytes → List Bytes) (range_perm : (m : List Bytes) → Perm (range m) m) where
  contains-range : (k : Bytes) (m : List Bytes) → contains k (range m) ≡ contains k m
  contains-range k m =
      ∥∥₁_elim (range_perm m) (Bool-set (contains k (range m)) (contains k m)) (contains-perm k)

  distinct-range : (m : List Bytes) → distinct (range m) ≡ distinct m
  distinct-range m =
      ∥∥₁_elim (range_perm m) (Bool-set (distinct (range m)) (distinct m)) distinct-perm

  range-IsUnion : (a b : List Bytes) → IsUnion a b (range (put_all b (put_all a [])))
  unfolding contains distinct
  range-IsUnion a b = record {
    members = λ k.
        contains-range k (put_all b (put_all a []))
        ∙ contains-put_all k b (put_all a [])
        ∙ ap (λ c. contains k b || c) (contains-put_all k a [])
        ∙ or_swap_nil (contains k b) (contains k a);
    once =
        distinct-range (put_all b (put_all a []))
        ∙ distinct-put_all b (put_all a []) (distinct-put_all a [] refl);
  }

-- Merging a register keeps exactly the keys of both, on the server's side and on the client's, each
-- once, whatever the order in which the two maps are visited; merging nil changes nothing.
pub merge_tag_keys_register-IsMerged :
    (range_server range_client : List Bytes → List Bytes)
    → ((m : List Bytes) → Perm (range_server m) m)
    → ((m : List Bytes) → Perm (range_client m) m)
    → (t : TagKeysRegister) (from : Option TagKeysRegister)
    → IsMerged t from (merge_tag_keys_register range_server range_client t from)
unfolding merge_tag_keys_register
merge_tag_keys_register-IsMerged rs rc ps pc t none = refl
merge_tag_keys_register-IsMerged rs rc ps pc t (some from) = (
  range-IsUnion rs ps t.server_tag_keys from.server_tag_keys,
  range-IsUnion rc pc t.client_tag_keys from.client_tag_keys,
)
