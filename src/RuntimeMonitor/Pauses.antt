-- ===== src/RuntimeMonitor/Pauses.antt =====
-- The ring of the pauses of the garbage collector, and which of them are reported.
use apminsight_server_sdk_go.Prelude.{
  ℕ, zero, suc, ◌+◌, ◌-◌, ◌%◌, ◌≤◌, ◌<◌, ◌≡◌, refl, sym, ap, ◌∙◌, false, List, [], ◌∷◌, ◌++◌, some,
  arith, length, take, drop, get_elem?, length-drop, leb, ltb, Bool-cases, inl, inr, some_inj,
}
use apminsight_server_sdk_go.RuntimeMonitor.{get_gc_pauses_ns}
use native.Mathlib.Nat.{zero-add, suc-add}

-- pause `k`, pause `k + 1` and so on, `n` of them
abbrev pub pauses_from : (ℕ → ℕ) → ℕ → ℕ → List ℕ
pauses_from pause k zero = []
pauses_from pause k (suc n) = pause k ∷ pauses_from pause (k + 1) n

-- runtime.MemStats: PauseNs is a ring of 256 entries, in which the collection number `k`, counted
-- from 0, is at `k` modulo 256, for the last 256 of the `n` collections so far.
pub record IsRing (pause : ℕ → ℕ) (n : ℕ) (pause_ns : List ℕ) : Type 0 where
  pub size : length pause_ns ≡ 256
  pub entry : (k : ℕ) → k < n → n ≤ k + 256 → get_elem? pause_ns (k % 256) ≡ some (pause k)

-- A part of the list, entry by entry.
take-pauses :
    (pause : ℕ → ℕ) (k n : ℕ) (xs : List ℕ)
    → ((i : ℕ) → i < n → get_elem? xs i ≡ some (pause (k + i)))
    → take n xs ≡ pauses_from pause k n
take-pauses pause k zero xs h = refl
take-pauses pause k (suc n) [] h = let e = h 0 (omega arith) in absurd cc
take-pauses pause k (suc n) (x ∷ xs) h =
    let first : pause (k + 0) ≡ pause k = ap pause (omega arith) in
    let e : x ≡ pause k = some_inj (h 0 (omega arith)) ∙ first in
    let rest : take n xs ≡ pauses_from pause (k + 1) n = take-pauses pause (k + 1) n xs (λ i l.
      let shift : pause (k + suc i) ≡ pause (k + 1 + i) = ap pause (omega arith) in
      h (suc i) (omega arith) ∙ ap some shift) in
    rw (e, rest) refl

get_elem?-drop : (i j : ℕ) (xs : List ℕ) → get_elem? (drop i xs) j ≡ get_elem? xs (i + j)
get_elem?-drop zero j xs = ap (get_elem? xs) (omega arith)
get_elem?-drop (suc i) j [] = refl
get_elem?-drop (suc i) j (x ∷ xs) = rw suc-add (get_elem?-drop i j xs)

take_nil : (n : ℕ) → take {A = ℕ} n [] ≡ []
take_nil zero = refl
take_nil (suc n) = refl

drop-take : (i j : ℕ) (xs : List ℕ) → drop i (take j xs) ≡ take (j - i) (drop i xs)
drop-take zero j xs = ap (λ n. take n xs) (omega arith)
drop-take (suc i) zero xs = let e : 0 - suc i ≡ 0 = omega arith in rw e refl
drop-take (suc i) (suc j) [] = sym (take_nil (suc j - suc i))
drop-take (suc i) (suc j) (x ∷ xs) = drop-take i j xs ∙ ap (λ n. take n (drop i xs)) (omega arith)

pub pauses_from-append :
    (pause : ℕ → ℕ) (k m n : ℕ)
    → pauses_from pause k m ++ pauses_from pause (k + m) n ≡ pauses_from pause k (m + n)
pauses_from-append pause k zero n = let e : k + 0 ≡ k = omega arith in rw (e, zero-add) refl
pauses_from-append pause k (suc m) n =
    let e : k + suc m ≡ k + 1 + m = omega arith in
    rw (suc-add, e, pauses_from-append pause (k + 1) m n) refl

take_whole : (xs : List ℕ) → take (length xs) xs ≡ xs
take_whole [] = refl
take_whole (x ∷ xs) = rw (take_whole xs) refl

drop_whole : (i : ℕ) (xs : List ℕ) → take (length xs - i) (drop i xs) ≡ drop i xs
drop_whole i xs = rw (← length-drop i xs) (take_whole (drop i xs))

-- A part of the ring that does not pass its end.
ring_part :
    (pause : ℕ → ℕ) (cur : ℕ) (ring : List ℕ) (k n : ℕ)
    → IsRing pause cur ring
    → cur ≤ k + 256
    → k + n ≤ cur
    → k % 256 + n ≤ 256
    → take n (drop (k % 256) ring) ≡ pauses_from pause k n
ring_part pause cur ring k n r young old fits = take-pauses pause k n (drop (k % 256) ring) (λ i l.
    let place : k % 256 + i ≡ (k + i) % 256 = omega arith in
    get_elem?-drop (k % 256) i ring
    ∙ ap (get_elem? ring) place
    ∙ r.entry (k + i) (omega arith) (omega arith))

-- The new pauses from before the end of the ring, and those from its start.
wrapped :
    (pause : ℕ → ℕ) (ring : List ℕ) (pre cur : ℕ)
    → IsRing pause cur ring
    → pre ≤ cur
    → cur < pre + 256
    → cur % 256 < pre % 256
    → drop (pre % 256) ring ++ take (cur % 256) ring ≡ pauses_from pause pre (cur - pre)
wrapped pause ring pre cur r h k w =
    let i = pre % 256 in
    let front : drop i ring ≡ pauses_from pause pre (256 - i) =
      sym (drop_whole i ring)
      ∙ rw r.size
          (ring_part pause cur ring pre (256 - i) r (omega arith) (omega arith) (omega arith)) in
    let start : (pre + (256 - i)) % 256 ≡ 0 = omega arith in
    let back : take (cur % 256) ring ≡ pauses_from pause (pre + (256 - i)) (cur % 256) =
      rw start at (
        ring_part pause cur ring (pre + (256 - i)) (cur % 256) r (omega arith) (omega arith)
          (omega arith)) in
    let n : 256 - i + cur % 256 ≡ cur - pre = omega arith in
    rw (front, back, pauses_from-append, n) refl

-- The pauses that are reported are those of the collections since the last report, each of them
-- once and in their order, if there were fewer than 256 and the ring is that of runtime.MemStats.
pub get_gc_pauses_ns-pauses :
    (pause : ℕ → ℕ) (ring : List ℕ) (pre cur : ℕ)
    → IsRing pause cur ring
    → pre ≤ cur
    → cur < pre + 256
    → get_gc_pauses_ns ring pre cur ≡ pauses_from pause pre (cur - pre)
unfolding get_gc_pauses_ns
get_gc_pauses_ns-pauses pause ring pre cur r h k = elim (Bool-cases (leb cur pre)) [
  | inl none_new ↦ let e : cur - pre ≡ 0 = ground arith in rw (none_new, e) refl
  | inr some_new ↦
      let few : leb (length ring) (cur - pre) ≡ false = ground (arith, r.size) in
      rw (some_new, few, r.size)
        (elim (Bool-cases (ltb (cur % 256) (pre % 256))) [
          | inl wraps ↦ rw wraps (wrapped pause ring pre cur r h k (ground arith))
          | inr straight ↦ rw straight (
              let n : cur % 256 - pre % 256 ≡ cur - pre = ground arith in
              drop-take (pre % 256) (cur % 256) ring
              ∙ rw n (
                  ring_part pause cur ring pre (cur - pre) r (ground arith) (ground arith)
                    (ground arith)))
        ])
]
