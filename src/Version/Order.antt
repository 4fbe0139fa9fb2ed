-- ===== src/Version/Order.antt =====
-- CompareVersion of trace/internal/utils/get_agent_version.go as an order of versions, and what
-- the test for the stream sender makes of it.
use mathlib.Core.Path.{sym}
use apminsight_server_sdk_go.Prelude.{
  ℕ, zero, suc, ◌+◌, ◌≡◌, ◌≢◌, ◌↔◌, ◌⊎◌, inl, inr, refl, ap, ◌∙◌, true, false, List, [], ◌∷◌, ◌++◌,
  take, replicate, arith, Bytes, Bool-cases,
}
use apminsight_server_sdk_go.Prelude.Int.{ℤ, pos, negsuc, ltb_ℤ, atoi, digits, unsigned}
use apminsight_server_sdk_go.Prelude.Strings.{split}
use apminsight_server_sdk_go.Version.{
  component, compare_from, compare_version, parse_version, release_version_len, supports_stream,
  agent_version_support_stream_sender, dashes_to_dots, remove_rc, get_digit,
}
use apminsight_server_sdk_go.Version.Signs.{negate, compare_version-swap, compare_version-zero}

-- The components of a release: the first three of a version, those that it lacks being 0.
abbrev pub release : Bytes → List ℤ
release v = take 3 (parse_version v ++ replicate 3 (pos 0))

-- The first list is before the second in the lexicographic order.
abbrev pub Before : List ℤ → List ℤ → Type 0
Before [] ys = ⊥
Before (x ∷ xs) [] = ⊥
Before (x ∷ xs) (y ∷ ys) = (ltb_ℤ x y ≡ true) ⊎ ((x ≡ y) × Before xs ys)

components :
    (s : List ℤ)
    → take 3 (s ++ replicate 3 (pos 0)) ≡ component s 0 ∷ component s 1 ∷ component s 2 ∷ []
unfolding component
components [] = refl
components (a ∷ []) = refl
components (a ∷ b ∷ []) = refl
components (a ∷ b ∷ c ∷ s) = refl

round_before :
    (s1 s2 : List ℤ) (rounds i : ℕ)
    → (compare_from s1 s2 (suc rounds) i ≡ negsuc 0) ↔ (
        (ltb_ℤ (component s1 i) (component s2 i) ≡ true)
        ⊎ ((component s1 i ≡ component s2 i) × (compare_from s1 s2 rounds (i + 1) ≡ negsuc 0)))
unfolding compare_from
round_before s1 s2 rounds i = elim (Bool-cases (ltb_ℤ (component s1 i) (component s2 i))) [
  | inl less ↦ (λ h. inl less, λ h. ground arith)
  | inr n ↦ elim (Bool-cases (ltb_ℤ (component s2 i) (component s1 i))) [
    | inl more ↦ (λ h. absurd (ground arith), λ h. absurd (ground arith))
    | inr m ↦ (λ h. inr (ground arith, ground arith), λ h. ground arith)
  ]
]

no_rounds : (s1 s2 : List ℤ) (i : ℕ) → compare_from s1 s2 0 i ≢ negsuc 0
unfolding compare_from
no_rounds s1 s2 i h = cc

compare_from-Before :
    (s1 s2 : List ℤ)
    → (compare_from s1 s2 3 0 ≡ negsuc 0)
      ↔ Before
          (component s1 0 ∷ component s1 1 ∷ component s1 2 ∷ [])
          (component s2 0 ∷ component s2 1 ∷ component s2 2 ∷ [])
compare_from-Before s1 s2 =
    let r0 = round_before s1 s2 2 0 in
    let r1 = round_before s1 s2 1 1 in
    let r2 = round_before s1 s2 0 2 in
    (
      λ h. elim (r0.0 h) [
        | inl less ↦ inl less
        | inr (e0, h1) ↦ inr (
          e0,
          elim (r1.0 h1) [
            | inl less ↦ inl less
            | inr (e1, h2) ↦ inr (
              e1,
              elim (r2.0 h2) [ inl less ↦ inl less | inr (e2, h3) ↦ absurd (no_rounds s1 s2 3 h3) ],
            )
          ],
        )
      ],
      λ b. r0.1 (elim b [
        | inl less ↦ inl less
        | inr (e0, b1) ↦ inr (
          e0,
          r1.1 (elim b1 [
            | inl less ↦ inl less
            | inr (e1, b2) ↦
                inr (e1, r2.1 (elim b2 [ inl less ↦ inl less | inr (e2, b3) ↦ absurd b3 ]))
          ]),
        )
      ]),
    )

compare_version-Before :
    (v1 v2 : Bytes) → (compare_version v1 v2 ≡ negsuc 0) ↔ Before (release v1) (release v2)
compare_version-Before v1 v2 =
    unfold compare_version in
    rw (components (parse_version v1), components (parse_version v2))
      (compare_from-Before (parse_version v1) (parse_version v2))

negate-one : (z : ℤ) → (z ≡ pos 1) ↔ (negate z ≡ negsuc 0)
negate-one (pos zero) = (λ h. cc, λ h. cc)
negate-one (pos (suc n)) = (λ h. ap negate h, λ h. ap negate h)
negate-one (negsuc n) = (λ h. cc, λ h. cc)

compare_version-After :
    (v1 v2 : Bytes) → (compare_version v1 v2 ≡ pos 1) ↔ Before (release v2) (release v1)
compare_version-After v1 v2 =
    let back = compare_version-swap v1 v2 in
    (
      λ h. (compare_version-Before v2 v1).0 (back ∙ (negate-one (compare_version v1 v2)).0 h),
      λ b. (negate-one (compare_version v1 v2)).1 (sym back ∙ (compare_version-Before v2 v1).1 b),
    )

-- Two releases agree exactly when their components do.
release-eq :
    (s1 s2 : List ℤ)
    → (take 3 (s1 ++ replicate 3 (pos 0)) ≡ take 3 (s2 ++ replicate 3 (pos 0))) ↔ (
        (component s1 0 ≡ component s2 0)
        × (component s1 1 ≡ component s2 1)
        × (component s1 2 ≡ component s2 2))
unfolding component
release-eq s1 s2 =
    rw (components s1, components s2)
      (
        λ e. (ap (λ l. component l 0) e, ap (λ l. component l 1) e, ap (λ l. component l 2) e),
        λ (e0, e1, e2). rw (e0, e1, e2) refl,
      )

compare_version-same : (v1 v2 : Bytes) → (compare_version v1 v2 ≡ pos 0) ↔ (release v1 ≡ release v2)
compare_version-same v1 v2 =
    let zero_at = compare_version-zero v1 v2 in
    let same = release-eq (parse_version v1) (parse_version v2) in
    (λ h. same.1 (zero_at.0 h), λ e. zero_at.1 (same.0 e))

negative_one :
    (s1 s2 : List ℤ) (rounds i n : ℕ)
    → compare_from s1 s2 rounds i ≡ negsuc n
    → compare_from s1 s2 rounds i ≡ negsuc 0
unfolding compare_from
negative_one s1 s2 zero i n h = absurd cc
negative_one s1 s2 (suc rounds) i n h = ground (arith, negative_one s1 s2 rounds (i + 1) n)

-- The release of `agent_version_support_stream_sender`.
stream_release : release agent_version_support_stream_sender ≡ pos 1 ∷ pos 0 ∷ pos 28 ∷ []
unfolding parse_version dashes_to_dots remove_rc get_digit atoi split digits unsigned
stream_release = refl

test-negative :
    (z : ℤ) → ((elim z [ pos n ↦ true | negsuc n ↦ false ]) ≡ false) ↔ ((n : ℕ) × (z ≡ negsuc n))
test-negative (pos n) = (λ h. absurd cc, λ (m, h). absurd cc)
test-negative (negsuc n) = (λ h. (n, refl), λ h. refl)

supports_stream-Before :
    (v : Bytes) → (supports_stream v ≡ false) ↔ Before (release v) (pos 1 ∷ pos 0 ∷ pos 28 ∷ [])
unfolding supports_stream compare_version
supports_stream-Before v =
    let stream = agent_version_support_stream_sender in
    let test = test-negative (compare_version v stream) in
    let before : (compare_version v stream ≡ negsuc 0)
        ↔ Before (release v) (pos 1 ∷ pos 0 ∷ pos 28 ∷ []) =
      rw (← stream_release) (compare_version-Before v stream) in
    (
      λ h.
          let (n, e) = test.0 h in
          before.0
            (negative_one (parse_version v) (parse_version stream) release_version_len 0 n e),
      λ b. test.1 (0, before.1 b),
    )

-- The documentation of CompareVersion: of the first three components, a missing one being 0, the
-- answer is -1 exactly when the first version is before the second in the lexicographic order, 1
-- exactly when the second is before the first, and 0 exactly when they agree. An agent gets
-- datagrams, and no stream, exactly when its version is before 1.0.28.
pub compare_version_order :
    (v1 v2 : Bytes)
    → ((compare_version v1 v2 ≡ negsuc 0) ↔ Before (release v1) (release v2))
      × ((compare_version v1 v2 ≡ pos 1) ↔ Before (release v2) (release v1))
      × ((compare_version v1 v2 ≡ pos 0) ↔ (release v1 ≡ release v2))
      × ((supports_stream v1 ≡ false) ↔ Before (release v1) (pos 1 ∷ pos 0 ∷ pos 28 ∷ []))
compare_version_order v1 v2 = (
  compare_version-Before v1 v2,
  compare_version-After v1 v2,
  compare_version-same v1 v2,
  supports_stream-Before v1,
)
