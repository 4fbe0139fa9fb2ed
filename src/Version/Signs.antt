-- ===== src/Version/Signs.antt =====
-- The signs that CompareVersion of trace/internal/utils/get_agent_version.go answers.
use apminsight_server_sdk_go.Prelude.{ℕ, zero, suc, ◌+◌, ◌≡◌, ◌↔◌, refl, List, arith, Bytes}
use apminsight_server_sdk_go.Prelude.Int.{ℤ, pos, negsuc}
use apminsight_server_sdk_go.Version.{
  component, compare_from, compare_version, parse_version, release_version_len,
}

abbrev pub negate : ℤ → ℤ
negate (pos zero) = pos 0
negate (pos (suc n)) = negsuc n
negate (negsuc n) = pos (suc n)

compare_from-swap :
    (s1 s2 : List ℤ) (rounds i : ℕ)
    → compare_from s2 s1 rounds i ≡ negate (compare_from s1 s2 rounds i)
unfolding compare_from
compare_from-swap s1 s2 zero i = refl
compare_from-swap s1 s2 (suc rounds) i = ground (arith, compare_from-swap s1 s2 rounds (i + 1))

-- Exchanging the versions changes the sign of the answer, whatever the versions are.
pub compare_version-swap : (v1 v2 : Bytes) → compare_version v2 v1 ≡ negate (compare_version v1 v2)
unfolding compare_version
compare_version-swap v1 v2 =
    compare_from-swap (parse_version v1) (parse_version v2) release_version_len 0

-- Not greater: -1 or 0.
abbrev pub IsLe : ℤ → Type 0
IsLe (pos zero) = Unit {0}
IsLe (pos (suc n)) = ⊥
IsLe (negsuc n) = Unit {0}

compare_from_trans :
    (s1 s2 s3 : List ℤ) (rounds i : ℕ)
    → IsLe (compare_from s1 s2 rounds i)
    → IsLe (compare_from s2 s3 rounds i)
    → IsLe (compare_from s1 s3 rounds i)
unfolding compare_from
compare_from_trans s1 s2 s3 zero i h k = tt
compare_from_trans s1 s2 s3 (suc rounds) i h k =
    ground (arith, compare_from_trans s1 s2 s3 rounds (i + 1))

-- If the first version is not greater than the second, nor the second than the third, then the
-- first is not greater than the third.
pub compare_version_trans :
    (v1 v2 v3 : Bytes)
    → IsLe (compare_version v1 v2)
    → IsLe (compare_version v2 v3)
    → IsLe (compare_version v1 v3)
unfolding compare_version
compare_version_trans v1 v2 v3 h k =
    compare_from_trans (parse_version v1) (parse_version v2) (parse_version v3) release_version_len
      0 h k

-- One round of the loop answers 0 when the components agree and the later rounds answer 0.
round_zero :
    (s1 s2 : List ℤ) (rounds i : ℕ)
    → (compare_from s1 s2 (suc rounds) i ≡ pos 0)
      ↔ ((component s1 i ≡ component s2 i) × (compare_from s1 s2 rounds (i + 1) ≡ pos 0))
unfolding compare_from
round_zero s1 s2 rounds i = (λ h. (ground arith, ground arith), λ h. ground arith)

-- The answer is 0 exactly when the first three components agree.
pub compare_version-zero :
    (v1 v2 : Bytes)
    → (compare_version v1 v2 ≡ pos 0) ↔ (
        (component (parse_version v1) 0 ≡ component (parse_version v2) 0)
        × (component (parse_version v1) 1 ≡ component (parse_version v2) 1)
        × (component (parse_version v1) 2 ≡ component (parse_version v2) 2))
compare_version-zero v1 v2 =
    unfold compare_version in
    (
      λ h.
          let h0 = (round_zero (parse_version v1) (parse_version v2) 2 0).0 h in
          let h1 = (round_zero (parse_version v1) (parse_version v2) 1 1).0 h0.1 in
          let h2 = (round_zero (parse_version v1) (parse_version v2) 0 2).0 h1.1 in
          (h0.0, h1.0, h2.0),
      λ h. (round_zero (parse_version v1) (parse_version v2) 2 0).1 (
        h.0,
        (round_zero (parse_version v1) (parse_version v2) 1 1).1 (
          h.1,
          (round_zero (parse_version v1) (parse_version v2) 0 2).1
              (h.2, unfold compare_from in refl),
        ),
      ),
    )
