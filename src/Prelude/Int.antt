-- ===== src/Prelude/Int.antt =====
-- Go's signed integers as exact integers, and strconv.Atoi.
use Prim.Native.Nat.{ℕ, suc, ◌+◌, ◌-◌, ◌*◌, ◌%◌, ◌^◌, ◌≤◌, ◌<◌}
use mathlib.Core.Path.{◌≡◌, refl}
use mathlib.Core.Bool.{Bool, true, false, ◌&&◌}
use mathlib.Core.List.{[], ◌∷◌}
use mathlib.Core.Option.{Option, none, some}
use native.Mathlib.Omega.{arith}
use apminsight_server_sdk_go.Prelude.Tests.{Bytes, codes, ltb, leb, ◌==◌, if◌then◌else◌}

-- `negsuc n` is -(n + 1).
pub data ℤ : Type 0 where
  pos : ℕ → ℤ
  negsuc : ℕ → ℤ

abbrev pub pos_part : ℤ → ℕ
pos_part (pos n) = n
pos_part (negsuc n) = 0

abbrev pub neg_part : ℤ → ℕ
neg_part (pos n) = 0
neg_part (negsuc n) = suc n

abbrev pub ltb_ℤ : ℤ → ℤ → Bool
ltb_ℤ a b = ltb (pos_part a + neg_part b) (pos_part b + neg_part a)

abbrev pub eqb_ℤ : ℤ → ℤ → Bool
eqb_ℤ a b = (pos_part a + neg_part b) == (pos_part b + neg_part a)

pub eq_of_eqb_ℤ : (a b : ℤ) → eqb_ℤ a b ≡ true → a ≡ b
eq_of_eqb_ℤ a b h = ground arith

-- The two's complement bit pattern of int32(z), and the integer of a 32-bit pattern.
unfoldable pub to_u32 : ℤ → ℕ
to_u32 (pos n) = n % 2 ^ 32
to_u32 (negsuc n) = 2 ^ 32 - 1 - n % 2 ^ 32

unfoldable pub of_u32 : ℕ → ℤ
of_u32 w = if ltb w (2 ^ 31) then pos w else negsuc (2 ^ 32 - 1 - w)

-- The integers of an int32, by the parts that `omega` reads.
abbrev pub IsInt32 : ℤ → Type 0
IsInt32 z = (pos_part z ≤ 2 ^ 31 - 1) × (neg_part z ≤ 2 ^ 31)

-- `uint64(z)` of an int64
unfoldable pub to_u64 : ℤ → ℕ
to_u64 (pos n) = n
to_u64 (negsuc n) = 2 ^ 64 - 1 - n

pub to_u32_bound : (z : ℤ) → to_u32 z < 2 ^ 32
unfolding to_u32
to_u32_bound (pos n) = omega arith
to_u32_bound (negsuc n) = omega arith

pub of_u32-to_u32 : (z : ℤ) → IsInt32 z → of_u32 (to_u32 z) ≡ z
unfolding of_u32 to_u32
of_u32-to_u32 (pos n) h = ground arith
of_u32-to_u32 (negsuc n) h = ground arith

-- `int64(v)` of an unsigned integer of at most 64 bits
unfoldable pub to_int64 : ℕ → ℤ
to_int64 v = if ltb v (2 ^ 63) then pos v else negsuc (2 ^ 64 - 1 - v)

-- The decimal digits of a text, or `none` at another byte.
unfoldable pub digits : ℕ → Bytes → Option ℕ
digits n [] = some n
digits n (c ∷ s) = if leb b'0' c && leb c b'9' then digits (n * 10 + (c - b'0')) s else none

unfoldable pub unsigned : Bytes → Option ℕ
unfolding digits
unsigned [] = none
unsigned (c ∷ s) = digits 0 (c ∷ s)

abbrev max_int64 : ℕ
max_int64 = 2 ^ 63 - 1

abbrev positive : Option ℕ → ℤ × Bool
positive none = (pos 0, false)
positive (some n) = if leb n max_int64 then (pos n, true) else (pos max_int64, false)

abbrev negative : Option ℕ → ℤ × Bool
negative none = (pos 0, false)
negative (some n) =
    if n == 0
    then (pos 0, true)
    else if leb n (2 ^ 63)
    then (negsuc (n - 1), true)
    else (negsuc max_int64, false)

-- strconv.Atoi on a 64-bit platform: the value, and whether there was no error. A syntax error
-- comes with 0, a range error with the nearest integer.
unfoldable pub atoi : Bytes → ℤ × Bool
unfolding unsigned
atoi [] = (pos 0, false)
atoi (c ∷ s) =
    if c == b'-'
    then negative (unsigned s)
    else if c == b'+'
    then positive (unsigned s)
    else positive (unsigned (c ∷ s))

atoi_values :
    (atoi (codes "-12") ≡ (negsuc 11, true))
    × (atoi (codes "+7") ≡ (pos 7, true))
    × (atoi (codes "") ≡ (pos 0, false))
    × (atoi (codes "1x") ≡ (pos 0, false))
    × (atoi (codes "9223372036854775808") ≡ (pos (2 ^ 63 - 1), false))
unfolding atoi
atoi_values = (refl, refl, refl, refl, refl)
