-- ===== src/IdGenerator/Shape.antt =====
-- The form of a generated id.
use apminsight_server_sdk_go.Prelude.{
  ℕ, zero, suc, ◌/◌, ◌%◌, ◌≤◌, ◌<◌, ◌⊎◌, inl, inr, ◌≡◌, refl, ap, Bytes, [], ◌∷◌, ◌++◌, some, codes,
  get_elem?, length, length-append, All, All-append, arith,
}
use apminsight_server_sdk_go.IdGenerator.{flags, flag_of, random_flags, gen_prefix, gen_id}

-- A digit or a letter from a to f.
abbrev pub IsHexDigit : ℕ → Type 0
IsHexDigit c = ((b'0' ≤ c) × (c ≤ b'9')) ⊎ ((b'a' ≤ c) × (c ≤ b'f'))

flags-All : All IsHexDigit flags
flags-All = (
  inl (omega arith, omega arith),
  (
    inl (omega arith, omega arith),
    (
      inl (omega arith, omega arith),
      (
        inl (omega arith, omega arith),
        (
          inl (omega arith, omega arith),
          (
            inl (omega arith, omega arith),
            (
              inl (omega arith, omega arith),
              (
                inl (omega arith, omega arith),
                (
                  inl (omega arith, omega arith),
                  (
                    inl (omega arith, omega arith),
                    (
                      inr (omega arith, omega arith),
                      (
                        inr (omega arith, omega arith),
                        (
                          inr (omega arith, omega arith),
                          (
                            inr (omega arith, omega arith),
                            (inr (omega arith, omega arith), (inr (omega arith, omega arith), tt)),
                          ),
                        ),
                      ),
                    ),
                  ),
                ),
              ),
            ),
          ),
        ),
      ),
    ),
  ),
)

get_elem-IsHexDigit :
    (xs : Bytes) (n : ℕ)
    → n < length xs
    → All IsHexDigit xs
    → (c : ℕ) × (get_elem? xs n ≡ some c) × IsHexDigit c
get_elem-IsHexDigit [] n h all = absurd (omega arith)
get_elem-IsHexDigit (x ∷ xs) zero h all = (x, refl, all.0)
get_elem-IsHexDigit (x ∷ xs) (suc n) h all = get_elem-IsHexDigit xs n (omega arith) all.1

flag_of-IsHexDigit : (randv : ℕ) → IsHexDigit (flag_of randv)
unfolding flag_of
flag_of-IsHexDigit randv =
    let (c, e, good) = get_elem-IsHexDigit flags (randv % 16) (omega arith) flags-All in
    rw (flag_of, e) good

length-random_flags : (n randv : ℕ) → length (random_flags n randv) ≡ n
unfolding random_flags
length-random_flags zero randv = refl
length-random_flags (suc n) randv = ap suc (length-random_flags n (randv / 256))

random_flags-All : (n randv : ℕ) → All IsHexDigit (random_flags n randv)
unfolding random_flags
random_flags-All zero randv = tt
random_flags-All (suc n) randv = (flag_of-IsHexDigit randv, random_flags-All n (randv / 256))

-- Once the generator has started with a clock's text of 14 hexadecimal digits, every id has 32
-- characters, all of them hexadecimal digits.
pub gen_id-All :
    (now : Bytes) (start word : ℕ)
    → length now ≡ 14
    → All IsHexDigit now
    → (length (gen_id (some (gen_prefix now start)) word) ≡ 32)
      × All IsHexDigit (gen_id (some (gen_prefix now start)) word)
unfolding gen_id gen_prefix
gen_id-All now start word h digits = (
  rw (length-append, length-append, length-append)
      (omega (arith, h, length-random_flags 8 start, length-random_flags 8 word)),
  All-append IsHexDigit (gen_prefix now start) (random_flags 8 word)
      (All-append IsHexDigit now (codes "00" ++ random_flags 8 start) digits (
        inl (omega arith, omega arith),
        (inl (omega arith, omega arith), random_flags-All 8 start),
      ))
      (random_flags-All 8 word),
)
