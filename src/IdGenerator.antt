-- ===== src/IdGenerator.antt =====
-- trace/aitracer/id_generator/id_gen.go. The clock's text and the random words are arguments.
pub mod Shape
mod Tests
use apminsight_server_sdk_go.Prelude.{
  ℕ, zero, suc, ◌/◌, ◌%◌, Bytes, List, [], ◌∷◌, ◌++◌, Option, none, some, codes, get_elem?,
}

abbrev pub flags : Bytes
flags = codes "0123456789abcdef"

-- `flags[flagv&0xf]`, with the low four bits of the word.
pub flag_of : ℕ → ℕ
flag_of randv = elim (get_elem? flags (randv % 16)) [ none ↦ 0 | some c ↦ c ]

-- The loop of both functions: a character for the low half of each byte.
pub random_flags : ℕ → ℕ → Bytes
unfolding flag_of
random_flags zero randv = []
random_flags (suc n) randv = flag_of randv ∷ random_flags n (randv / 256)

-- `now` is the time as "20060102150405" formats it.
pub gen_prefix : Bytes → ℕ → Bytes
unfolding random_flags
gen_prefix now randv = now ++ (codes "00" ++ random_flags 8 randv)

-- Before Start there is no prefix.
pub gen_id : Option Bytes → ℕ → Bytes
unfolding random_flags
gen_id none randv = random_flags 8 randv
gen_id (some prefix) randv = prefix ++ random_flags 8 randv
