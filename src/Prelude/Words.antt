-- ===== src/Prelude/Words.antt =====
-- encoding/binary's little-endian words, and Go's `copy` into a slice.
use Prim.Native.Nat.{ℕ, zero, suc, ◌+◌, ◌*◌, ◌/◌, ◌%◌, ◌^◌, ◌≤◌, ◌<◌}
use mathlib.Core.Path.{◌≡◌, refl, ap}
use mathlib.Core.List.{[], ◌∷◌, ◌++◌}
use mathlib.Core.Option.{Option, none, some}
use native.Mathlib.Omega.{arith}
use native.Mathlib.Nat.{zero-add, suc-add}
use apminsight_server_sdk_go.Prelude.Tests.{Bytes}
use apminsight_server_sdk_go.Prelude.Lists.{length, take, drop}

-- binary.LittleEndian.PutUint16(_, uint16(v)): the conversion keeps the low 16 bits.
unfoldable pub put_u16 : ℕ → Bytes
put_u16 v = (v % 256) ∷ (v / 256 % 256) ∷ []

-- binary.LittleEndian.PutUint32(_, uint32(v)), and binary.Write of an int32 by its bit pattern.
unfoldable pub put_u32 : ℕ → Bytes
put_u32 v = (v % 256) ∷ (v / 256 % 256) ∷ (v / 65536 % 256) ∷ (v / 16777216 % 256) ∷ []

-- binary.LittleEndian.PutUint64
unfoldable pub put_u64 : ℕ → Bytes
unfolding put_u32
put_u64 v = put_u32 v ++ put_u32 (v / 2 ^ 32)

-- binary.Read of four bytes: the word and the unread rest, or `none` for io.EOF and
-- io.ErrUnexpectedEOF.
unfoldable pub get_u32 : Bytes → Option (ℕ × Bytes)
get_u32 (a ∷ b ∷ c ∷ d ∷ rest) = some (a + 256 * b + 65536 * c + 16777216 * d, rest)
get_u32 _ = none

pub length-put_u16 : (v : ℕ) → length (put_u16 v) ≡ 2
unfolding put_u16
length-put_u16 v = refl

pub length-put_u32 : (v : ℕ) → length (put_u32 v) ≡ 4
unfolding put_u32
length-put_u32 v = refl

pub length-put_u64 : (v : ℕ) → length (put_u64 v) ≡ 8
unfolding put_u64
length-put_u64 v = refl

-- A 32-bit word is read back modulo 2 ^ 32.
pub get_u32-put_u32 : (v : ℕ) (rest : Bytes) → get_u32 (put_u32 v ++ rest) ≡ some (v % 2 ^ 32, rest)
unfolding get_u32 put_u32
get_u32-put_u32 v rest = ap (λ w. some (w, rest)) (omega arith)

pub get_u32-put_u32_bound :
    (v : ℕ) (rest : Bytes) → v < 2 ^ 32 → get_u32 (put_u32 v ++ rest) ≡ some (v, rest)
unfolding get_u32 put_u32
get_u32-put_u32_bound v rest h = ap (λ w. some (w, rest)) (omega arith)

-- copy(dst, src): as many bytes as both have.
unfoldable pub overwrite : Bytes → Bytes → Bytes
overwrite [] src = []
overwrite (d ∷ dst) [] = d ∷ dst
overwrite (d ∷ dst) (s ∷ src) = s ∷ overwrite dst src

-- copy(dst[i:], src)
unfoldable pub copy_at : Bytes → ℕ → Bytes → Bytes
unfolding overwrite
copy_at dst zero src = overwrite dst src
copy_at [] (suc i) src = []
copy_at (d ∷ dst) (suc i) src = d ∷ copy_at dst i src

pub overwrite-eq :
    (dst src : Bytes) → length src ≤ length dst → overwrite dst src ≡ src ++ drop (length src) dst
unfolding overwrite
overwrite-eq [] [] h = refl
overwrite-eq [] (s ∷ src) h = absurd (omega arith)
overwrite-eq (d ∷ dst) [] h = refl
overwrite-eq (d ∷ dst) (s ∷ src) h = ap (λ t. s ∷ t) (overwrite-eq dst src (omega arith))

pub copy_at-append :
    (w dst src : Bytes) → copy_at (w ++ dst) (length w) src ≡ w ++ copy_at dst 0 src
unfolding copy_at
copy_at-append [] dst src = refl
copy_at-append (a ∷ w) dst src = ap (λ t. a ∷ t) (copy_at-append w dst src)

pub length-copy_at : (dst : Bytes) (i : ℕ) (src : Bytes) → length (copy_at dst i src) ≡ length dst
unfolding copy_at
length-copy_at [] zero src = refl
length-copy_at (d ∷ dst) zero [] = refl
length-copy_at (d ∷ dst) zero (s ∷ src) = ap suc (length-copy_at dst zero src)
length-copy_at [] (suc i) src = refl
length-copy_at (d ∷ dst) (suc i) src = ap suc (length-copy_at dst i src)

pub copy_at-eq :
    (dst : Bytes) (i : ℕ) (src : Bytes)
    → i + length src ≤ length dst
    → copy_at dst i src ≡ take i dst ++ (src ++ drop (i + length src) dst)
unfolding copy_at
copy_at-eq dst zero src h = rw zero-add (overwrite-eq dst src (omega arith))
copy_at-eq [] (suc i) src h = absurd (omega arith)
copy_at-eq (d ∷ dst) (suc i) src h =
    rw suc-add (ap (λ t. d ∷ t) (copy_at-eq dst i src (omega arith)))
