-- ===== src/Contrib/Path.antt =====
-- defaultPathNormalizer of trace/contrib/gin-gonic/gin/middleware.go, of which that of
-- trace/contrib/net/http/client.go is a copy. A path is its bytes: no byte of a character of more
-- than one byte is a slash or a digit.
use apminsight_server_sdk_go.Prelude.{
  ℕ, ◌+◌, ◌-◌, Bool, true, false, ◌&&◌, ◌||◌, not, List, [], ◌∷◌, ◌++◌, Bytes, length, take, drop,
  ltb, leb, ◌==◌, if◌then◌else◌,
}
pub mod Pieces
pub mod Normal
mod Tests

-- unicode.IsDigit of a byte
abbrev pub is_digit : ℕ → Bool
is_digit c = leb b'0' c && leb c b'9'

unfoldable pub has_number : Bytes → Bool
has_number [] = false
has_number (c ∷ s) = is_digit c || has_number s

-- `isVersionNum`, after the first character.
unfoldable pub all_digits : Bytes → Bool
all_digits [] = true
all_digits (c ∷ s) = is_digit c && all_digits s

pub version_letter : Bytes → Bool
version_letter [] = false
version_letter (c ∷ s) = c == b'v' || c == b'V'

-- The positions of the slashes, from an index on.
pub find_from : ℕ → Bytes → List ℕ
find_from idx [] = []
find_from idx (c ∷ s) = let rest = find_from (idx + 1) s in if c == b'/' then idx ∷ rest else rest

pub ends_in_slash : Bytes → Bool
ends_in_slash [] = false
ends_in_slash (c ∷ []) = c == b'/'
ends_in_slash (c ∷ d ∷ s) = ends_in_slash (d ∷ s)

pub find_splitters : Bytes → List ℕ
unfolding find_from ends_in_slash
find_splitters path = find_from 0 path ++ (if ends_in_slash path then [] else length path ∷ [])

-- What is written for a segment.
unfoldable pub write_segment : Bytes → Bytes
unfolding has_number all_digits version_letter
write_segment seg =
    if ltb 1 (length seg) && leb (length seg) 3
    then (if version_letter seg
        then (if all_digits (drop 1 seg) || not (has_number seg) then seg else b'?' ∷ [])
        else if has_number seg
        then b'?' ∷ []
        else seg)
    else if ltb 3 (length seg) && leb (length seg) 24
    then (if has_number seg then b'?' ∷ [] else seg)
    else b'?' ∷ []

-- The loop over the positions.
pub write_segments : Bytes → ℕ → List ℕ → Bytes
write_segments path start [] = []
write_segments path start (end ∷ ends) =
    let rest = write_segments path (end + 1) ends in
    if ltb start end
    then b'/' ∷ (write_segment (take (end - start) (drop start path)) ++ rest)
    else rest

unfoldable pub default_path_normalizer : Bytes → Bytes
unfolding write_segments find_splitters
default_path_normalizer path =
    let written = write_segments path 0 (find_splitters path) in
    if length path == 0 then b'/' ∷ [] else if length written == 0 then b'/' ∷ [] else written
