-- ===== src/Metrics/Format.antt =====
-- metrics/format.go and metrics/model.go. A float64 is its 64-bit pattern. On an error the caller
-- discards what was written, so a failure is `none`.
pub mod RoundTrip
use apminsight_server_sdk_go.Prelude.{
  ◌>>=◌, ℕ, ◌+◌, Bool, List, [], ◌∷◌, ◌++◌, Option, none, some, Bytes, length, ltb, ◌≡◌, refl, ◌==◌,
  if◌then◌else◌, put_u64,
}

-- `type t struct`
pub record Tag : Type 0 where
  pub key : Bytes
  pub value : Bytes

pub record MetricItem : Type 0 where
  pub mt : ℕ
  pub name : Bytes
  pub value : ℕ
  pub tags : List Tag

abbrev pub max_string_len : ℕ
max_string_len = 255

abbrev pub mt_counter : ℕ
mt_counter = 1

abbrev pub mt_timer : ℕ
mt_timer = 2

abbrev pub mt_gauge : ℕ
mt_gauge = 3

unfoldable pub write_string : Bytes → Option Bytes
write_string name = if ltb max_string_len (length name) then none else some (length name ∷ name)

unfoldable pub write_name : Bytes → Bytes → Option Bytes
unfolding write_string
write_name prefix name =
    if length prefix == 0
    then write_string name
    else if ltb max_string_len (length prefix + length name + 1)
    then none
    else some ((length prefix + length name + 1) ∷ (prefix ++ b'.' ∷ name))

unfoldable pub write_float64 : ℕ → Bytes
write_float64 value = put_u64 value

-- The loop of writeTags.
unfoldable pub write_all : List Tag → Option Bytes
unfolding write_string
write_all [] = some []
write_all (tag ∷ tags) = do
  k ← write_string tag.key
  v ← write_string tag.value
  rest ← write_all tags
  some (k ++ (v ++ rest))

unfoldable pub write_tags : List Tag → Option Bytes
unfolding write_all
write_tags tags =
    if ltb max_string_len (length tags)
    then none
    else (do body ← write_all tags; some (length tags ∷ body))

unfoldable pub format_common : ℕ → Bytes → Bytes → ℕ → List Tag → Option Bytes
unfolding write_name write_float64 write_tags
format_common mt prefix name value tags = do
  n ← write_name prefix name
  t ← write_tags tags
  some (mt ∷ (n ++ (write_float64 value ++ t)))
