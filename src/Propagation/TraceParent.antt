-- ===== src/Propagation/TraceParent.antt =====
-- ParseTraceParent of trace/aitracer/internal/w3c_helper.go. `none` is an error.
pub mod Accepted
use apminsight_server_sdk_go.Prelude.{
  ℕ, ◌+◌, ◌-◌, ◌*◌, ◌≤◌, ◌<◌, ◌≡◌, refl, Bool, true, false, ◌&&◌, not, List, [], ◌∷◌, ◌++◌, Option,
  none, some, ◌>>=◌, bind-some, Bytes, codes, length, ltb, leb, ◌==◌, if◌then◌else◌, bytes_eq,
  replicate, arith, Bool-cases, inl, inr, some_inj, All, length-append,
}
use apminsight_server_sdk_go.Prelude.Strings.{split}

pub record TraceParent : Type 0 where
  pub version : ℕ
  pub trace_id : Bytes
  pub parent_span_id : Bytes
  pub trace_flags : ℕ

abbrev pub min_length : ℕ
min_length = 55

-- A digit of package encoding/hex.
unfoldable pub hex_digit : ℕ → Option ℕ
hex_digit c =
    if leb b'0' c && leb c b'9'
    then some (c - b'0')
    else if leb b'a' c && leb c b'f'
    then some (c - b'a' + 10)
    else if leb b'A' c && leb c b'F'
    then some (c - b'A' + 10)
    else none

-- A field of two characters, through hex.DecodeString, and its only byte.
unfoldable pub hex_field : Bytes → Option ℕ
unfolding hex_digit
hex_field (a ∷ b ∷ []) = do high ← hex_digit a; low ← hex_digit b; some (16 * high + low)
hex_field _ = none

-- An id of `n` characters that is not all zeros.
unfoldable pub id_field : ℕ → Bytes → Option Bytes
id_field n id =
    if length id == n then if bytes_eq id (replicate n b'0') then none else some id else none

-- 0 is the only version that is supported.
unfoldable pub version_field : Bytes → Option ℕ
unfolding hex_field
version_field s = do version ← hex_field s; if version == 0 then some version else none

unfoldable pub parse_fields : List Bytes → Option TraceParent
unfolding version_field id_field hex_field
parse_fields (v ∷ t ∷ p ∷ f ∷ rest) = do
  version ← version_field v
  trace_id ← id_field 32 t
  parent_span_id ← id_field 16 p
  flags ← hex_field f
  some (record {
    version = version;
    trace_id = trace_id;
    parent_span_id = parent_span_id;
    trace_flags = flags;
  })
parse_fields _ = none

unfoldable pub parse_trace_parent : Bytes → Option TraceParent
unfolding parse_fields split
parse_trace_parent s = if ltb (length s) min_length then none else parse_fields (split b'-' s)
