-- ===== src/Sendworker/Encoder.antt =====
-- trace/internal/sendworker/encoder.go. A `[]byte` is the list of its bytes; `Encode` may also
-- reuse the memory behind `body`, which is a list of `cap(body)` bytes here.
pub mod Frame
mod Tests
use apminsight_server_sdk_go.Prelude.{
  ℕ, ◌+◌, ◌-◌, Bool, List, [], ◌∷◌, ◌++◌, Option, none, some, Bytes, length, take, replicate, ltb,
  leb, ◌==◌, if◌then◌else◌, put_u16, put_u32, copy_at,
}

abbrev pub connection_magic_num : ℕ
connection_magic_num = 31843

abbrev pub version1 : ℕ
version1 = 1

abbrev pub common_prefix_len : ℕ
common_prefix_len = 6

abbrev pub version1_data_prefix_len : ℕ
version1_data_prefix_len = 13

-- Writes `copy(payload[i:], src)`, in order.
pub put_all : Bytes → List (ℕ × Bytes) → Bytes
put_all payload [] = payload
put_all payload ((i, src) ∷ ws) = put_all (copy_at payload i src) ws

-- The writes of both encoders below the body: magic number, data length, version, body offset,
-- body length, header length, header.
abbrev pub prefix_writes : ℕ → ℕ → ℕ → Bytes → List (ℕ × Bytes)
prefix_writes data_len body_offset body_len header =
    (0, put_u16 connection_magic_num)
    ∷ (2, put_u32 data_len)
    ∷ (6, version1 ∷ [])
    ∷ (7, put_u32 body_offset)
    ∷ (11, put_u32 body_len)
    ∷ (15, put_u32 (length header))
    ∷ (19, header)
    ∷ []

pub put_prefix : Bytes → ℕ → ℕ → ℕ → Bytes → Bytes
put_prefix payload data_len body_offset body_len header =
    put_all payload (prefix_writes data_len body_offset body_len header)

-- `none` is the -1 of an unknown version.
unfoldable pub get_prefix_len : ℕ → Bytes → Option ℕ
get_prefix_len version header =
    if version == version1
    then some (common_prefix_len + version1_data_prefix_len + length header)
    else none

-- `backing` is the memory behind `body`: its first `len` bytes are the body, its length is
-- `cap(body)`.
pub encode : Bytes → ℕ → Bytes → Bytes
encode backing len header =
    let body = take len backing in
    let body_offset = version1_data_prefix_len + length header in
    let data_len = body_offset + length body in
    let total_len = common_prefix_len + data_len in
    let payload =
      if ltb (length backing) total_len then replicate total_len 0 else take total_len backing in
    put_prefix (copy_at payload (total_len - length body) body) data_len body_offset (length body)
      header

pub encode_pre_allocated : Bytes → Bytes → Bytes
encode_pre_allocated payload header =
    let total_prefix_len = common_prefix_len + version1_data_prefix_len + length header in
    if ltb (length payload) total_prefix_len
    then payload
    else put_prefix payload (length payload - common_prefix_len)
        (version1_data_prefix_len + length header) (length payload - total_prefix_len) header

-- The key-value pairs of a map in the order in which Go ranges over it.
unfoldable pub format_map : List (Bytes × Bytes) → Bytes
format_map [] = []
format_map ((k, v) ∷ m) =
    let rest = format_map m in
    if length k == 0
    then rest
    else if length v == 0
    then rest
    else put_u32 (length k) ++ (k ++ (put_u32 (length v) ++ (v ++ rest)))
