-- ===== src/Propagation/TraceState.antt =====
-- ParseTraceState of trace/aitracer/internal/w3c_helper.go. `none` is an error.
use apminsight_server_sdk_go.Prelude.{
  ℕ, Bool, false, ◌||◌, List, [], ◌∷◌, ◌++◌, Option, none, some, Bytes, codes, length, ltb,
  if◌then◌else◌, bytes_eq,
}
use apminsight_server_sdk_go.Prelude.Strings.{split}

pub record Member : Type 0 where
  pub key : Bytes
  pub value : Bytes

abbrev pub max_members : ℕ
max_members = 32

-- The keys of `keySet` are those of the members so far.
unfoldable pub has_key : Bytes → List Member → Bool
has_key k [] = false
has_key k (m ∷ ms) = bytes_eq k m.key || has_key k ms

-- A member that is not a key and a value is skipped.
unfoldable pub add_member : List Member → List Bytes → Option (List Member)
add_member ms (k ∷ v ∷ []) =
    if has_key k ms then none else some (ms ++ record { key = k; value = v } ∷ [])
add_member ms _ = some ms

unfoldable pub parse_members : List Member → List Bytes → Option (List Member)
parse_members ms [] = some ms
parse_members ms ([] ∷ strs) = parse_members ms strs
parse_members ms ((c ∷ s) ∷ strs) = elim (add_member ms (split b'=' (c ∷ s))) [
  | none ↦ none
  | some ms' ↦ parse_members ms' strs
]

unfoldable pub limit_members : Option (List Member) → Option (List Member)
limit_members none = none
limit_members (some ms) = if ltb max_members (length ms) then none else some ms

unfoldable pub parse_trace_state : Bytes → Option (List Member)
parse_trace_state [] = some []
parse_trace_state (c ∷ s) = limit_members (parse_members [] (split b',' (c ∷ s)))

-- The first member with a key, or the empty string.
unfoldable pub get_value : Bytes → List Member → Bytes
get_value k [] = []
get_value k (m ∷ ms) = let rest = get_value k ms in if bytes_eq m.key k then m.value else rest

unfoldable pub get_app_id : List Member → Bytes
get_app_id = get_value (codes "app_id")

unfoldable pub get_origin : List Member → Bytes
get_origin = get_value (codes "origin")
