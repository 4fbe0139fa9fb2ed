-- ===== src/Version.antt =====
-- trace/internal/utils/get_agent_version.go: the version of the agent, and the comparison that
-- decides between datagrams and a stream.
pub mod Signs
pub mod Order
mod Tests
use apminsight_server_sdk_go.Prelude.{
  ℕ, zero, suc, ◌+◌, ◌≡◌, refl, Bool, true, false, ◌&&◌, List, [], ◌∷◌, map, Option, none, some,
  Bytes, codes, ◌==◌, ltb, if◌then◌else◌, drop, length,
}
use apminsight_server_sdk_go.Prelude.Int.{ℤ, pos, negsuc, ltb_ℤ, atoi}
use apminsight_server_sdk_go.Prelude.Strings.{split}

-- strings.IndexRune(s, '=') of a line, from index `i` on
pub index_eq : Bytes → ℕ → Option ℕ
index_eq [] i = none
index_eq (c ∷ s) i = if c == b'=' then some i else index_eq s (i + 1)

-- What GetAgentVersion makes of the lines of the version file; `none` when it cannot be opened.
pub agent_version : Option (List Bytes) → Bytes
unfolding index_eq
agent_version none = []
agent_version (some []) = []
agent_version (some (line ∷ lines)) = elim (index_eq line 0) [
  | none ↦ []
  | some idx ↦ if ltb 0 idx then drop (idx + 1) line else []
]

-- strings.ReplaceAll(v, "-", ".")
pub dashes_to_dots : Bytes → Bytes
dashes_to_dots = map (λ c. if c == b'-' then b'.' else c)

-- strings.ReplaceAll(v, "rc.", "")
pub remove_rc : Bytes → Bytes
remove_rc (a ∷ b ∷ c ∷ s) = elim (a == b'r' && b == b'c' && c == b'.') [
  | true ↦ remove_rc s
  | false ↦ a ∷ remove_rc (b ∷ c ∷ s)
]
remove_rc s = s

pub get_digit : Bytes → ℤ
get_digit s = let (num, good) = atoi s in if good then num else pos 0

pub parse_version : Bytes → List ℤ
unfolding dashes_to_dots remove_rc get_digit atoi split
parse_version v = map get_digit (split b'.' (remove_rc (dashes_to_dots v)))

-- `if i >= len(s) { 0 } else { s[i] }`
pub component : List ℤ → ℕ → ℤ
component [] i = pos 0
component (d ∷ ds) zero = d
component (d ∷ ds) (suc i) = component ds i

-- The loop of CompareVersion over the rest of the three components of a release.
pub compare_from : List ℤ → List ℤ → ℕ → ℕ → ℤ
unfolding component
compare_from s1 s2 zero i = pos 0
compare_from s1 s2 (suc rounds) i =
    let rest = compare_from s1 s2 rounds (i + 1) in
    if ltb_ℤ (component s1 i) (component s2 i)
    then negsuc 0
    else if ltb_ℤ (component s2 i) (component s1 i)
    then pos 1
    else rest

pub release_version_len : ℕ
release_version_len = 3

pub compare_version : Bytes → Bytes → ℤ
unfolding compare_from parse_version release_version_len
compare_version v1 v2 = compare_from (parse_version v1) (parse_version v2) release_version_len 0

-- internal.AgentVersionSupportStreamSender
abbrev pub agent_version_support_stream_sender : Bytes
agent_version_support_stream_sender = codes "1.0.28"

-- `CompareVersion(agentVersion, AgentVersionSupportStreamSender) >= 0`
pub supports_stream : Bytes → Bool
unfolding compare_version
supports_stream version = elim (compare_version version agent_version_support_stream_sender) [
  | pos n ↦ true
  | negsuc n ↦ false
]
