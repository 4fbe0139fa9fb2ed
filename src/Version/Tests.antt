-- ===== src/Version/Tests.antt =====
-- Versions of the agent.
use apminsight_server_sdk_go.Prelude.{
  ◌≡◌, ◌↔◌, Bytes, refl, true, false, [], ◌∷◌, codes, none, some,
}
use apminsight_server_sdk_go.Prelude.Int.{pos, negsuc, digits, unsigned, atoi}
use apminsight_server_sdk_go.Prelude.Strings.{split}
use apminsight_server_sdk_go.Version.{
  parse_version, component, compare_version, compare_from, agent_version, index_eq, dashes_to_dots,
  remove_rc, get_digit, release_version_len, supports_stream,
}
use apminsight_server_sdk_go.Version.Signs.{IsLe, compare_version_trans}
use apminsight_server_sdk_go.Version.Order.{release, Before, compare_version_order}

agent_version_values :
    (agent_version (some (codes "version=1.0.28" ∷ [])) ≡ codes "1.0.28")
    × (agent_version (some (codes "=1" ∷ [])) ≡ [])
    × (agent_version none ≡ [])
unfolding agent_version index_eq
agent_version_values = (refl, refl, refl)

parse_version_values :
    (parse_version (codes "1.0.28-rc.3") ≡ pos 1 ∷ pos 0 ∷ pos 28 ∷ pos 3 ∷ [])
    × (compare_version (codes "1.0.28") (codes "1.0.9") ≡ pos 1)
    × (supports_stream (codes "1.0.27") ≡ false)
    × (supports_stream (codes "1.0.28-rc.1") ≡ true)
unfolding parse_version compare_version compare_from dashes_to_dots remove_rc get_digit atoi split
    component release_version_len supports_stream digits unsigned
parse_version_values = (refl, refl, refl, refl)

older : IsLe (compare_version (codes "1.0.9") (codes "1.0.28"))
unfolding parse_version compare_version compare_from dashes_to_dots remove_rc get_digit atoi split
    component release_version_len digits unsigned
older = tt

newer : IsLe (compare_version (codes "1.0.28") (codes "1.1.0"))
unfolding parse_version compare_version compare_from dashes_to_dots remove_rc get_digit atoi split
    component release_version_len digits unsigned
newer = tt

-- Not greater than a version that is not greater than a third.
first_and_third : IsLe (compare_version (codes "1.0.9") (codes "1.1.0"))
first_and_third = compare_version_trans (codes "1.0.9") (codes "1.0.28") (codes "1.1.0") older newer

abbrev rc : Bytes
rc = codes "1.0.28-rc.3"

abbrev old : Bytes
old = codes "1.0.9"

compare_version_order_example :
    ((compare_version rc old ≡ negsuc 0) ↔ Before (release rc) (release old))
    × ((compare_version rc old ≡ pos 1) ↔ Before (release old) (release rc))
    × ((compare_version rc old ≡ pos 0) ↔ (release rc ≡ release old))
    × ((supports_stream rc ≡ false) ↔ Before (release rc) (pos 1 ∷ pos 0 ∷ pos 28 ∷ []))
compare_version_order_example = compare_version_order rc old
