-- ===== src/Contrib/Path/Tests.antt =====
-- Paths from the comment of the normalizer.
use apminsight_server_sdk_go.Prelude.{◌≡◌, refl, Bytes, codes, map, All}
use apminsight_server_sdk_go.Contrib.Path.{write_segment, default_path_normalizer}
use apminsight_server_sdk_go.Contrib.Path.Pieces.{
  segments, join_after, or_slash, default_path_normalizer-eq,
}
use apminsight_server_sdk_go.Contrib.Path.Normal.{IsPattern, default_path_normalizer_idempotent}

mixed :
    default_path_normalizer (codes "/ABC/av-1/b_2/c.3/d4d/v5f/v699/7") ≡ codes "/ABC/?/?/?/?/?/?/?"
unfolding default_path_normalizer write_segment
mixed = refl

versions : default_path_normalizer (codes "/a1/v2//V12/") ≡ codes "/?/v2/V12"
unfolding default_path_normalizer write_segment
versions = refl

abbrev shop_path : Bytes
shop_path = codes "/ABC/av-1//v2/v5f/"

default_path_normalizer-eq_example :
    default_path_normalizer shop_path
    ≡ or_slash (join_after (map write_segment (segments shop_path)))
default_path_normalizer-eq_example = default_path_normalizer-eq shop_path

default_path_normalizer_idempotent_example :
    All IsPattern (segments (default_path_normalizer shop_path))
    × (default_path_normalizer (default_path_normalizer shop_path)
        ≡ default_path_normalizer shop_path)
default_path_normalizer_idempotent_example = default_path_normalizer_idempotent shop_path

-- A segment of one byte has no digit and is replaced all the same.
one_letter : default_path_normalizer (codes "/a/bc") ≡ codes "/?/bc"
unfolding default_path_normalizer write_segment
one_letter = refl
