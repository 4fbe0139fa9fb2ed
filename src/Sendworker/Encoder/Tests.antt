-- ===== src/Sendworker/Encoder/Tests.antt =====
-- Frames of concrete bodies.
use apminsight_server_sdk_go.Prelude.{
  ◌≡◌, refl, [], ◌∷◌, ◌++◌, Bytes, replicate, put_u16, put_u32, copy_at, overwrite,
}
use apminsight_server_sdk_go.Sendworker.Encoder.{encode, encode_pre_allocated, put_prefix, put_all}
use apminsight_server_sdk_go.Sendworker.Encoder.Frame.{frame, encode_pre_allocated-eq}

abbrev header : Bytes
header = 7 ∷ 8 ∷ []

abbrev body : Bytes
body = 1 ∷ 2 ∷ 3 ∷ []

encode_bytes :
    encode body 3 header
    ≡ 99 ∷ 124 ∷ 18 ∷ 0 ∷ 0 ∷ 0 ∷ 1 ∷ 15 ∷ 0 ∷ 0 ∷ 0 ∷ 3 ∷ 0 ∷ 0 ∷ 0 ∷ 2 ∷ 0 ∷ 0 ∷ 0 ∷ 7 ∷ 8 ∷ 1 ∷ 2
      ∷ 3 ∷ []
unfolding encode put_prefix put_all put_u16 put_u32 copy_at overwrite
encode_bytes = refl

encode_pre_allocated-eq_example :
    encode_pre_allocated (replicate 21 0 ++ body) header ≡ frame header body
encode_pre_allocated-eq_example = encode_pre_allocated-eq (replicate 21 0) body header refl
