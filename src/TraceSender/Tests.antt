-- ===== src/TraceSender/Tests.antt =====
-- A stream sender for the instance "i".
use apminsight_server_sdk_go.Prelude.{
  ◌≤◌, ◌≡◌, refl, [], ◌∷◌, ◌++◌, some, arith, Bytes, codes, length, drop, replicate, put_u32,
}
use apminsight_server_sdk_go.Sendworker.Encoder.{encode_pre_allocated, format_map, get_prefix_len}
use apminsight_server_sdk_go.Sendworker.Encoder.Frame.{decode}
use apminsight_server_sdk_go.TraceSender.{stream_setup, instance_tags}
use apminsight_server_sdk_go.TraceSender.Wire.{stream_wire-decodes}

abbrev sock : Bytes
sock = codes "/s"

abbrev slice : Bytes
slice = replicate 38 0 ++ 1 ∷ 2 ∷ []

offset_value : (stream_setup sock (codes "i")).config.offset ≡ 38
unfolding stream_setup instance_tags get_prefix_len format_map put_u32
offset_value = refl

slice_room : (stream_setup sock (codes "i")).config.offset ≤ length slice
unfolding stream_setup instance_tags get_prefix_len format_map put_u32
slice_room = omega arith

stream_wire-decodes_example :
    decode (encode_pre_allocated slice (stream_setup sock (codes "i")).config.tags ++ 9 ∷ [])
    ≡ some (
      (stream_setup sock (codes "i")).config.tags,
      drop (stream_setup sock (codes "i")).config.offset slice,
      9 ∷ [],
    )
stream_wire-decodes_example =
    stream_wire-decodes sock (codes "i") slice (9 ∷ []) slice_room (omega arith)
