-- ===== src/TraceSender/Wire.antt =====
-- What a stream sender puts on the wire, as the agent reads it.
use apminsight_server_sdk_go.Prelude.{
  ℕ, ◌+◌, ◌≤◌, ◌<◌, ◌^◌, ◌≡◌, refl, sym, ap, ◌∙◌, ◌++◌, some, arith, Bytes, length, take, drop,
  take-append-drop, length-take, length-drop,
}
use apminsight_server_sdk_go.Sendworker.Encoder.{encode_pre_allocated, get_prefix_len}
use apminsight_server_sdk_go.Sendworker.Encoder.Frame.{
  frame, encode_pre_allocated-eq, decode, decode-frame,
}
use apminsight_server_sdk_go.TraceSender.{stream_setup}

-- The reserved offset of a stream sender is the room that the encoder needs for its tags.
offset-stream_setup :
    (sock id : Bytes)
    → (stream_setup sock id).config.offset ≡ 19 + length (stream_setup sock id).config.tags
unfolding stream_setup get_prefix_len
offset-stream_setup sock id = refl

-- A slice with room for the prefix, of any length that four bytes can say, is written as a message
-- from which the agent reads the tags and what stands past the offset, and nothing more.
pub stream_wire-decodes :
    (sock id d rest : Bytes)
    → (stream_setup sock id).config.offset ≤ length d
    → length d < 2 ^ 32
    → decode (encode_pre_allocated d (stream_setup sock id).config.tags ++ rest)
      ≡ some ((stream_setup sock id).config.tags, drop (stream_setup sock id).config.offset d, rest)
stream_wire-decodes sock id d rest room small =
    rw
      (let e : encode_pre_allocated d tags ≡ frame tags (drop offset d) =
          ap (λ t. encode_pre_allocated t tags) (sym (take-append-drop offset d))
          ∙ encode_pre_allocated-eq (take offset d) (drop offset d) tags
              (omega (arith, length-take offset d, offset-stream_setup sock id)) in
        e)
      (decode-frame tags (drop offset d) rest
        (omega (arith, length-drop offset d, offset-stream_setup sock id)))
  where
    tags : Bytes
    tags = (stream_setup sock id).config.tags

    offset : ℕ
    offset = (stream_setup sock id).config.offset
