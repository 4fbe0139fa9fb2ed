-- ===== src/Sendworker/Encoder/Frame.antt =====
-- What the encoders of encoder.go produce, against an independent description of the frame, and
-- a decoder for it.
use apminsight_server_sdk_go.Prelude.{
  ◌>>=◌, ℕ, ◌+◌, ◌-◌, ◌*◌, ◌^◌, ◌≤◌, ◌<◌, ◌≡◌, refl, ap, ◌∙◌, List, [], ◌∷◌, ◌++◌, append_assoc,
  append-nil, Option, none, some, arith, Bytes, length, take, drop, replicate, ltb, ◌==◌,
  length-copy_at, if◌then◌else◌, put_u16, put_u32, copy_at, get_u32, length-append, length-take,
  length-drop, length-replicate, overwrite-eq, copy_at-eq, copy_at-append, get_u32-put_u32_bound,
  inl, inr, drop-append, take-append, Bool-cases, drop-nil_of_le, drop-add,
}
use apminsight_server_sdk_go.Sendworker.Encoder.{
  connection_magic_num, version1, prefix_writes, put_all, put_prefix, encode, encode_pre_allocated,
}

-- [[magicNum,Length],[codec_version,body_offset,body_length,header_length,header],[body]]
pub frame_prefix : ℕ → Bytes → Bytes
frame_prefix body_len header =
    put_u16 connection_magic_num
    ++ (put_u32 (13 + length header + body_len)
        ++ (version1
            ∷ (put_u32 (13 + length header)
                ++ (put_u32 body_len ++ (put_u32 (length header) ++ header)))))

pub length-frame_prefix :
    (n : ℕ) (header : Bytes) → length (frame_prefix n header) ≡ 19 + length header
unfolding frame_prefix put_u16 put_u32
length-frame_prefix n header = omega arith

-- Each write starts where the one before it ends, the first at `n`.
abbrev Contiguous : ℕ → List (ℕ × Bytes) → Type 0
Contiguous n [] = Unit
Contiguous n ((i, src) ∷ ws) = (i ≡ n) × Contiguous (n + length src) ws

abbrev written : List (ℕ × Bytes) → Bytes
written [] = []
written ((i, src) ∷ ws) = src ++ written ws

copy_next :
    (w rest src : Bytes) (i : ℕ)
    → i ≡ length w
    → length src ≤ length rest
    → copy_at (w ++ rest) i src ≡ (w ++ src) ++ drop (length src) rest
unfolding copy_at
copy_next w rest src i e h = rw (e, copy_at-append, overwrite-eq rest src h, append_assoc)

put_all-eq :
    (w rest : Bytes) (ws : List (ℕ × Bytes))
    → Contiguous (length w) ws
    → length (written ws) ≤ length rest
    → put_all (w ++ rest) ws ≡ w ++ (written ws ++ drop (length (written ws)) rest)
unfolding put_all
put_all-eq w rest [] c h = refl
put_all-eq w rest ((i, src) ∷ ws) (e, c) h =
    rw (copy_next w rest src i e (omega (arith, length-append src (written ws)))) (
      put_all-eq (w ++ src) (drop (length src) rest) ws (rw length-append c)
        (omega (arith, length-append src (written ws), length-drop (length src) rest))
      ∙ rw (length-append src (written ws), drop-add (length src)) (simp append_assoc))

written-prefix_writes :
    (header : Bytes) (n : ℕ)
    → written (prefix_writes (13 + length header + n) (13 + length header) n header)
      ≡ frame_prefix n header
unfolding frame_prefix
written-prefix_writes header n = rw append-nil

Contiguous-prefix_writes : (a b c : ℕ) (header : Bytes) → Contiguous 0 (prefix_writes a b c header)
unfolding put_u16 put_u32
Contiguous-prefix_writes a b c header = omega arith

-- Writing the prefix over the first 19 + len(header) bytes leaves the rest alone.
put_prefix-eq :
    (payload header : Bytes) (n : ℕ)
    → 19 + length header ≤ length payload
    → put_prefix payload (13 + length header + n) (13 + length header) n header
      ≡ frame_prefix n header ++ drop (19 + length header) payload
unfolding put_prefix
put_prefix-eq payload header n h =
    put_all-eq [] payload (prefix_writes (13 + length header + n) (13 + length header) n header)
      (Contiguous-prefix_writes (13 + length header + n) (13 + length header) n header)
      (rw (written-prefix_writes, length-frame_prefix) h)
    ∙ rw (written-prefix_writes, length-frame_prefix)

-- What the frame of a header and a body is, end to end.
pub frame : Bytes → Bytes → Bytes
frame header body = frame_prefix (length body) header ++ body

put_prefix-frame :
    (reserved body header : Bytes)
    → length reserved ≡ 19 + length header
    → put_prefix
        (reserved ++ body)
        (13 + length header + length body)
        (13 + length header)
        (length body)
        header
      ≡ frame header body
unfolding frame
put_prefix-frame reserved body header e =
    put_prefix-eq (reserved ++ body) header (length body)
      (omega (arith, length-append reserved body))
    ∙ rw (← e) (ap (λ t. frame_prefix (length body) header ++ t) (drop-append reserved body))

-- EncodePreAllocated on a buffer with room for the prefix overwrites just that room.
pub encode_pre_allocated-eq :
    (reserved body header : Bytes)
    → length reserved ≡ 19 + length header
    → encode_pre_allocated (reserved ++ body) header ≡ frame header body
unfolding encode_pre_allocated
encode_pre_allocated-eq reserved body header e =
    ground (arith, length-append reserved body, put_prefix-frame reserved body header e)

-- The body is moved to the end of the payload first, so its own memory may be overwritten later.
copy_body :
    (payload body : Bytes) (n : ℕ)
    → length payload ≡ n + length body
    → copy_at payload (n + length body - length body) body ≡ take n payload ++ body
copy_body payload body n e = rw (let k : n + length body - length body ≡ n = omega arith in k) (
    copy_at-eq payload n body (omega arith)
    ∙ ap (λ t. take n payload ++ t)
        (rw (drop-nil_of_le (n + length body) payload (omega arith), append-nil)))

encode_body :
    (payload body header : Bytes)
    → length payload ≡ 19 + length header + length body
    → put_prefix
        (copy_at payload (19 + length header + length body - length body) body)
        (13 + length header + length body)
        (13 + length header)
        (length body)
        header
      ≡ frame header body
encode_body payload body header e = rw (copy_body payload body (19 + length header) e) (
    put_prefix-frame (take (19 + length header) payload) body header
      (omega (arith, length-take (19 + length header) payload)))

-- Encode produces the same frame, whether or not it reuses the memory behind the body.
pub encode-eq :
    (backing header : Bytes) (len : ℕ)
    → len ≤ length backing
    → encode backing len header ≡ frame header (take len backing)
unfolding encode
encode-eq backing header len h =
    rw
      (let k : 6 + (13 + length header + length body) ≡ 19 + length header + length body =
          omega arith in
        k)
      (elim (Bool-cases (ltb (length backing) (19 + length header + length body))) [
        | inl small ↦ rw small (
            encode_body (replicate (19 + length header + length body) 0) body header
              (length-replicate (19 + length header + length body) 0))
        | inr roomy ↦ rw roomy (
            encode_body (take (19 + length header + length body) backing) body header
              (ground (arith, length-take (19 + length header + length body) backing)))
      ])
  where
    body : Bytes
    body = take len backing

-- Encoding in place keeps the length of the slice.
length-put_all :
    (payload : Bytes) (ws : List (ℕ × Bytes)) → length (put_all payload ws) ≡ length payload
unfolding put_all
length-put_all payload [] = refl
length-put_all payload ((i, src) ∷ ws) =
    length-put_all (copy_at payload i src) ws ∙ length-copy_at payload i src

pub length-encode_pre_allocated :
    (payload header : Bytes) → length (encode_pre_allocated payload header) ≡ length payload
unfolding encode_pre_allocated put_prefix
length-encode_pre_allocated payload header = ground (
  arith,
  length-put_all payload (
      prefix_writes (length payload - 6) (13 + length header)
        (length payload - (6 + 13 + length header)) header),
)

-- The agent's side of a stream: magic number, length, version, then the two sections by their
-- offsets and lengths; what follows the data is the next message.

abbrev decode_data : ℕ → Bytes → Option (Bytes × Bytes × Bytes)
decode_data data_len [] = none
decode_data data_len (v ∷ fields) =
    if v == version1
    then (do
      (body_offset, r1) ← get_u32 fields
      (body_len, r2) ← get_u32 r1
      (header_len, r3) ← get_u32 r2
      some (
        take header_len r3,
        take body_len (drop body_offset (v ∷ fields)),
        drop data_len (v ∷ fields),
      ))
    else none

pub decode : Bytes → Option (Bytes × Bytes × Bytes)
decode (m0 ∷ m1 ∷ r) =
    if m0 + 256 * m1 == connection_magic_num
    then (do (data_len, data_bytes) ← get_u32 r; decode_data data_len data_bytes)
    else none
decode _ = none

-- The data part of a frame, up to its body, with what follows.
abbrev sections : Bytes → ℕ → Bytes → Bytes
sections header body_len tail =
    version1
    ∷ (put_u32 (13 + length header)
        ++ (put_u32 body_len ++ (put_u32 (length header) ++ (header ++ tail))))

drop-sections :
    (header : Bytes) (body_len : ℕ) (tail : Bytes)
    → drop (13 + length header) (sections header body_len tail) ≡ tail
unfolding put_u32
drop-sections header n tail =
    drop-add 13 (length header) (sections header n tail) ∙ drop-append header tail

drop_data :
    (header body rest : Bytes)
    → drop (13 + length header + length body) (sections header (length body) (body ++ rest)) ≡ rest
drop_data header body rest =
    drop-add (13 + length header) (length body) (sections header (length body) (body ++ rest))
    ∙ rw drop-sections (drop-append body rest)

decode_data-eq :
    (header body rest : Bytes)
    → 13 + length header + length body < 2 ^ 32
    → decode_data (13 + length header + length body) (sections header (length body) (body ++ rest))
      ≡ some (header, body, rest)
decode_data-eq header body rest h = rw (
  get_u32-put_u32_bound (13 + length header) _ (omega arith),
  get_u32-put_u32_bound (length body) _ (omega arith),
  get_u32-put_u32_bound (length header) _ (omega arith),
  drop_data,
  drop-sections,
  take-append,
  take-append,
)

-- A decoder finds the header, the body and the rest of the stream again.
pub decode-frame :
    (header body rest : Bytes)
    → 13 + length header + length body < 2 ^ 32
    → decode (frame header body ++ rest) ≡ some (header, body, rest)
unfolding decode frame frame_prefix put_u16
decode-frame header body rest h = simp append_assoc (
    rw (get_u32-put_u32_bound (13 + length header + length body) _ h)
      (decode_data-eq header body rest h))
