-- ===== src/Sendworker/Worker/Retry.antt =====
-- What a batch that was sent leaves behind, and what a broken pipe does when the agent is gone.
use apminsight_server_sdk_go.Prelude.{
  ℕ, ◌≡◌, ◌≢◌, false, List, ◌∷◌, Option, none, some, arith, Bytes, length, ◌==◌, Bool-cases,
  Option-cases, inl, inr, refl,
}
use apminsight_server_sdk_go.Sendworker.Encoder.{encode_pre_allocated}
use apminsight_server_sdk_go.Sendworker.Worker.{
  WriteErr, broken_pipe, other, Call, dial, write, close, Net, Worker, new_conn, ensure_conn,
  close_conn, write_once, drop_on_err, datagram_batch_send, after_write, stream_batch_send,
}
use apminsight_server_sdk_go.Sendworker.Worker.Conn.{ClosedWritesFail}

-- The last call was a Write of the payload on connection `c`, and it reported no error.
abbrev pub Delivered : Net → ℕ → Bytes → Worker → Type 0
Delivered net c payload w =
    (before : List Call) × (w.calls ≡ write c payload ∷ before)
    × (net.writes before c payload ≡ none)

module _ (net : Net) where
  drop_on_err-Delivered :
      (w : Worker) (c d : ℕ) (payload : Bytes) (e : Option WriteErr)
      → net.writes w.calls c payload ≡ e
      → w.conn ≡ some c
      → (drop_on_err e (record w { calls = write c payload ∷ w.calls }) c).conn ≡ some d
      → Delivered net d payload (drop_on_err e (record w { calls = write c payload ∷ w.calls }) c)
  unfolding drop_on_err
  drop_on_err-Delivered w c d payload none p k h = (w.calls, cc, cc)
  drop_on_err-Delivered w c d payload (some x) p k h = cc

  write_once-Delivered :
      (w : Worker) (payload : Bytes) (d : ℕ)
      → (write_once net w payload).conn ≡ some d
      → Delivered net d payload (write_once net w payload)
  unfolding write_once
  write_once-Delivered w payload d h = elim (Option-cases w.conn) [
    | inl e ↦ let gone : w.conn ≡ some d = (rw (e, write_once) at h) in cc
    | inr (c, e) ↦
        rw (e, write_once)
          (drop_on_err-Delivered w c d payload (net.writes w.calls c payload) refl e
            (rw (e, write_once) at h))
  ]

  after_write-Delivered :
      (w : Worker) (c d : ℕ) (payload : Bytes) (e : Option WriteErr)
      → net.writes w.calls c payload ≡ e
      → w.conn ≡ some c
      → (after_write net e (record w { calls = write c payload ∷ w.calls }) c payload).conn ≡ some d
      → Delivered net d payload
          (after_write net e (record w { calls = write c payload ∷ w.calls }) c payload)
  unfolding after_write
  after_write-Delivered w c d payload none p k h = (w.calls, cc, cc)
  after_write-Delivered w c d payload (some broken_pipe) p k h =
      write_once-Delivered
        (new_conn net (close_conn (record w { calls = write c payload ∷ w.calls }))) payload d h
  after_write-Delivered w c d payload (some other) p k h =
      drop_on_err-Delivered w c d payload (some other) p k h

  -- A datagram worker that still has a connection after BatchSend has written the batch to it,
  -- unchanged, as its last call, and without an error.
  datagram_batch_send-Delivered :
      (w : Worker) (payload : Bytes) (d : ℕ)
      → (datagram_batch_send net w (some payload)).conn ≡ some d
      → Delivered net d payload (datagram_batch_send net w (some payload))
  unfolding datagram_batch_send
  datagram_batch_send-Delivered w payload d h = write_once-Delivered (ensure_conn net w) payload d h

  -- A stream worker that still has a connection after BatchSend of a batch that is not empty has
  -- written the encoded frame to it, as its last call, and without an error.
  stream_batch_send-Delivered :
      (w : Worker) (body tags : Bytes) (d : ℕ)
      → length body ≢ 0
      → (stream_batch_send net w body tags).conn ≡ some d
      → Delivered net d (encode_pre_allocated body tags) (stream_batch_send net w body tags)
  unfolding stream_batch_send
  stream_batch_send-Delivered w body tags d full h = elim (Bool-cases (length body == 0)) [
    | inl empty ↦ absurd (full (ground arith))
    | inr some_bytes ↦ rw some_bytes (
        let h' = (rw some_bytes at h) in
        elim (Option-cases (ensure_conn net w).conn) [
          | inl e ↦
              let gone : (ensure_conn net w).conn ≡ some d = (rw (e, stream_batch_send) at h') in cc
          | inr (c, e) ↦
              rw (e, stream_batch_send)
                (after_write-Delivered (ensure_conn net w) c d (encode_pre_allocated body tags)
                  (net.writes (ensure_conn net w).calls c (encode_pre_allocated body tags)) refl e
                  (rw (e, stream_batch_send) at h'))
        ])
  ]

  -- A worker of either kind that still has a connection after BatchSend, for a stream worker of a
  -- batch that is not empty, has written the batch to it as its last call and without an error:
  -- a datagram worker the payload unchanged, a stream worker the encoded frame.
  pub batch_send-Delivered :
      (w w' : Worker) (payload body tags : Bytes) (c d : ℕ)
      → length body ≢ 0
      → (datagram_batch_send net w (some payload)).conn ≡ some c
      → (stream_batch_send net w' body tags).conn ≡ some d
      → Delivered net c payload (datagram_batch_send net w (some payload))
        × Delivered net d (encode_pre_allocated body tags) (stream_batch_send net w' body tags)
  batch_send-Delivered w w' payload body tags c d full h k = (
    datagram_batch_send-Delivered w payload c h,
    stream_batch_send-Delivered w' body tags d full k,
  )

  -- When the write of a batch that is not empty finds a broken pipe and the second dial fails, the
  -- frame is written to the connection that has just been closed, which is then closed a second
  -- time, on a network where such a write returns an error other than "broken pipe".
  pub stream_retry_on_closed :
      (c : ℕ) (calls : List Call) (body tags : Bytes)
      → ClosedWritesFail net
      → length body ≢ 0
      → net.writes calls c (encode_pre_allocated body tags) ≡ some broken_pipe
      → net.dials (close c ∷ write c (encode_pre_allocated body tags) ∷ calls) ≡ false
      → stream_batch_send net (record { conn = some c; calls = calls }) body tags ≡ record {
        conn = none;
        calls =
            close c
            ∷ write c (encode_pre_allocated body tags)
            ∷ dial false
            ∷ close c
            ∷ write c (encode_pre_allocated body tags)
            ∷ calls;
      }
  unfolding stream_batch_send
  stream_retry_on_closed c calls body tags closed_fails full broken down =
      let again : net.writes (dial false ∷ close c ∷ write c payload ∷ calls) c payload
          ≡ some other =
        closed_fails (dial false ∷ close c ∷ write c payload ∷ calls) c payload (ground arith) in
      let nonzero : (length body == 0) ≡ false = ground arith in
      rw (nonzero, broken) (rw (down, after_write) (rw (again, after_write)))
    where
      payload : Bytes
      payload = encode_pre_allocated body tags
