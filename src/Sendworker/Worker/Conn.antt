-- ===== src/Sendworker/Worker/Conn.antt =====
-- The connection that a worker keeps, and those that it has closed.
use apminsight_server_sdk_go.Prelude.{
  ℕ, ◌≡◌, Bool, true, false, List, [], ◌∷◌, Option, none, some, arith, Bytes, length, ◌==◌, ◌<◌,
  ◌||◌, refl, ◌≤◌, suc, Bool-cases, Option-cases, inl, inr,
}
use apminsight_server_sdk_go.Sendworker.Worker.{
  WriteErr, broken_pipe, other, Call, dial, write, close, Net, Worker, new_conn, ensure_conn,
  write_once, drop_on_err, datagram_batch_send, retry, after_write, stream_batch_send,
}
use apminsight_server_sdk_go.Sendworker.Encoder.{encode_pre_allocated}

-- The connection has been closed in this history.
abbrev pub was_closed : ℕ → List Call → Bool
was_closed c [] = false
was_closed c (close d ∷ calls) = c == d || was_closed c calls
was_closed c (dial b ∷ calls) = was_closed c calls
was_closed c (write d payload ∷ calls) = was_closed c calls

-- Connections that occur in a history were dialled in it.
abbrev pub ClosedBelow : List Call → Type 0
ClosedBelow [] = Unit {0}
ClosedBelow (close d ∷ calls) = (d < length calls) × ClosedBelow calls
ClosedBelow (dial b ∷ calls) = ClosedBelow calls
ClosedBelow (write d payload ∷ calls) = ClosedBelow calls

abbrev pub ConnOpen : Option ℕ → List Call → Type 0
ConnOpen none calls = Unit {0}
ConnOpen (some c) calls = (c < length calls) × (was_closed c calls ≡ false)

pub record IsOpen (w : Worker) : Type 0 where
  pub below : ClosedBelow w.calls
  pub open_conn : ConnOpen w.conn w.calls

-- A name not yet used has not been closed.
was_closed_fresh :
    (c : ℕ) (calls : List Call) → ClosedBelow calls → length calls ≤ c → was_closed c calls ≡ false
was_closed_fresh c [] b h = refl
was_closed_fresh c (close d ∷ calls) b h = ground (arith, was_closed_fresh c calls b.1)
was_closed_fresh c (dial x ∷ calls) b h = was_closed_fresh c calls b (omega arith)
was_closed_fresh c (write d payload ∷ calls) b h = was_closed_fresh c calls b (omega arith)

ConnOpen-dial :
    (b : Bool) (conn : Option ℕ) (calls : List Call)
    → ConnOpen conn calls
    → ConnOpen conn (dial b ∷ calls)
ConnOpen-dial b none calls v = tt
ConnOpen-dial b (some c) calls v = (omega (arith, v.0), v.1)

module _ (net : Net) where
  new_conn-IsOpen : {w : Worker} → IsOpen w → IsOpen (new_conn net w)
  unfolding new_conn
  new_conn-IsOpen {w} v = elim (Bool-cases (net.dials w.calls)) [
    | inl up ↦ rw up (record {
      below = v.below;
      open_conn = (omega arith, was_closed_fresh (length w.calls) w.calls v.below (omega arith));
    })
    | inr down ↦
        rw down
          (record { below = v.below; open_conn = ConnOpen-dial false w.conn w.calls v.open_conn })
  ]

  ensure_conn-IsOpen : {w : Worker} → IsOpen w → IsOpen (ensure_conn net w)
  unfolding ensure_conn
  ensure_conn-IsOpen {w} v = elim (Option-cases w.conn) [
    | inl e ↦ rw (e, ensure_conn) (new_conn-IsOpen v)
    | inr (c, e) ↦ rw (e, ensure_conn) v
  ]

  -- Writing on a connection in use, and forgetting it after an error.
  write-IsOpen :
      {w : Worker} (c : ℕ) (payload : Bytes) (e : Option WriteErr)
      → IsOpen w
      → w.conn ≡ some c
      → IsOpen (drop_on_err e (record w { calls = write c payload ∷ w.calls }) c)
  unfolding drop_on_err
  write-IsOpen {w} c payload none v k =
      let o = (rw k at v.open_conn) in
      record { below = v.below; open_conn = rw k (omega (arith, o.0), o.1) }
  write-IsOpen {w} c payload (some e) v k =
      let o = (rw k at v.open_conn) in
      record { below = (omega (arith, o.0), v.below); open_conn = tt }

  write_once-IsOpen : {w : Worker} (payload : Bytes) → IsOpen w → IsOpen (write_once net w payload)
  unfolding write_once
  write_once-IsOpen {w} payload v = elim (Option-cases w.conn) [
    | inl e ↦ rw (e, write_once) v
    | inr (c, e) ↦ rw (e, write_once) (write-IsOpen c payload (net.writes w.calls c payload) v e)
  ]

  -- If a datagram worker has no connection, or one that it has not closed, the same holds after
  -- BatchSend.
  datagram_batch_send-IsOpen :
      {w : Worker} (payload : Option Bytes) → IsOpen w → IsOpen (datagram_batch_send net w payload)
  unfolding datagram_batch_send
  datagram_batch_send-IsOpen none v = v
  datagram_batch_send-IsOpen (some payload) v = write_once-IsOpen payload (ensure_conn-IsOpen v)

-- A Write on a connection that was closed returns an error, which is not "broken pipe"
-- ("use of closed network connection").
abbrev pub ClosedWritesFail : Net → Type 0
ClosedWritesFail net =
    (calls : List Call) (c : ℕ) (payload : Bytes)
    → was_closed c calls ≡ true
    → net.writes calls c payload ≡ some other

module _ (net : Net) (closed_fails : ClosedWritesFail net) where
  -- Both outcomes of the second dial, from a connection that has just been closed.
  retry_at :
      (c : ℕ) (calls : List Call) (payload : Bytes)
      → ClosedBelow calls
      → c < length calls
      → IsOpen (retry net (record { conn = some c; calls = calls }) payload)
  unfolding retry
  retry_at c calls payload b h = elim (Bool-cases (net.dials (close c ∷ calls))) [
    | inl up ↦
        rw
          (let e : new_conn net (record { conn = some c; calls = close c ∷ calls })
                ≡ record { conn = some (suc (length calls)); calls = dial true ∷ close c ∷ calls } =
              rw up in
            e)
          (write_once-IsOpen net
            {w = record { conn = some (suc (length calls)); calls = dial true ∷ close c ∷ calls }}
            payload
            (record {
              below = (h, b);
              open_conn = (
                omega arith,
                was_closed_fresh (suc (length calls)) (close c ∷ calls) (h, b) (omega arith),
              );
            }))
    | inr down ↦
        rw
          (let e : new_conn net (record { conn = some c; calls = close c ∷ calls })
                ≡ record { conn = some c; calls = dial false ∷ close c ∷ calls } =
              rw down in
            e)
          (rw (closed_fails (dial false ∷ close c ∷ calls) c payload (ground arith))
            (record { below = (omega arith, (h, b)); open_conn = tt }))
  ]

  after_write-IsOpen :
      {w : Worker} (c : ℕ) (payload sent : Bytes) (e : Option WriteErr)
      → IsOpen w
      → w.conn ≡ some c
      → IsOpen (after_write net e (record w { calls = write c sent ∷ w.calls }) c payload)
  unfolding after_write
  after_write-IsOpen {w} c payload sent none v k = write-IsOpen net {w = w} c sent none v k
  after_write-IsOpen {w} c payload sent (some other) v k =
      write-IsOpen net {w = w} c sent (some other) v k
  after_write-IsOpen {w} c payload sent (some broken_pipe) v k =
      let o = (rw k at v.open_conn) in
      rw k (retry_at c (write c sent ∷ w.calls) payload v.below (omega (arith, o.0)))

  -- If a stream worker has no connection, or one that it has not closed, the same holds after
  -- BatchSend, on a network where a write on a closed connection returns an error other than
  -- "broken pipe".
  stream_batch_send-IsOpen :
      {w : Worker} (body tags : Bytes) → IsOpen w → IsOpen (stream_batch_send net w body tags)
  unfolding stream_batch_send
  stream_batch_send-IsOpen {w} body tags v = elim (Bool-cases (length body == 0)) [
    | inl empty ↦ rw empty v
    | inr full ↦ rw full (elim (Option-cases (ensure_conn net w).conn) [
      | inl e ↦ rw (e, stream_batch_send) (ensure_conn-IsOpen net v)
      | inr (c, e) ↦
          rw (e, stream_batch_send)
            (after_write-IsOpen c (encode_pre_allocated body tags) (encode_pre_allocated body tags)
              (net.writes (ensure_conn net w).calls c (encode_pre_allocated body tags))
              (ensure_conn-IsOpen net v) e)
    ])
  ]

  -- If a worker of either kind has no connection, or one that it has not closed, the same holds
  -- after BatchSend, on a network where a write on a closed connection returns an error other than
  -- "broken pipe".
  pub batch_send-IsOpen :
      {w : Worker} (payload : Option Bytes) (body tags : Bytes)
      → IsOpen w
      → IsOpen (datagram_batch_send net w payload) × IsOpen (stream_batch_send net w body tags)
  batch_send-IsOpen payload body tags v =
      (datagram_batch_send-IsOpen net payload v, stream_batch_send-IsOpen body tags v)
