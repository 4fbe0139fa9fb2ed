-- ===== src/Sendworker/Worker.antt =====
-- trace/internal/sendworker/worker.go: the datagram and the stream worker over a socket.
-- The network is an oracle on the history of calls, newest first; a connection is named by the
-- length of the history at its dial.
pub mod Conn
pub mod Retry
mod Tests
use apminsight_server_sdk_go.Prelude.{
  ℕ, Bool, true, false, List, [], ◌∷◌, Option, none, some, Bytes, length, ◌==◌, if◌then◌else◌,
}
use apminsight_server_sdk_go.Sendworker.Encoder.{encode_pre_allocated}

-- Whether the lowered text of a write error contains "broken pipe".
pub data WriteErr : Type 0 where
  broken_pipe other : WriteErr

-- A call of package net.
pub data Call : Type 0 where
  dial : Bool → Call
  write : ℕ → Bytes → Call
  close : ℕ → Call

-- What net.Dial and Conn.Write answer after a history.
pub record Net : Type 0 where
  pub dials : List Call → Bool
  pub writes : List Call → ℕ → Bytes → Option WriteErr

pub record Worker : Type 0 where
  pub conn : Option ℕ
  pub calls : List Call

-- The last `if err != nil`: `w.conn.Close()`, `w.conn = nil`.
pub drop_on_err : Option WriteErr → Worker → ℕ → Worker
drop_on_err none w c = w
drop_on_err (some e) w c = record { conn = none; calls = close c ∷ w.calls }

-- CloseConn closes and keeps the connection in `w.conn`.
pub close_conn : Worker → Worker
close_conn w = elim w.conn [ none ↦ w | some c ↦ record w { calls = close c ∷ w.calls } ]

module _ (net : Net) where
  -- A failed dial leaves `w.conn` as it is.
  pub new_conn : Worker → Worker
  new_conn w =
      if net.dials w.calls
      then record { conn = some (length w.calls); calls = dial true ∷ w.calls }
      else record w { calls = dial false ∷ w.calls }

  -- `if w.conn == nil { w.newConn() }`
  pub ensure_conn : Worker → Worker
  unfolding new_conn
  ensure_conn w = elim w.conn [ none ↦ new_conn w | some c ↦ w ]

  pub write_conn : Worker → ℕ → Bytes → Option WriteErr × Worker
  write_conn w c payload =
      (net.writes w.calls c payload, record w { calls = write c payload ∷ w.calls })

  -- `if w.conn == nil { return }`, one Write, and the error handling after it.
  pub write_once : Worker → Bytes → Worker
  unfolding write_conn drop_on_err
  write_once w payload = elim w.conn [
    | none ↦ w
    | some c ↦ let (e, w2) = write_conn w c payload in drop_on_err e w2 c
  ]

  -- The argument is a nil slice or a slice.
  pub datagram_batch_send : Worker → Option Bytes → Worker
  unfolding ensure_conn write_once
  datagram_batch_send w none = w
  datagram_batch_send w (some payload) = write_once (ensure_conn w) payload

  -- After a broken pipe: close, dial again, write once more.
  pub retry : Worker → Bytes → Worker
  unfolding close_conn new_conn write_once
  retry w payload = write_once (new_conn (close_conn w)) payload

  pub after_write : Option WriteErr → Worker → ℕ → Bytes → Worker
  unfolding retry
  after_write (some broken_pipe) w c payload = retry w payload
  after_write (some other) w c payload = drop_on_err (some other) w c
  after_write none w c payload = w

  pub stream_batch_send : Worker → Bytes → Bytes → Worker
  unfolding ensure_conn after_write
  stream_batch_send w payload_data tags =
      if length payload_data == 0
      then w
      else let payload = encode_pre_allocated payload_data tags in
        let w1 = ensure_conn w in
        elim w1.conn [
          | none ↦ w1
          | some c ↦ let (e, w2) = write_conn w1 c payload in after_write e w2 c payload
        ]
