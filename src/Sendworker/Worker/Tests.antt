-- ===== src/Sendworker/Worker/Tests.antt =====
-- Workers over small networks.
use apminsight_server_sdk_go.Prelude.{
  ℕ, ◌≡◌, ◌≢◌, refl, true, false, [], ◌∷◌, none, some, length, if◌then◌else◌, arith,
}
use apminsight_server_sdk_go.Sendworker.Encoder.{encode_pre_allocated}
use apminsight_server_sdk_go.Sendworker.Worker.{
  broken_pipe, other, dial, write, close, Net, Worker, datagram_batch_send, stream_batch_send,
  ensure_conn, new_conn, write_once, after_write,
}
use apminsight_server_sdk_go.Sendworker.Worker.Conn.{was_closed, IsOpen, ClosedWritesFail}
use apminsight_server_sdk_go.Sendworker.Worker.Retry.{
  Delivered, batch_send-Delivered, stream_retry_on_closed,
}

-- Every dial succeeds, and so does every write on a connection that is not closed.
abbrev fine : Net
fine = record {
  dials = λ calls. true;
  writes = λ calls c payload. if was_closed c calls then some other else none;
}

abbrev fresh : Worker
fresh = record { conn = none; calls = [] }

fresh-IsOpen : IsOpen fresh
fresh-IsOpen = record { below = tt; open_conn = tt }

kept : (datagram_batch_send fine fresh (some (1 ∷ []))).conn ≡ some 0
unfolding datagram_batch_send ensure_conn new_conn write_once
kept = refl

full : length {A = ℕ} (1 ∷ []) ≢ 0
full = λ h. omega arith

stream_kept : (stream_batch_send fine fresh (1 ∷ []) []).conn ≡ some 0
unfolding stream_batch_send ensure_conn new_conn after_write
stream_kept = refl

batch_send-Delivered_example :
    Delivered fine 0 (1 ∷ []) (datagram_batch_send fine fresh (some (1 ∷ [])))
    × Delivered fine 0 (encode_pre_allocated (1 ∷ []) []) (stream_batch_send fine fresh (1 ∷ []) [])
batch_send-Delivered_example =
    batch_send-Delivered fine fresh fresh (1 ∷ []) (1 ∷ []) [] 0 0 full kept stream_kept

-- The agent went away: the first write finds a broken pipe, and no dial succeeds any more.
abbrev gone : Net
gone = record {
  dials = λ calls. false;
  writes = λ calls c payload. if was_closed c calls then some other else some broken_pipe;
}

gone-ClosedWritesFail : ClosedWritesFail gone
gone-ClosedWritesFail = λ calls c payload h. rw h refl

stream_retry_on_closed_example :
    stream_batch_send gone (record { conn = some 0; calls = dial true ∷ [] }) (1 ∷ []) [] ≡ record {
      conn = none;
      calls =
          close 0
          ∷ write 0 (encode_pre_allocated (1 ∷ []) [])
          ∷ dial false
          ∷ close 0
          ∷ write 0 (encode_pre_allocated (1 ∷ []) [])
          ∷ dial true
          ∷ [];
    }
stream_retry_on_closed_example =
    stream_retry_on_closed gone 0 (dial true ∷ []) (1 ∷ []) [] gone-ClosedWritesFail full refl refl
