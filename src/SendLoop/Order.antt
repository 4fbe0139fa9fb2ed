-- ===== src/SendLoop/Order.antt =====
-- The order of the bytes that BatchSend is given.
use mathlib.Core.List.{map-append}
use apminsight_server_sdk_go.Prelude.{
  zero, ◌+◌, ◌≤◌, ◌≡◌, ◌∙◌, List, [], ◌∷◌, ◌++◌, append_assoc, append-nil, map, arith, Bytes,
  length, take, drop, concat, replicate, ltb, leb, if◌then◌else◌, length-append, length-take,
  length-replicate, concat-append, drop-nil_of_le, drop_append_le, Bool-cases, inl, inr,
  Option-cases, All,
}
use apminsight_server_sdk_go.SendLoop.{
  SendWorker, Item, Config, Event, tick, item, State, send, send_batch, on_tick, on_frame, frame_of,
  on_item, step, run, send_loop, frames,
}

module _ (sw : SendWorker) (cfg : Config) where
  open sw use {Worker, batch_send, keeps_length}
  open cfg use {buffer_max_size, offset, tags}

  abbrev bodies : List Bytes → Bytes
  bodies sent = concat (map (drop offset) sent)

  -- What was sent and what waits in the batch spell the frames so far.
  record Ordered (s : State Worker) (fs : List Bytes) : Type 0 where
    flow : bodies s.sent ++ drop offset s.batch ≡ concat fs
    room : offset ≤ length s.batch

  bodies-append :
      (sent : List Bytes) (d : Bytes) → bodies (sent ++ d ∷ []) ≡ bodies sent ++ drop offset d
  bodies-append sent d = rw (map-append, concat-append, append-nil)

  send_batch-Ordered :
      {s : State Worker} {fs : List Bytes} → Ordered s fs → Ordered (send_batch sw cfg s) fs
  unfolding send_batch
  send_batch-Ordered {s} {fs} a = record {
    flow =
        rw
          (
            drop-nil_of_le offset (take offset after) (omega (arith, length-take offset after)),
            append-nil,
          )
          (bodies-append s.sent s.batch ∙ a.flow);
    room = omega (arith, length-take offset after, keeps_length s.worker s.batch tags, a.room);
  }
    where
      after : Bytes
      after = (batch_send s.worker s.batch tags).1

  push-Ordered :
      {s : State Worker} {fs : List Bytes} (f : Bytes)
      → Ordered s fs
      → Ordered (record s { batch = s.batch ++ f }) (fs ++ f ∷ [])
  push-Ordered {s} {fs} f a = record {
    flow =
        rw (
          drop_append_le offset s.batch f a.room,
          ← append_assoc,
          a.flow,
          concat-append,
          append-nil,
        );
    room = omega (arith, a.room, length-append s.batch f);
  }

  on_frame-Ordered :
      {s : State Worker} {fs : List Bytes} (f : Bytes)
      → length f ≤ buffer_max_size + offset
      → Ordered s fs
      → Ordered (on_frame sw cfg s f) (fs ++ f ∷ [])
  unfolding on_frame
  on_frame-Ordered {s} f short a =
      elim (Bool-cases (leb (length s.batch + length f) (buffer_max_size + offset))) [
        | inl fits ↦ rw fits (push-Ordered f a)
        | inr full ↦ rw full (elim (Bool-cases (ltb (buffer_max_size + offset) (length f))) [
          | inl long ↦ absurd (ground arith)
          | inr fair ↦ rw fair (push-Ordered f (send_batch-Ordered a))
        ])
      ]

  on_tick-Ordered :
      {s : State Worker} {fs : List Bytes} → Ordered s fs → Ordered (on_tick sw cfg s) fs
  unfolding on_tick
  on_tick-Ordered {s} a = elim (Bool-cases (ltb offset (length s.batch))) [
    | inl some_bytes ↦ rw some_bytes (send_batch-Ordered a)
    | inr empty ↦ rw empty a
  ]

  -- The last flush sends what waits, unless that is nothing.
  finish-Ordered :
      {s : State Worker} {fs : List Bytes}
      → Ordered s fs
      → bodies (if ltb offset (length s.batch) then (send sw cfg s s.batch).0 else s).sent
        ≡ concat fs
  unfolding send
  finish-Ordered {s} a = elim (Bool-cases (ltb offset (length s.batch))) [
    | inl more ↦ rw more (bodies-append s.sent s.batch ∙ a.flow)
    | inr done ↦
        rw done (rw append-nil at (rw (drop-nil_of_le offset s.batch (ground arith)) at a.flow))
  ]

  module _ {A : Type 0} (it : Item A) where
    run-Ordered :
        (es : List (Event A)) {s : State Worker} {fs : List Bytes}
        → All (λ f. length f ≤ buffer_max_size + offset) (frames sw cfg it es)
        → Ordered s fs
        → Ordered (run sw cfg it s es) (fs ++ frames sw cfg it es)
    unfolding run step on_item frames
    run-Ordered [] h a = rw append-nil a
    run-Ordered (tick ∷ es) h a = run-Ordered es h (on_tick-Ordered a)
    run-Ordered (item x ∷ es) {s} {fs} h a = elim (Option-cases (frame_of sw cfg it x)) [
      | inl e ↦ rw (e, frames) (run-Ordered es (rw (e, frames) at h) a)
      | inr (f, e) ↦
          let hs = (rw (e, frames) at h) in
          rw (e, frames) (rw append_assoc at (run-Ordered es hs.1 (on_frame-Ordered f hs.0 a)))
    ]

    -- If no frame is longer than the buffer with its offset, what BatchSend is given, past the
    -- offset, is in all the frames that were received, in their order, with nothing between.
    pub send_loop-in_order :
        (w : Worker) (es : List (Event A))
        → All (λ f. length f ≤ buffer_max_size + offset) (frames sw cfg it es)
        → concat (map (drop offset) (send_loop sw cfg it w es).1) ≡ concat (frames sw cfg it es)
    unfolding send_loop
    send_loop-in_order w es h = finish-Ordered (
        run-Ordered es {fs = []} h (record {
          flow =
              drop-nil_of_le offset (replicate offset 0)
                (omega (arith, length-replicate offset zero));
          room = omega (arith, length-replicate offset zero);
        }))
