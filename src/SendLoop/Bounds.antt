-- ===== src/SendLoop/Bounds.antt =====
-- How long the slices are that BatchSend is given.
use apminsight_server_sdk_go.Prelude.{
  zero, ◌+◌, ◌≤◌, ◌<◌, ◌≡◌, refl, false, List, [], ◌∷◌, ◌++◌, arith, Bytes, length, ltb, leb,
  if◌then◌else◌, length-append, length-take, length-replicate, Bool-cases, inl, inr, Option-cases,
  All, All-append,
}
use apminsight_server_sdk_go.SendLoop.{
  SendWorker, Item, Config, Event, tick, item, State, send, send_batch, on_tick, on_frame, frame_of,
  on_item, step, run, send_loop, frames,
}

module _ (sw : SendWorker) (cfg : Config) where
  open sw use {Worker, batch_send, keeps_length}
  open cfg use {buffer_max_size, offset, tags}

  -- Some bytes past the offset, and no more than the buffer holds.
  abbrev pub Fits : Bytes → Type 0
  Fits d = (offset < length d) × (length d ≤ buffer_max_size + offset)

  record Bounded (s : State Worker) : Type 0 where
    room : offset ≤ length s.batch
    below : length s.batch ≤ buffer_max_size + offset
    history : All Fits s.sent

  send_batch-Bounded :
      {s : State Worker} → offset < length s.batch → Bounded s → Bounded (send_batch sw cfg s)
  unfolding send_batch
  send_batch-Bounded {s} pos a = record {
    room = omega (arith, length-take offset after, keeps_length s.worker s.batch tags, a.room);
    below = omega (arith, length-take offset after);
    history = All-append Fits s.sent (s.batch ∷ []) a.history ((pos, a.below), tt);
  }
    where
      after : Bytes
      after = (batch_send s.worker s.batch tags).1

  -- `batch[:s.offset]` after BatchSend.
  send_batch_empties :
      (s : State Worker) → offset ≤ length s.batch → length (send_batch sw cfg s).batch ≡ offset
  unfolding send_batch
  send_batch_empties s h = omega (
    arith,
    length-take offset (batch_send s.worker s.batch tags).1,
    keeps_length s.worker s.batch tags,
  )

  push-Bounded :
      {s : State Worker} (f : Bytes)
      → length s.batch + length f ≤ buffer_max_size + offset
      → Bounded s
      → Bounded (record s { batch = s.batch ++ f })
  push-Bounded {s} f h a = record {
    room = omega (arith, a.room, length-append s.batch f);
    below = omega (arith, length-append s.batch f);
    history = a.history;
  }

  on_frame-Bounded :
      {s : State Worker} (f : Bytes)
      → length f ≤ buffer_max_size
      → Bounded s
      → Bounded (on_frame sw cfg s f)
  unfolding on_frame
  on_frame-Bounded {s} f short a =
      elim (Bool-cases (leb (length s.batch + length f) (buffer_max_size + offset))) [
        | inl fits ↦ rw fits (push-Bounded f (ground arith) a)
        | inr full ↦ rw full (elim (Bool-cases (ltb (buffer_max_size + offset) (length f))) [
          | inl long ↦ absurd (ground arith)
          | inr fair ↦ rw fair (
              push-Bounded f (rw (send_batch_empties s a.room) (omega (arith, short)))
                (send_batch-Bounded (ground arith) a))
        ])
      ]

  on_tick-Bounded : {s : State Worker} → Bounded s → Bounded (on_tick sw cfg s)
  unfolding on_tick
  on_tick-Bounded {s} a = elim (Bool-cases (ltb offset (length s.batch))) [
    | inl some_bytes ↦ rw some_bytes (send_batch-Bounded (ground arith) a)
    | inr empty ↦ rw empty a
  ]

  finish-Bounded :
      {s : State Worker}
      → Bounded s
      → All Fits (if ltb offset (length s.batch) then (send sw cfg s s.batch).0 else s).sent
  unfolding send
  finish-Bounded {s} a = elim (Bool-cases (ltb offset (length s.batch))) [
    | inl more ↦
        rw more (All-append Fits s.sent (s.batch ∷ []) a.history ((ground arith, a.below), tt))
    | inr done ↦ rw done a.history
  ]

  module _ {A : Type 0} (it : Item A) where
    run-Bounded :
        (es : List (Event A)) {s : State Worker}
        → All (λ f. length f ≤ buffer_max_size) (frames sw cfg it es)
        → Bounded s
        → Bounded (run sw cfg it s es)
    unfolding run step on_item frames
    run-Bounded [] h a = a
    run-Bounded (tick ∷ es) h a = run-Bounded es h (on_tick-Bounded a)
    run-Bounded (item x ∷ es) {s} h a = elim (Option-cases (frame_of sw cfg it x)) [
      | inl e ↦ rw (e, frames) (run-Bounded es (rw (e, frames) at h) a)
      | inr (f, e) ↦
          let hs = (rw (e, frames) at h) in
          rw (e, frames) (run-Bounded es hs.1 (on_frame-Bounded f hs.0 a))
    ]

    -- If every frame has at most `buffer_max_size` bytes, every slice that BatchSend is given has
    -- at most that many past the offset, and at least one.
    pub send_loop-bounded :
        (w : Worker) (es : List (Event A))
        → All (λ f. length f ≤ buffer_max_size) (frames sw cfg it es)
        → All
            (λ d. (offset < length d) × (length d ≤ buffer_max_size + offset))
            (send_loop sw cfg it w es).1
    unfolding send_loop
    send_loop-bounded w es h = finish-Bounded (
        run-Bounded es h (record {
          room = omega (arith, length-replicate offset zero);
          below = omega (arith, length-replicate offset zero);
          history = tt;
        }))

  -- A frame between `buffer_max_size` and that with the offset, received while nothing waits,
  -- sends a slice with no frame in it, and leaves a batch that is longer than its buffer.
  pub on_frame-overgrown :
      (s : State Worker) (f : Bytes)
      → length s.batch ≡ offset
      → buffer_max_size < length f
      → length f ≤ buffer_max_size + offset
      → ((on_frame sw cfg s f).sent ≡ s.sent ++ s.batch ∷ [])
        × (buffer_max_size + offset < length (on_frame sw cfg s f).batch)
  unfolding on_frame
  on_frame-overgrown s f empty long fair =
      let full : leb (length s.batch + length f) (buffer_max_size + offset) ≡ false =
        ground arith in
      let not_long : ltb (buffer_max_size + offset) (length f) ≡ false = ground arith in
      rw (full, not_long)
        (
          unfold send_batch send in refl,
          rw length-append (rw (send_batch_empties s (omega arith)) (omega arith)),
        )
