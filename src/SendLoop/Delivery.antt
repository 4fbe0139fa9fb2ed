-- ===== src/SendLoop/Delivery.antt =====
-- Which frames reach BatchSend, and how.
use mathlib.Core.List.{Perm, map-append, perm_append_comm}
use mathlib.Core.List.Perm
use apminsight_server_sdk_go.Prelude.{
  ℕ, zero, suc, ◌+◌, ◌≤◌, ◌<◌, ◌⊎◌, ◌≡◌, refl, ◌∙◌, List, [], ◌∷◌, ◌++◌, append_assoc, append-nil,
  Option, none, some, map, arith, Bytes, length, take, drop, concat, replicate, ltb, leb,
  if◌then◌else◌, length-append, length-take, length-replicate, concat-append, drop-nil_of_le,
  drop-append_of, drop_append_le, put_u32, Bool-cases, inl, inr, Option-cases,
}
use apminsight_server_sdk_go.SendLoop.{
  SendWorker, Item, Config, Event, tick, item, State, send, send_batch, on_tick, on_frame, frame_of,
  on_item, step, run, send_loop, frames,
}

-- The buffer of a frame that is sent alone.
drop-tmp : (n : ℕ) (f : Bytes) → drop n (if ltb 0 n then replicate n 0 ++ f else f) ≡ f
drop-tmp zero f = refl
drop-tmp (suc n) f =
    ground (arith, drop-append_of (suc n) (replicate (suc n) 0) f (length-replicate (suc n) (zero)))

module _ (sw : SendWorker) (cfg : Config) where
  open sw use {Worker, batch_send, keeps_length}
  open cfg use {buffer_max_size, offset, tags}

  -- How the frames so far are spread over what was sent and what waits in the batch.
  record Accounts (s : State Worker) (fs : List Bytes) : Type 0 where
    parts : List (List Bytes)
    pending : List Bytes
    bodies : map (drop offset) s.sent ≡ map concat parts
    rest : drop offset s.batch ≡ concat pending
    all : Perm (concat parts ++ pending) fs
    room : offset ≤ length s.batch
    solid : (pending ≡ []) ⊎ (offset < length s.batch)

  sent_one :
      (sent : List Bytes) (parts : List (List Bytes)) (d : Bytes) (fs : List Bytes)
      → map (drop offset) sent ≡ map concat parts
      → drop offset d ≡ concat fs
      → map (drop offset) (sent ++ d ∷ []) ≡ map concat (parts ++ fs ∷ [])
  sent_one sent parts d fs e k = rw (map-append, map-append, e, k)

  start-Accounts :
      (w : Worker) → Accounts (record { batch = replicate offset 0; worker = w; sent = [] }) []
  start-Accounts w = record {
    parts = [];
    pending = [];
    bodies = refl;
    rest =
        drop-nil_of_le offset (replicate offset 0) (omega (arith, length-replicate offset (zero)));
    all = Perm.refl [];
    room = omega (arith, length-replicate offset (zero));
    solid = inl refl;
  }

  send_batch-Accounts :
      {s : State Worker} {fs : List Bytes} → Accounts s fs → Accounts (send_batch sw cfg s) fs
  unfolding send_batch
  send_batch-Accounts {s} {fs} a = record {
    parts = a.parts ++ a.pending ∷ [];
    pending = [];
    bodies = sent_one s.sent a.parts s.batch a.pending a.bodies a.rest;
    rest = drop-nil_of_le offset (take offset after) (omega (arith, length-take offset after));
    all = rw (append-nil, concat-append, append-nil) a.all;
    room = omega (arith, length-take offset after, keeps_length s.worker s.batch tags, a.room);
    solid = inl refl;
  }
    where
      after : Bytes
      after = (batch_send s.worker s.batch tags).1

  -- A frame that fits is appended to the batch.
  push-Accounts :
      {s : State Worker} {fs : List Bytes} (f : Bytes)
      → 0 < length f
      → Accounts s fs
      → Accounts (record s { batch = s.batch ++ f }) (fs ++ f ∷ [])
  push-Accounts {s} {fs} f pos a = record {
    parts = a.parts;
    pending = a.pending ++ f ∷ [];
    bodies = a.bodies;
    rest = drop_append_le offset s.batch f a.room ∙ rw (a.rest, concat-append, append-nil);
    all = rw (← append_assoc) (Perm.append_right (f ∷ []) a.all);
    room = omega (arith, a.room, length-append s.batch f);
    solid = inr (omega (arith, a.room, length-append s.batch f));
  }

  overtake :
      (done pending : List Bytes) {fs : List Bytes} (f : Bytes)
      → Perm (done ++ pending) fs
      → Perm ((done ++ f ∷ []) ++ pending) (fs ++ f ∷ [])
  overtake done pending f p =
      Perm.trans
        (rw (append_assoc, append_assoc)
          (Perm.append_left done (perm_append_comm (f ∷ []) pending)))
        (Perm.append_right (f ∷ []) p)

  -- A frame that is too long is sent alone, before what waits in the batch.
  alone-Accounts :
      {s : State Worker} {fs : List Bytes} (d f : Bytes)
      → drop offset d ≡ f
      → Accounts s fs
      → Accounts (send sw cfg s d).0 (fs ++ f ∷ [])
  unfolding send
  alone-Accounts {s} {fs} d f e a = record {
    parts = a.parts ++ (f ∷ []) ∷ [];
    pending = a.pending;
    bodies = sent_one s.sent a.parts d (f ∷ []) a.bodies rw append-nil e;
    rest = a.rest;
    all = rw concat-append (overtake (concat a.parts) a.pending f a.all);
    room = a.room;
    solid = a.solid;
  }

  on_frame-Accounts :
      {s : State Worker} {fs : List Bytes} (f : Bytes)
      → 0 < length f
      → Accounts s fs
      → Accounts (on_frame sw cfg s f) (fs ++ f ∷ [])
  unfolding on_frame
  on_frame-Accounts {s} {fs} f pos a =
      elim (Bool-cases (leb (length s.batch + length f) (buffer_max_size + offset))) [
        | inl fits ↦ rw fits (push-Accounts f pos a)
        | inr full ↦ rw full (elim (Bool-cases (ltb (buffer_max_size + offset) (length f))) [
          | inl long ↦ rw long (
              alone-Accounts (if ltb 0 offset then replicate offset 0 ++ f else f) f
                (drop-tmp offset f) a)
          | inr fair ↦ rw fair (push-Accounts f pos (send_batch-Accounts a))
        ])
      ]

  on_tick-Accounts :
      {s : State Worker} {fs : List Bytes} → Accounts s fs → Accounts (on_tick sw cfg s) fs
  unfolding on_tick
  on_tick-Accounts {s} a = elim (Bool-cases (ltb offset (length s.batch))) [
    | inl some_bytes ↦ rw some_bytes (send_batch-Accounts a)
    | inr empty ↦ rw empty a
  ]

  module _ {A : Type 0} (it : Item A) where
    pub frame_of-pos : (x : Option A) (f : Bytes) → frame_of sw cfg it x ≡ some f → 0 < length f
    unfolding frame_of put_u32
    frame_of-pos none f e = cc
    frame_of-pos (some x) f e = ground arith

    run-Accounts :
        (es : List (Event A)) {s : State Worker} {fs : List Bytes}
        → Accounts s fs
        → Accounts (run sw cfg it s es) (fs ++ frames sw cfg it es)
    unfolding run step on_item frames
    run-Accounts [] a = rw append-nil a
    run-Accounts (tick ∷ es) a = run-Accounts es (on_tick-Accounts a)
    run-Accounts (item x ∷ es) {s} {fs} a = elim (Option-cases (frame_of sw cfg it x)) [
      | inl e ↦ rw (e, frames) (run-Accounts es a)
      | inr (f, e) ↦
          rw (e, frames)
            (rw append_assoc at (run-Accounts es (on_frame-Accounts f (frame_of-pos x f e) a)))
    ]

    finish_parts :
        {s : State Worker} {fs : List Bytes}
        → Accounts s fs
        → (parts : List (List Bytes)) × (map
              (drop offset)
              (if ltb offset (length s.batch) then (send sw cfg s s.batch).0 else s).sent
            ≡ map concat parts)
          × Perm (concat parts) fs
    unfolding send
    finish_parts {s} {fs} a = elim (Bool-cases (ltb offset (length s.batch))) [
      | inl more ↦ rw more (
        a.parts ++ a.pending ∷ [],
        sent_one s.sent a.parts s.batch a.pending a.bodies a.rest,
        rw (concat-append, append-nil) a.all,
      )
      | inr done ↦ rw done (
        a.parts,
        a.bodies,
        elim a.solid [ inl e ↦ rw append-nil at (rw e at a.all) | inr lt ↦ absurd (ground arith) ],
      )
    ]

    -- From the start to the close of the channel, what BatchSend is given, past the offset, are
    -- runs of whole frames, and every frame is in exactly one of them, once.
    pub send_loop-delivers :
        (w : Worker) (es : List (Event A))
        → (parts : List (List Bytes)) × (map (drop offset) (send_loop sw cfg it w es).1
            ≡ map concat parts)
          × Perm (concat parts) (frames sw cfg it es)
    unfolding send_loop
    send_loop-delivers w es = finish_parts (run-Accounts es (start-Accounts w))
