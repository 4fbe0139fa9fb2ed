-- ===== src/Metrics/Packets/Order.antt =====
-- The packets that the metrics go out in.
use apminsight_server_sdk_go.Prelude.{
  ◌+◌, ◌≤◌, ◌<◌, ◌≡◌, refl, ap, List, [], ◌∷◌, ◌++◌, append_assoc, append-nil, none, some, arith,
  Bytes, length, leb, ltb, ◌==◌, length-append, Bool-cases, inl, inr, Option-cases, concat,
  concat-append, All, All-append, All-split,
}
use apminsight_server_sdk_go.Metrics.Format.{MetricItem}
use apminsight_server_sdk_go.Metrics.Client.{Message, Sender}
use apminsight_server_sdk_go.Metrics.Client.Queue.{queued}
use apminsight_server_sdk_go.Prelude.{length-nil}
use apminsight_server_sdk_go.Metrics.Packets.{
  PacketState, max_packet_size, count_format_error, send, on_data, format_item, on_formatted,
  on_items, flush, on_message, run, send_loop, formatted,
}
use apminsight_server_sdk_go.Sendworker.Worker.{Net}

-- A packet that is sent: not empty, and no longer than a packet may be.
abbrev pub IsPacket : Bytes → Type 0
IsPacket d = (0 < length d) × (length d ≤ max_packet_size)

module _ (net : Net) (prefix : Bytes) where
  record Packed (s : PacketState) (fs : List Bytes) : Type 0 where
    flow : concat s.sent ++ s.packet_buf ≡ concat fs
    below : length s.packet_buf ≤ max_packet_size
    history : All IsPacket s.sent

  on_data-Packed :
      {s : PacketState} {fs : List Bytes} (d : Bytes)
      → length d ≤ max_packet_size
      → Packed s fs
      → Packed (on_data net prefix s d) (fs ++ d ∷ [])
  unfolding on_data
  on_data-Packed {s} {fs} d short p =
      elim (Bool-cases (leb (length s.packet_buf + length d) max_packet_size)) [
        | inl fits ↦ rw fits (record {
          flow = rw (← append_assoc, p.flow, concat-append, append-nil);
          below = rw length-append (ground arith);
          history = p.history;
        })
        | inr full ↦ rw full (elim (Bool-cases (ltb max_packet_size (length d))) [
          | inl long ↦ absurd (ground arith)
          | inr fair ↦ rw fair (
              unfold send in
              record {
                flow = rw (concat-append, append-nil, p.flow, concat-append, append-nil);
                below = short;
                history =
                    All-append IsPacket s.sent (s.packet_buf ∷ []) p.history
                      ((ground arith, p.below), tt);
              })
        ])
      ]

  flush-Packed : {s : PacketState} {fs : List Bytes} → Packed s fs → Packed (flush net prefix s) fs
  unfolding flush
  flush-Packed {s} {fs} p = elim (Bool-cases (length s.packet_buf == 0)) [
    | inl empty ↦ rw empty p
    | inr more ↦ rw more (
        unfold send in
        record {
          flow = rw (append-nil, concat-append, append-nil) p.flow;
          below = omega arith;
          history =
              All-append IsPacket s.sent (s.packet_buf ∷ []) p.history
                ((ground arith, p.below), tt);
        })
  ]

  flush_empties : (s : PacketState) → (flush net prefix s).packet_buf ≡ []
  unfolding flush
  flush_empties s = elim (Bool-cases (length s.packet_buf == 0)) [
    | inl e ↦ rw e (length-nil s.packet_buf (ground arith))
    | inr e ↦ rw e refl
  ]

  formatted-append :
      (xs ys : List MetricItem)
      → formatted net prefix (xs ++ ys) ≡ formatted net prefix xs ++ formatted net prefix ys
  unfolding formatted
  formatted-append [] ys = refl
  formatted-append (i ∷ xs) ys = elim (Option-cases (format_item net prefix i)) [
    | inl e ↦ rw (formatted, e) (formatted-append xs ys)
    | inr (d, e) ↦ rw (formatted, e) (ap (λ t. d ∷ t) (formatted-append xs ys))
  ]

  on_items-Packed :
      (items : List MetricItem) {s : PacketState} {fs : List Bytes}
      → All (λ d. length d ≤ max_packet_size) (formatted net prefix items)
      → Packed s fs
      → Packed (on_items net prefix s items) (fs ++ formatted net prefix items)
  unfolding on_items on_formatted formatted
  on_items-Packed [] h p = rw append-nil p
  on_items-Packed (i ∷ items) {s} {fs} h p = elim (Option-cases (format_item net prefix i)) [
    | inl e ↦
        rw (e, formatted)
          (on_items-Packed items (rw (e, formatted) at h) (
            unfold count_format_error in
            record { flow = p.flow; below = p.below; history = p.history }))
    | inr (d, e) ↦
        let hs = (rw (e, formatted) at h) in
        rw (e, formatted)
          (rw append_assoc at (on_items-Packed items hs.1 (on_data-Packed d hs.0 p)))
  ]

  run-Packed :
      (messages : List Message) {s : PacketState} {fs : List Bytes}
      → All (λ d. length d ≤ max_packet_size) (formatted net prefix (queued messages))
      → Packed s fs
      → Packed (run net prefix s messages) (fs ++ formatted net prefix (queued messages))
  unfolding run on_message formatted
  run-Packed [] h p = rw append-nil p
  run-Packed (none ∷ messages) h p = run-Packed messages h (flush-Packed p)
  run-Packed (some items ∷ messages) {s} {fs} h p =
      let both = (rw formatted-append at h) in
      let (now, later) =
        All-split (λ d. length d ≤ max_packet_size) (formatted net prefix items)
          (formatted net prefix (queued messages)) both in
      rw formatted-append
        (rw append_assoc at (run-Packed messages later (on_items-Packed items now p)))

  -- If no formatted item is longer than a packet, the packets spell the formatted items of the
  -- channel in their order, none of them is empty, and none is longer than `max_packet_size`.
  pub send_loop-packs :
      (sender : Sender) (messages : List Message)
      → All (λ d. length d ≤ max_packet_size) (formatted net prefix (queued messages))
      → (concat (send_loop net prefix sender messages).sent
          ≡ concat (formatted net prefix (queued messages)))
        × All
            (λ d. (0 < length d) × (length d ≤ max_packet_size))
            (send_loop net prefix sender messages).sent
  unfolding send_loop
  send_loop-packs sender messages h =
      let p =
        run-Packed messages {fs = []} h
          (record { flow = refl; below = omega arith; history = tt }) in
      let q = flush-Packed p in (rw append-nil at (rw (flush_empties _) at q.flow), q.history)
