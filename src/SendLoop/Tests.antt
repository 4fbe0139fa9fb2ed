-- ===== src/SendLoop/Tests.antt =====
-- Runs of the sending loop.
use mathlib.Core.List.{Perm}
use apminsight_server_sdk_go.Prelude.{
  ℕ, ◌+◌, ◌≤◌, ◌<◌, ◌≡◌, refl, List, [], ◌∷◌, none, some, map, arith, Bytes, length, drop, concat,
  put_u32, All,
}
use apminsight_server_sdk_go.SendLoop.{
  SendWorker, Item, Config, Event, tick, item, State, on_frame, send_loop, frames, frame_of, run,
  step, on_item, on_tick, start, send, send_batch,
}
use apminsight_server_sdk_go.SendLoop.Delivery.{send_loop-delivers}
use apminsight_server_sdk_go.SendLoop.Order.{send_loop-in_order}
use apminsight_server_sdk_go.SendLoop.Bounds.{on_frame-overgrown}

-- A worker that counts the slices and leaves them as they are.
abbrev counting : SendWorker
counting = record {
  Worker = ℕ;
  batch_send = λ w d tags. (w + 1, d);
  close_conn = λ w. w;
  keeps_length = λ w d tags. refl;
}

abbrev texts : Item Bytes
texts = record { size = length; marshal_to = some }

abbrev small : Config
small = record { buffer_max_size = 12; offset = 2; tags = [] }

abbrev events : List (Event Bytes)
events =
    item (some (1 ∷ 2 ∷ []))
    ∷ item none
    ∷ item (some (3 ∷ []))
    ∷ tick
    ∷ item (some (4 ∷ 5 ∷ []))
    ∷ []

send_loop_sent :
    (send_loop counting small texts 0 events).1
    ≡ (0 ∷ 0 ∷ 2 ∷ 0 ∷ 0 ∷ 0 ∷ 1 ∷ 2 ∷ 1 ∷ 0 ∷ 0 ∷ 0 ∷ 3 ∷ [])
      ∷ (0 ∷ 0 ∷ 2 ∷ 0 ∷ 0 ∷ 0 ∷ 4 ∷ 5 ∷ [])
      ∷ []
unfolding send_loop run step on_item on_frame on_tick frame_of start send send_batch put_u32
send_loop_sent = refl

send_loop-delivers_example :
    (parts : List (List Bytes)) × (map (drop 2) (send_loop counting small texts 0 events).1
      ≡ map concat parts)
    × Perm (concat parts) (frames counting small texts events)
send_loop-delivers_example = send_loop-delivers counting small texts 0 events

fair_frames : All (λ f. length f ≤ 12 + 2) (frames counting small texts events)
unfolding frames frame_of put_u32
fair_frames = (omega arith, (omega arith, (omega arith, tt)))

send_loop-in_order_example :
    concat (map (drop 2) (send_loop counting small texts 0 events).1)
    ≡ concat (frames counting small texts events)
send_loop-in_order_example = send_loop-in_order counting small texts 0 events fair_frames

abbrev waiting : State ℕ
waiting = record { batch = 0 ∷ 0 ∷ []; worker = 0; sent = [] }

abbrev long_frame : Bytes
long_frame = 9 ∷ 0 ∷ 0 ∷ 0 ∷ 1 ∷ 2 ∷ 3 ∷ 4 ∷ 5 ∷ 6 ∷ 7 ∷ 8 ∷ 9 ∷ []

on_frame-overgrown_example :
    ((on_frame counting small waiting long_frame).sent ≡ (0 ∷ 0 ∷ []) ∷ [])
    × (12 + 2 < length (on_frame counting small waiting long_frame).batch)
on_frame-overgrown_example =
    on_frame-overgrown counting small waiting long_frame refl (omega arith) (omega arith)
