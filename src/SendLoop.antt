-- ===== src/SendLoop.antt =====
-- The loop that batches marshalled items and hands the batches to a worker:
-- trace/aitracer/trace_sender/sender.go, and with the same text
-- trace/aitracer/log_collector/collector.go.
pub mod Delivery
pub mod Order
pub mod Bounds
mod Tests
use apminsight_server_sdk_go.Prelude.{
  ℕ, ◌+◌, ◌≡◌, Bool, List, [], ◌∷◌, ◌++◌, Option, none, some, Bytes, length, take, replicate, ltb,
  leb, if◌then◌else◌, put_u32,
}

-- sendworker.SendWorker. BatchSend may write into the slice that it is given: its second result is
-- the slice afterwards.
pub record SendWorker : Type 1 where
  pub Worker : Type 0
  pub batch_send : Worker → Bytes → Bytes → Worker × Bytes
  pub close_conn : Worker → Worker
  pub keeps_length : (w : Worker) (d tags : Bytes) → length (batch_send w d tags).1 ≡ length d

-- What the generated code of an item offers: Size and MarshalTo into a slice of that size.
pub record Item (A : Type 0) : Type 0 where
  pub size : A → ℕ
  pub marshal_to : A → Option Bytes

-- The fields of TraceSender and LogCollector that the loop reads.
pub record Config : Type 0 where
  pub buffer_max_size : ℕ
  pub offset : ℕ
  pub tags : Bytes

-- What `select` receives: a tick, or an item of the channel, nil or not.
pub data Event (A : Type 0) : Type 0 where
  tick : Event A
  item : Option A → Event A

-- The loop's variables. `sent` is the history of the slices handed to BatchSend, oldest first.
pub record State (W : Type 0) : Type 0 where
  pub batch : Bytes
  pub worker : W
  pub sent : List Bytes

module _ (sw : SendWorker) (cfg : Config) where
  open sw use {Worker, batch_send, close_conn}
  open cfg use {buffer_max_size, offset, tags}

  -- `s.w.BatchSend(data, s.tags)`, with what it leaves in `data`.
  pub send : State Worker → Bytes → State Worker × Bytes
  send s payload =
      let (w, after) = batch_send s.worker payload tags in
      (record { batch = s.batch; worker = w; sent = s.sent ++ payload ∷ [] }, after)

  -- BatchSend of the batch, and `batch = batch[:s.offset]`.
  pub send_batch : State Worker → State Worker
  unfolding send
  send_batch s = let (s', after) = send s s.batch in record s' { batch = take offset after }

  pub on_tick : State Worker → State Worker
  unfolding send_batch
  on_tick s = if ltb offset (length s.batch) then send_batch s else s

  -- The part of the loop below a successful MarshalTo.
  pub on_frame : State Worker → Bytes → State Worker
  unfolding send_batch
  on_frame s frame =
      if leb (length s.batch + length frame) (buffer_max_size + offset)
      then record s { batch = s.batch ++ frame }
      else if ltb (buffer_max_size + offset) (length frame)
      then (send s (if ltb 0 offset then replicate offset 0 ++ frame else frame)).0
      else let s' = send_batch s in record s' { batch = s'.batch ++ frame }

  module _ {A : Type 0} (it : Item A) where
    -- The size in four bytes, and the item. `none`: nil, or MarshalTo failed.
    pub frame_of : Option A → Option Bytes
    frame_of none = none
    frame_of (some a) = elim (it.marshal_to a) [
      | none ↦ none
      | some b ↦ some (put_u32 (it.size a) ++ b)
    ]

    pub on_item : State Worker → Option Bytes → State Worker
    on_item s none = s
    on_item s (some frame) = on_frame s frame

    pub step : State Worker → Event A → State Worker
    unfolding on_tick on_item
    step s tick = on_tick s
    step s (item a) = on_item s (frame_of a)

    pub run : State Worker → List (Event A) → State Worker
    run s [] = s
    run s (e ∷ es) = run (step s e) es

    pub start : Worker → State Worker
    start w = record { batch = replicate offset 0; worker = w; sent = [] }

    -- The whole loop on the events before the channel is closed and drained: the last flush, and
    -- the deferred CloseConn. What is left is the worker and the history.
    pub send_loop : Worker → List (Event A) → Worker × List Bytes
    unfolding start on_tick
    send_loop w events =
        let s = run (start w) events in
        let s' = if ltb offset (length s.batch) then (send s s.batch).0 else s in
        (close_conn s'.worker, s'.sent)

    -- The frames of the items that were received and marshalled, in order.
    pub frames : List (Event A) → List Bytes
    frames [] = []
    frames (tick ∷ es) = frames es
    frames (item a ∷ es) = elim (frame_of a) [ none ↦ frames es | some f ↦ f ∷ frames es ]
