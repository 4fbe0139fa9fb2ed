-- ===== src/TraceSender.antt =====
-- trace/aitracer/trace_sender/sender.go and trace/aitracer/log_collector/collector.go: how the
-- senders of traces and of logs are set up over the shared loop. An empty socket address and
-- sizes that are not positive panic: `none`.
pub mod Wire
mod Tests
use apminsight_server_sdk_go.Prelude.{
  ℕ, ◌+◌, ◌*◌, ◌^◌, ◌≡◌, Bool, true, false, List, [], ◌∷◌, ◌++◌, Option, none, some, Bytes, codes,
  length, bytes_eq, ltb, ◌==◌, if◌then◌else◌,
}
use apminsight_server_sdk_go.Sendworker.Encoder.{format_map, get_prefix_len}
use apminsight_server_sdk_go.SendLoop
use apminsight_server_sdk_go.SendLoop.{SendWorker, Item, Event}
use apminsight_server_sdk_go.Version.{supports_stream}

pub data Transport : Type 0 where
  datagram stream : Transport

-- `flush_interval` is in seconds.
pub record Setup : Type 0 where
  pub transport : Transport
  pub sock : Bytes
  pub flush_interval : ℕ
  pub config : SendLoop.Config

abbrev pub max_batch_bytes : ℕ
max_batch_bytes = 16384

abbrev pub stream_max_batch_bytes : ℕ
stream_max_batch_bytes = 64 * 2 ^ 10

pub datagram_setup : Bytes → Setup
datagram_setup sock = record {
  transport = datagram;
  sock = sock;
  flush_interval = 1;
  config = record { buffer_max_size = max_batch_bytes; offset = 0; tags = [] };
}

-- sendworker.FormatMap(map[string]string{"instanceID": …})
pub instance_tags : Bytes → Bytes
instance_tags instance_id = format_map ((codes "instanceID", instance_id) ∷ [])

-- `GetPrefixLen(1, tags)` is never the -1 of another version.
pub stream_setup : Bytes → Bytes → Setup
unfolding instance_tags get_prefix_len
stream_setup sock instance_id =
    let tags = instance_tags instance_id in
    record {
      transport = stream;
      sock = sock;
      flush_interval = 5;
      config = record {
        buffer_max_size = stream_max_batch_bytes;
        offset = elim (get_prefix_len 1 tags) [ none ↦ 0 | some n ↦ n ];
        tags = tags;
      };
    }

pub new_datagram_trace_sender : Bytes → Option Setup
unfolding datagram_setup
new_datagram_trace_sender sock = if length sock == 0 then none else some (datagram_setup sock)

pub new_stream_trace_sender : Bytes → Bytes → Option Setup
unfolding stream_setup
new_stream_trace_sender sock instance_id =
    if length sock == 0 then none else some (stream_setup sock instance_id)

-- The agent's version, the two sockets, and the instance ID.
pub new_trace_sender : Bytes → Bytes → Bytes → Bytes → Option Setup
unfolding new_datagram_trace_sender new_stream_trace_sender
new_trace_sender version sock stream_sock instance_id =
    if supports_stream version
    then new_stream_trace_sender stream_sock instance_id
    else new_datagram_trace_sender sock

-- NewLogCollector. Only the datagram's address is checked; `worker_number` and `chan_size` are
-- taken as they are when positive.
pub new_log_collector : Bytes → Bytes → Bytes → Bytes → ℕ → ℕ → Option (Setup × ℕ × ℕ)
unfolding datagram_setup stream_setup
new_log_collector version sock stream_sock instance_id worker_number chan_size =
    if length sock == 0
    then none
    else if worker_number == 0
    then none
    else if chan_size == 0
    then none
    else if supports_stream version
    then some (stream_setup stream_sock instance_id, worker_number, chan_size)
    else some (datagram_setup sock, worker_number, chan_size)

-- LogCollector.Send: a log is dropped when the channel is full.
pub log_send {ℓ} : {A : Type ℓ} → ℕ → List A → A → List A
log_send chan_size queue log = if ltb (length queue) chan_size then queue ++ log ∷ [] else queue

-- The goroutines of Start over one channel: the schedule says which of them receives each event.
pub events_of : {A : Type 0} → ℕ → List (ℕ × Event A) → List (Event A)
events_of i [] = []
events_of i ((j, e) ∷ schedule) =
    let rest = events_of i schedule in if j == i then e ∷ rest else rest

module _ (sw : SendWorker) (cfg : SendLoop.Config) {A : Type 0} (it : Item A) where
  -- What the goroutines 0 to n - 1 hand to BatchSend, the last goroutine first.
  pub log_loops : SendWorker.Worker sw → ℕ → List (ℕ × Event A) → List (List Bytes)
  log_loops w ℕ.zero schedule = []
  log_loops w (ℕ.suc i) schedule =
      (SendLoop.send_loop sw cfg it w (events_of i schedule)).1 ∷ log_loops w i schedule
