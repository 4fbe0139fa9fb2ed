-- ===== src/Metrics/Client.antt =====
-- metrics/metrics_client.go, metrics/sender.go and metrics/monitor.go: the queue between the
-- callers and the senders, the datagram sender, and the error counters.
pub mod Queue
use apminsight_server_sdk_go.Prelude.{
  ℕ, ◌+◌, Bool, true, false, List, [], ◌∷◌, ◌++◌, Option, none, some, Bytes, codes, length, leb,
  ltb, ◌==◌, if◌then◌else◌,
}
use apminsight_server_sdk_go.Metrics.Format.{Tag, MetricItem, mt_counter, mt_timer, mt_gauge}
use apminsight_server_sdk_go.Sendworker.Worker.{WriteErr, Call, dial, write, close, Net}

abbrev pub batch_size : ℕ
batch_size = 1000

abbrev pub async_channel_size : ℕ
async_channel_size = 1000

-- The counters of `monitor`.
pub record Monitor : Type 0 where
  pub metric_buffer_full : ℕ
  pub sender_dial_error : ℕ
  pub sender_write_error : ℕ
  pub format_error : ℕ

-- A batch, or the nil that asks a sender to flush.
abbrev pub Message : Type 0
Message = Option (List MetricItem)

pub record MetricsClient : Type 0 where
  pub monitor : Monitor
  pub data_buf : List Message
  pub batch_buf : List MetricItem

-- `select { case mc.dataBuf <- flushBatch: default: count }`
pub offer : MetricsClient → List MetricItem → MetricsClient
offer mc batch =
    if ltb (length mc.data_buf) async_channel_size
    then record mc { data_buf = mc.data_buf ++ some batch ∷ [] }
    else record mc {
      monitor = record (mc.monitor) { metric_buffer_full = mc.monitor.metric_buffer_full + 1 };
    }

-- `tags` in the order in which Go ranges over the map.
pub emit_metric : MetricsClient → ℕ → Bytes → ℕ → List Tag → MetricsClient
unfolding offer
emit_metric mc mt name value tags =
    let item : MetricItem = record { mt = mt; name = name; value = value; tags = tags } in
    let batch = mc.batch_buf ++ item ∷ [] in
    if leb batch_size (length batch)
    then offer (record mc { batch_buf = [] }) batch
    else record mc { batch_buf = batch }

pub emit_counter : MetricsClient → Bytes → ℕ → List Tag → MetricsClient
unfolding emit_metric
emit_counter mc = emit_metric mc mt_counter

pub emit_timer : MetricsClient → Bytes → ℕ → List Tag → MetricsClient
unfolding emit_metric
emit_timer mc = emit_metric mc mt_timer

pub emit_gauge : MetricsClient → Bytes → ℕ → List Tag → MetricsClient
unfolding emit_metric
emit_gauge mc = emit_metric mc mt_gauge

-- `mc.dataBuf <- m` waits for room: `none` when there is none.
unfoldable pub put : MetricsClient → Message → Option MetricsClient
put mc m =
    if ltb (length mc.data_buf) async_channel_size
    then some (record mc { data_buf = mc.data_buf ++ m ∷ [] })
    else none

unfoldable pub put_flush : MetricsClient → Option MetricsClient
unfolding put
put_flush mc = put mc none

-- batchFlush: the batch if it is not empty, then nil.
unfoldable pub batch_flush : MetricsClient → Option MetricsClient
unfolding put put_flush
batch_flush mc =
    if length mc.batch_buf == 0
    then put_flush mc
    else elim (put (record mc { batch_buf = [] }) (some mc.batch_buf)) [
      | none ↦ none
      | some mc' ↦ put_flush mc'
    ]

-- `sender` of sender.go, over the network of the other workers.
pub record Sender : Type 0 where
  pub conn : Option ℕ
  pub calls : List Call
  pub monitor : Monitor

-- A failed write forgets the connection without closing it.
pub after_send : Option WriteErr → Sender → Sender
after_send none s = s
after_send (some e) s = record s {
  conn = none;
  monitor = record (s.monitor) { sender_write_error = s.monitor.sender_write_error + 1 };
}

module _ (net : Net) where
  pub write_packet : Sender → ℕ → Bytes → Sender
  unfolding after_send
  write_packet s c packet =
      after_send (net.writes s.calls c packet) (record s { calls = write c packet ∷ s.calls })

  pub send_packet : Sender → Bytes → Sender
  unfolding write_packet
  send_packet s packet = elim s.conn [
    | some c ↦ write_packet s c packet
    | none ↦
        if net.dials s.calls
        then write_packet (record s { conn = some (length s.calls); calls = dial true ∷ s.calls })
            (length s.calls) packet
        else record s {
          calls = dial false ∷ s.calls;
          monitor = record (s.monitor) { sender_dial_error = s.monitor.sender_dial_error + 1 };
        }
  ]

-- showAndReset: the lines for the counters that are not 0, in the order of the source, if there is
-- a `logfunc`.
pub log_line : Bool → Bytes → ℕ → List (Bytes × ℕ)
log_line with_log text n = if n == 0 then [] else if with_log then (text, n) ∷ [] else []

pub show_and_reset : Bool → Monitor → List (Bytes × ℕ) × Monitor
unfolding log_line
show_and_reset with_log m = (
  log_line with_log (codes "metric buffer full") m.metric_buffer_full
      ++ (log_line with_log (codes "sender write error") m.sender_write_error
          ++ (log_line with_log (codes "sender dial error") m.sender_dial_error
              ++ log_line with_log (codes "format error") m.format_error)),
  record {
    metric_buffer_full = 0;
    sender_dial_error = 0;
    sender_write_error = 0;
    format_error = 0;
  },
)
