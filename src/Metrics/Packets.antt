-- ===== src/Metrics/Packets.antt =====
-- sendLoop of metrics/metrics_client.go: the items of the channel are formatted, packed and handed
-- to the sender.
pub mod Order
use apminsight_server_sdk_go.Prelude.{
  ℕ, ◌+◌, List, [], ◌∷◌, ◌++◌, Option, none, some, Bytes, length, leb, ltb, ◌==◌, if◌then◌else◌,
}
use apminsight_server_sdk_go.Metrics.Format.{MetricItem, format_common}
use apminsight_server_sdk_go.Metrics.Client.{Message, Sender, send_packet}
use apminsight_server_sdk_go.Sendworker.Worker.{Net}

abbrev pub max_packet_size : ℕ
max_packet_size = 8192

-- The loop's variables. `sent` is the history of the packets, oldest first.
pub record PacketState : Type 0 where
  pub packet_buf : Bytes
  pub sender : Sender
  pub sent : List Bytes

-- `atomic.AddInt64(&mc.monitor.formatError, 1)`
pub count_format_error : PacketState → PacketState
count_format_error s =
    let m = s.sender.monitor in
    record s {
      sender = record (s.sender) { monitor = record m { format_error = m.format_error + 1 } };
    }

module _ (net : Net) (prefix : Bytes) where
  pub send : PacketState → Bytes → PacketState
  send s packet = record s {
    sender = send_packet net s.sender packet;
    sent = s.sent ++ packet ∷ [];
  }

  pub on_data : PacketState → Bytes → PacketState
  unfolding send
  on_data s bytes =
      if leb (length s.packet_buf + length bytes) max_packet_size
      then record s { packet_buf = s.packet_buf ++ bytes }
      else if ltb max_packet_size (length bytes)
      then send s bytes
      else record (send s s.packet_buf) { packet_buf = bytes }

  unfoldable pub format_item : MetricItem → Option Bytes
  format_item i = format_common i.mt prefix i.name i.value i.tags

  pub on_formatted : PacketState → Option Bytes → PacketState
  unfolding on_data count_format_error
  on_formatted s none = count_format_error s
  on_formatted s (some bytes) = on_data s bytes

  pub on_items : PacketState → List MetricItem → PacketState
  unfolding on_formatted
  on_items s [] = s
  on_items s (i ∷ items) = on_items (on_formatted s (format_item i)) items

  pub flush : PacketState → PacketState
  unfolding send
  flush s = if length s.packet_buf == 0 then s else record (send s s.packet_buf) { packet_buf = [] }

  pub on_message : PacketState → Message → PacketState
  unfolding on_items flush
  on_message s none = flush s
  on_message s (some items) = on_items s items

  pub run : PacketState → List Message → PacketState
  unfolding on_message
  run s [] = s
  run s (m ∷ messages) = run (on_message s m) messages

  -- The loop on the messages before dataBuf is closed, and the last packet.
  pub send_loop : Sender → List Message → PacketState
  unfolding run flush
  send_loop sender messages =
      flush (run (record { packet_buf = []; sender = sender; sent = [] }) messages)

  -- The items that could be formatted, in order, and the number of the others.
  unfoldable pub formatted : List MetricItem → List Bytes
  formatted [] = []
  formatted (i ∷ items) = elim (format_item i) [
    | none ↦ formatted items
    | some bytes ↦ bytes ∷ formatted items
  ]

  pub failed : List MetricItem → ℕ
  failed [] = 0
  failed (i ∷ items) = elim (format_item i) [ none ↦ failed items + 1 | some bytes ↦ failed items ]
