-- ===== src/Metrics/Tests.antt =====
-- One metric on its way from the caller to a packet.
use apminsight_server_sdk_go.Prelude.{
  ◌+◌, ◌≤◌, ◌<◌, ◌≡◌, ◌⊎◌, refl, true, List, [], ◌∷◌, ◌++◌, none, some, arith, Bytes, codes, length,
  concat, put_u64, put_u32, All, replicate,
}
use apminsight_server_sdk_go.Metrics.Format.{
  Tag, MetricItem, mt_counter, format_common, write_name, write_string, write_tags, write_all,
  write_float64,
}
use apminsight_server_sdk_go.Metrics.Format.RoundTrip.{
  read_item, full_name, read_item-format_common,
}
use apminsight_server_sdk_go.Metrics.Client.{
  Message, Monitor, MetricsClient, Sender, batch_size, async_channel_size, emit_metric, batch_flush,
  put, put_flush,
}
use apminsight_server_sdk_go.Metrics.Client.Queue.{queued, waiting, IsValid, emit_metric-waiting}
use apminsight_server_sdk_go.Metrics.Packets.{send_loop, formatted, format_item, max_packet_size}
use apminsight_server_sdk_go.Metrics.Packets.Order.{send_loop-packs}
use apminsight_server_sdk_go.Sendworker.Worker.{Net}

abbrev tag : Tag
tag = record { key = codes "k"; value = codes "v" }

abbrev wire : Bytes
wire = 1 ∷ 3 ∷ 112 ∷ 46 ∷ 110 ∷ 5 ∷ 0 ∷ 0 ∷ 0 ∷ 0 ∷ 0 ∷ 0 ∷ 0 ∷ 1 ∷ 1 ∷ 107 ∷ 1 ∷ 118 ∷ []

formatted_bytes : format_common mt_counter (codes "p") (codes "n") 5 (tag ∷ []) ≡ some wire
unfolding format_common write_name write_string write_tags write_all write_float64 put_u64 put_u32
formatted_bytes = refl

read_item-format_common_example :
    read_item (wire ++ 9 ∷ [])
    ≡ some (mt_counter, full_name (codes "p") (codes "n"), 5, tag ∷ [], 9 ∷ [])
read_item-format_common_example =
    read_item-format_common mt_counter (codes "p") (codes "n") 5 (tag ∷ []) (9 ∷ []) wire
      (omega arith) formatted_bytes

abbrev no_errors : Monitor
no_errors = record {
  metric_buffer_full = 0;
  sender_dial_error = 0;
  sender_write_error = 0;
  format_error = 0;
}

abbrev metric : MetricItem
metric = record { mt = mt_counter; name = codes "n"; value = 5; tags = tag ∷ [] }

abbrev client : MetricsClient
client = record { monitor = no_errors; data_buf = none ∷ []; batch_buf = metric ∷ [] }

client-IsValid : IsValid client
client-IsValid = record { batch_in = omega arith; channel_in = omega arith }

-- The batch lacks one metric, and the channel is full.
abbrev crowded : MetricsClient
crowded = record {
  monitor = no_errors;
  data_buf = replicate 1000 none;
  batch_buf = replicate 999 metric;
}

crowded-IsValid : IsValid crowded
crowded-IsValid = record { batch_in = omega arith; channel_in = omega arith }

emit_metric-waiting_example :
    IsValid (emit_metric crowded mt_counter (codes "m") 7 [])
    × ((waiting (emit_metric crowded mt_counter (codes "m") 7 [])
          ≡ waiting crowded
            ++ record { mt = mt_counter; name = codes "m"; value = 7; tags = [] } ∷ [])
        ⊎ ((length crowded.data_buf ≡ async_channel_size)
            × (length crowded.batch_buf + 1 ≡ batch_size)
            × (waiting (emit_metric crowded mt_counter (codes "m") 7 []) ≡ queued crowded.data_buf)
            × ((emit_metric crowded mt_counter (codes "m") 7 []).monitor.metric_buffer_full
                ≡ 0 + 1)))
emit_metric-waiting_example =
    emit_metric-waiting crowded mt_counter (codes "m") 7 [] crowded-IsValid

abbrev flushed : MetricsClient
flushed = record {
  monitor = no_errors;
  data_buf = none ∷ some (metric ∷ []) ∷ none ∷ [];
  batch_buf = [];
}

flush_value : batch_flush client ≡ some flushed
unfolding batch_flush put put_flush
flush_value = refl

abbrev net : Net
net = record { dials = λ calls. true; writes = λ calls c payload. none }

abbrev sender : Sender
sender = record { conn = none; calls = []; monitor = no_errors }

abbrev messages : List Message
messages = some (metric ∷ metric ∷ []) ∷ none ∷ some (metric ∷ []) ∷ []

short_items : All (λ d. length d ≤ max_packet_size) (formatted net (codes "p") (queued messages))
unfolding formatted format_item format_common write_name write_string write_tags write_all
    write_float64 put_u64 put_u32
short_items = (omega arith, (omega arith, (omega arith, tt)))

send_loop-packs_example :
    (concat (send_loop net (codes "p") sender messages).sent
      ≡ concat (formatted net (codes "p") (queued messages)))
    × All
        (λ d. (0 < length d) × (length d ≤ max_packet_size))
        (send_loop net (codes "p") sender messages).sent
send_loop-packs_example = send_loop-packs net (codes "p") sender messages short_items
