-- ===== src/Tracer/Logging.antt =====
-- Log of trace/aitracer/tracer.go. A time.Time is its nanoseconds since an epoch.
use apminsight_server_sdk_go.Prelude.{
  ℕ, ◌/◌, Bool, not, List, [], Option, none, some, Bytes, get_elem?, if◌then◌else◌,
}
use apminsight_server_sdk_go.Tracing.Span.{Span}
use apminsight_server_sdk_go.Tracing.Emit.{Setup, should_emit}
use apminsight_server_sdk_go.Tracing.Run.{World}
use apminsight_server_sdk_go.Tracing.Context.{Context, get_span_from_context}
use apminsight_server_sdk_go.TraceSender.{log_send}

pub record LogData : Type 0 where
  pub message : Bytes
  pub timestamp : ℕ
  pub file_name : Bytes
  pub file_line : ℕ
  pub log_level : Bytes
  pub log_source : Bytes

-- log_models.Log; the time is in milliseconds.
pub record LogItem : Type 0 where
  pub trace_id : Bytes
  pub level : Bytes
  pub file : Bytes
  pub line : ℕ
  pub item_source : Bytes
  pub time : ℕ
  pub text : Bytes
  pub service : Bytes
  pub container_id : Bytes

-- shouldEmit of a span that may be nil.
unfoldable pub should_emit_span : Setup → Option Span → Bool
should_emit_span u none = not u.emit_control
should_emit_span u (some s) = should_emit u s

unfoldable pub log_item : Setup → World → Option Span → LogData → LogItem
log_item u w span d = record {
  trace_id = elim span [ none ↦ [] | some s ↦ w.ctx.trace_id ];
  level = d.log_level;
  file = d.file_name;
  line = d.file_line;
  item_source = d.log_source;
  time = d.timestamp / 1000000;
  text = d.message;
  service = u.service;
  container_id = u.container_id;
}

-- The queue of the log collector afterwards. `chan_size` is that of the collector, if there is one.
unfoldable pub log :
    Setup
    → Option ℕ
    → Option (Context → Option Context)
    → Option Context
    → World
    → LogData
    → List LogItem
    → List LogItem
log u none adapter ctx w d queue = queue
log u (some chan_size) adapter ctx w d queue =
    let span : Option Span = elim (get_span_from_context adapter ctx) [
      | none ↦ none
      | some i ↦ get_elem? w.ctx.spans i
    ] in
    if should_emit_span u span then log_send chan_size queue (log_item u w span d) else queue
