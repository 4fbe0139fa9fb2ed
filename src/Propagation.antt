-- ===== src/Propagation.antt =====
-- trace/aitracer/propagation.go and the sample strategies and flags of trace/aitracer/interface.go.
pub mod Binary
pub mod TraceParent
pub mod TraceState
pub mod Headers
mod Tests
use apminsight_server_sdk_go.Prelude.{Bool, List, Bytes, codes, ◌==◌, if◌then◌else◌}
use apminsight_server_sdk_go.Prelude.Int.{ℤ, ltb_ℤ, pos, negsuc}

pub data SampleStrategy : Type 0 where
  unknown : SampleStrategy
  not_sampled : SampleStrategy
  sampled : SampleStrategy

pub data SampleFlags : Type 0 where
  flags_unknown : SampleFlags
  flags_not_sampled : SampleFlags
  flags_client_sampled : SampleFlags
  flags_server_sampled : SampleFlags
  flags_client_and_server_sampled : SampleFlags

-- `int32(flags)`, and the integers that the constants name.
unfoldable pub flags_int32 : SampleFlags → ℤ
flags_int32 flags_unknown = negsuc 0
flags_int32 flags_not_sampled = pos 0
flags_int32 flags_client_sampled = pos 1
flags_int32 flags_server_sampled = pos 2
flags_int32 flags_client_and_server_sampled = pos 3

pub sample_flags_from_int32 : ℤ → SampleFlags
sample_flags_from_int32 (negsuc n) = flags_unknown
sample_flags_from_int32 (pos n) =
    if n == 0
    then flags_not_sampled
    else if n == 1
    then flags_client_sampled
    else if n == 2
    then flags_server_sampled
    else if n == 3
    then flags_client_and_server_sampled
    else flags_unknown

pub flags_to_string : SampleFlags → Bytes
flags_to_string flags_not_sampled = codes "0"
flags_to_string flags_client_sampled = codes "1"
flags_to_string flags_server_sampled = codes "2"
flags_to_string flags_client_and_server_sampled = codes "3"
flags_to_string flags_unknown = codes "-1"

-- `Sampled`
unfoldable pub flags_sampled : SampleFlags → Bool
unfolding flags_int32
flags_sampled f = ltb_ℤ (pos 0) (flags_int32 f)

-- What the methods of a SpanContext answer. `baggage` is in the order in which Go ranges over it.
pub record SpanContext : Type 0 where
  pub trace_id : Bytes
  pub span_id : Bytes
  pub strategy : SampleStrategy
  pub weight : ℤ
  pub client_sampled : Bool
  pub flags : SampleFlags
  pub baggage : List (Bytes × Bytes)
