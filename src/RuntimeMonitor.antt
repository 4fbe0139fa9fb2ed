-- ===== src/RuntimeMonitor.antt =====
-- trace/aitracer/runtime/runtime.go: the metrics of the Go runtime, and the pauses of its garbage
-- collector.
mod Names
pub mod Pauses
pub mod Runs
mod Tests
use apminsight_server_sdk_go.Prelude.{
  ℕ, ◌+◌, ◌-◌, ◌%◌, ◌^◌, Bool, true, false, List, [], ◌∷◌, ◌++◌, map, Option, none, some, Bytes,
  length, take, drop, leb, ltb, if◌then◌else◌,
}
use apminsight_server_sdk_go.Prelude.Int.{ℤ, pos, negsuc}
use apminsight_server_sdk_go.Metrics.Format.{Tag, MetricItem, mt_counter, mt_timer, mt_gauge}
use apminsight_server_sdk_go.Metrics.Client.{MetricsClient, emit_metric}
use apminsight_server_sdk_go.RuntimeMonitor.Names.{
  metric_go_routine_num, metric_cgo_call_count, metric_gc_count, metric_gc_cost_total,
  metric_gc_cost_distribute, metric_heap_alloc, metric_heap_sys, metric_heap_idle,
  metric_heap_inuse, metric_heap_released, metric_heap_objets, metric_lookups, metric_stack_inuse,
  metric_stack_sys, metric_m_span_inuse, metric_m_span_sys, metric_m_cache_inuse,
  metric_m_cache_sys, metric_buck_hash_sys, metric_gc_sys, metric_other_sys, metric_next_gc,
  metric_num_forced_gc, metric_gccpu_fraction, metric_live_objects, metric_heap_retained,
  metric_heap_fragment,
}

-- `stats`: the numbers of goroutines and cgo calls, and the fields of runtime.MemStats that are read.
pub record Stats : Type 0 where
  pub go_routine : ℕ
  pub cgo_call : ℕ
  pub pause_ns : List ℕ
  pub num_gc : ℕ
  pub pause_total_ns : ℕ
  pub heap_alloc : ℕ
  pub heap_sys : ℕ
  pub heap_idle : ℕ
  pub heap_inuse : ℕ
  pub heap_released : ℕ
  pub heap_objects : ℕ
  pub lookups : ℕ
  pub stack_inuse : ℕ
  pub stack_sys : ℕ
  pub m_span_inuse : ℕ
  pub m_span_sys : ℕ
  pub m_cache_inuse : ℕ
  pub m_cache_sys : ℕ
  pub buck_hash_sys : ℕ
  pub gc_sys : ℕ
  pub other_sys : ℕ
  pub next_gc : ℕ
  pub num_forced_gc : ℕ
  pub gc_cpu_fraction : ℕ
  pub mallocs : ℕ
  pub frees : ℕ
  pub alloc : ℕ

-- The stats before the first run.
abbrev pub no_stats : Stats
no_stats = record {
  go_routine = 0;
  cgo_call = 0;
  pause_ns = [];
  num_gc = 0;
  pause_total_ns = 0;
  heap_alloc = 0;
  heap_sys = 0;
  heap_idle = 0;
  heap_inuse = 0;
  heap_released = 0;
  heap_objects = 0;
  lookups = 0;
  stack_inuse = 0;
  stack_sys = 0;
  m_span_inuse = 0;
  m_span_sys = 0;
  m_cache_inuse = 0;
  m_cache_sys = 0;
  buck_hash_sys = 0;
  gc_sys = 0;
  other_sys = 0;
  next_gc = 0;
  num_forced_gc = 0;
  gc_cpu_fraction = 0;
  mallocs = 0;
  frees = 0;
  alloc = 0;
}

-- float64(x), and the division of a float64 by 1000, on bit patterns
pub record Floats : Type 0 where
  pub of_int64 : ℤ → ℕ
  pub of_uint64 : ℕ → ℕ
  pub div_1000 : ℕ → ℕ

-- Go's differences of an int64, neither being negative, of a uint32 and of a uint64.
unfoldable pub sub_i64 : ℕ → ℕ → ℤ
sub_i64 a b = if leb b a then pos (a - b) else negsuc (b - a - 1)

unfoldable pub sub_u32 : ℕ → ℕ → ℕ
sub_u32 a b = (a + 2 ^ 32 - b) % 2 ^ 32

unfoldable pub sub_u64 : ℕ → ℕ → ℕ
sub_u64 a b = (a + 2 ^ 64 - b) % 2 ^ 64

unfoldable pub get_gc_pauses_ns : List ℕ → ℕ → ℕ → List ℕ
get_gc_pauses_ns pause_ns pre_num_gc cur_num_gc =
    if leb cur_num_gc pre_num_gc
    then []
    else if leb (length pause_ns) (cur_num_gc - pre_num_gc)
    then pause_ns
    else let i = pre_num_gc % length pause_ns in
      let j = cur_num_gc % length pause_ns in
      if ltb j i then drop i pause_ns ++ take j pause_ns else drop i (take j pause_ns)

abbrev pub counter : List Tag → Bytes → ℕ → MetricItem
counter tags name value = record { mt = mt_counter; name = name; value = value; tags = tags }

abbrev pub gauge : List Tag → Bytes → ℕ → MetricItem
gauge tags name value = record { mt = mt_gauge; name = name; value = value; tags = tags }

module _ (floats : Floats) where
  abbrev pub pause_timer : List Tag → ℕ → MetricItem
  pause_timer tags ns = record {
    mt = mt_timer;
    name = metric_gc_cost_distribute;
    value = floats.div_1000 (floats.of_uint64 ns);
    tags = tags;
  }

  -- The metrics before the pauses, and those behind them.
  unfoldable pub first_metrics : List Tag → Stats → Stats → List MetricItem
  first_metrics tags pre cur =
      gauge tags metric_go_routine_num (floats.of_int64 (pos cur.go_routine))
      ∷ counter tags metric_cgo_call_count (floats.of_int64 (sub_i64 cur.cgo_call pre.cgo_call))
      ∷ counter tags metric_gc_count (floats.of_uint64 (sub_u32 cur.num_gc pre.num_gc))
      ∷ counter tags metric_gc_cost_total
          (floats.div_1000 (floats.of_uint64 (sub_u64 cur.pause_total_ns pre.pause_total_ns)))
      ∷ []

  unfoldable pub last_metrics : List Tag → Stats → Stats → List MetricItem
  last_metrics tags pre cur =
      gauge tags metric_heap_alloc (floats.of_uint64 cur.heap_alloc)
      ∷ gauge tags metric_heap_sys (floats.of_uint64 cur.heap_sys)
      ∷ gauge tags metric_heap_idle (floats.of_uint64 cur.heap_idle)
      ∷ gauge tags metric_heap_inuse (floats.of_uint64 cur.heap_inuse)
      ∷ gauge tags metric_heap_released (floats.of_uint64 cur.heap_released)
      ∷ gauge tags metric_heap_objets (floats.of_uint64 cur.heap_objects)
      ∷ counter tags metric_lookups (floats.of_uint64 (sub_u64 cur.lookups pre.lookups))
      ∷ gauge tags metric_stack_inuse (floats.of_uint64 cur.stack_inuse)
      ∷ gauge tags metric_stack_sys (floats.of_uint64 cur.stack_sys)
      ∷ gauge tags metric_m_span_inuse (floats.of_uint64 cur.m_span_inuse)
      ∷ gauge tags metric_m_span_sys (floats.of_uint64 cur.m_span_sys)
      ∷ gauge tags metric_m_cache_inuse (floats.of_uint64 cur.m_cache_inuse)
      ∷ gauge tags metric_m_cache_sys (floats.of_uint64 cur.m_cache_sys)
      ∷ gauge tags metric_buck_hash_sys (floats.of_uint64 cur.buck_hash_sys)
      ∷ gauge tags metric_gc_sys (floats.of_uint64 cur.gc_sys)
      ∷ gauge tags metric_other_sys (floats.of_uint64 cur.other_sys)
      ∷ gauge tags metric_next_gc (floats.of_uint64 cur.next_gc)
      ∷ counter tags metric_num_forced_gc
          (floats.of_uint64 (sub_u32 cur.num_forced_gc pre.num_forced_gc))
      ∷ gauge tags metric_gccpu_fraction cur.gc_cpu_fraction
      ∷ gauge tags metric_live_objects (floats.of_uint64 (sub_u64 cur.mallocs cur.frees))
      ∷ gauge tags metric_heap_retained (floats.of_uint64 (sub_u64 cur.heap_idle cur.heap_released))
      ∷ gauge tags metric_heap_fragment (floats.of_uint64 (sub_u64 cur.heap_inuse cur.alloc))
      ∷ []

  -- What run emits, in its order.
  unfoldable pub metrics_of : List Tag → Stats → Stats → List MetricItem
  metrics_of tags pre cur =
      first_metrics tags pre cur
      ++ (map (pause_timer tags) (get_gc_pauses_ns cur.pause_ns pre.num_gc cur.num_gc)
          ++ last_metrics tags pre cur)

-- EmitGauge, EmitCounter and EmitTimer, one after the other.
unfoldable pub emit_each : MetricsClient → List MetricItem → MetricsClient
emit_each mc [] = mc
emit_each mc (m ∷ ms) = emit_each (emit_metric mc m.mt m.name m.value m.tags) ms

pub record Monitor : Type 0 where
  pub metrics_client : MetricsClient
  pub tags : List Tag
  pub pre_stats : Option Stats

unfoldable pub previous : Option Stats → Stats
previous none = no_stats
previous (some pre) = pre

unfoldable pub run : Floats → Monitor → Stats → Monitor
run floats r cur = record {
  metrics_client = emit_each r.metrics_client (metrics_of floats r.tags (previous r.pre_stats) cur);
  tags = r.tags;
  pre_stats = some cur;
}
