-- ===== src/RuntimeMonitor/Names.antt =====
-- trace/aitracer/runtime/consts.go: the names of the metrics.
use apminsight_server_sdk_go.Prelude.{Bytes, codes}

abbrev pub metric_go_routine_num : Bytes
metric_go_routine_num = codes "apminsight.runtime.go.routine.num"

abbrev pub metric_cgo_call_count : Bytes
metric_cgo_call_count = codes "apminsight.runtime.go.cgo.call_count"

abbrev pub metric_gc_count : Bytes
metric_gc_count = codes "apminsight.runtime.go.gc.count"

abbrev pub metric_gc_cost_total : Bytes
metric_gc_cost_total = codes "apminsight.runtime.go.gc.cost_total.us"

abbrev pub metric_gc_cost_distribute : Bytes
metric_gc_cost_distribute = codes "apminsight.runtime.go.gc.cost_distribute.us"

abbrev pub metric_heap_alloc : Bytes
metric_heap_alloc = codes "apminsight.runtime.go.mem_stats.heap_alloc"

abbrev pub metric_heap_sys : Bytes
metric_heap_sys = codes "apminsight.runtime.go.mem_stats.heap_sys"

abbrev pub metric_heap_idle : Bytes
metric_heap_idle = codes "apminsight.runtime.go.mem_stats.heap_idle"

abbrev pub metric_heap_inuse : Bytes
metric_heap_inuse = codes "apminsight.runtime.go.mem_stats.heap_inuse"

abbrev pub metric_heap_released : Bytes
metric_heap_released = codes "apminsight.runtime.go.mem_stats.heap_released"

abbrev pub metric_heap_objets : Bytes
metric_heap_objets = codes "apminsight.runtime.go.mem_stats.heap_objects"

abbrev pub metric_lookups : Bytes
metric_lookups = codes "apminsight.runtime.go.mem_stats.lookups.count"

abbrev pub metric_stack_inuse : Bytes
metric_stack_inuse = codes "apminsight.runtime.go.mem_stats.stack_inuse"

abbrev pub metric_stack_sys : Bytes
metric_stack_sys = codes "apminsight.runtime.go.mem_stats.stack_sys"

abbrev pub metric_m_span_inuse : Bytes
metric_m_span_inuse = codes "apminsight.runtime.go.mem_stats.m_span_inuse"

abbrev pub metric_m_span_sys : Bytes
metric_m_span_sys = codes "apminsight.runtime.go.mem_stats.m_span_sys"

abbrev pub metric_m_cache_inuse : Bytes
metric_m_cache_inuse = codes "apminsight.runtime.go.mem_stats.m_cache_inuse"

abbrev pub metric_m_cache_sys : Bytes
metric_m_cache_sys = codes "apminsight.runtime.go.mem_stats.m_cache_sys"

abbrev pub metric_buck_hash_sys : Bytes
metric_buck_hash_sys = codes "apminsight.runtime.go.mem_stats.buck_hash_sys"

abbrev pub metric_gc_sys : Bytes
metric_gc_sys = codes "apminsight.runtime.go.mem_stats.gc_sys"

abbrev pub metric_other_sys : Bytes
metric_other_sys = codes "apminsight.runtime.go.mem_stats.other_sys"

abbrev pub metric_next_gc : Bytes
metric_next_gc = codes "apminsight.runtime.go.mem_stats.next_gc"

abbrev pub metric_num_forced_gc : Bytes
metric_num_forced_gc = codes "apminsight.runtime.go.mem_stats.forced_gc.num"

abbrev pub metric_gccpu_fraction : Bytes
metric_gccpu_fraction = codes "apminsight.runtime.go.mem_stats.gc_cpu_fraction"

abbrev pub metric_live_objects : Bytes
metric_live_objects = codes "apminsight.runtime.go.mem_stats.live_objects"

abbrev pub metric_heap_retained : Bytes
metric_heap_retained = codes "apminsight.runtime.go.mem_stats.heap_retained"

abbrev pub metric_heap_fragment : Bytes
metric_heap_fragment = codes "apminsight.runtime.go.mem_stats.heap_fragment"
