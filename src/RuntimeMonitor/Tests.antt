-- ===== src/RuntimeMonitor/Tests.antt =====
-- Runs of the monitor at concrete readings.
use apminsight_server_sdk_go.Prelude.{
  ℕ, zero, suc, ◌-◌, ◌%◌, ◌^◌, ◌<◌, ◌≡◌, refl, List, [], ◌∷◌, none, some, arith, get_elem?,
  replicate, length-replicate,
}
use apminsight_server_sdk_go.Metrics.Client.{MetricsClient}
use apminsight_server_sdk_go.RuntimeMonitor.{
  Stats, no_stats, Floats, get_gc_pauses_ns, emit_each, sub_u32, sub_u64,
}
use apminsight_server_sdk_go.RuntimeMonitor.Pauses.{IsRing}
use apminsight_server_sdk_go.RuntimeMonitor.Runs.{timers, emissions, run_each, run_each-pauses}

-- The newest pauses are 4 and 5, on both sides of the end of the ring.
wrapped_ring : get_gc_pauses_ns (5 ∷ 2 ∷ 3 ∷ 4 ∷ []) 3 5 ≡ 4 ∷ 5 ∷ []
unfolding get_gc_pauses_ns
wrapped_ring = refl

-- Every entry is reported when more collections have passed than the ring holds.
overrun_ring : get_gc_pauses_ns (5 ∷ 2 ∷ 3 ∷ 4 ∷ []) 1 6 ≡ 5 ∷ 2 ∷ 3 ∷ 4 ∷ []
unfolding get_gc_pauses_ns
overrun_ring = refl

-- The unsigned differences wrap around.
differences : (sub_u32 3 1 ≡ 2) × (sub_u32 1 3 ≡ 2 ^ 32 - 2) × (sub_u64 1 2 ≡ 2 ^ 64 - 1)
unfolding sub_u32 sub_u64
differences = (refl, refl, refl)

abbrev whole_numbers : Floats
whole_numbers = record { of_int64 = λ z. 0; of_uint64 = λ n. n; div_1000 = λ n. n }

abbrev reading : ℕ → Stats
reading n = record no_stats { num_gc = n; pause_ns = replicate 256 5 }

get_elem?-replicate : (n i : ℕ) → i < n → get_elem? {A = ℕ} (replicate n 5) i ≡ some 5
get_elem?-replicate zero i h = absurd (omega arith)
get_elem?-replicate (suc n) zero h = refl
get_elem?-replicate (suc n) (suc i) h = get_elem?-replicate n i (omega arith)

reading-IsRing : (n : ℕ) → IsRing (λ k. 5) n (replicate 256 5)
reading-IsRing n = record {
  size = length-replicate {A = ℕ} 256 5;
  entry = λ k h l. get_elem?-replicate 256 (k % 256) (omega arith);
}

abbrev client : MetricsClient
client = record {
  monitor = record {
    metric_buffer_full = 0;
    sender_dial_error = 0;
    sender_write_error = 0;
    format_error = 0;
  };
  data_buf = [];
  batch_buf = [];
}

abbrev readings : List Stats
readings = reading 2 ∷ reading 3 ∷ []

run_each-pauses_example :
    ((run_each whole_numbers
        (record { metrics_client = client; tags = []; pre_stats = none })
        readings).metrics_client
      ≡ emit_each client (emissions whole_numbers [] none readings))
    × (timers (emissions whole_numbers [] none readings) ≡ 5 ∷ 5 ∷ 5 ∷ [])
run_each-pauses_example =
    run_each-pauses whole_numbers (λ k. 5) client [] readings
      (reading-IsRing 2, omega arith, omega arith, (reading-IsRing 3, omega arith, omega arith, tt))
