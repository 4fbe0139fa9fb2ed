-- ===== src/RuntimeMonitor/Runs.antt =====
-- What the runs of the monitor report together.
use apminsight_server_sdk_go.Prelude.{
  ℕ, ◌+◌, ◌-◌, ◌≤◌, ◌<◌, ◌≡◌, refl, ap, ◌∙◌, List, [], ◌∷◌, ◌++◌, append-nil, map, Option, none,
  some, arith, ◌==◌, if◌then◌else◌, Bool-cases, inl, inr,
}
use apminsight_server_sdk_go.Metrics.Format.{Tag, MetricItem, mt_timer}
use apminsight_server_sdk_go.Metrics.Client.{MetricsClient, emit_metric}
use apminsight_server_sdk_go.RuntimeMonitor.{
  Stats, Floats, get_gc_pauses_ns, pause_timer, first_metrics, last_metrics, metrics_of, emit_each,
  Monitor, previous, run,
}
use apminsight_server_sdk_go.RuntimeMonitor.Pauses.{
  pauses_from, pauses_from-append, IsRing, get_gc_pauses_ns-pauses,
}

-- The values of the timers.
abbrev pub timers : List MetricItem → List ℕ
timers [] = []
timers (m ∷ ms) = if m.mt == mt_timer then m.value ∷ timers ms else timers ms

timers-append : (ms ns : List MetricItem) → timers (ms ++ ns) ≡ timers ms ++ timers ns
timers-append [] ns = refl
timers-append (m ∷ ms) ns = elim (Bool-cases (m.mt == mt_timer)) [
  | inl e ↦ rw (e, timers-append ms ns) refl
  | inr e ↦ rw (e, timers-append ms ns) refl
]

-- A history of readings after `n` collections: every reading has the ring of runtime.MemStats, and
-- fewer than 256 collections lie between two readings.
abbrev pub IsHistory : (ℕ → ℕ) → ℕ → List Stats → Type 0
IsHistory pause n [] = Unit
IsHistory pause n (cur ∷ rest) =
    IsRing pause cur.num_gc cur.pause_ns
    × (n ≤ cur.num_gc)
    × (cur.num_gc < n + 256)
    × IsHistory pause cur.num_gc rest

abbrev pub last_num_gc : ℕ → List Stats → ℕ
last_num_gc n [] = n
last_num_gc n (cur ∷ rest) = last_num_gc cur.num_gc rest

last_num_gc-bound :
    (pause : ℕ → ℕ) (n : ℕ) (stats : List Stats) → IsHistory pause n stats → n ≤ last_num_gc n stats
last_num_gc-bound pause n [] h = omega arith
last_num_gc-bound pause n (cur ∷ rest) h =
    omega (arith, h.1, last_num_gc-bound pause cur.num_gc rest h.3)

module _ (floats : Floats) where
  abbrev pub reported : ℕ → ℕ
  reported ns = floats.div_1000 (floats.of_uint64 ns)

  timers-pauses :
      (tags : List Tag) (ps : List ℕ) → timers (map (pause_timer floats tags) ps) ≡ map reported ps
  timers-pauses tags [] = refl
  timers-pauses tags (p ∷ ps) = rw (timers-pauses tags ps) refl

  timers-metrics_of :
      (tags : List Tag) (pre cur : Stats)
      → timers (metrics_of floats tags pre cur)
        ≡ map reported (get_gc_pauses_ns cur.pause_ns pre.num_gc cur.num_gc)
  unfolding metrics_of first_metrics last_metrics
  timers-metrics_of tags pre cur =
      timers-append
        (map (pause_timer floats tags) (get_gc_pauses_ns cur.pause_ns pre.num_gc cur.num_gc))
        (last_metrics floats tags pre cur)
      ∙ rw timers-pauses (append-nil _)

  -- The metrics of the runs, one after the other.
  abbrev pub emissions : List Tag → Option Stats → List Stats → List MetricItem
  emissions tags pre [] = []
  emissions tags pre (cur ∷ rest) =
      metrics_of floats tags (previous pre) cur ++ emissions tags (some cur) rest

  abbrev pub run_each : Monitor → List Stats → Monitor
  run_each r [] = r
  run_each r (cur ∷ rest) = run_each (run floats r cur) rest

  emit_each-append :
      (mc : MetricsClient) (ms ns : List MetricItem)
      → emit_each mc (ms ++ ns) ≡ emit_each (emit_each mc ms) ns
  unfolding emit_each
  emit_each-append mc [] ns = refl
  emit_each-append mc (m ∷ ms) ns =
      emit_each-append (emit_metric mc m.mt m.name m.value m.tags) ms ns

  run_each-client :
      (r : Monitor) (stats : List Stats)
      → (run_each r stats).metrics_client
        ≡ emit_each r.metrics_client (emissions r.tags r.pre_stats stats)
  unfolding run
  run_each-client r [] = unfold emit_each in refl
  run_each-client r (cur ∷ rest) = rw emit_each-append (run_each-client (run floats r cur) rest)

  map_distributes : (f : ℕ → ℕ) (xs ys : List ℕ) → map f (xs ++ ys) ≡ map f xs ++ map f ys
  map_distributes f [] ys = refl
  map_distributes f (x ∷ xs) ys = rw (map_distributes f xs ys) refl

  -- The pauses up to one reading, then those up to a later one.
  pauses_split :
      (pause : ℕ → ℕ) (n m l : ℕ)
      → n ≤ m
      → m ≤ l
      → map reported (pauses_from pause n (m - n)) ++ map reported (pauses_from pause m (l - m))
        ≡ map reported (pauses_from pause n (l - n))
  pauses_split pause n m l h k =
      let start : pauses_from pause m (l - m) ≡ pauses_from pause (n + (m - n)) (l - m) =
        ap (λ i. pauses_from pause i (l - m)) (omega arith) in
      let total : m - n + (l - m) ≡ l - n = omega arith in
      rw (start, ← map_distributes, pauses_from-append, total) refl

  timers-emissions :
      (pause : ℕ → ℕ) (tags : List Tag) (pre : Option Stats) (n : ℕ) (stats : List Stats)
      → (previous pre).num_gc ≡ n
      → IsHistory pause n stats
      → timers (emissions tags pre stats)
        ≡ map reported (pauses_from pause n (last_num_gc n stats - n))
  unfolding previous
  timers-emissions pause tags pre n [] e h = let z : n - n ≡ 0 = omega arith in rw z refl
  timers-emissions pause tags pre n (cur ∷ rest) e h =
      rw
        (
          timers-append,
          timers-metrics_of,
          e,
          get_gc_pauses_ns-pauses pause cur.pause_ns n cur.num_gc h.0 h.1 h.2,
          timers-emissions pause tags (some cur) cur.num_gc rest refl h.3,
        )
        (pauses_split pause n cur.num_gc (last_num_gc cur.num_gc rest) h.1
          (last_num_gc-bound pause cur.num_gc rest h.3))

  -- From its first run on, the monitor hands its client the metrics of each run, and among all of
  -- them the timers are the pauses of all collections up to the last reading: each pause once and
  -- in order, in microseconds, if the rings are those of runtime.MemStats and there are fewer
  -- than 256 collections between two readings and before the first.
  pub run_each-pauses :
      (pause : ℕ → ℕ) (mc : MetricsClient) (tags : List Tag) (stats : List Stats)
      → IsHistory pause 0 stats
      → ((run_each
            (record { metrics_client = mc; tags = tags; pre_stats = none })
            stats).metrics_client
          ≡ emit_each mc (emissions tags none stats))
        × (timers (emissions tags none stats)
            ≡ map reported (pauses_from pause 0 (last_num_gc 0 stats)))
  unfolding previous
  run_each-pauses pause mc tags stats h =
      let whole : last_num_gc 0 stats - 0 ≡ last_num_gc 0 stats = omega arith in
      (
        run_each-client (record { metrics_client = mc; tags = tags; pre_stats = none }) stats,
        rw whole at (timers-emissions pause tags none 0 stats refl h),
      )
