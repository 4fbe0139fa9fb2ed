-- ===== src/Tracer/Lifecycle.antt =====
-- Start and Stop of trace/aitracer/tracer.go, as the calls that they make on the parts that NewTracer
-- has made.
use apminsight_server_sdk_go.Prelude.{
  ℕ, zero, suc, Bool, true, false, List, [], ◌∷◌, ◌++◌, map, if◌then◌else◌,
}
use apminsight_server_sdk_go.Tracer.Config.{TracerConfig}

pub data Part : Type 0 where
  settings_fetcher : Part
  log_collector : Part
  id_generator : Part
  metrics_client : Part
  trace_sender : ℕ → Part
  service_register : Part
  runtime_monitor : Part

pub data Act : Type 0 where
  start_part : Part → Act
  stop_part : Part → Act
  close_trace_chan : Act

-- The senders in the order in which NewTracer appends them, the first having number 0.
unfoldable pub trace_senders : ℕ → List Part
trace_senders zero = []
trace_senders (suc n) = trace_senders n ++ trace_sender n ∷ []

abbrev when : Bool → Part → List Part
when b p = if b then p ∷ [] else []

module _ {ℓ} {C : Type ℓ} where
  -- The calls, and whether the method returns. Without a runtime monitor its Start is called on nil
  -- and panics, as it reads a field.
  unfoldable pub start : TracerConfig C → List Act × Bool
  start config = (
    map start_part (
        settings_fetcher
        ∷ (when config.enable_log_sender log_collector
            ++ (id_generator
                ∷ (when config.enable_metric metrics_client
                    ++ (trace_senders config.sender_number
                        ++ (service_register
                            ∷ when config.enable_runtime_metric runtime_monitor)))))),
    config.enable_runtime_metric,
  )

  unfoldable pub stop : TracerConfig C → List Act × Bool
  stop config =
      if config.enable_runtime_metric
      then (
        stop_part service_register
            ∷ (stop_part runtime_monitor
                ∷ (close_trace_chan
                    ∷ map stop_part (
                        trace_senders config.sender_number
                        ++ (when config.enable_metric metrics_client
                            ++ (when config.enable_log_sender log_collector
                                ++ settings_fetcher ∷ []))))),
        true,
      )
      else (stop_part service_register ∷ [], false)
