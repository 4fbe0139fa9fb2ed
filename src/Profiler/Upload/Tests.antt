-- ===== src/Profiler/Upload/Tests.antt =====
-- Uploads to a collector that is down at first.
use apminsight_server_sdk_go.Prelude.{ℕ, ◌≡◌, refl, true, false, [], ◌∷◌, ltb, if◌then◌else◌}
use apminsight_server_sdk_go.Prelude.Int.{pos}
use apminsight_server_sdk_go.Profiler.Upload.{
  Reply, http_fail, answer, Library, HttpSender, get_stop_duration, send_request, sleep, send_from,
  upload,
}
use apminsight_server_sdk_go.Profiler.Upload.Retries.{EndsRight, upload-ends}

abbrev library : Library
library = record { parse_int = λ text. pos 0; minutes = λ n. n }

abbrev sender : HttpSender
sender = record { backoff_interval = pos 60; retry_count = 2 }

-- Down for two requests, and for good.
abbrev slow : ℕ → Reply
slow n = if ltb n 2 then http_fail else answer []

abbrev gone : ℕ → Reply
gone n = http_fail

upload-ends_example : EndsRight library sender slow 0 3 (upload library sender slow)
upload-ends_example = upload-ends library sender slow

upload_values :
    (upload library sender slow
      ≡ record { requests = 3; sleeps = pos 60 ∷ pos 60 ∷ []; answered = true })
    × (upload library sender gone
        ≡ record { requests = 3; sleeps = pos 60 ∷ pos 60 ∷ pos 60 ∷ []; answered = false })
unfolding upload send_from sleep send_request get_stop_duration
upload_values = (refl, refl)
