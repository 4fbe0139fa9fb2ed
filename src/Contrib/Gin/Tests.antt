-- ===== src/Contrib/Gin/Tests.antt =====
-- A request that panics, while a child span is left running.
use apminsight_server_sdk_go.Prelude.{◌≡◌, refl, true, false, List, [], ◌∷◌, none, some, codes}
use apminsight_server_sdk_go.Tracing.Span.{client_span_type}
use apminsight_server_sdk_go.Tracing.Emit.{Setup}
use apminsight_server_sdk_go.Tracing.Run.{World, StartSpanConfig, start_event, receive_event}
use apminsight_server_sdk_go.Tracing.Run.Report.{report_at}
use apminsight_server_sdk_go.Contrib.Path.{default_path_normalizer, write_segment}
use apminsight_server_sdk_go.Contrib.Gin.{
  GinContext, Config, Arrival, Handling, new_default_config, config_of, ignores,
  with_tags_extractor, with_ignore_request, resource_name, middleware,
}
use apminsight_server_sdk_go.Contrib.Gin.Reported.{reported, middleware-reports}

abbrev setup : Setup
setup = record {
  service_type = codes "http";
  service = codes "shop";
  container_id = [];
  instance_id = [];
  server_tag_keys = [];
  client_tag_keys = [];
  with_metrics = false;
  emit_control = false;
  slow_query = none;
  chan_size = 4;
  format_int = λ n. codes "0";
  widen = λ bits. bits;
}

abbrev request : GinContext
request = record {
  full_path = [];
  method = codes "GET";
  url = some (record { scheme = codes "http"; host = codes "shop"; path = codes "/item/17" });
}

abbrev arrival : Arrival
arrival = record {
  trace_id = codes "t";
  span_id = codes "a";
  start_time = 5;
  answer = (true, 1);
  chan = [];
  chain = none;
}

abbrev query : StartSpanConfig
query = record {
  name = codes "query";
  span_type = client_span_type;
  server_resource = [];
  client_service_type = codes "mysql";
  client_service = [];
  client_resource = [];
}

abbrev handling : Handling setup
handling = record {
  events = start_event 0 query 6 (codes "b") (true, 1) ∷ receive_event ∷ [];
  panic = some (codes "oops");
  writer_status = 200;
  errors = codes "late" ∷ [];
  end_time = 9;
}

abbrev options : List (Config → Config)
options =
    with_tags_extractor (some (λ c. (codes "user", codes "7") ∷ [])) ∷ with_ignore_request none ∷ []

taken : ignores (config_of options new_default_config) request ≡ false
unfolding ignores config_of with_tags_extractor with_ignore_request
taken = refl

middleware-reports_example :
    (w : World) × (middleware setup options request arrival handling ≡ some w)
    × (report_at 0 w.ctx.spans ≡ some (reported setup handling))
middleware-reports_example =
    middleware-reports setup options request arrival handling taken (tt, (tt, tt))

named : resource_name new_default_config request ≡ codes "/item/?"
unfolding resource_name default_path_normalizer write_segment
named = refl
