-- ===== src/Lib.antt =====
-- Verification of the APMInsight server SDK for Go.
--
-- The SDK traces a service: spans are started and finished, a trace whose spans have all finished is
-- collected, marshalled, batched and written to a local agent; metrics are queued, packed into
-- datagrams and sent; contexts travel between services in carriers. Paths are from the repository's
-- root. A []byte or string is a list of numbers below 256; an int, a size or a time is a natural
-- number where the code cannot make it negative, and an exact integer otherwise; conversions to
-- uint16, uint32 and int32 keep the low bits.
--
-- Prelude: shared names, lists measured by native numbers, little-endian words and Go's copy
-- (Prelude/Words), chains of Option (Prelude/Options), signed integers and strconv.Atoi
-- (Prelude/Int), package strings (Prelude/Strings).
--
-- Sendworker: trace/internal/sendworker. Encoder is encoder.go; Encoder/Frame says what a frame is
-- and how it is read. Worker is worker.go; the network is an oracle `Net` on the history of calls,
-- and Worker/Conn assumes, for the stream worker, that a write on a closed connection returns an
-- error other than "broken pipe". Interface makes both workers the `SendWorker` of the loop.
--
-- SendLoop: the loop of trace/aitracer/trace_sender/sender.go and, with the same text,
-- trace/aitracer/log_collector/collector.go, over any `SendWorker` (which may write into the slice
-- but keeps its length) and any `Item` (the generated Size and MarshalTo). What `select` receives is
-- a list of events. TraceSender sets the loop up, for traces and for logs.
--
-- Version: trace/internal/utils/get_agent_version.go, which decides between datagrams and a stream.
--
-- Metrics: metrics. Format is format.go, Client is the queue of metrics_client.go with sender.go and
-- monitor.go, Packets is sendLoop. A send on a full channel that would wait is `none`.
--
-- Sampler: trace/aitracer/trace_sampler, with the clock and the random numbers as arguments.
--
-- Propagation: trace/aitracer/propagation.go, Binary the binary carrier and Headers the HTTP headers,
-- a carrier being the list of its keys and values in the order in which Go ranges over the map; the
-- flags of interface.go; TraceParent and TraceState trace/aitracer/internal/w3c_helper.go. The
-- canonical form of a header's key and strconv.Itoa are arguments.
--
-- IdGenerator: trace/aitracer/id_generator, with the clock's text and the random words as arguments.
--
-- Tracing: trace/aitracer. Span is span.go, Sampling the decisions of startSpan in tracer.go, Emit
-- emitMetric, collect and emitTrace, Run the calls on one trace as a list of events, each call being
-- one step. The channel is shared with the other traces of the tracer. The receiver of a call on a
-- span is its place in the trace, and a call on a place that there is not does nothing.
--
-- Tracing/Context is GetSpanFromContext and startSpanFromContext, Tracing/Span/Reports and
-- Tracing/Run/Report what a trace would report of one span (its status, errors and integer tags) and
-- which calls change it; the integrations are stated with these.
--
-- Tracer: the rest of trace/aitracer/tracer.go. Config is TracerConfig and its options, Propagators
-- Extract and Inject over an argument for the type of carriers, Dynamic the two handlers of settings,
-- Logging Log, Lifecycle Start and Stop as the calls that they make. Dynamic uses the sampler of
-- Sampler, Logging the queue of TraceSender.
--
-- Contrib: trace/contrib/gin-gonic/gin/middleware.go (Gin) and trace/contrib/net/http/client.go
-- (HttpClient), which normalize paths with the same text (Path), and
-- trace/contrib/grpc/grpc-go/unaryinterceptor.go (Grpc). A request is a sequence of calls on a
-- trace: those that the integration makes before and after, and in between any events of Tracing/Run,
-- which stand for the handler or for the base round tripper. The maps of custom tags are lists in the
-- order in which Go ranges over them. Linked joins
-- HttpClient and Gin: what the client sends is what Extract finds in the headers of the server.
--
-- Register: trace/internal/service_register. Info is register_utils/infos.go on the texts of the
-- files that it reads, the register and its loop register.go; the loop is a list of ticks, each with
-- the state of the system then.
--
-- Profiler: trace/aiprofiler. Task is common/ and the three profileToTask of drivers/; Timed,
-- Continuous and Conditional are the drivers, a run being the sequence of calls of Handle and ticks of
-- the loop in Start; Manager is HandlerProfileTasks of manager/manager.go. What the channel of tasks
-- answers to a send that does not block, and the random ids, are an oracle `Env` on the attempts so
-- far. ResMonitor is res_monitor/res_monitor.go, Collect run and send of profiler.go, Upload the retries
-- of sender/sender.go. A map is a function, and the order in which Go ranges over it an argument of
-- each tick; float64 comparison and division are arguments, on bit patterns.
--
-- Settings: trace/internal/settings_fetcher/fetcher.go, over the generated Marshal and Unmarshal; the
-- answers of the HTTP client are the events.
--
-- Tags: trace/aitracer/tags/metric_tags.go. The order in which Go ranges over a map is a function that
-- permutes its keys.
--
-- RuntimeMonitor: trace/aitracer/runtime. What runtime.ReadMemStats reads is an argument of each run,
-- which gives the metrics to the client of Metrics; RuntimeMonitor/Pauses states what the ring of
-- pauses holds, as runtime.MemStats documents it.
--
-- Not modelled: the other integrations under trace/contrib, the collectors of
-- trace/aiprofiler/profile.go and the multipart body of an upload, the files of cgroups that
-- res_monitor reads, the tickers and goroutines themselves, loggers and globals. Generated code is a
-- parameter. Time differences are exact, except in the sampler, where they stop as Go's do.
pub mod Prelude
pub mod Contrib
pub mod IdGenerator
pub mod Metrics
pub mod Profiler
pub mod Propagation
pub mod Register
pub mod RuntimeMonitor
pub mod Sampler
pub mod SendLoop
pub mod Sendworker
pub mod Settings
pub mod Tags
pub mod TraceSender
pub mod Tracer
pub mod Tracing
pub mod Version
