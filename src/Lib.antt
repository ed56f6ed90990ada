-- ===== src/Lib.antt =====
-- The Postman Insights agent (observability-cli): the collectors that captured traffic passes through,
-- with the TCP flows and the HAR files that feed them and two helpers of the HTTP parser, the daemon's
-- cloud client, the set-up and the summary of a capture, the loading of plugins, and the wizard that
-- adds the agent to ECS.
--
-- The agent parses captured packets into akinet.ParsedNetworkTraffic and hands each one to a stack of
-- collectors. A collector (trace/collector.go, `Collector`) has the operations Process and Close; most
-- keep some state and pass traffic on to the next one, some change, drop or add traffic on the way.
-- Here a collector is a record of two functions on a state type (Collector), which takes the place of
-- the mutated object; a collector that wraps another one has the other's state as its field `next`.
-- Statements about what a collector passes on run it over any list of traffic (Collector.Run) and
-- compare the next collector's state with a run of the next collector alone.
--
-- The parts:
--   Net: the fields of the library akinet's types that the code reads or writes.
--   Collector: trace/collector.go, the interface; runs of it; and the library sampled_err.
--   TcpTracker: tcp_conn_tracker/tcp_conn_tracker.go, which turns TCP packets into one summary for each
--     connection. `process`, `flush_connection` and `close` are Process, flushConnection (the timeout's
--     function too) and Close.
--   Trace.RateLimit: trace/rate_limit.go, the shared limit on HTTP requests (`allow_http_request`,
--     `start_interval`, `start_new_epoch`) and the collectors that share it (`process`, `close`). Time
--     events, requests and closing are steps in any order (RateLimit.Limit); a panic is `none`.
--   Trace.Stats: trace/stats.go, packet counters in bounded maps (`update`, `add_or_insert`) and the
--     selection of the largest (Stats.Top, `top_n`).
--   Trace.Filters: trace/filters.go, the filters of requests and of the responses to them.
--   Trace.Sampling: trace/collector.go, the sampler and the filter of the agent's own traffic, the
--     latter with util/util.go's ContainsCLITraffic.
--   Trace.Counting: trace/collector.go, PacketCountCollector, which feeds the counters of Trace.Stats.
--   Trace.Tee: trace/tee.go and trace/dummy_collector.go.
--   TlsTracker: tls_conn_tracker/tls_conn_tracker.go, which turns TLS hellos into one report for each
--     complete handshake. `process`, `expire_connection` and `close` are Process, the timer's function
--     and Close; View is the tracker as one connection sees it.
--   Learn.Luhn: learn/luhn.go, `valid_luhn` is ValidLuhn.
--   Learn.Preprocessor: learn/json_preprocessor.go, the reader that strips control characters; `strip`
--     is the loop over a buffer and `read_loop` that of Read, on fuel.
--   CloudClient: daemon/internal/cloud_client, the main goroutine of the daemon. State has the state
--     and the operations of client_state.go and cloud_client.go, Handlers one function for each event's
--     handle method, Events the main loop; what the goroutine does to the outside is a list of outputs.
--     A panic is `none`: the use of a nil pointer, and a second response on a channel, which is closed
--     after the first (Events, `close_channels`).
--   Trace.ReportBuffer: trace/report_buffer.go, the buffer of reports for the back end; the uploaded
--     requests are what `flush` returns. An upload that fails loses its reports, as in the code.
--   Trace.BackendCollector: trace/backend_collector.go, which pairs the requests and the responses that
--     learn.ParseHTTP has turned into halves of a witness. Queue has the events of a collector, in any
--     order; what is given to the batcher is a list. The order in which sync.Map's Range goes through
--     the cache is the list's, and a flush is one event there. Interleaving has each step of the flush, with
--     calls of Process and Close between them, which the flush's goroutine does not wait for.
--   Trace.Stats.Summary: the Summary of trace/stats.go.
--   Apispec.Har: apispec/har.go, entries of a HAR file as traffic for any collector; float32 is a
--     parameter. Apispec.Har.Latency runs it on the back-end collector.
--   Pcap.Stream: pcap/stream.go, one direction of a TCP connection, which hands its bytes to parsers of
--     the library akinet (`Parsers`, with the accounting of bytes that the code counts on, `Accounts`).
--   Pcap.Connection: pcap/stream.go, the stream that has one flow for each direction and sends metadata
--     of each packet. Connection.Initiator puts it together with TcpTracker.
--   Pcap.Packets: pcap/net_parse.go, the goroutine that hands packets to the assembler of gopacket, which
--     is a parameter (`Assembler`) and does not panic, or turns them into traffic.
--   Apidump.Net: apidump/net.go, the choice of interfaces and the BPF filters, as expressions.
--   Apidump.Summary: apidump/summary.go, the lines that are printed at the end of a capture, and the
--     tables of packet counts (Summary.Tables), which Reading and Columns read back.
--   Useragent: useragent/useragent.go, with its regular expression as a greedy matcher.
--   Ecs: cmd/internal/ecs/add.go, the wizard that adds the agent to a service of ECS. Each state is a
--     step (`run_step`), with the answers of the user, of AWS and of the clock as its input (`Outside`);
--     the calls that change something at AWS are noted in the workflow, whether or not they succeed.
--     Steps, Loading and FromFlags have the steps that ask and look up, Run those that change, and the
--     loop, Agent the container that is added. Ecs.Queries has what aws_api.go, aws_api_names.go and
--     aws_api_secret.go ask of AWS, with the calls of a client as parameters (`EcsClient`).
--   Plugin: plugin/interface.go and cmd/internal/pluginloader, `load` is Load. What Go's package `plugin`
--     and the loaders return is a parameter (`PluginFiles`), as is the wrapping of errors (`Errors`).
--
-- Conventions. Counts, ports, sizes and times are numbers that do not overflow, times in nanoseconds;
-- a difference of times is an integer. UUIDs and IP addresses are numbers. An error is an `Option` of
-- its message. A Go map is an association list without double keys; where code ranges over a map, the
-- list's order stands for the order that Go picks, and statements hold for any. Each operation that
-- takes a mutex is one step. A timer is a flag or a delay in the state, and its firing is a step that
-- may come at any moment. Loops are recursion on a list or on a number of ticks, and the loop of
-- the wizard (Ecs.Run, `run_rounds`) runs on the list of what its rounds have from outside. Fuel stands
-- in three places: the printing of a number (Trace.Sampling, `itoa_from`), where the number itself is
-- enough, the loop of a read (Learn.Preprocessor, `read_loop`), where more than the number of bytes
-- that are left is enough, and the rounds of one call of the assembler (Pcap.Stream,
-- `reassembled_with_ignore`), where two more than the bytes given are enough, as long as the parsers
-- behave as Pcap.Stream.Fuel says.
--
-- Parameters. Third-party code is a parameter: Add of client_telemetry with its laws (Trace.Telemetry),
-- sampled_err (Collector.SampledErrors), regular expressions, the tracker list, the hash of witness
-- IDs, xxhash and the sampling threshold, sort.Strings and slices.SortFunc, random numbers and the
-- moving average in floating-point arithmetic; the parsers of HTTP and of other content, the merging
-- of witnesses, plugins, the conversion of HAR entries, go-version, the interfaces of the machine and
-- pcap, and what AWS, the user and the clock give to the wizard.
--
-- Not modelled: the commands but for the wizard, the set-up of the capture's goroutines, the order in
-- which gopacket assembles a TCP stream, the parsing of HTTP into witnesses (but for the two parts of
-- Learn), HTTP clients of the back end, telemetry and installation; most of these are input and output,
-- calls of libraries, or work on a library's protocol buffers.
pub mod Prelude
pub mod Net
pub mod Collector
pub mod TcpTracker
pub mod TlsTracker
pub mod Trace
pub mod Apispec
pub mod Pcap
pub mod Apidump
pub mod Useragent
pub mod Ecs
pub mod CloudClient
pub mod Learn
pub mod Plugin
