-- ===== src/Lib.antt =====
-- The Go library triple: the dubbo RPC protocol over gRPC.
--
-- A user makes a config.Option with option functions (pkg/config), registers codecs (pkg/common), and
-- starts a TripleServer with a map of services or makes a TripleClient (pkg/triple). Server and client
-- hand the calls to a fork of grpc-go; where the option names a Jaeger address, the interceptors of
-- pkg/tracing stand round each call and each stream and carry the span's context in the metadata.
--
-- Files, by the code that they model:
--   Base, Base/...: shared helpers. Base/Effect is stateful Go code: an action maps a state to a state
--     and an exit, which is a value or a panic; `defer` runs on both exits. Base/Effect/Keeps has the
--     rules for what an action leaves alone, as a ruleset for search. Base/Dict is a Go map as an
--     association list, in the order of the loop over it.
--   Common/Constant (pkg/common/constant), Common/Logger (pkg/common/logger), Common/Config with
--     Functions, Defaults and Overrides (pkg/config/config.go), Common/Codec with History
--     (pkg/common/codec.go), Common/DefaultLogger
--     (pkg/common/logger/default_logger), Common/Attachment (pkg/common/service.go), Common/Error and
--     Common/Context (what the program reads of errors, interface values and contexts).
--   Tracing/World: the spans' history as a list of events, and the metadata maps in memory, by
--     address, so that a copy and a write in place differ. Tracing/ErrorClass, Tracing/Metadata,
--     Tracing/Options, Tracing/Unary and Tracing/Stream (pkg/tracing/client_interceptor.go and
--     server_interceptor.go), Tracing/Jaeger (pkg/tracing/jaeger.go), Tracing/Span and Tracing/Starts:
--     what the unary interceptors share.
--   Tracing/Stream models newOpenTracingClientStream: an operation gets the error that the wrapped
--     stream's call returned; the goroutine and the finalizer are operations of their own, so that a
--     list of operations is a life of the stream. Tracing/Stream/Race takes finishFunc apart into its
--     atomic steps, and a schedule of goroutine numbers is an interleaving.
--   Security: getServerTlsCertificate (pkg/triple/dubbo3_server.go) and getClientTlsCertificate
--     (pkg/triple/dubbo3_client.go).
--   Server with Environment, Options (with Wanted, Limits and Building), Registration, Registering,
--     Lifecycle, Refresh, Unservable and Handler: TripleServer (pkg/triple/dubbo3_server.go).
--     Environment is the process round it: open listeners, and for each gRPC server a record of the
--     calls made on it. The address names a fixed port: with port 0 a second `net.Listen` at the
--     same address would succeed.
--   Client/Connection (pkg/triple/dubbo3_conn.go), Client/Dialing and Client/Calls
--     (pkg/triple/dubbo3_client.go), over Client/Network, the process round a client: the log, the
--     timers of `context.WithTimeout` that run, and the connections that were closed.
--   Programs with Provider, Signals and Startup (example/dubbo/go-server/cmd/server.go), Consumer and
--     Parallel with Counting, Progress and Rounds (example/dubbo/go-client/cmd/client.go): the example
--     programs over the process that they run in; Parallel takes a round of concurrent calls apart into
--     the goroutines' atomic steps, and Rounds is the endless loop over the rounds.
--
-- Files on how the parts act together:
--   Common/Config/Settings with Settled: calls of option functions as data, and the option that they make.
--   Tracing/Unary/Wire with Parent and Traced: a call through the client's interceptor, the network and the
--     server's interceptor.
--   Tracing/Stream/Wire: a stream through both interceptors, the server's part in a later world.
--   Server/History with Steps, Nil, Tracking, Refinement and Unordered: calls of Start, RefreshService
--     and Stop and changes of the service map in any order, with a panic recovered by the caller, against
--     a view with three phases. Unordered forgets the order of the maps by a quotient: `Range` may visit
--     a sync.Map in another order each time, which a change to the same map in that order stands for.
--   Session: a client and a server of one option, over Server/Options/Building/Agreement; Session/Call: a
--     call from the client to the handler of a unary service and back.
--   Examples/...: runs at concrete inputs.
--
-- Parameters: what is not part of the repository is an argument. These are the status package
-- (StatusLib), the metadata package (MetadataLib, with its documented behaviour in IsMetadataLib), the
-- tracer (Tracer), the way of a call through grpc-go (Transport, with Delivers), the codecs of the grpc-go fork (EncodingLib), files and certificates (TlsFiles),
-- the client's calls of grpc-go (GrpcLib) and its reflection (StubLib), dubbo-go and the profiler (Platform),
-- invokers, streamers, handlers and decorators, which may change the world and may panic.
--
-- Bounds: loops are structural recursion on lists, so there is no fuel. Integers are only compared with
-- zero and passed on, but for the counters of Programs/Parallel, which wrap at 2 ^ 32; the counters of
-- spans and maps are unbounded.
--
-- Not modelled: what grpc-go does with a registered service and with a listener that it is given,
-- sampling and sending of Jaeger, the format of log lines, what zap does with its configuration, the
-- interface TripleError, which nothing implements, testSayHelloWithError of the example client, which
-- does not compile, and the main function that calls it, the generated code and the tests.
mod Base
pub mod Common
pub mod Tracing
pub mod Security
pub mod Server
pub mod Session
pub mod Programs
pub mod Examples
pub mod Client
