-- ===== src/Tracing/Stream/Server.antt =====
-- `OpenTracingStreamServerInterceptor` of pkg/tracing/server_interceptor.go.
use triple.Base.{
  true, none, false, ◌≡◌, if◌then◌else◌, keeps_rules, pure, modify, ◌>>◌, ◌>>=◌, some, String, ℕ,
  List, Option, M, refl,
}
use triple.Tracing.Unary.{otgrpc_opts}
use triple.Common.Context.{Context}
use triple.Tracing.ErrorClass.{StatusLib}
use triple.Tracing.Metadata.{extract_span_context, Tracer, MetadataLib}
use triple.Tracing.World.{rpc_server, finishes, start_span, World}
use triple.Common.Error.{nil_value, Err}
use triple.Tracing.Options.{
  finishes-report_error, is_excluded, decorate, DecoratorReturns, report_error, KeepsFinishes,
  DecoratorKeepsFinishes, TracingOption,
}
use triple.Tracing.Span.{exit-conclude, with_span-finishes_once, with_span}

-- A `grpc.ServerStream`, by its context. `openTracingServerStream` is a stream with another one.
pub record ServerStream : Type 0 where
  pub context : Context

abbrev pub StreamHandler : Type 0
StreamHandler = ServerStream → M World (Option Err)

module _ {X : Type 0} (from_error : StatusLib) (lib : MetadataLib) (tracer : Tracer X)
    (opt_funcs : List TracingOption) where
  report_failure : ℕ → Option Err → World → World
  report_failure span none w = w
  report_failure span (some e) w = report_error from_error span e false w

  -- The tags and the log of a failed stream, and then the decorator.
  conclude_stream : Context → ℕ → String → Option Err → M World (Unit {0})
  unfolding report_failure
  conclude_stream ctx span method e = do
    modify (report_failure span e)
    decorate (otgrpc_opts opt_funcs) ctx span method nil_value nil_value e

  stream_body : ServerStream → String → StreamHandler → ℕ → M World (Option Err)
  stream_body ss method handler server_span = do
    let ss = record ss { context = record ss.context { active_span = some server_span } }
    e ← handler ss
    conclude_stream ss.context server_span method e
    pure e

  unfoldable pub stream_server_interceptor :
      ServerStream → String → StreamHandler → M World (Option Err)
  unfolding stream_body conclude_stream with_span
  stream_server_interceptor ss full_method handler w =
      let span_context = (extract_span_context lib tracer ss.context w).0 in
      (if is_excluded (otgrpc_opts opt_funcs) span_context full_method nil_value nil_value
          then handler ss
          else with_span full_method span_context rpc_server (stream_body ss full_method handler))
        w

  finishes-report_failure :
      (s span : ℕ) (err : Option Err) (w : World)
      → finishes s (report_failure span err w) ≡ finishes s w
  unfolding report_failure
  finishes-report_failure s span none w = refl
  finishes-report_failure s span (some e) w = finishes-report_error s from_error span e false w

  conclude_stream-KeepsFinishes :
      (ctx : Context) (s : ℕ) (method : String) (e : Option Err)
      → DecoratorKeepsFinishes s (otgrpc_opts opt_funcs)
      → KeepsFinishes s (conclude_stream ctx s method e)
  unfolding conclude_stream
  conclude_stream-KeepsFinishes ctx s method e kd =
      search (keeps_rules, finishes-report_failure, kd)

  stream_body-KeepsFinishes :
      (ss : ServerStream) (method : String) (handler : StreamHandler) (s : ℕ)
      → ((t : ServerStream) → KeepsFinishes s (handler t))
      → DecoratorKeepsFinishes s (otgrpc_opts opt_funcs)
      → KeepsFinishes s (stream_body ss method handler s)
  unfolding stream_body
  stream_body-KeepsFinishes ss method handler s kh kd =
      search (keeps_rules, conclude_stream-KeepsFinishes, kh, kd) depth 9

  -- The handler of a traced stream runs on the same stream with the new span in its context, and the
  -- interceptor ends as it does, provided that the decorator comes back. The span is finished
  -- exactly once, also when the handler fails or panics, provided that nobody else finishes it. An
  -- excluded stream is left to its handler.
  pub stream_server_interceptor_lem :
      (ss : ServerStream) (method : String) (handler : StreamHandler) (w : World)
      → DecoratorReturns (otgrpc_opts opt_funcs)
      → DecoratorKeepsFinishes w.next_span (otgrpc_opts opt_funcs)
      → finishes w.next_span w ≡ 0
      → ((t : ServerStream) → KeepsFinishes w.next_span (handler t))
      → let parent = (extract_span_context lib tracer ss.context w).0 in
        let excluded = is_excluded (otgrpc_opts opt_funcs) parent method nil_value nil_value in
        let run = stream_server_interceptor ss method handler w in
        let inner = record ss.context { active_span = some w.next_span } in
        (excluded ≡ true → run ≡ handler ss w)
        × (excluded ≡ false → finishes w.next_span run.0 ≡ 1)
        × (excluded ≡ false
            → run.1
              ≡ (handler (record { context = inner }) (start_span method parent rpc_server w).0).1)
  unfolding stream_server_interceptor start_span conclude_stream ◌>>=◌
  stream_server_interceptor_lem ss method handler w dr kd fresh kh = (
    λ e. rw e,
    λ e.
        rw e
          (with_span-finishes_once method parent rpc_server (stream_body ss method handler) w fresh
            (stream_body-KeepsFinishes ss method handler w.next_span kh kd)).0,
    λ e. rw e (
        exit-conclude (handler (record { context = inner }))
          (λ err. conclude_stream inner w.next_span method err) (λ err v. dr _ _ _ _ _ _ _)
          (start_span method parent rpc_server w).0),
  )
    where
      parent : Option ℕ
      parent = (extract_span_context lib tracer ss.context w).0

      inner : Context
      inner = record ss.context { active_span = some w.next_span }
