-- ===== src/Tracing/Unary.antt =====
-- The interceptors of unary calls: `OpenTracingClientInterceptor` (client_interceptor.go) and
-- `OpenTracingServerInterceptor` (server_interceptor.go). The connection and the call options of a
-- client call are passed on as they are, so they are part of the invoker here.
pub mod Client
pub mod Server
pub mod Wire
use triple.Base.{
  ℕ, String, Bool, true, false, List, Option, none, some, M, pure, defer, modify, gets, ◌>>=◌, ◌>>◌,
  if◌then◌else◌,
}
use mathlib.Core.Option
use triple.Common.Error.{Err, Value, nil_value}
use triple.Common.Context.{Context, Md}
use triple.Tracing.World.{World, rpc_client, rpc_server, finished, record_event, start_span}
use triple.Tracing.ErrorClass.{StatusLib}
use triple.Tracing.Metadata.{MetadataLib, Tracer, inject_span_context, extract_span_context}
use triple.Tracing.Options.{
  Options, TracingOption, new_options, apply, is_excluded, decorate, log_request, report,
}
use triple.Tracing.Span.{conclude, with_span}

-- What an invoker returns: the trailer and the error.
pub record UnaryReply : Type 0 where
  pub trailer : Md
  pub err : Option Err

abbrev pub UnaryInvoker : Type 0
UnaryInvoker = Context → String → Value → Value → M World UnaryReply

-- What a handler returns: the response and the error.
pub record UnaryResponse : Type 0 where
  pub resp : Value
  pub err : Option Err

abbrev pub UnaryHandler : Type 0
UnaryHandler = Context → Value → M World UnaryResponse

abbrev pub otgrpc_opts : List TracingOption → Options
otgrpc_opts opt_funcs = apply opt_funcs new_options

-- The context of the span that is active in the caller's context, or nil.
abbrev pub parent_context : {X : Type 0} → Tracer X → Context → Option ℕ
parent_context tracer ctx = Option.map tracer.context_of ctx.active_span

module _ {X : Type 0} (from_error : StatusLib) (lib : MetadataLib) (tracer : Tracer X)
    (opt_funcs : List TracingOption) where
  -- The client's call from `injectSpanContext` on.
  client_body : Context → String → Value → Value → UnaryInvoker → ℕ → M World UnaryReply
  client_body ctx method req resp invoker client_span = do
    ctx ← inject_span_context lib tracer ctx client_span
    modify (log_request (otgrpc_opts opt_funcs) client_span req)
    reply ← invoker ctx method req resp
    conclude from_error (otgrpc_opts opt_funcs) ctx client_span true method req resp reply.err
    pure reply

  unfoldable pub client_interceptor :
      Context → String → Value → Value → UnaryInvoker → M World UnaryReply
  unfolding client_body with_span
  client_interceptor ctx method req resp invoker =
      if is_excluded (otgrpc_opts opt_funcs) (parent_context tracer ctx) method req resp
      then invoker ctx method req resp
      else with_span method (parent_context tracer ctx) rpc_client
          (client_body ctx method req resp invoker)

  -- The server's call from the handler on.
  server_body : Context → String → Value → UnaryHandler → ℕ → M World UnaryResponse
  server_body ctx method req handler server_span = do
    let ctx = record ctx { active_span = some server_span }
    modify (log_request (otgrpc_opts opt_funcs) server_span req)
    response ← handler ctx req
    conclude from_error (otgrpc_opts opt_funcs) ctx server_span false method req response.resp
        response.err
    pure response

  -- The server's call, once the span context is known.
  server_with_context : Option ℕ → Context → Value → String → UnaryHandler → M World UnaryResponse
  unfolding server_body with_span
  server_with_context span_context ctx req full_method handler =
      if is_excluded (otgrpc_opts opt_funcs) span_context full_method req nil_value
      then handler ctx req
      else with_span full_method span_context rpc_server (server_body ctx full_method req handler)

  -- The error of the extraction is dropped; the span context is nil where there was none.
  unfoldable pub server_interceptor :
      Context → Value → String → UnaryHandler → M World UnaryResponse
  unfolding server_with_context
  server_interceptor ctx req full_method handler = do
    (span_context, err) ← gets (extract_span_context lib tracer ctx)
    server_with_context span_context ctx req full_method handler
