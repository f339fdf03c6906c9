-- ===== src/Examples/Wire.antt =====
-- A call through both interceptors.
use triple.Examples.Carriers.{collecting}
use triple.Base.{arith, none, panicked, ℕ, false, modify, some, returned, Exit, [], refl}
use triple.Tracing.Unary.{
  client_interceptor, otgrpc_opts, UnaryReply, UnaryResponse, server_interceptor, UnaryHandler,
  UnaryInvoker,
}
use triple.Tracing.Unary.Wire.Traced.{traced_lem, IsTraceable, IsTraced}
use triple.Tracing.Options.{new_options, span_decorator, log_payloads, apply, decorate}
use triple.Tracing.World.{error_tag, set_tag, record_event}
use triple.Examples.Fixtures.{
  plain_lib-IsMetadataLib, tracing_opts-returns, empty_world, sample_context, tracing_opts,
  pair_tracer, plain_lib, unavailable_status,
}
use triple.Common.Context.{background}
use triple.Common.Error.{nil_value, eof, text}
use triple.Tracing.Unary.Wire.{DecoratorKeepsUpTo}

-- A handler that writes to its span and answers.
abbrev answering_handler : UnaryHandler
answering_handler ctx req w = (
  record_event (set_tag 1 (error_tag false)) w,
  returned (record { resp = text "hello"; err = none }),
)

-- The server's panic, and its error, are the client's error.
abbrev plain_delivery : Exit UnaryResponse → UnaryReply
plain_delivery (returned r) = record { trailer = []; err = r.err }
plain_delivery panicked = record { trailer = []; err = some eof }

abbrev wire_invoker : UnaryInvoker
wire_invoker c method req resp w =
    let (w', e) =
      server_interceptor unavailable_status plain_lib pair_tracer tracing_opts
        (record background { incoming = c.outgoing }) req method answering_handler w in
    (w', returned (plain_delivery e))

wire_decorator-keeps : (n : ℕ) → DecoratorKeepsUpTo n (otgrpc_opts tracing_opts)
unfolding decorate apply log_payloads span_decorator new_options modify
wire_decorator-keeps n t le ctx s method req resp err = record { at = λ w. ground arith }

wire-IsTraceable :
    IsTraceable unavailable_status plain_lib pair_tracer pair_tracer tracing_opts tracing_opts
      sample_context background "/m" nil_value nil_value answering_handler plain_delivery
      wire_invoker empty_world
unfolding apply log_payloads span_decorator new_options
wire-IsTraceable = record {
  client_included = refl;
  server_included = λ p. refl;
  client_fresh = refl;
  server_fresh = refl;
  handler_keeps = λ t le c. record { at = λ w. ground arith };
  client_decorator_keeps = wire_decorator-keeps 1;
  server_decorator_keeps = wire_decorator-keeps 1;
  client_decorator_returns = tracing_opts-returns;
  server_decorator_returns = tracing_opts-returns;
  go_maps = λ a. tt;
}

traced_lem_example :
    IsTraced unavailable_status plain_lib pair_tracer pair_tracer tracing_opts tracing_opts
      sample_context background "/m" nil_value nil_value answering_handler plain_delivery
      wire_invoker empty_world
      (client_interceptor unavailable_status plain_lib pair_tracer tracing_opts sample_context "/m"
        nil_value nil_value wire_invoker empty_world)
traced_lem_example =
    traced_lem unavailable_status plain_lib pair_tracer pair_tracer tracing_opts tracing_opts
      sample_context background "/m" nil_value nil_value answering_handler plain_delivery
      wire_invoker empty_world (λ c w. refl) wire-IsTraceable plain_lib-IsMetadataLib collecting
