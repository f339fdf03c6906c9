-- ===== src/Examples/Unary.antt =====
-- Calls through the unary interceptors.
use triple.Base.{
  ◌+◌, none, arith, ◌∷◌, false, List, ◌≡◌, some, [], returned, true, panicked, ℕ, refl,
}
use triple.Tracing.Unary.{
  otgrpc_opts, client_interceptor, UnaryHandler, server_interceptor, UnaryInvoker,
}
use triple.Tracing.Options.{
  is_excluded, new_options, KeepsFinishes, span_decorator, log_payloads, apply,
}
use triple.Examples.Fixtures.{
  tracing_opts-keeps, tracing_opts-starts, tracing_opts-returns, empty_world, sample_context,
  tracing_opts, pair_tracer, plain_lib, unavailable_status,
}
use triple.Tracing.World.{
  World, starts, started, rpc_client, finished, Event, finishes, record_event,
}
use triple.Common.Context.{Context}
use triple.Common.Error.{eof, nil_value}
use triple.Tracing.Unary.Server.{
  server_interceptor-finishes_once, server_interceptor-transparent, before_handler, remote_parent,
}
use triple.Tracing.Unary.Client.{
  client_interceptor-finishes_once, client_interceptor-transparent, before_invoker,
}

-- An invoker that starts and finishes a span of its own, and fails.
abbrev failing_invoker : UnaryInvoker
failing_invoker ctx method req resp w = (
  record_event (finished 9) (record_event (started 9 "/other" none rpc_client) w),
  returned (record { trailer = []; err = some eof }),
)

failing_invoker-keeps : (c : Context) → KeepsFinishes 0 (failing_invoker c "/m" nil_value nil_value)
failing_invoker-keeps c = record { at = λ w. ground arith }

failing_invoker-starts :
    (c : Context) (v : World)
    → starts (failing_invoker c "/m" nil_value nil_value v).0 ≡ starts v + 1
failing_invoker-starts c v = omega arith

-- A handler that panics.
abbrev panicking_handler : UnaryHandler
panicking_handler ctx req w = (w, panicked)

panicking_handler-keeps : (s : ℕ) (c : Context) → KeepsFinishes s (panicking_handler c nil_value)
panicking_handler-keeps s c = record { at = λ w. refl }

panicking_handler-starts :
    (c : Context) (v : World) → starts (panicking_handler c nil_value v).0 ≡ starts v + 0
panicking_handler-starts c v = omega arith

client_interceptor-finishes_once_example :
    let w' =
      (client_interceptor unavailable_status plain_lib pair_tracer tracing_opts sample_context "/m"
        nil_value nil_value failing_invoker empty_world).0 in
    (starts w' ≡ 0 + 1 + 1)
    × (finishes 0 w' ≡ 1)
    × ((rest : List Event) × (w'.events ≡ finished 0 ∷ rest))
unfolding apply log_payloads span_decorator new_options
client_interceptor-finishes_once_example =
    client_interceptor-finishes_once unavailable_status plain_lib pair_tracer tracing_opts
      sample_context "/m" nil_value nil_value failing_invoker 1 empty_world refl refl
      failing_invoker-starts tracing_opts-starts failing_invoker-keeps (tracing_opts-keeps 0)

client_interceptor-transparent_example :
    let run =
      client_interceptor unavailable_status plain_lib pair_tracer tracing_opts sample_context "/m"
        nil_value nil_value failing_invoker in
    let excluded = is_excluded (otgrpc_opts tracing_opts) (some 3) "/m" nil_value nil_value in
    let before =
      before_invoker unavailable_status plain_lib pair_tracer tracing_opts sample_context "/m"
        nil_value nil_value failing_invoker empty_world in
    (excluded ≡ true
      → run empty_world ≡ failing_invoker sample_context "/m" nil_value nil_value empty_world)
    × (excluded ≡ false
        → (run empty_world).1 ≡ (failing_invoker before.1 "/m" nil_value nil_value before.0).1)
client_interceptor-transparent_example =
    client_interceptor-transparent unavailable_status plain_lib pair_tracer tracing_opts
      sample_context "/m" nil_value nil_value failing_invoker empty_world tracing_opts-returns

server_interceptor-finishes_once_example :
    let w' =
      (server_interceptor unavailable_status plain_lib pair_tracer tracing_opts sample_context
        nil_value "/m" panicking_handler empty_world).0 in
    (starts w' ≡ 0 + 1 + 0)
    × (finishes 0 w' ≡ 1)
    × ((rest : List Event) × (w'.events ≡ finished 0 ∷ rest))
unfolding apply log_payloads span_decorator new_options
server_interceptor-finishes_once_example =
    server_interceptor-finishes_once unavailable_status plain_lib pair_tracer tracing_opts
      sample_context "/m" nil_value panicking_handler 0 empty_world refl refl
      panicking_handler-starts tracing_opts-starts (panicking_handler-keeps 0)
      (tracing_opts-keeps 0)

server_interceptor-transparent_example :
    let run =
      server_interceptor unavailable_status plain_lib pair_tracer tracing_opts sample_context
        nil_value "/m" panicking_handler in
    let parent =
      remote_parent unavailable_status plain_lib pair_tracer tracing_opts sample_context "/m"
        nil_value panicking_handler empty_world in
    let excluded = is_excluded (otgrpc_opts tracing_opts) parent "/m" nil_value nil_value in
    let before =
      before_handler unavailable_status plain_lib pair_tracer tracing_opts sample_context "/m"
        nil_value panicking_handler empty_world in
    (excluded ≡ true → run empty_world ≡ panicking_handler sample_context nil_value empty_world)
    × (excluded ≡ false
        → (run empty_world).1
          ≡ (panicking_handler (record sample_context { active_span = some 0 }) nil_value before).1)
server_interceptor-transparent_example =
    server_interceptor-transparent unavailable_status plain_lib pair_tracer tracing_opts
      sample_context "/m" nil_value panicking_handler empty_world tracing_opts-returns
