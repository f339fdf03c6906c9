-- ===== src/Examples/Streams.antt =====
-- Traced streams and the race for their ends.
use triple.Base.{◌>>=◌, false, inl, ◌≡◌, arith, none, true, [], some, ◌∷◌, returned, List, ℕ, refl}
use triple.Tracing.Stream.{
  stream_client_interceptor, new_open_tracing_client_stream, ClientStream, Streamer,
}
use triple.Tracing.Options.{
  is_excluded, new_options, KeepsFinishes, span_decorator, log_payloads, apply,
}
use triple.Tracing.Unary.{otgrpc_opts}
use triple.Examples.Fixtures.{
  tracing_opts-keeps, tracing_opts-returns, empty_world, pair_tracer, unavailable_status, plain_lib,
  tracing_opts, sample_context, plain_lib-IsMetadataLib,
}
use triple.Tracing.Stream.Server.{
  stream_server_interceptor_lem, stream_server_interceptor, ServerStream, StreamHandler,
}
use triple.Tracing.Stream.Client.{send_msg, recv_msg, run, finalized, After, step, Op}
use triple.Tracing.Metadata.{extract_span_context, inject_span_context}
use triple.Tracing.World.{rpc_server, start_span, finishes, error_tag, set_tag, record_event, World}
use triple.Common.Error.{nil_value, eof, foreign}
use triple.Tracing.Stream.Opening.{stream_client_interceptor-opens, OpensAs, before_streamer}
use triple.Tracing.Stream.Client.Lifetime.{run_lifetime, step-returns}
use triple.Tracing.Stream.Wire.{traced_stream_lem, IsTraceable, IsTraced}
use triple.Examples.Carriers.{collecting}
use triple.Common.Context.{Context, background}

abbrev sample_stream : ClientStream
sample_stream = record { context = sample_context }

-- A request, a reply, the error of a second request, and the finalizer.
abbrev stream_calls : List Op
stream_calls = send_msg none ∷ recv_msg none ∷ send_msg (some (foreign 1)) ∷ finalized ∷ []

run_lifetime_example :
    let o = otgrpc_opts tracing_opts in
    let t =
      new_open_tracing_client_stream unavailable_status o sample_stream "/m" true 0 empty_world in
    After true t (run unavailable_status o stream_calls t)
run_lifetime_example =
    run_lifetime unavailable_status (otgrpc_opts tracing_opts) stream_calls sample_stream "/m" true
      0 empty_world refl (tracing_opts-keeps 0)

step-returns_example :
    let o = otgrpc_opts tracing_opts in
    let t =
      new_open_tracing_client_stream unavailable_status o sample_stream "/m" true 0 empty_world in
    (step unavailable_status o (recv_msg (some eof)) t).1 ≡ returned (some eof)
unfolding new_open_tracing_client_stream
step-returns_example =
    step-returns unavailable_status (otgrpc_opts tracing_opts) (recv_msg (some eof))
      (new_open_tracing_client_stream unavailable_status (otgrpc_opts tracing_opts) sample_stream
        "/m" true 0 empty_world)
      tracing_opts-returns (inl ((refl, refl, refl), refl))

-- A streamer that fails.
abbrev failing_streamer : Streamer
failing_streamer ctx method w =
    (w, returned (record { stream = sample_stream; err = some (foreign 2) }))

stream_client_interceptor-opens_example :
    let before =
      before_streamer unavailable_status plain_lib pair_tracer tracing_opts sample_context true "/m"
        failing_streamer empty_world in
    OpensAs unavailable_status plain_lib pair_tracer tracing_opts sample_context true "/m"
      failing_streamer empty_world
      (failing_streamer before.1 "/m" before.0)
      (stream_client_interceptor unavailable_status plain_lib pair_tracer tracing_opts
        sample_context true "/m" failing_streamer empty_world)
unfolding apply log_payloads span_decorator new_options
stream_client_interceptor-opens_example =
    stream_client_interceptor-opens unavailable_status plain_lib pair_tracer tracing_opts
      sample_context true "/m" failing_streamer empty_world refl

-- A handler of a stream that fails.
abbrev failing_stream_handler : StreamHandler
failing_stream_handler ss w = (record_event (set_tag 9 (error_tag true)) w, returned (some eof))

failing_stream_handler-keeps :
    (s : ℕ) (t : ServerStream) → KeepsFinishes s (failing_stream_handler t)
failing_stream_handler-keeps s t = record { at = λ w. ground arith }

stream_server_interceptor_lem_example :
    let ss : ServerStream = record { context = sample_context } in
    let parent = (extract_span_context plain_lib pair_tracer sample_context empty_world).0 in
    let excluded = is_excluded (otgrpc_opts tracing_opts) parent "/m" nil_value nil_value in
    let run =
      stream_server_interceptor unavailable_status plain_lib pair_tracer tracing_opts ss "/m"
        failing_stream_handler empty_world in
    let inner = record sample_context { active_span = some 0 } in
    (excluded ≡ true → run ≡ failing_stream_handler ss empty_world)
    × (excluded ≡ false → finishes 0 run.0 ≡ 1)
    × (excluded ≡ false
        → run.1
          ≡ (failing_stream_handler
              (record { context = inner })
              (start_span "/m" parent rpc_server empty_world).0).1)
stream_server_interceptor_lem_example =
    stream_server_interceptor_lem unavailable_status plain_lib pair_tracer tracing_opts
      (record { context = sample_context }) "/m" failing_stream_handler empty_world
      tracing_opts-returns (tracing_opts-keeps 0) refl (failing_stream_handler-keeps 0)

-- A streamer that writes an event, and the world in which the server's part of the stream starts.
abbrev opening_streamer : Streamer
opening_streamer ctx method w = (
  record_event (set_tag 7 (error_tag false)) w,
  returned (record { stream = sample_stream; err = none }),
)

abbrev arrival : World
arrival =
    (stream_client_interceptor unavailable_status plain_lib pair_tracer tracing_opts sample_context
      true "/m" opening_streamer empty_world).0

abbrev stream_before : World × Context
stream_before =
    before_streamer unavailable_status plain_lib pair_tracer tracing_opts sample_context true "/m"
      opening_streamer empty_world

arrival-IsTraceable :
    IsTraceable unavailable_status plain_lib pair_tracer pair_tracer tracing_opts tracing_opts
      sample_context background true "/m" opening_streamer failing_stream_handler empty_world
      arrival
unfolding apply log_payloads span_decorator new_options before_streamer stream_client_interceptor
    inject_span_context start_span ◌>>=◌
arrival-IsTraceable = record {
  client_included = refl;
  server_included = λ p. refl;
  unchanged = refl;
  go_maps = λ a. tt;
  fresh = refl;
  handler_keeps = failing_stream_handler-keeps arrival.next_span;
  decorator_keeps = tracing_opts-keeps arrival.next_span;
  decorator_returns = tracing_opts-returns;
}

traced_stream_lem_example :
    IsTraced unavailable_status plain_lib pair_tracer pair_tracer tracing_opts tracing_opts
      sample_context background true "/m" opening_streamer failing_stream_handler empty_world
      arrival
      (stream_client_interceptor unavailable_status plain_lib pair_tracer tracing_opts
        sample_context true "/m" opening_streamer empty_world)
      (stream_server_interceptor unavailable_status plain_lib pair_tracer tracing_opts
        (record { context = record background { incoming = stream_before.1.outgoing } })
        "/m"
        failing_stream_handler
        arrival)
traced_stream_lem_example =
    traced_stream_lem unavailable_status plain_lib pair_tracer pair_tracer tracing_opts tracing_opts
      sample_context background true "/m" opening_streamer failing_stream_handler empty_world
      arrival arrival-IsTraceable plain_lib-IsMetadataLib collecting
