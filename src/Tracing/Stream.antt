-- ===== src/Tracing/Stream.antt =====
-- The interceptors of streams: `OpenTracingStreamClientInterceptor` and the client stream with its
-- `finishFunc` (client_interceptor.go), and `OpenTracingStreamServerInterceptor`
-- (server_interceptor.go).
pub mod Client
pub mod Race
pub mod Opening
pub mod Server
pub mod Wire
use mathlib.Core.Option
use triple.Tracing.Unary.{otgrpc_opts, parent_context}
use triple.Tracing.ErrorClass.{set_span_tags, StatusLib}
use triple.Tracing.World.{
  rpc_client, start_span, error_event, log_fields, finished, record_event, World,
}
use triple.Base.{
  List, modify, defer, gets, ◌>>=◌, ◌>>◌, returned, true, ◌&&◌, false, some, nat_eq, panicked,
  if◌then◌else◌, pure, Bool, none, String, ℕ, M, Option,
}
use triple.Common.Context.{Context}
use triple.Common.Error.{nil_value, Err, eof}
use triple.Tracing.Options.{is_excluded, TracingOption, decorate, Options}
use triple.Tracing.Metadata.{inject_span_context, Tracer, MetadataLib}

-- A `grpc.ClientStream`, by the context that it answers.
pub record ClientStream : Type 0 where
  pub context : Context

-- The pair that a streamer returns.
pub record StreamReply : Type 0 where
  pub stream : ClientStream
  pub err : Option Err

-- The description, the connection and the call options are passed on, so they are part of it.
abbrev pub Streamer : Type 0
Streamer = Context → String → M World StreamReply

-- `openTracingClientStream` with what its closures share: the flag that `CompareAndSwapInt32`
-- guards, the channel, whether the goroutine still waits on it, and the world.
pub record TracedStream : Type 0 where
  pub world : World
  pub span : ℕ
  pub method : String
  pub stream : ClientStream
  pub server_streams : Bool
  pub is_finished : ℕ
  pub finish_chan_closed : Bool
  pub goroutine_waits : Bool

-- An action on the world of the stream.
unfoldable pub on_world : {A : Type 0} → M World A → M TracedStream A
on_world m t = let (w, e) = m t.world in (record t { world = w }, e)

module _ (from_error : StatusLib) (o : Options) where
  -- The stream that `newOpenTracingClientStream` makes; its goroutine starts to wait.
  unfoldable pub new_open_tracing_client_stream :
      ClientStream → String → Bool → ℕ → World → TracedStream
  new_open_tracing_client_stream cs method server_streams client_span w = record {
    world = w;
    span = client_span;
    method = method;
    stream = cs;
    server_streams = server_streams;
    is_finished = 0;
    finish_chan_closed = false;
    goroutine_waits = true;
  }

  -- `close(finishChan)`, which panics on a closed channel.
  unfoldable pub close_finish_chan : M TracedStream (Unit {0})
  close_finish_chan t =
      if t.finish_chan_closed
      then (t, panicked)
      else (record t { finish_chan_closed = true }, returned tt)

  -- The tags and the log of a stream that ended in an error.
  unfoldable pub report_end : ℕ → Option Err → World → World
  report_end span none w = w
  report_end span (some e) w =
      set_span_tags from_error span (some e) true (record_event (log_fields span (error_event e)) w)

  unfoldable pub finish_span : TracedStream → TracedStream
  finish_span t = record t { world = record_event (finished t.span) t.world }

  -- `finishFunc` behind its compare-and-swap.
  unfoldable pub finish_won : Option Err → M TracedStream (Unit {0})
  finish_won err = do
    close_finish_chan
    t ← gets (λ t. t)
    defer finish_span (do
      on_world (modify (report_end t.span err))
      on_world (decorate o t.stream.context t.span t.method nil_value nil_value err))

  unfoldable pub finish_func : Option Err → M TracedStream (Unit {0})
  finish_func err t =
      if nat_eq t.is_finished 0
      then finish_won err (record t { is_finished = 1 })
      else (t, returned tt)

  -- `if err != nil { cs.finishFunc(err) }`
  finish_on_error : Option Err → M TracedStream (Unit {0})
  finish_on_error none = pure tt
  finish_on_error (some e) = finish_func (some e)

  -- `Header`, `SendMsg` and `CloseSend`: the argument is the error of the wrapped stream's call,
  -- and the result is that error again.
  unfoldable pub header : Option Err → M TracedStream (Option Err)
  unfolding finish_on_error
  header err = do finish_on_error err; pure err

  unfoldable pub send_msg : Option Err → M TracedStream (Option Err)
  unfolding finish_on_error
  send_msg err = do finish_on_error err; pure err

  unfoldable pub close_send : Option Err → M TracedStream (Option Err)
  unfolding finish_on_error
  close_send err = do finish_on_error err; pure err

  -- The end of the stream is no error of the call, and a stream with one reply ends with it.
  unfoldable pub recv_msg : Option Err → M TracedStream (Option Err)
  recv_msg (some eof) t = (do finish_func none; pure (some eof)) t
  recv_msg (some e) t = (do finish_func (some e); pure (some e)) t
  recv_msg none t =
      if t.server_streams then (t, returned none) else (do finish_func none; pure none) t

  -- The goroutine: the channel is closed, or the context is done with an error.
  unfoldable pub goroutine_sees_close : M TracedStream (Unit {0})
  goroutine_sees_close t =
      if t.finish_chan_closed && t.goroutine_waits
      then (record t { goroutine_waits = false }, returned tt)
      else (t, returned tt)

  unfoldable pub goroutine_sees_done : Err → M TracedStream (Unit {0})
  goroutine_sees_done e t =
      if t.goroutine_waits
      then finish_func (some e) (record t { goroutine_waits = false })
      else (t, returned tt)

  -- The finalizer.
  unfoldable pub finalize : M TracedStream (Unit {0})
  finalize = finish_func none

-- What the interceptor returns: a stream of the streamer with its error, or a traced stream.
pub data Opened : Type 0 where
  plain : StreamReply → Opened
  traced : TracedStream → Opened

module _ {X : Type 0} (from_error : StatusLib) (lib : MetadataLib) (tracer : Tracer X)
    (opt_funcs : List TracingOption) where
  -- What is done with the streamer's reply.
  wrap_reply : Option Err → StreamReply → ℕ → String → Bool → M World Opened
  wrap_reply (some e) reply span method server_streams = do
    modify (report_end from_error (otgrpc_opts opt_funcs) span (some e))
    modify (record_event (finished span))
    pure (plain reply)
  wrap_reply none reply span method server_streams = gets (λ w. traced (
      new_open_tracing_client_stream from_error (otgrpc_opts opt_funcs) reply.stream method
        server_streams span w))

  unfoldable pub stream_client_interceptor : Context → Bool → String → Streamer → M World Opened
  unfolding wrap_reply
  stream_client_interceptor ctx server_streams method streamer =
      if is_excluded (otgrpc_opts opt_funcs) (parent_context tracer ctx) method nil_value nil_value
      then (do reply ← streamer ctx method; pure (plain reply))
      else (do
        client_span ← start_span method (parent_context tracer ctx) rpc_client
        ctx ← inject_span_context lib tracer ctx client_span
        reply ← streamer ctx method
        wrap_reply reply.err reply client_span method server_streams)
