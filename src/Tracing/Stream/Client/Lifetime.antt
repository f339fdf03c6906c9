-- ===== src/Tracing/Stream/Client/Lifetime.antt =====
-- The whole life of a traced client stream.
use triple.Tracing.Stream.Client.{
  step-IsOpen, ends, header, send_msg, recv_msg, close_send, sees_close, finalized, sees_done,
  result, IsClosed, IsUnfinished, step-IsClosed, any_ends, IsOpen, After, run, step, Op,
}
use triple.Base.{
  false, none, some, inl, inr, arith, returned, ◌≡◌, ◌||◌, [], ◌∙◌, ◌⊎◌, ℕ, Option, ◌∷◌, Bool,
  ◌>>=◌, true, String, List, refl,
}
use triple.Tracing.Stream
use triple.Tracing.ErrorClass.{StatusLib}
use triple.Tracing.Options.{DecoratorReturns, DecoratorKeepsFinishes, Options}
use triple.Tracing.Stream.{
  finalize, report_end, on_world, finish_span, ClientStream, close_finish_chan, TracedStream,
  goroutine_sees_done, goroutine_sees_close, finish_won, new_open_tracing_client_stream,
  finish_func,
}
use triple.Common.Error.{nil_value, Err, eof}
use triple.Tracing.World.{finishes, World}

module _ (from_error : StatusLib) (o : Options) where
  run-closed :
      (ops : List Op) (t u : TracedStream) → After true t u → After true t (run from_error o ops u)
  unfolding run
  run-closed [] t u c = c
  run-closed (op ∷ ops) t u c =
      let next = step-IsClosed from_error o u op c.0 in
      run-closed ops t (step from_error o op u).0 (next.1, next.2 ∙ c.1, next.3 ∙ c.2)

  run-After :
      (ops : List Op) (t : TracedStream)
      → DecoratorKeepsFinishes t.span o
      → IsOpen t
      → After (any_ends t.server_streams ops) t (run from_error o ops t)
  unfolding run
  run-After [] t kd h = refl
  run-After (op ∷ ops) t kd h =
      go (ends t.server_streams op) (step-IsOpen from_error o t op kd h) (run-After ops t kd h)
    where
      go :
          (b : Bool)
          → After b t (step from_error o op t).0
          → After (any_ends t.server_streams ops) t (run from_error o ops t)
          → After
              (b || any_ends t.server_streams ops)
              t
              (run from_error o ops (step from_error o op t).0)
      go true a ih = run-closed ops t (step from_error o op t).0 a
      go false a ih = rw a ih

  -- A stream that has just been opened, after any sequence of its calls, its goroutine's choices and
  -- its finalizer: if one of them ends the stream, the span is finished exactly once and the channel
  -- is closed, and else nothing has changed at all. It ends with the first error of a call, with the
  -- end of the stream, with the reply of a stream that has one reply, with the end of the context,
  -- or with the finalizer. The decorator does not finish the span.
  pub run_lifetime :
      (ops : List Op) (cs : ClientStream) (method : String) (server_streams : Bool) (span : ℕ)
      (w : World)
      → finishes span w ≡ 0
      → DecoratorKeepsFinishes span o
      → let t = new_open_tracing_client_stream from_error o cs method server_streams span w in
        After (any_ends server_streams ops) t (run from_error o ops t)
  unfolding new_open_tracing_client_stream
  run_lifetime ops cs method server_streams span w fresh kd =
      run-After ops (new_open_tracing_client_stream from_error o cs method server_streams span w) kd
        ((refl, refl, fresh), refl)

  finish_func-returns :
      (err : Option Err) (t : TracedStream)
      → DecoratorReturns o
      → IsUnfinished t
      → (finish_func from_error o err t).1 ≡ returned tt
  unfolding finish_func finish_won close_finish_chan finish_span on_world ◌>>=◌
  finish_func-returns err t dr h = ground (
    arith,
    dr t.stream.context t.span t.method nil_value nil_value err
        (report_end from_error o t.span err t.world),
  )

  -- On a stream that is open, or whose span has been finished, no operation panics, so the channel is
  -- never closed twice, and the caller sees the error of the wrapped stream's call, if the decorator
  -- always comes back.
  pub step-returns :
      (op : Op) (t : TracedStream)
      → DecoratorReturns o
      → IsOpen t ⊎ IsClosed t
      → (step from_error o op t).1 ≡ returned (result op)
  unfolding step Stream.header Stream.send_msg Stream.recv_msg Stream.close_send
      goroutine_sees_close goroutine_sees_done finalize ◌>>=◌
  step-returns op t dr (inr c) = (step-IsClosed from_error o t op c).0
  step-returns (header none) t dr (inl h) = refl
  step-returns (header (some e)) t dr (inl h) =
      ground (arith, finish_func-returns (some e) t dr h.0)
  step-returns (send_msg none) t dr (inl h) = refl
  step-returns (send_msg (some e)) t dr (inl h) =
      ground (arith, finish_func-returns (some e) t dr h.0)
  step-returns (recv_msg none) t dr (inl h) = ground (arith, finish_func-returns none t dr h.0)
  step-returns (recv_msg (some eof)) t dr (inl h) =
      ground (arith, finish_func-returns none t dr h.0)
  step-returns (recv_msg (some e)) t dr (inl h) =
      ground (arith, finish_func-returns (some e) t dr h.0)
  step-returns (close_send none) t dr (inl h) = refl
  step-returns (close_send (some e)) t dr (inl h) =
      ground (arith, finish_func-returns (some e) t dr h.0)
  step-returns sees_close t dr (inl h) = ground arith
  step-returns finalized t dr (inl h) = ground (arith, finish_func-returns none t dr h.0)
  step-returns (sees_done e) t dr (inl h) =
      ground (arith, finish_func-returns (some e) (record t { goroutine_waits = false }) dr h.0)
