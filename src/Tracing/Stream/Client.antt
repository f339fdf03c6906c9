-- ===== src/Tracing/Stream/Client.antt =====
-- The traced client stream over any sequence of its calls, its goroutine and its finalizer.
pub mod Lifetime
use triple.Tracing.Stream
use triple.Common.Error.{status_errorf, nil_value, Err, eof}
use triple.Base.{
  if◌then◌else◌, state-then_pure, inr, inl, sym, Bool-cases, subst, refl, [], none, pure, ◌||◌, not,
  ℕ, ◌>>◌, ◌∷◌, some, ◌>>=◌, arith, returned, true, false, M, ◌≡◌, is_some, List, Option, Exit,
  Bool,
}
use triple.Tracing.ErrorClass.{StatusLib}
use triple.Tracing.Stream.{
  goroutine_sees_done, finalize, goroutine_sees_close, report_end, on_world, finish_span,
  close_finish_chan, finish_won, finish_func, TracedStream,
}
use triple.Tracing.Options.{finishes-set_span_tags, DecoratorKeepsFinishes, Options}
use triple.Tracing.World.{error_event, log_fields, record_event, World, finishes}

-- An operation, with the error that the wrapped stream's call returns.
pub data Op : Type 0 where
  header send_msg recv_msg close_send : Option Err → Op
  sees_close finalized : Op
  sees_done : Err → Op

-- The span is not finished yet and the channel not closed.
abbrev pub IsUnfinished : TracedStream → Type 0
IsUnfinished t =
    (t.is_finished ≡ 0) × (t.finish_chan_closed ≡ false) × (finishes t.span t.world ≡ 0)

-- Moreover the goroutine still waits.
abbrev pub IsOpen : TracedStream → Type 0
IsOpen t = IsUnfinished t × (t.goroutine_waits ≡ true)

-- The span has been finished once, and the channel is closed, so the goroutine can end.
abbrev pub IsClosed : TracedStream → Type 0
IsClosed t = (t.is_finished ≡ 1) × (t.finish_chan_closed ≡ true) × (finishes t.span t.world ≡ 1)

-- The error that the caller of the operation sees: that of the wrapped stream's call.
abbrev pub result : Op → Option Err
result (header e) = e
result (send_msg e) = e
result (recv_msg e) = e
result (close_send e) = e
result sees_close = none
result finalized = none
result (sees_done e) = none

module _ (from_error : StatusLib) (o : Options) where
  -- The state after the operation, and its exit: the error that the caller sees, or nil.
  unfoldable pub step : Op → M TracedStream (Option Err)
  step (header e) = Stream.header from_error o e
  step (send_msg e) = Stream.send_msg from_error o e
  step (recv_msg e) = Stream.recv_msg from_error o e
  step (close_send e) = Stream.close_send from_error o e
  step sees_close = do goroutine_sees_close from_error o; pure none
  step finalized = do finalize from_error o; pure none
  step (sees_done e) = do goroutine_sees_done from_error o e; pure none

  -- A panic of the decorator reaches one caller; the stream goes on.
  unfoldable pub run : List Op → TracedStream → TracedStream
  run [] t = t
  run (op ∷ ops) t = run ops (step op t).0

-- The operation ends an open stream.
abbrev pub ends : Bool → Op → Bool
ends server_streams (header e) = is_some e
ends server_streams (send_msg e) = is_some e
ends server_streams (close_send e) = is_some e
ends server_streams (recv_msg (some e)) = true
ends server_streams (recv_msg none) = not server_streams
ends server_streams sees_close = false
ends server_streams finalized = true
ends server_streams (sees_done e) = true

abbrev pub any_ends : Bool → List Op → Bool
any_ends b [] = false
any_ends b (op ∷ ops) = ends b op || any_ends b ops

module _ (from_error : StatusLib) (o : Options) where
  finish_func-closed :
      (err : Option Err) (t : TracedStream)
      → IsClosed t
      → finish_func from_error o err t ≡ (t, returned tt)
  unfolding finish_func
  finish_func-closed err t c = ground arith

  pub finishes-report_end :
      (s span : ℕ) (err : Option Err) (w : World)
      → finishes s (report_end from_error o span err w) ≡ finishes s w
  unfolding report_end
  finishes-report_end s span none w = refl
  finishes-report_end s span (some e) w = omega (
    arith,
    finishes-set_span_tags s from_error span (some e) true
        (record_event (log_fields span (error_event e)) w),
  )

  finish_func-open :
      (err : Option Err) (t : TracedStream)
      → DecoratorKeepsFinishes t.span o
      → IsUnfinished t
      → IsClosed (finish_func from_error o err t).0
  unfolding finish_func finish_won close_finish_chan finish_span on_world ◌>>=◌
  finish_func-open err t kd h = ground (
    arith,
    (kd t.stream.context t.method nil_value nil_value err).at
        (report_end from_error o t.span err t.world),
    finishes-report_end t.span t.span err t.world,
  )

  finish_func-frame :
      (err : Option Err) (t : TracedStream)
      → let u = (finish_func from_error o err t).0 in
        (u.span ≡ t.span) × (u.server_streams ≡ t.server_streams)
  unfolding finish_func finish_won close_finish_chan finish_span on_world ◌>>=◌
  finish_func-frame err t = ground arith

-- What an operation leaves of a stream that was open: a finished one, or the stream as it was.
abbrev pub After : Bool → TracedStream → TracedStream → Type 0
After true t u = IsClosed u × (u.span ≡ t.span) × (u.server_streams ≡ t.server_streams)
After false t u = u ≡ t

module _ (from_error : StatusLib) (o : Options) where
  finish_func-After :
      (t : TracedStream) (err : Option Err)
      → DecoratorKeepsFinishes t.span o
      → IsUnfinished t
      → After true t (finish_func from_error o err t).0
  finish_func-After t err kd h =
      let frame = finish_func-frame from_error o err t in
      (finish_func-open from_error o err t kd h, frame.0, frame.1)

module _ (from_error : StatusLib) (o : Options) (t : TracedStream) where
  -- The operation calls `finishFunc` and then returns.
  finish_then-After :
      (err : Option Err) {A : Type 0} (a : A)
      → DecoratorKeepsFinishes t.span o
      → IsUnfinished t
      → After true t ((finish_func from_error o err >> pure a) t).0
  finish_then-After err a kd h =
      subst (After true t) (sym (state-then_pure (finish_func from_error o err) a t))
        (finish_func-After from_error o t err kd h)

  recv_reply-open :
      (many : Bool)
      → DecoratorKeepsFinishes t.span o
      → IsOpen t
      → After
          (not many)
          t
          (if many
            then (t, returned none)
            else (finish_func from_error o none >> pure {A = Option Err} none) t).0
  recv_reply-open true kd h = refl
  recv_reply-open false kd h = finish_then-After none none kd h.0

  recv_msg-open :
      (e : Option Err)
      → DecoratorKeepsFinishes t.span o
      → IsOpen t
      → After (ends t.server_streams (recv_msg e)) t (Stream.recv_msg from_error o e t).0
  unfolding Stream.recv_msg
  recv_msg-open none kd h = recv_reply-open t.server_streams kd h
  recv_msg-open (some eof) kd h = finish_then-After none (some eof) kd h.0
  recv_msg-open (some e) kd h = finish_then-After (some e) (some e) kd h.0

  sees_done-open :
      (e : Err)
      → DecoratorKeepsFinishes t.span o
      → IsOpen t
      → After true t (goroutine_sees_done from_error o e t).0
  unfolding goroutine_sees_done
  sees_done-open e kd h =
      rw h.1 (finish_func-After from_error o (record t { goroutine_waits = false }) (some e) kd h.0)

  -- One operation on an open stream: it finishes the span exactly if it ends the stream.
  pub step-IsOpen :
      (op : Op)
      → DecoratorKeepsFinishes t.span o
      → IsOpen t
      → After (ends t.server_streams op) t (step from_error o op t).0
  unfolding step Stream.header Stream.send_msg Stream.close_send goroutine_sees_close finalize ◌>>=◌
  step-IsOpen (header none) kd h = refl
  step-IsOpen (header (some e)) kd h = finish_then-After (some e) (some e) kd h.0
  step-IsOpen (send_msg none) kd h = refl
  step-IsOpen (send_msg (some e)) kd h = finish_then-After (some e) (some e) kd h.0
  step-IsOpen (recv_msg e) kd h = recv_msg-open e kd h
  step-IsOpen (close_send none) kd h = refl
  step-IsOpen (close_send (some e)) kd h = finish_then-After (some e) (some e) kd h.0
  step-IsOpen sees_close kd h = ground arith
  step-IsOpen finalized kd h = finish_then-After none none kd h.0
  step-IsOpen (sees_done e) kd h =
      subst (After true t) (sym (state-then_pure (goroutine_sees_done from_error o e) none t))
        (sees_done-open e kd h)

  -- On a finished stream every operation returns and changes nothing but the goroutine.
  pub step-IsClosed :
      (op : Op)
      → IsClosed t
      → let (u, e) = step from_error o op t in
        (e ≡ returned (result op))
        × IsClosed u
        × (u.span ≡ t.span)
        × (u.server_streams ≡ t.server_streams)
        × (u.world ≡ t.world)
  unfolding step Stream.header Stream.send_msg Stream.recv_msg Stream.close_send
      goroutine_sees_close goroutine_sees_done finalize ◌>>=◌
  step-IsClosed (header none) c = ground arith
  step-IsClosed (header (some e)) c = ground (arith, finish_func-closed from_error o (some e) t c)
  step-IsClosed (send_msg none) c = ground arith
  step-IsClosed (send_msg (some e)) c = ground (arith, finish_func-closed from_error o (some e) t c)
  step-IsClosed (recv_msg none) c = ground (arith, finish_func-closed from_error o none t c)
  step-IsClosed (recv_msg (some eof)) c = ground (arith, finish_func-closed from_error o none t c)
  step-IsClosed (recv_msg (some e)) c = ground (arith, finish_func-closed from_error o (some e) t c)
  step-IsClosed (close_send none) c = ground arith
  step-IsClosed (close_send (some e)) c =
      ground (arith, finish_func-closed from_error o (some e) t c)
  step-IsClosed sees_close c = ground arith
  step-IsClosed finalized c = ground (arith, finish_func-closed from_error o none t c)
  step-IsClosed (sees_done e) c =
      ground
        (arith, finish_func-closed from_error o (some e) (record t { goroutine_waits = false }) c)
