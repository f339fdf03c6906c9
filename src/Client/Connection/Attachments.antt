-- ===== src/Client/Connection/Attachments.antt =====
-- What a call on a connection gives back.
use triple.Base.{
  eq_iff, ap, [], ◌∷◌, ◌+◌, panicked, arith, returned, ◌>>=◌, ◌≡◌, proceed, none, pure, Exit, some,
  String, List, Option, refl,
}
use triple.Client.Network.{cancel, Reply, with_timeout, Net, Arg, GrpcLib}
use triple.Client.Connection.{invoke_body, conn_invoke, attachments_of, TripleConn}
use triple.Common.Context.{Md, Context}
use triple.Base.Dict.{lookup-insert, insert, HasUniqueKeys, lookup}
use triple.Common.Error.{strings, Value}
use triple.Common.Attachment.{
  ErrorWithAttachment, get_attachments, get_error, new_error_with_attachment, DubboAttachment,
}

-- The attachment that a trailer's values become.
abbrev pub as_attachment : Option (List String) → Option Value
as_attachment none = none
as_attachment (some v) = some (strings v)

abbrev or_old : Option (List String) → Option Value → Option Value
or_old none old = old
or_old (some v) old = some (strings v)

lookup-attachments_of :
    (k : String) (atta : DubboAttachment) (trailer : Md)
    → HasUniqueKeys trailer
    → lookup k (attachments_of atta trailer) ≡ or_old (lookup k trailer) (lookup k atta)
unfolding attachments_of lookup
lookup-attachments_of k atta [] u = refl
lookup-attachments_of k atta ((j, v) ∷ trailer) u = ground (
  arith,
  lookup-attachments_of k (insert j (strings v) atta) trailer u.1,
  lookup-insert j k (strings v) atta,
  eq_iff j k,
)

-- Each entry of a Go map becomes an attachment, and there are no others.
attachments_of-lookup :
    (trailer : Md) (k : String)
    → HasUniqueKeys trailer
    → lookup k (attachments_of [] trailer) ≡ as_attachment (lookup k trailer)
unfolding lookup
attachments_of-lookup trailer k u = ground (arith, lookup-attachments_of k [] trailer u)

module _ {S Codec : Type 0} (grpc : GrpcLib S Codec) (t : TripleConn) (ctx : Context)
    (method : String) (args : List Arg) (reply : Value) (opts : List Codec) (n : Net S) where
  -- The call that is made on the connection, with a timer running.
  abbrev pub grpc_call : Net S × Exit Reply
  grpc_call = grpc.invoke t.grpc_conn ctx t.timeout method args reply opts (with_timeout n)

  -- What the caller gets for the end of the call.
  abbrev pub GivesBack : Exit Reply → Exit ErrorWithAttachment → Type 0
  GivesBack panicked e = e ≡ panicked
  GivesBack (returned r) e =
      (x : ErrorWithAttachment) × (e ≡ returned x)
      × (get_error x ≡ r.err)
      × (HasUniqueKeys r.trailer
          → (k : String) → lookup k (get_attachments x) ≡ as_attachment (lookup k r.trailer))

  conn_invoke-GivesBack :
      (end : Net S × Exit Reply)
      → GivesBack end.1
          (proceed end.1
            (λ r. pure (new_error_with_attachment r.err (attachments_of [] r.trailer)))
            end.0).1
  unfolding new_error_with_attachment get_error get_attachments pure
  conn_invoke-GivesBack (m, panicked) = refl
  conn_invoke-GivesBack (m, returned r) =
      (_, refl, refl, λ u k. attachments_of-lookup r.trailer k u)

  proceed-state :
      (end : Net S × Exit Reply)
      → (proceed end.1
          (λ r. pure (new_error_with_attachment r.err (attachments_of [] r.trailer)))
          end.0).0
        ≡ end.0
  unfolding pure
  proceed-state (m, panicked) = refl
  proceed-state (m, returned r) = refl

  -- The same where grpc returns, with the state that the call leaves.
  pub conn_invoke-returned :
      (m : Net S) (r : Reply)
      → grpc_call ≡ (m, returned r)
      → (x : ErrorWithAttachment) × (conn_invoke grpc t ctx method args reply opts n
          ≡ (cancel m, returned x))
        × (get_error x ≡ r.err)
        × (HasUniqueKeys r.trailer
            → (k : String) → lookup k (get_attachments x) ≡ as_attachment (lookup k r.trailer))
  unfolding conn_invoke invoke_body new_error_with_attachment get_error get_attachments ◌>>=◌
  conn_invoke-returned m r e = (
    record { err = r.err; attachments = attachments_of [] r.trailer },
    rw e refl,
    refl,
    λ u k. attachments_of-lookup r.trailer k u,
  )

  -- A call on a connection makes one call of grpc with the connection's timeout. Its error is handed
  -- on, and each entry of its trailer, if that is a Go map, becomes an attachment under its key, and
  -- there are no others; a panic is handed on. The timer of the call is cancelled in each case, so
  -- no timer is left where grpc leaves the number of timers as it is.
  pub conn_invoke_lem :
      let run = conn_invoke grpc t ctx method args reply opts n in
      GivesBack grpc_call.1 run.1
      × (grpc_call.0.live_timers ≡ n.live_timers + 1 → run.0.live_timers ≡ n.live_timers)
  unfolding conn_invoke invoke_body with_timeout cancel ◌>>=◌
  conn_invoke_lem = (
    conn_invoke-GivesBack grpc_call,
    λ e. ground (arith, e, ap (λ m. m.live_timers) (proceed-state grpc_call)),
  )
