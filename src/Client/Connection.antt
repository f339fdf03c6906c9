-- ===== src/Client/Connection.antt =====
-- pkg/triple/dubbo3_conn.go: `TripleConn`.
pub mod Attachments
pub mod Dialled
use triple.Base.{[], ◌∷◌, defer, pure, modify, ◌>>◌, ◌>>=◌, M, ℕ, List, String, Option, refl}
use triple.Common.Attachment.{new_error_with_attachment, ErrorWithAttachment, DubboAttachment}
use triple.Base.Int.{ℤ}
use triple.Client.Network.{cancel, with_timeout, Net, DialOption, Arg, GrpcLib}
use triple.Common.Context.{Md, Context}
use triple.Common.Error.{Err, strings, Value}
use triple.Base.Dict.{insert}

pub record TripleConn : Type 0 where
  pub timeout : ℤ
  pub grpc_conn : Option ℕ

-- `atta[k] = v` for each entry of the trailer.
attachments_of : DubboAttachment → Md → DubboAttachment
attachments_of atta [] = atta
attachments_of atta ((k, v) ∷ trailer) = attachments_of (insert k (strings v) atta) trailer

module _ {S Codec : Type 0} (grpc : GrpcLib S Codec) where
  -- The body of `Invoke`, behind the deferred `cancel`. The options of the call are its codec.
  invoke_body :
      TripleConn → Context → String → List Arg → Value → List Codec → M (Net S) ErrorWithAttachment
  unfolding attachments_of
  invoke_body t ctx method args reply opts = do
    r ← grpc.invoke t.grpc_conn ctx t.timeout method args reply opts
    pure (new_error_with_attachment r.err (attachments_of [] r.trailer))

  unfoldable pub conn_invoke :
      TripleConn → Context → String → List Arg → Value → List Codec → M (Net S) ErrorWithAttachment
  unfolding invoke_body
  conn_invoke t ctx method args reply opts = do
    modify with_timeout
    defer cancel (invoke_body t ctx method args reply opts)

  -- The error of the dial is dropped.
  dial : ℤ → String → List DialOption → M (Net S) TripleConn
  dial timeout address opts = do
    (conn, err) ← grpc.dial_context timeout address opts
    pure (record { timeout = timeout; grpc_conn = conn })

  unfoldable pub new_triple_conn : ℤ → String → List DialOption → M (Net S) TripleConn
  unfolding dial
  new_triple_conn timeout address opts = do
    modify with_timeout
    defer cancel (dial timeout address opts)

  unfoldable pub conn_new_stream : TripleConn → Context → String → M (Net S) (Option ℕ × Option Err)
  conn_new_stream t ctx method = grpc.new_client_stream t.grpc_conn ctx method
