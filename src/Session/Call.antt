-- ===== src/Session/Call.antt =====
-- One call from `TripleClient.Invoke` (pkg/triple/dubbo3_client.go) over `TripleConn.Invoke`
-- (dubbo3_conn.go) to the handler of `createGrpcDesc` (dubbo3_server.go), and back.
use triple.Base.{
  subst, sym, ◌∙◌, ap, concat, ◌+◌, ◌-◌, arith, returned, ◌≢◌, ◌≡◌, some, Exit, Option, List,
  String, [], ◌∷◌,
}
use triple.Base.Dict.{lookup, HasUniqueKeys}
use triple.Client.Calls.{invoke, client_codec}
use triple.Client.Calls.Remote.{invoke-conn_invoke}
use triple.Client.Connection.{conn_invoke, TripleConn}
use triple.Client.Connection.Attachments.{as_attachment, conn_invoke-returned}
use triple.Client.Dialing.{TripleClient, StubLib}
use triple.Client.Network.{context, Arg, Net, GrpcLib, Reply, with_timeout, cancel}
use triple.Common.Attachment.{get_error, get_attachments, ErrorWithAttachment}
use triple.Common.Codec.{Registry, EncodingLib}
use triple.Common.Constant.{interface_key, pb_codec_name}
use triple.Common.Context.{value_of, Context}
use triple.Common.Error.{text, success, Err, Value}
use triple.Common.Logger.{LogEntry, CanLog}
use triple.Server.Handler.{invoke_handler, method_key, Decoder, GenericLib, UnaryService}
use triple.Server.Handler.Endings.{Ending, invoke_handler-Ending}
use triple.Server.Options.Building.Agreement.{wrapped}

-- `"/"+interfaceKey+"/"+methodName`
abbrev pub call_path : String → String → String
call_path key name = concat "/" (concat key (concat "/" name))

-- What grpc-go and the codec do between the two sides: the server's context for the client's and the
-- method that is called, the decoder of a request, and the reply that the handler's end becomes.
pub record Transport (S : Type 0) : Type 0 where
  pub server_context : Context → String → Context
  pub decoder : List Arg → Decoder S
  pub reply_of : Exit (Value × Option Err) → Reply

module _ {S Codec : Type 0} (grpc : GrpcLib S Codec) (stubs : StubLib S) (lib : EncodingLib Codec)
    (registry : Registry Codec) (c : TripleClient) (t : TripleConn) (codec : Codec)
    (generic : GenericLib) (service base : UnaryService S) (net : Transport S) (key : String) where
  -- The handler's run for a call.
  abbrev pub handled : Context → String → List Arg → S → S × Exit (Value × Option Err)
  handled ctx name params =
      invoke_handler generic service base (net.server_context ctx name) (net.decoder params)

  -- The network brings this call with the wrapped codec under the service's key to the handler of its
  -- descriptor, in a context that names the method, and brings the reply back. It changes nothing else.
  pub record Delivers (ctx : Context) (name : String) (params : List Arg) (reply : Value)
      : Type 0 where
    pub named : value_of (net.server_context ctx name) method_key ≡ text name
    pub delivers :
        (n : Net S)
        → grpc.invoke t.grpc_conn ctx t.timeout
            (call_path key name)
            params
            reply
            (wrapped lib c.opt.codec_type codec ∷ [])
            n
          ≡ (
            record n { world = (handled ctx name params n.world).0 },
            returned (net.reply_of (handled ctx name params n.world).1),
          )

  -- What the caller holds in the end, for what the handler's run `r` was.
  pub record Answers (n : Net S) (r : S × Exit (Value × Option Err))
      (run : Net S × Exit ErrorWithAttachment) : Type 0 where
    pub entries : List LogEntry
    pub answer : ErrorWithAttachment
    pub ends : run ≡ (record n { world = r.0; logs = entries }, returned answer)
    pub error : get_error answer ≡ (net.reply_of r.1).err
    pub attachments :
        HasUniqueKeys (net.reply_of r.1).trailer
        → (k : String)
        → lookup k (get_attachments answer) ≡ as_attachment (lookup k (net.reply_of r.1).trailer)

  delivered-Answers :
      (ctx : Context) (name : String) (params : List Arg) (reply : Value) (n : Net S)
      (entries : List LogEntry)
      → Delivers ctx name params reply
      → Answers n (handled ctx name params n.world) (
          conn_invoke grpc t ctx
            (call_path key name)
            params
            reply
            (wrapped lib c.opt.codec_type codec ∷ [])
            (record n { logs = entries }))
  unfolding with_timeout cancel
  delivered-Answers ctx name params reply n entries d =
      let m : Net S = record n { logs = entries } in
      let (x, e, error, attachments) =
        conn_invoke-returned grpc t ctx (call_path key name) params reply
          (wrapped lib c.opt.codec_type codec ∷ []) m _ _ (d.delivers (with_timeout m)) in
      let restored : n.live_timers + 1 - 1 ≡ n.live_timers = omega arith in
      record {
        entries = entries;
        answer = x;
        ends =
            e
            ∙ ap
                (λ k. (
                  record m { world = (handled ctx name params n.world).0; live_timers = k },
                  returned x,
                ))
                restored;
        error = error;
        attachments = attachments;
      }

  -- A client whose codec is not protobuf and is known, on a connection over which the network
  -- delivers, calls a method under the service's key. Then the handler runs once, on the world as it is
  -- at the call and in a context with the method's name, and ends in one of the ways of `Ending`.
  -- `Invoke` returns: its error is the one of the reply that the handler's end becomes, also where the
  -- handler fails or panics, and each entry of the reply's trailer, if that is a Go map, is an attachment
  -- under its key, and there are no others. Nothing but the handler has touched the world, and no
  -- timer is left. The logger can log.
  pub call_lem :
      (ctx : Context) (name : String) (params : List Arg) (reply : Value) (n : Net S)
      → Delivers ctx name params reply
      → CanLog c.opt.logger
      → c.opt.codec_type ≢ pb_codec_name
      → c.tripl_conn ≡ some t
      → value_of ctx interface_key ≡ text key
      → client_codec lib registry c.opt.codec_type ≡ success codec
      → let r = handled ctx name params n.world in
        (value_of (net.server_context ctx name) method_key ≡ text name)
        × Ending generic service base (net.server_context ctx name) (net.decoder params) n.world r
        × Answers n r (invoke grpc stubs lib registry c name (context ctx ∷ params) reply n)
  call_lem ctx name params reply n d can other has keyed coded =
      let (entries, e) =
        invoke-conn_invoke grpc stubs lib registry c t ctx key name codec params reply n can other
          has keyed coded in
      (
        d.named,
        invoke_handler-Ending generic service base (net.server_context ctx name)
            (net.decoder params) n.world,
        subst (Answers n (handled ctx name params n.world)) (sym e)
            (delivered-Answers ctx name params reply n entries d),
      )
