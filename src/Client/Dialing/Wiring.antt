-- ===== src/Client/Dialing/Wiring.antt =====
-- What `NewTripleClient` ends with, whatever the network and the stub do.
use mathlib.Core.Bool.{false≢true}
use triple.Client.Dialing.{
  dial_options, option_or_default, new_triple_client, StubLib, TripleClient, connect, dial_client,
  new_with_creds,
}
use triple.Base.{
  any-Post, bind-Post, Post, inr, ◌∙◌, false, sym, inl, ℕ, none, Bool-cases, true, some, pure, ◌==◌,
  ◌≡◌, Option, refl,
}
use triple.Client.Network.{Net, GrpcLib}
use triple.Common.Config.{TripleOption}
use triple.Security.{get_client_tls_certificate, insecure, Credentials, TlsFiles, Creds}
use triple.Client.Connection.{TripleConn}
use triple.Common.Error.{Err}
use triple.Common.Constant.{pb_codec_name}
use triple.Client.Connection.Dialled.{new_triple_conn-timeout}

-- With protobuf the client has a stub and no connection, and else a connection with the option's
-- timeout and no stub.
pub record IsWired (o : TripleOption) (c : TripleClient) : Type 0 where
  pub opt_is : c.opt ≡ o
  pub with_stub :
      (o.codec_type == pb_codec_name) ≡ true
      → ((stub : ℕ) × (c.stub_invoker ≡ some stub)) × (c.tripl_conn ≡ none)
  pub with_conn :
      (o.codec_type == pb_codec_name) ≡ false
      → ((t : TripleConn) × (c.tripl_conn ≡ some t) × (t.timeout ≡ o.timeout))
        × (c.stub_invoker ≡ none)

-- A client or an error, never both and never neither: the client is wired as its option says, and the
-- error is the one of the TLS configuration.
abbrev pub IsOutcome : TripleOption → Creds → Option TripleClient × Option Err → Type 0
IsOutcome o creds (some c, none) = (creds.1 ≡ none) × IsWired o c
IsOutcome o creds (none, some err) = creds.1 ≡ some err
IsOutcome o creds (some c, some err) = ⊥
IsOutcome o creds (none, none) = ⊥

module _ {S Codec : Type 0} (grpc : GrpcLib S Codec) (stubs : StubLib S) (files : TlsFiles) where
  connect-IsWired :
      (o : TripleOption) (conn : TripleConn) (n : Net S)
      → conn.timeout ≡ o.timeout
      → Post (IsWired o) (connect grpc stubs files o conn n).1
  unfolding connect pure
  connect-IsWired o conn n e = elim (Bool-cases (o.codec_type == pb_codec_name)) [
    | inl pb ↦ rw pb (
        bind-Post (λ s. Unit {0}) (IsWired o) _ _ n (any-Post _)
          λ stub t u. record {
            opt_is = refl;
            with_stub = λ e. ((stub, refl), refl);
            with_conn = λ other. absurd (false≢true (sym other ∙ pb));
          })
    | inr other ↦ rw other (record {
      opt_is = refl;
      with_stub = λ pb. absurd (false≢true (sym other ∙ pb));
      with_conn = λ u. ((conn, refl, e), refl);
    })
  ]

  dial_client-IsOutcome :
      (o : TripleOption) (credentials : Credentials) (creds : Creds) (n : Net S)
      → creds.1 ≡ none
      → Post (IsOutcome o creds) (dial_client grpc stubs files o credentials n).1
  unfolding dial_client pure
  dial_client-IsOutcome o credentials creds n ok =
      bind-Post (λ t. t.timeout ≡ o.timeout) _ _ _ n
        (new_triple_conn-timeout grpc o.timeout o.location (dial_options o credentials) n)
        λ conn t e. bind-Post (IsWired o) _ _ _ t (connect-IsWired o conn t e) λ c t' w. (ok, w)

  new_with_creds-IsOutcome :
      (o : TripleOption) (creds : Creds) (n : Net S)
      → Post (IsOutcome o creds) (new_with_creds grpc stubs files o creds n).1
  unfolding new_with_creds pure
  new_with_creds-IsOutcome o (c, some err) n =
      bind-Post (λ u. Unit {0}) _ _ _ n (any-Post _) λ u t x. refl
  new_with_creds-IsOutcome o (some c, none) n = dial_client-IsOutcome o c (some c, none) n refl
  new_with_creds-IsOutcome o (none, none) n = dial_client-IsOutcome o insecure (none, none) n refl

  -- Whatever the network, the stub and the logger do, if `NewTripleClient` returns, it returns a client
  -- or an error, never both and never neither. The error is the one of the TLS configuration; the client
  -- has the option that was given, or the default one, and with protobuf a stub alone, else a connection
  -- alone, with the option's timeout.
  pub new_triple_client-IsOutcome :
      (opt : Option TripleOption) (n : Net S)
      → let o = option_or_default opt in
        Post
          (IsOutcome o (get_client_tls_certificate files o))
          (new_triple_client grpc stubs files opt n).1
  unfolding new_triple_client
  new_triple_client-IsOutcome opt n = new_with_creds-IsOutcome (option_or_default opt) _ n
