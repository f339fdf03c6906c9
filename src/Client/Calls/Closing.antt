-- ===== src/Client/Calls/Closing.antt =====
-- What `TripleClient.Close` closes of what `NewTripleClient` has dialled.
use triple.Base.{
  Exit, Bool, eq_iff, arith, sym, ◌∙◌, ap, subst, ◌==◌, ◌≡◌, false, true, Bool-cases, inl, inr,
  if◌then◌else◌, pure, modify, ◌>>=◌, ℕ, none, some, List, Option, returned, Post, ◌∷◌, refl,
}
use triple.Client.Calls.{client_close, close_open, open_conn}
use triple.Client.Dialing.{new_triple_client, option_or_default, StubLib, TripleClient}
use triple.Client.Dialing.Outcomes.{dial_call, log_call-returns, new_triple_client-connected}
use triple.Client.Dialing.Wiring.{IsOutcome, IsWired, new_triple_client-IsOutcome}
use triple.Client.Network.{close_conn, Net, GrpcLib}
use triple.Common.Constant.{pb_codec_name}
use triple.Common.Config.{TripleOption}
use triple.Common.Error.{Err}
use triple.Common.Logger.{CanLog, debug}
use triple.Security.{get_client_tls_certificate, TlsFiles}

abbrev with_conn : Option ℕ → List ℕ → List ℕ
with_conn (some conn) closed = conn ∷ closed
with_conn none closed = closed

module _ {S : Type 0} where
  close_open-closes :
      (o : Option ℕ) (n : Net S)
      → ((close_open o n).1 ≡ returned tt)
        × ((close_open o n).0.closed_conns ≡ with_conn o n.closed_conns)
  unfolding close_open close_conn pure modify
  close_open-closes none n = (refl, refl)
  close_open-closes (some conn) n = (refl, refl)

  client_close-closes :
      (c : TripleClient) (n : Net S)
      → CanLog c.opt.logger
      → ((client_close c n).1 ≡ returned tt)
        × ((client_close c n).0.closed_conns ≡ with_conn (open_conn c) n.closed_conns)
  unfolding client_close ◌>>=◌
  client_close-closes c n h =
      let (entries, e) = log_call-returns c.opt.logger debug "Triple Client Is closing" n h in
      rw e (close_open-closes (open_conn c) (record n { logs = entries }))

module _ {S Codec : Type 0} (grpc : GrpcLib S Codec) (stubs : StubLib S) (files : TlsFiles)
    (opt : Option TripleOption) (n : Net S) (c : TripleClient) where
  made-IsOutcome :
      (new_triple_client grpc stubs files opt n).1 ≡ returned (some c, none)
      → ((get_client_tls_certificate files (option_or_default opt)).1 ≡ none)
        × IsWired (option_or_default opt) c
  made-IsOutcome made =
      subst
        (Post (
          IsOutcome (option_or_default opt)
            (get_client_tls_certificate files (option_or_default opt))))
        made (new_triple_client-IsOutcome grpc stubs files opt n)

  made-open_conn :
      (conn : Option ℕ) (err : Option Err)
      → (new_triple_client grpc stubs files opt n).1 ≡ returned (some c, none)
      → (dial_call grpc stubs files opt n).1 ≡ returned (conn, err)
      → open_conn c ≡ (if (option_or_default opt).codec_type == pb_codec_name then none else conn)
  made-open_conn conn err made dialled =
      let o = option_or_default opt in
      let (tls, wired) = made-IsOutcome made in
      elim (Bool-cases (o.codec_type == pb_codec_name)) [
        | inl pb ↦ rw (pb, (wired.with_stub pb).1) refl
        | inr other ↦
            let connected =
              new_triple_client-connected grpc stubs files opt n conn err tls
                (λ e. ground (arith, eq_iff o.codec_type pb_codec_name, e, other)) dialled in
            rw other (ap open_conn (made_is (sym (ap (λ r. r.1) connected) ∙ made)))
      ]
    where
      made_is :
          {d : TripleClient}
          → ◌≡◌ {A = Exit (Option TripleClient × Option Err)}
              (returned (some d, none))
              (returned (some c, none))
          → c ≡ d
      made_is e = cc

  -- A client that `NewTripleClient` has made closes, whenever `Close` is called, exactly the connection
  -- that was dialled for it, none where the dial failed; but with protobuf it closes none, although
  -- one was dialled. `Close` returns. The dial returned, and the option's logger can log.
  pub new_triple_client-client_close :
      (conn : Option ℕ) (err : Option Err) (later : Net S)
      → (new_triple_client grpc stubs files opt n).1 ≡ returned (some c, none)
      → (dial_call grpc stubs files opt n).1 ≡ returned (conn, err)
      → CanLog (option_or_default opt).logger
      → let run = client_close c later in
        (run.1 ≡ returned tt)
        × (run.0.closed_conns ≡ (
            if (option_or_default opt).codec_type == pb_codec_name
            then later.closed_conns
            else elim conn [ some k ↦ k ∷ later.closed_conns | none ↦ later.closed_conns ]))
  new_triple_client-client_close conn err later made dialled h =
      let o = option_or_default opt in
      let can = subst (λ p. CanLog p.logger) (sym (made-IsOutcome made).1.opt_is) h in
      let (ends, closes) = client_close-closes c later can in
      (
        ends,
        closes
            ∙ rw (made-open_conn conn err made dialled)
                (closed (o.codec_type == pb_codec_name) conn),
      )
    where
      closed :
          (b : Bool) (o : Option ℕ)
          → with_conn (if b then none else o) later.closed_conns ≡ (
              if b
              then later.closed_conns
              else elim o [ some k ↦ k ∷ later.closed_conns | none ↦ later.closed_conns ])
      closed true o = refl
      closed false none = refl
      closed false (some k) = refl
