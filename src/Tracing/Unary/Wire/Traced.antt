-- ===== src/Tracing/Unary/Wire/Traced.antt =====
-- A traced call from the client to the handler: one trace, with two spans.
use triple.Tracing.Unary.Wire.Parent.{remote-parent}
use triple.Base.{
  refl, ap, some, ◌≤◌, none, ◌∙◌, ℕ, arith, Option, false, sym, ◌++◌, ◌+◌, returned, ◌≡◌, M, Exit,
  String, List, ◌∷◌,
}
use triple.Tracing.ErrorClass.{StatusLib}
use triple.Tracing.Metadata.{Tracer, MetadataLib}
use triple.Tracing.Options.{
  DecoratorReturns, KeepsFinishes, log_request, is_excluded, TracingOption,
}
use triple.Common.Context.{Context}
use triple.Common.Error.{nil_value, Value}
use triple.Tracing.Unary.{
  client_interceptor, client_body, parent_context, otgrpc_opts, server_interceptor, UnaryInvoker,
  UnaryReply, UnaryResponse, UnaryHandler,
}
use triple.Tracing.World.{rpc_client, finished, Event, rpc_server, start_span, finishes, World}
use triple.Tracing.Metadata.Propagation.{Collects, IsMetadataLib, HasGoMaps, carried, values_under}
use triple.Tracing.Unary.Client.{client_interceptor-transparent, before_invoker}
use triple.Tracing.Unary.Wire.{
  finishes-start_span, client_body-finishes, DecoratorKeepsUpTo, before_invoker-finishes,
  before_invoker-next_span, server_interceptor-finishes,
}
use triple.Tracing.Metadata.Carrier.{written_under}
use triple.Tracing.Span.{with_span-finishes_other, with_span-finishes_at}
use triple.Tracing.Unary.Server.{server_interceptor-transparent, before_handler}

module _ {X : Type 0} (from_error : StatusLib) (lib : MetadataLib) (client_tracer : Tracer X)
    (server_tracer : Tracer (List (String × String))) (client_opts server_opts : List TracingOption)
    (ctx server_ctx : Context) (method : String) (req resp : Value) (handler : UnaryHandler)
    (deliver : Exit UnaryResponse → UnaryReply) (invoker : UnaryInvoker) where
  -- The server's context with the metadata of the call.
  abbrev received : Context → Context
  received c = record server_ctx { incoming = c.outgoing }

  abbrev serve : Context → M World UnaryResponse
  serve c = server_interceptor from_error lib server_tracer server_opts c req method handler

  -- The network hands the outgoing metadata of the call to the server's interceptor as the incoming
  -- ones, and makes the client's reply of what the server ends with.
  abbrev pub Reaches : Type 0
  Reaches =
      (c : Context) (w : World)
      → invoker c method req resp w
        ≡ ((serve (received c) w).0, returned (deliver (serve (received c) w).1))

  -- What a traced call leaves that starts in `w`.
  pub record IsTraced (w : World) (run : World × Exit UnaryReply) : Type 0 where
    pub seen : List (String × String)
    pub carries :
        (j : String)
        → values_under j seen
          ≡ carried j ctx.outgoing w
            ++ written_under j (client_tracer.inject_pairs (client_tracer.context_of w.next_span))
    pub handler_world : World
    pub arrival : World
    pub next_is : arrival.next_span ≡ w.next_span + 1
    pub parent_is :
        handler_world
        ≡ log_request
            (otgrpc_opts server_opts)
            (w.next_span + 1)
            req
            (start_span method (server_tracer.extract_end seen none).0 rpc_server arrival).0
    pub replies :
        run.1
        ≡ returned (
            deliver
              (handler
                (record server_ctx {
                  incoming = some w.next_md;
                  active_span = some (w.next_span + 1);
                })
                req
                handler_world).1)
    pub client_once : finishes w.next_span run.0 ≡ 1
    pub server_once : finishes (w.next_span + 1) run.0 ≡ 1
    pub client_last : (rest : List Event) × (run.0.events ≡ finished w.next_span ∷ rest)

  -- Neither side leaves the call out, the two spans are new, and neither the handler nor a decorator
  -- finishes them; the decorators come back.
  pub record IsTraceable (w : World) : Type 0 where
    pub client_included :
        is_excluded (otgrpc_opts client_opts) (parent_context client_tracer ctx) method req resp
        ≡ false
    pub server_included :
        (p : Option ℕ) → is_excluded (otgrpc_opts server_opts) p method req nil_value ≡ false
    pub client_fresh : finishes w.next_span w ≡ 0
    pub server_fresh : finishes (w.next_span + 1) w ≡ 0
    pub handler_keeps :
        (t : ℕ) → t ≤ w.next_span + 1 → (c : Context) → KeepsFinishes t (handler c req)
    pub client_decorator_keeps : DecoratorKeepsUpTo (w.next_span + 1) (otgrpc_opts client_opts)
    pub server_decorator_keeps : DecoratorKeepsUpTo (w.next_span + 1) (otgrpc_opts server_opts)
    pub client_decorator_returns : DecoratorReturns (otgrpc_opts client_opts)
    pub server_decorator_returns : DecoratorReturns (otgrpc_opts server_opts)
    pub go_maps : HasGoMaps w

  -- The world in which the invoker runs, and its context.
  abbrev before : World → World × Context
  before = before_invoker from_error lib client_tracer client_opts ctx method req resp invoker

  -- What both spans have been finished by the time the server's part ends.
  served-finishes :
      (w : World)
      → IsTraceable w
      → let w' = (serve (received (before w).1) (before w).0).0 in
        (finishes (w.next_span + 1) w' ≡ 1) × (finishes w.next_span w' ≡ 0)
  served-finishes w ok =
      go (before w).0
        (before_invoker-next_span from_error lib client_tracer client_opts ctx method req resp
          invoker w)
        (before_invoker-finishes from_error lib client_tracer client_opts ctx method req resp
            invoker w (w.next_span + 1)
          ∙ ok.server_fresh)
        (before_invoker-finishes from_error lib client_tracer client_opts ctx method req resp
            invoker w w.next_span
          ∙ ok.client_fresh)
    where
      go :
          (v : World)
          → v.next_span ≡ w.next_span + 1
          → finishes (w.next_span + 1) v ≡ 0
          → finishes w.next_span v ≡ 0
          → let w' = (serve (received (before w).1) v).0 in
            (finishes (w.next_span + 1) w' ≡ 1) × (finishes w.next_span w' ≡ 0)
      go v e sf cf =
          let r =
            server_interceptor-finishes from_error lib server_tracer server_opts
              (received (before w).1) method req handler v ok.server_included (rw e sf)
              (rw e ok.handler_keeps) (rw e ok.server_decorator_keeps) in
          (rw (sym e) r.0, r.1 w.next_span (omega (arith, e)) ∙ cf)

  -- The client's part finishes what the server's part does, and the server's span once.
  invoked-finishes :
      (w : World) (t : ℕ)
      → Reaches
      → IsTraceable w
      → t ≤ w.next_span + 1
      → finishes t
          (client_body from_error lib client_tracer client_opts ctx method req resp invoker
            w.next_span
            (start_span method (parent_context client_tracer ctx) rpc_client w).0).0
        ≡ finishes t (serve (received (before w).1) (before w).0).0
  invoked-finishes w t reaches ok le =
      client_body-finishes from_error lib client_tracer client_opts ctx method req resp invoker w t
        ok.client_decorator_keeps le
      ∙ ap (λ r. finishes t r.0) (reaches (before w).1 (before w).0)

  spans-finished :
      (w : World)
      → Reaches
      → IsTraceable w
      → let w' =
          (client_interceptor from_error lib client_tracer client_opts ctx method req resp invoker
            w).0 in
        (finishes w.next_span w' ≡ 1)
        × ((rest : List Event) × (w'.events ≡ finished w.next_span ∷ rest))
        × (finishes (w.next_span + 1) w' ≡ 1)
  unfolding client_interceptor
  spans-finished w reaches ok =
      let body = client_body from_error lib client_tracer client_opts ctx method req resp invoker in
      let parent = parent_context client_tracer ctx in
      let (server_once, not_yet) = served-finishes w ok in
      let (once, last) = with_span-finishes_at method parent rpc_client body w ok.client_fresh (
        invoked-finishes w w.next_span reaches ok (omega arith)
        ∙ not_yet
        ∙ sym (finishes-start_span w.next_span method parent rpc_client w ∙ ok.client_fresh)) in
      rw (ok.client_included) (
        once,
        last,
        with_span-finishes_other method parent rpc_client body w (w.next_span + 1)
              (λ e. omega (arith, e))
            ∙ invoked-finishes w (w.next_span + 1) reaches ok (omega arith)
            ∙ server_once,
      )

  -- The server's part ends as the handler does, which runs under the server's span.
  served-exit :
      (w : World)
      → IsTraceable w
      → let c = record server_ctx { incoming = some w.next_md } in
        (serve (received (before w).1) (before w).0).1
        ≡ (handler
            (record c { active_span = some (w.next_span + 1) })
            req
            (before_handler from_error lib server_tracer server_opts
              (received (before w).1)
              method
              req
              handler
              (before w).0)).1
  served-exit w ok =
      (server_interceptor-transparent from_error lib server_tracer server_opts
          (received (before w).1) method req handler (before w).0 ok.server_decorator_returns).1
        (ok.server_included _)
      ∙ ap
          (λ n.
            (handler (record server_ctx { incoming = (before w).1.outgoing; active_span = some n })
              req
              (before_handler from_error lib server_tracer server_opts (received (before w).1)
                method req handler (before w).0)).1)
          (before_invoker-next_span from_error lib client_tracer client_opts ctx method req resp
            invoker w)
      ∙ unfold before_invoker in refl

  -- A call that neither side leaves out, and whose metadata the network brings over, makes one trace.
  -- The client's span is finished once, as the last thing done. The server's span is the next one; it
  -- is finished once, and its parent is what the server's tracer makes of the pairs that it reads, which
  -- hold under each key what the caller's metadata held and then what the client's tracer wrote. The
  -- handler runs under the server's span, and the caller gets what the network makes of the handler's
  -- end. The two spans are new, neither the handler nor a decorator finishes them, the decorators come
  -- back, maps in memory are Go maps, the metadata package does what it documents, and the server's
  -- tracer keeps all pairs that it is handed.
  pub traced_lem :
      (w : World)
      → Reaches
      → IsTraceable w
      → IsMetadataLib lib
      → Collects server_tracer
      → IsTraced w (
          client_interceptor from_error lib client_tracer client_opts ctx method req resp invoker w)
  traced_lem w reaches ok h c =
      let (client_once, client_last, server_once) = spans-finished w reaches ok in
      let (seen, parent, carries) =
        remote-parent from_error lib client_tracer server_tracer client_opts ctx server_ctx method
          req resp invoker w h c ok.go_maps in
      record {
        seen = seen;
        carries = carries;
        handler_world =
            before_handler from_error lib server_tracer server_opts (received (before w).1) method
              req handler (before w).0;
        arrival = (before w).0;
        next_is =
            before_invoker-next_span from_error lib client_tracer client_opts ctx method req resp
              invoker w;
        parent_is =
            unfold before_handler in
            rw
              (
                parent,
                before_invoker-next_span from_error lib client_tracer client_opts ctx method req
                    resp invoker w,
              )
              refl;
        replies =
            (client_interceptor-transparent from_error lib client_tracer client_opts ctx method req
                resp invoker w ok.client_decorator_returns).1
              ok.client_included
            ∙ ap (λ r. r.1) (reaches (before w).1 (before w).0)
            ∙ ap (λ e. returned (deliver e)) (served-exit w ok);
        client_once = client_once;
        server_once = server_once;
        client_last = client_last;
      }
