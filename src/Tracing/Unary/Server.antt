-- ===== src/Tracing/Unary/Server.antt =====
-- The server's interceptor: the handler runs under the new span, in the caller's context otherwise.
use triple.Base.{
  ◌∙◌, ap, ◌+◌, ◌∷◌, some, false, true, ◌≡◌, keeps_rules, Option, ℕ, ◌>>=◌, String, List,
}
use triple.Tracing.ErrorClass.{StatusLib}
use triple.Tracing.Metadata.{extract_span_context, Tracer, MetadataLib}
use triple.Tracing.Options.{
  finishes-log_request, DecoratorKeepsFinishes, is_excluded, DecoratorReturns, KeepsFinishes,
  log_request, TracingOption,
}
use triple.Common.Context.{Context}
use triple.Common.Error.{nil_value, Value}
use triple.Tracing.Unary.{otgrpc_opts, server_interceptor, server_body, UnaryHandler}
use triple.Tracing.Starts.{
  starts-conclude, with_span-starts, starts-log_request, conclude-KeepsStarts, DecoratorKeepsStarts,
}
use triple.Tracing.World.{starts, finished, Event, finishes, rpc_server, start_span, World}
use triple.Tracing.Span.{
  with_span-finishes_once, conclude-returns, conclude, exit-conclude, conclude-KeepsFinishes,
}

module _ {X : Type 0} (from_error : StatusLib) (lib : MetadataLib) (tracer : Tracer X)
    (opt_funcs : List TracingOption) (ctx : Context) (method : String) (req : Value)
    (handler : UnaryHandler) where
  server_body-KeepsFinishes :
      (s : ℕ)
      → ((c : Context) → KeepsFinishes s (handler c req))
      → DecoratorKeepsFinishes s (otgrpc_opts opt_funcs)
      → KeepsFinishes s (server_body from_error lib tracer opt_funcs ctx method req handler s)
  unfolding server_body
  server_body-KeepsFinishes s kh kd =
      search (keeps_rules, kh, finishes-log_request, conclude-KeepsFinishes, kd) depth 9

  server_body-starts :
      (k s : ℕ) (w : World)
      → ((c : Context) (v : World) → starts (handler c req v).0 ≡ starts v + k)
      → DecoratorKeepsStarts (otgrpc_opts opt_funcs)
      → starts (server_body from_error lib tracer opt_funcs ctx method req handler s w).0
        ≡ starts w + k
  unfolding server_body ◌>>=◌
  server_body-starts k s w hh kd =
      let o = otgrpc_opts opt_funcs in
      let traced : Context = record ctx { active_span = some s } in
      starts-conclude (handler traced req)
        (λ r. conclude from_error o traced s false method req r.resp r.err) (log_request o s req w)
        (λ r. conclude-KeepsStarts from_error o traced s false method req r.resp r.err kd)
      ∙ hh traced _
      ∙ ap (λ x. x + k) (starts-log_request o s req w)

  -- The parent that the server span gets: what the incoming metadata hold.
  abbrev pub remote_parent : World → Option ℕ
  remote_parent w = (extract_span_context lib tracer ctx w).0

  -- A traced call of a server starts one span more than its handler starts, and finishes that span
  -- exactly once, as the last thing it does, whether the handler returns, fails or panics. The handler
  -- starts `k` spans in any context and world, the decorator starts none, and neither finishes the
  -- call's span.
  pub server_interceptor-finishes_once :
      (k : ℕ) (w : World)
      → is_excluded (otgrpc_opts opt_funcs) (remote_parent w) method req nil_value ≡ false
      → finishes w.next_span w ≡ 0
      → ((c : Context) (v : World) → starts (handler c req v).0 ≡ starts v + k)
      → DecoratorKeepsStarts (otgrpc_opts opt_funcs)
      → ((c : Context) → KeepsFinishes w.next_span (handler c req))
      → DecoratorKeepsFinishes w.next_span (otgrpc_opts opt_funcs)
      → let w' = (server_interceptor from_error lib tracer opt_funcs ctx req method handler w).0 in
        (starts w' ≡ starts w + 1 + k)
        × (finishes w.next_span w' ≡ 1)
        × ((rest : List Event) × (w'.events ≡ finished w.next_span ∷ rest))
  unfolding server_interceptor ◌>>=◌
  server_interceptor-finishes_once k w inc fresh hh ks kh kd =
      let (once, last) =
        with_span-finishes_once method (remote_parent w) rpc_server _ w fresh
          (server_body-KeepsFinishes w.next_span kh kd) in
      rw inc (
        with_span-starts method (remote_parent w) rpc_server _ k w
            (λ v. server_body-starts k w.next_span v hh ks),
        once,
        last,
      )

  -- The world in which the handler of a traced call runs: the span is started under the parent that
  -- came over the wire.
  unfoldable pub before_handler : World → World
  before_handler w =
      log_request (otgrpc_opts opt_funcs) w.next_span req
        (start_span method (remote_parent w) rpc_server w).0

  -- A call that is excluded from tracing is the handler's call. In a traced one the handler runs in
  -- the same context with the new span as its active span, and the interceptor ends as the handler
  -- does, provided that the decorator comes back. An error of the extraction plays no part.
  pub server_interceptor-transparent :
      (w : World)
      → DecoratorReturns (otgrpc_opts opt_funcs)
      → let excluded = is_excluded (otgrpc_opts opt_funcs) (remote_parent w) method req nil_value in
        let run = server_interceptor from_error lib tracer opt_funcs ctx req method handler in
        (excluded ≡ true → run w ≡ handler ctx req w)
        × (excluded ≡ false
            → (run w).1
              ≡ (handler (record ctx { active_span = some w.next_span }) req (before_handler w)).1)
  unfolding server_interceptor before_handler start_span ◌>>=◌
  server_interceptor-transparent w dr = (
    λ e. rw e,
    λ e. rw e (
        exit-conclude (handler (record ctx { active_span = some w.next_span }) req)
          (λ r.
            conclude from_error (otgrpc_opts opt_funcs)
              (record ctx { active_span = some w.next_span }) w.next_span false method req r.resp
              r.err)
          (λ r v. conclude-returns _ _ _ _ _ _ _ _ _ v dr) (before_handler w)),
  )
