-- ===== src/Tracing/Unary/Client.antt =====
-- The client's interceptor: one span a call, finished whatever happens, and a result untouched.
use triple.Base.{
  ◌∙◌, ap, ◌+◌, ◌∷◌, true, false, ◌≡◌, some, ◌>>=◌, Keeps, keeps_rules, ℕ, String, List, arith,
}
use triple.Common.Error.{Value}
use triple.Common.Context.{Context}
use triple.Tracing.Starts.{
  starts-conclude, with_span-starts, starts-inject, starts-log_request, conclude-KeepsStarts,
  DecoratorKeepsStarts,
}
use triple.Tracing.World.{starts, finished, Event, rpc_client, start_span, World, finishes}
use triple.Tracing.ErrorClass.{StatusLib}
use triple.Tracing.Metadata.{MetadataLib, Tracer, inject_span_context}
use triple.Tracing.Options.{
  log_request, DecoratorReturns, is_excluded, TracingOption, KeepsFinishes, DecoratorKeepsFinishes,
  finishes-log_request,
}
use triple.Tracing.Unary.{
  parent_context, client_interceptor, UnaryInvoker, otgrpc_opts, client_body,
}
use triple.Tracing.Span.{
  conclude-returns, conclude, conclude-KeepsFinishes, with_span-finishes_once, exit-conclude,
}

pub finishes-inject :
    {X : Type 0} (lib : MetadataLib) (tracer : Tracer X) (ctx : Context) (s span : ℕ)
    → Keeps (finishes s) (inject_span_context lib tracer ctx span)
unfolding inject_span_context
finishes-inject lib tracer ctx s span = record { at = λ w. ground arith }

module _ {X : Type 0} (from_error : StatusLib) (lib : MetadataLib) (tracer : Tracer X)
    (opt_funcs : List TracingOption) (ctx : Context) (method : String) (req resp : Value)
    (invoker : UnaryInvoker) where
  client_body-KeepsFinishes :
      (s : ℕ)
      → ((c : Context) → KeepsFinishes s (invoker c method req resp))
      → DecoratorKeepsFinishes s (otgrpc_opts opt_funcs)
      → KeepsFinishes s (client_body from_error lib tracer opt_funcs ctx method req resp invoker s)
  unfolding client_body
  client_body-KeepsFinishes s ki kd =
      search (keeps_rules, finishes-inject, ki, kd, finishes-log_request, conclude-KeepsFinishes)
        depth 9

  client_body-starts :
      (k s : ℕ) (w : World)
      → ((c : Context) (v : World) → starts (invoker c method req resp v).0 ≡ starts v + k)
      → DecoratorKeepsStarts (otgrpc_opts opt_funcs)
      → starts (client_body from_error lib tracer opt_funcs ctx method req resp invoker s w).0
        ≡ starts w + k
  unfolding client_body inject_span_context ◌>>=◌
  client_body-starts k s w hi kd =
      let injected = inject_span_context lib tracer ctx s w in
      let o = otgrpc_opts opt_funcs in
      let traced : Context = record ctx { outgoing = some w.next_md } in
      starts-conclude (invoker traced method req resp)
        (λ reply. conclude from_error o traced s true method req resp reply.err)
        (log_request o s req injected.0)
        (λ reply. conclude-KeepsStarts from_error o traced s true method req resp reply.err kd)
      ∙ hi traced _
      ∙ ap (λ x. x + k) (starts-log_request o s req injected.0 ∙ starts-inject lib tracer ctx s w)

  -- A traced call starts one span more than its invoker starts, and finishes that span exactly once, as
  -- the last thing it does, whether the invoker returns, fails or panics. The invoker starts `k` spans
  -- in any context and world, the decorator starts none, and neither finishes the call's span.
  pub client_interceptor-finishes_once :
      (k : ℕ) (w : World)
      → is_excluded (otgrpc_opts opt_funcs) (parent_context tracer ctx) method req resp ≡ false
      → finishes w.next_span w ≡ 0
      → ((c : Context) (v : World) → starts (invoker c method req resp v).0 ≡ starts v + k)
      → DecoratorKeepsStarts (otgrpc_opts opt_funcs)
      → ((c : Context) → KeepsFinishes w.next_span (invoker c method req resp))
      → DecoratorKeepsFinishes w.next_span (otgrpc_opts opt_funcs)
      → let w' =
          (client_interceptor from_error lib tracer opt_funcs ctx method req resp invoker w).0 in
        (starts w' ≡ starts w + 1 + k)
        × (finishes w.next_span w' ≡ 1)
        × ((rest : List Event) × (w'.events ≡ finished w.next_span ∷ rest))
  unfolding client_interceptor
  client_interceptor-finishes_once k w inc fresh hi ks ki kd =
      let (once, last) =
        with_span-finishes_once method (parent_context tracer ctx) rpc_client _ w fresh
          (client_body-KeepsFinishes w.next_span ki kd) in
      rw inc (
        with_span-starts method (parent_context tracer ctx) rpc_client _ k w
            (λ v. client_body-starts k w.next_span v hi ks),
        once,
        last,
      )

  -- The world and the context in which the invoker of a traced call runs.
  unfoldable pub before_invoker : World → World × Context
  before_invoker w =
      let w1 = (start_span method (parent_context tracer ctx) rpc_client w).0 in
      let w2 = (inject_span_context lib tracer ctx w.next_span w1).0 in
      (
        log_request (otgrpc_opts opt_funcs) w.next_span req w2,
        record ctx { outgoing = some w.next_md },
      )

  -- The caller of the interceptor gets the very exit of the invoker: a call that is excluded from
  -- tracing is the invoker's call, and a traced one ends as the invoker does, provided that the
  -- decorator comes back.
  pub client_interceptor-transparent :
      (w : World)
      → DecoratorReturns (otgrpc_opts opt_funcs)
      → let excluded =
          is_excluded (otgrpc_opts opt_funcs) (parent_context tracer ctx) method req resp in
        let run = client_interceptor from_error lib tracer opt_funcs ctx method req resp invoker in
        (excluded ≡ true → run w ≡ invoker ctx method req resp w)
        × (excluded ≡ false
            → (run w).1 ≡ (invoker (before_invoker w).1 method req resp (before_invoker w).0).1)
  unfolding client_interceptor before_invoker start_span inject_span_context ◌>>=◌
  client_interceptor-transparent w dr = (
    λ e. rw e,
    λ e. rw e (
        exit-conclude (invoker (before_invoker w).1 method req resp)
          (λ reply.
            conclude from_error (otgrpc_opts opt_funcs) (before_invoker w).1 w.next_span true method
              req resp reply.err)
          (λ reply v. conclude-returns _ _ _ _ _ _ _ _ _ v dr) (before_invoker w).0),
  )
