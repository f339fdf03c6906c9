-- ===== src/Tracing/Unary/Wire/Parent.antt =====
-- The parent of the server's span, as the server's tracer reads it in the client's metadata.
use triple.Base.{◌∙◌, ap, ◌++◌, none, ◌≡◌, String, List, refl}
use triple.Tracing.Metadata.Propagation.{
  carried-md_at, extract-inject, carried, values_under, HasGoMaps, Collects, IsMetadataLib,
}
use triple.Tracing.ErrorClass.{StatusLib}
use triple.Tracing.Metadata.{extract_span_context, inject_span_context, Tracer, MetadataLib}
use triple.Tracing.Options.{TracingOption}
use triple.Common.Context.{Context}
use triple.Common.Error.{Value}
use triple.Tracing.Unary.{otgrpc_opts, parent_context, UnaryInvoker}
use triple.Tracing.World.{rpc_client, start_span, World}
use triple.Tracing.Unary.Client.{before_invoker}
use triple.Tracing.Metadata.Carrier.{written_under}
use triple.Tracing.Unary.Wire.{log_request-md_at}

module _ {X : Type 0} (from_error : StatusLib) (lib : MetadataLib) (client_tracer : Tracer X)
    (server_tracer : Tracer (List (String × String))) (client_opts : List TracingOption)
    (ctx server_ctx : Context) (method : String) (req resp : Value) (invoker : UnaryInvoker) where
  abbrev received : Context → Context
  received c = record server_ctx { incoming = c.outgoing }

  abbrev before : World → World × Context
  before = before_invoker from_error lib client_tracer client_opts ctx method req resp invoker

  -- What the server reads of the client's metadata.
  pub remote-parent :
      (w : World)
      → IsMetadataLib lib
      → Collects server_tracer
      → HasGoMaps w
      → (seen : List (String × String)) × ((extract_span_context lib server_tracer
            (received (before w).1)
            (before w).0).0
          ≡ (server_tracer.extract_end seen none).0)
        × ((j : String)
            → values_under j seen
              ≡ carried j ctx.outgoing w
                ++ written_under j
                    (client_tracer.inject_pairs (client_tracer.context_of w.next_span)))
  unfolding before_invoker start_span inject_span_context
  remote-parent w h c g =
      let started = (start_span method (parent_context client_tracer ctx) rpc_client w).0 in
      let (seen, read, holds) =
        extract-inject lib client_tracer server_tracer ctx (received (before w).1) w.next_span
          started (before w).0 h c g refl
          (ap (λ f. f w.next_md) (log_request-md_at (otgrpc_opts client_opts) w.next_span req _)) in
      (
        seen,
        ap (λ p. p.0) read,
        λ j.
            holds j
            ∙ ap
                (λ vs.
                  vs
                  ++ written_under j
                      (client_tracer.inject_pairs (client_tracer.context_of w.next_span)))
                (carried-md_at j ctx.outgoing started w refl),
      )
