-- ===== src/Tracing/Unary/Wire.antt =====
-- A call that goes through both interceptors: what the client's part and the server's part finish.
pub mod Parent
pub mod Traced
use triple.Base.{
  ◌<◌, keeps_rules, false, Keeps-pure, true, if◌then◌else◌, Keeps-bind, Bool, bind-Keeps, ◌∙◌, ◌+◌,
  ◌>>=◌, arith, Option, ◌≡◌, String, List, ◌≤◌, ℕ, [], ◌∷◌, refl,
}
use triple.Tracing.ErrorClass.{StatusLib}
use triple.Tracing.Metadata.{Tracer, MetadataLib, extract_span_context, inject_span_context}
use triple.Tracing.Options.{
  is_excluded, finishes-log_request, decorate, KeepsFinishes, TracingOption, Options, log_request,
}
use triple.Common.Error.{nil_value, Err, Value}
use triple.Tracing.World.{
  SpanKind, rpc_server, grpc_request, log_fields, record_event, rpc_client, finishes, start_span,
  World,
}
use triple.Common.Context.{Context}
use triple.Tracing.Unary.{
  server_interceptor, server_body, UnaryHandler, parent_context, otgrpc_opts, client_body,
  UnaryInvoker,
}
use triple.Tracing.Unary.Client.{finishes-inject, before_invoker}
use triple.Tracing.Span.{with_span-finishes_other, with_span-finishes_once, conclude-KeepsOther}

-- Neither the decorator nor what it calls finishes a span that was started up to that one.
abbrev pub DecoratorKeepsUpTo : ℕ → Options → Type 0
DecoratorKeepsUpTo n o =
    (t : ℕ)
    → t ≤ n
    → (ctx : Context) (s : ℕ) (method : String) (req resp : Value) (err : Option Err)
    → KeepsFinishes t (decorate o ctx s method req resp err)

-- What is written about the request starts and finishes no span and touches no map.
log_request-next_span :
    (o : Options) (s : ℕ) (req : Value) (w : World)
    → (log_request o s req w).next_span ≡ w.next_span
unfolding log_request
log_request-next_span o s req w = ground arith

pub log_request-md_at :
    (o : Options) (s : ℕ) (req : Value) (w : World) → (log_request o s req w).md_at ≡ w.md_at
unfolding log_request
log_request-md_at o s req w = go o.log_payloads
  where
    go :
        (b : Bool)
        → (if b then record_event (log_fields s (grpc_request req)) w else w).md_at ≡ w.md_at
    go true = refl
    go false = refl

inject-next_span :
    {X : Type 0} (lib : MetadataLib) (tracer : Tracer X) (ctx : Context) (span : ℕ) (w : World)
    → (inject_span_context lib tracer ctx span w).0.next_span ≡ w.next_span
unfolding inject_span_context
inject-next_span lib tracer ctx span w = ground arith

module _ {X : Type 0} (from_error : StatusLib) (lib : MetadataLib) (tracer : Tracer X)
    (opt_funcs : List TracingOption) (ctx : Context) (method : String) (req resp : Value)
    (invoker : UnaryInvoker) (w : World) where
  -- The world in which the client's span has just been started, and the span context written.
  abbrev pub span_world : World
  span_world = (start_span method (parent_context tracer ctx) rpc_client w).0

  abbrev pub injected_world : World
  injected_world = (inject_span_context lib tracer ctx w.next_span span_world).0

  -- The client's span stands when the invoker runs.
  pub before_invoker-next_span :
      (before_invoker from_error lib tracer opt_funcs ctx method req resp invoker w).0.next_span
      ≡ w.next_span + 1
  unfolding before_invoker start_span
  before_invoker-next_span =
      log_request-next_span (otgrpc_opts opt_funcs) w.next_span req injected_world
      ∙ inject-next_span lib tracer ctx w.next_span span_world

  -- The same count of finishes, up to the invoker.
  pub before_invoker-finishes :
      (t : ℕ)
      → finishes t (before_invoker from_error lib tracer opt_funcs ctx method req resp invoker w).0
        ≡ finishes t w
  unfolding before_invoker start_span
  before_invoker-finishes t = omega (
    arith,
    finishes-log_request t (otgrpc_opts opt_funcs) w.next_span req injected_world,
    (finishes-inject lib tracer ctx t w.next_span).at span_world,
  )

  -- What the client's part finishes behind its own span is what the invoker finishes.
  client_body-finishes :
      (t : ℕ)
      → DecoratorKeepsUpTo (w.next_span + 1) (otgrpc_opts opt_funcs)
      → t ≤ w.next_span + 1
      → let (before, c) =
          before_invoker from_error lib tracer opt_funcs ctx method req resp invoker w in
        finishes t
          (client_body from_error lib tracer opt_funcs ctx method req resp invoker w.next_span
            (start_span method (parent_context tracer ctx) rpc_client w).0).0
        ≡ finishes t (invoker c method req resp before).0
  unfolding client_body before_invoker inject_span_context start_span ◌>>=◌
  client_body-finishes t kd le =
      let (before, c) =
        before_invoker from_error lib tracer opt_funcs ctx method req resp invoker w in
      bind-Keeps (invoker c method req resp) _ before λ reply.
        Keeps-bind _ _
          (conclude-KeepsOther from_error (otgrpc_opts opt_funcs) c t w.next_span true method req
            resp reply.err (kd t le c w.next_span method req resp reply.err))
          λ u. Keeps-pure reply

finishes-start_span :
    (t : ℕ) (method : String) (parent : Option ℕ) (kind : SpanKind) (w : World)
    → finishes t (start_span method parent kind w).0 ≡ finishes t w
unfolding start_span
finishes-start_span t method parent kind w = omega arith

module _ {X : Type 0} (from_error : StatusLib) (lib : MetadataLib) (tracer : Tracer X)
    (opt_funcs : List TracingOption) (ctx : Context) (method : String) (req : Value)
    (handler : UnaryHandler) where
  server_body-KeepsFinishes :
      (t n s : ℕ)
      → t ≤ n
      → ((c : Context) → KeepsFinishes t (handler c req))
      → DecoratorKeepsUpTo n (otgrpc_opts opt_funcs)
      → KeepsFinishes t (server_body from_error lib tracer opt_funcs ctx method req handler s)
  unfolding server_body
  server_body-KeepsFinishes t n s le kh kd =
      search (keeps_rules, kh, finishes-log_request, conclude-KeepsOther, kd) depth 9

  -- A traced call of the server finishes its own span, and of the earlier ones none.
  pub server_interceptor-finishes :
      (w : World)
      → ((p : Option ℕ) → is_excluded (otgrpc_opts opt_funcs) p method req nil_value ≡ false)
      → finishes w.next_span w ≡ 0
      → ((t : ℕ) → t ≤ w.next_span → (c : Context) → KeepsFinishes t (handler c req))
      → DecoratorKeepsUpTo w.next_span (otgrpc_opts opt_funcs)
      → let w' = (server_interceptor from_error lib tracer opt_funcs ctx req method handler w).0 in
        (finishes w.next_span w' ≡ 1) × ((t : ℕ) → t < w.next_span → finishes t w' ≡ finishes t w)
  unfolding server_interceptor ◌>>=◌
  server_interceptor-finishes w inc fresh kh kd =
      let parent = (extract_span_context lib tracer ctx w).0 in
      let body = server_body from_error lib tracer opt_funcs ctx method req handler in
      let started = (start_span method parent rpc_server w).0 in
      rw (inc parent) (
        (with_span-finishes_once method parent rpc_server body w fresh (
            server_body-KeepsFinishes w.next_span w.next_span w.next_span (omega arith)
              (kh w.next_span (omega arith)) kd)).0,
        λ t lt.
            let kept : KeepsFinishes t (body w.next_span) =
              server_body-KeepsFinishes t w.next_span w.next_span (omega arith) (kh t (omega arith))
                kd in
            omega (
              arith,
              with_span-finishes_other method parent rpc_server body w t
                  (λ e. omega (arith, e, lt)),
              kept.at started,
              finishes-start_span t method parent rpc_server w,
            ),
      )
