-- ===== src/Tracing/Starts.antt =====
-- How many spans the steps of the interceptors start.
use triple.Base.{
  Keeps-bind, Keeps-pure, bind-Keeps, ◌>>◌, ◌>>=◌, pure, Keeps, keeps_rules, ℕ, ◌≡◌, String, Bool,
  Option, none, some, M, ◌+◌, arith,
}
use triple.Common.Error.{Err, Value}
use triple.Common.Context.{Context}
use triple.Tracing.World.{World, SpanKind, start_span, starts}
use triple.Tracing.ErrorClass.{StatusLib, set_span_tags}
use triple.Tracing.Metadata.{MetadataLib, Tracer, inject_span_context}
use triple.Tracing.Options.{Options, decorate, log_request, report, report_error}
use triple.Tracing.Span.{conclude, with_span}

-- The decorator starts no span.
abbrev pub DecoratorKeepsStarts : Options → Type 0
DecoratorKeepsStarts o =
    (ctx : Context) (s : ℕ) (method : String) (req resp : Value) (err : Option Err)
    → Keeps starts (decorate o ctx s method req resp err)

pub starts-log_request :
    (o : Options) (span : ℕ) (req : Value) (w : World)
    → starts (log_request o span req w) ≡ starts w
unfolding log_request
starts-log_request o span req w = ground arith

pub starts-inject :
    {X : Type 0} (lib : MetadataLib) (tracer : Tracer X) (ctx : Context) (span : ℕ) (w : World)
    → starts (inject_span_context lib tracer ctx span w).0 ≡ starts w
unfolding inject_span_context
starts-inject lib tracer ctx span w = ground arith

starts-report :
    (from_error : StatusLib) (o : Options) (span : ℕ) (client : Bool) (resp : Value)
    (err : Option Err) (w : World)
    → starts (report from_error o span client resp err w) ≡ starts w
unfolding report report_error set_span_tags
starts-report from_error o span client resp none w = ground arith
starts-report from_error o span client resp (some e) w = ground arith

-- Nothing is started by what is written at the end of a call.
pub conclude-KeepsStarts :
    (from_error : StatusLib) (o : Options) (ctx : Context) (s : ℕ) (client : Bool) (method : String)
    (req resp : Value) (err : Option Err)
    → DecoratorKeepsStarts o
    → Keeps starts (conclude from_error o ctx s client method req resp err)
unfolding conclude
conclude-KeepsStarts from_error o ctx s client method req resp err kd =
    search (keeps_rules, starts-report, kd)

-- A span round a body that starts `k` spans.
pub with_span-starts :
    {A : Type 0} (method : String) (parent : Option ℕ) (kind : SpanKind) (body : ℕ → M World A)
    (k : ℕ) (w : World)
    → ((v : World) → starts (body w.next_span v).0 ≡ starts v + k)
    → starts (with_span method parent kind body w).0 ≡ starts w + 1 + k
unfolding with_span start_span ◌>>=◌
with_span-starts method parent kind body k w h =
    ground (arith, h (start_span method parent kind w).0)

-- What is done after `m` starts no span, so that `m` alone decides.
pub starts-conclude :
    {A : Type 0} (m : M World A) (f : A → M World (Unit {0})) (w : World)
    → ((a : A) → Keeps starts (f a))
    → starts ((m >>= λ a. f a >> pure a) w).0 ≡ starts (m w).0
starts-conclude m f w kf =
    bind-Keeps m (λ a. f a >> pure a) w λ a. Keeps-bind (f a) (λ u. pure a) (kf a) λ u. Keeps-pure a
