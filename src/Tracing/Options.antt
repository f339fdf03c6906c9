-- ===== src/Tracing/Options.antt =====
-- The options of the interceptors (pkg/tracing/server_interceptor.go), and the steps that the
-- interceptors share.
use triple.Base.{
  Keeps, ℕ, ◌≡◌, String, Bool, true, false, not, List, [], ◌∷◌, Option, none, some, M, returned,
  pure, if◌then◌else◌, arith,
}
use triple.Common.Error.{Err, Value}
use triple.Common.Context.{Context}
use triple.Tracing.World.{
  World, log_fields, grpc_request, grpc_response, error_event, record_event, finishes,
}
use triple.Tracing.ErrorClass.{StatusLib, set_span_tags}

-- Whether a call gets a span: parent's context, method, request and response.
abbrev pub SpanInclusionFunc : Type 0
SpanInclusionFunc = Option ℕ → String → Value → Value → Bool

abbrev pub SpanDecoratorFunc : Type 0
SpanDecoratorFunc = Context → ℕ → String → Value → Value → Option Err → M World (Unit {0})

-- A nil function is `none`.
pub record Options : Type 0 where
  pub log_payloads : Bool
  pub decorator : Option SpanDecoratorFunc
  pub inclusion_func : Option SpanInclusionFunc

-- The Go type `tracing.Option`.
abbrev pub TracingOption : Type 0
TracingOption = Options → Options

unfoldable pub log_payloads : TracingOption
log_payloads o = record o { log_payloads = true }

unfoldable pub including_spans : SpanInclusionFunc → TracingOption
including_spans inclusion_func o = record o { inclusion_func = some inclusion_func }

unfoldable pub span_decorator : SpanDecoratorFunc → TracingOption
span_decorator decorator o = record o { decorator = some decorator }

unfoldable pub new_options : Options
new_options = record { log_payloads = false; decorator = none; inclusion_func = none }

unfoldable pub apply : List TracingOption → Options → Options
apply [] o = o
apply (opt ∷ opts) o = apply opts (opt o)

-- `inclusionFunc != nil && !inclusionFunc(...)`
abbrev pub is_excluded : Options → Option ℕ → String → Value → Value → Bool
is_excluded o parent method req resp = elim o.inclusion_func [
  | some f ↦ not (f parent method req resp)
  | none ↦ false
]

-- `if decorator != nil { decorator(...) }`
unfoldable pub decorate :
    Options → Context → ℕ → String → Value → Value → Option Err → M World (Unit {0})
decorate o ctx span method req resp err = elim o.decorator [
  | some d ↦ d ctx span method req resp err
  | none ↦ pure tt
]

unfoldable pub log_request : Options → ℕ → Value → World → World
log_request o span req w =
    if o.log_payloads then record_event (log_fields span (grpc_request req)) w else w

-- The tags and the log line of a failed call.
unfoldable pub report_error : StatusLib → ℕ → Err → Bool → World → World
report_error from_error span e client w =
    record_event (log_fields span (error_event e)) (set_span_tags from_error span (some e) client w)

-- What is written when the call has returned.
unfoldable pub report : StatusLib → Options → ℕ → Bool → Value → Option Err → World → World
unfolding report_error
report from_error o span client resp none w =
    if o.log_payloads then record_event (log_fields span (grpc_response resp)) w else w
report from_error o span client resp (some e) w = report_error from_error span e client w

-- The action does not finish the span.
abbrev pub KeepsFinishes : {A : Type 0} → ℕ → M World A → Type 0
KeepsFinishes s = Keeps (finishes s)

abbrev pub DecoratorKeepsFinishes : ℕ → Options → Type 0
DecoratorKeepsFinishes s o =
    (ctx : Context) (method : String) (req resp : Value) (err : Option Err)
    → KeepsFinishes s (decorate o ctx s method req resp err)

-- The decorator, where there is one, comes back.
abbrev pub DecoratorReturns : Options → Type 0
DecoratorReturns o =
    (ctx : Context) (s : ℕ) (method : String) (req resp : Value) (err : Option Err) (w : World)
    → (decorate o ctx s method req resp err w).1 ≡ returned tt

pub finishes-set_span_tags :
    (s : ℕ) (from_error : StatusLib) (span : ℕ) (err : Option Err) (client : Bool) (w : World)
    → finishes s (set_span_tags from_error span err client w) ≡ finishes s w
unfolding set_span_tags
finishes-set_span_tags s from_error span none client w = omega arith
finishes-set_span_tags s from_error span (some e) client w = ground arith

pub finishes-report_error :
    (s : ℕ) (from_error : StatusLib) (span : ℕ) (e : Err) (client : Bool) (w : World)
    → finishes s (report_error from_error span e client w) ≡ finishes s w
unfolding report_error
finishes-report_error s from_error span e client w =
    omega (arith, finishes-set_span_tags s from_error span (some e) client w)

pub finishes-report :
    (s : ℕ) (from_error : StatusLib) (o : Options) (span : ℕ) (client : Bool) (resp : Value)
    (err : Option Err) (w : World)
    → finishes s (report from_error o span client resp err w) ≡ finishes s w
unfolding report
finishes-report s from_error o span client resp none w = ground arith
finishes-report s from_error o span client resp (some e) w =
    finishes-report_error s from_error span e client w

pub finishes-log_request :
    (s : ℕ) (o : Options) (span : ℕ) (req : Value) (w : World)
    → finishes s (log_request o span req w) ≡ finishes s w
unfolding log_request
finishes-log_request s o span req w = ground arith
