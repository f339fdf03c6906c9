-- ===== src/Tracing/ErrorClass.antt =====
-- `ErrorClass` and `SetSpanTags` of pkg/tracing/server_interceptor.go.
use triple.Base.{
  if-of_iff, ℕ, Bool, true, false, not, ◌&&◌, ◌||◌, ◌≡◌, ◌≢◌, ◌↔◌, refl, ◌⊎◌, Option, none, some,
  arith, if◌then◌else◌,
}
use triple.Common.Error.{Code, Err}
use triple.Tracing.World.{
  Class, unknown_class, success_class, client_error_class, server_error_class, response_code,
  response_class, error_tag, set_tag, World, record_event,
}

-- The status package of grpc-go: the code of the error's status, if `FromError` reports one.
abbrev pub StatusLib : Type 0
StatusLib = Option Err → Option Code

-- The `switch` on the code.
unfoldable pub class_of_code : Code → Class
class_of_code Code.ok = success_class
class_of_code Code.canceled = success_class
class_of_code Code.invalid_argument = client_error_class
class_of_code Code.not_found = client_error_class
class_of_code Code.already_exists = client_error_class
class_of_code Code.permission_denied = client_error_class
class_of_code Code.unauthenticated = client_error_class
class_of_code Code.failed_precondition = client_error_class
class_of_code Code.out_of_range = client_error_class
class_of_code Code.deadline_exceeded = server_error_class
class_of_code Code.resource_exhausted = server_error_class
class_of_code Code.aborted = server_error_class
class_of_code Code.unimplemented = server_error_class
class_of_code Code.internal = server_error_class
class_of_code Code.unavailable = server_error_class
class_of_code Code.data_loss = server_error_class
class_of_code _ = unknown_class

-- The branch on what `FromError` reports.
abbrev pub class_of : Option Code → Class
class_of (some c) = class_of_code c
class_of none = unknown_class

unfoldable pub error_class : StatusLib → Option Err → Class
unfolding class_of_code
error_class from_error err = class_of (from_error err)

abbrev is_success : Class → Bool
is_success success_class = true
is_success unknown_class = false
is_success client_error_class = false
is_success server_error_class = false

abbrev is_server_error : Class → Bool
is_server_error server_error_class = true
is_server_error unknown_class = false
is_server_error client_error_class = false
is_server_error success_class = false

-- The test of `SetSpanTags`.
abbrev is_marked : Bool → Class → Bool
is_marked client c = not (is_success c) && (client || is_server_error c)

-- The code that is written to the span.
abbrev pub reported_code : Option Code → Code
reported_code (some c) = c
reported_code none = Code.unknown

-- The error tag, for the class `c`.
mark_error : ℕ → Option Err → Bool → Class → World → World
mark_error span none client c w = w
mark_error span (some e) client c w =
    if is_marked client c then record_event (set_tag span (error_tag true)) w else w

unfoldable pub set_span_tags : StatusLib → ℕ → Option Err → Bool → World → World
unfolding error_class mark_error
set_span_tags from_error span err client w =
    let c = error_class from_error err in
    mark_error span err client c (
      record_event (set_tag span (response_class c))
        (record_event (set_tag span (response_code (reported_code (from_error err)))) w))

-- The codes that mean that the server failed.
abbrev pub IsServerFault : Code → Type 0
IsServerFault c =
    (c ≡ Code.deadline_exceeded)
    ⊎ (c ≡ Code.resource_exhausted)
    ⊎ (c ≡ Code.aborted)
    ⊎ (c ≡ Code.unimplemented)
    ⊎ (c ≡ Code.internal)
    ⊎ (c ≡ Code.unavailable)
    ⊎ (c ≡ Code.data_loss)

-- The call's outcome counts against the side that the span stands for: on the client every status
-- but OK and Canceled does, and an error with no status; on the server only a server's fault does.
abbrev pub IsBlamed : Bool → Option Code → Type 0
IsBlamed true none = Unit {0}
IsBlamed true (some c) = (c ≢ Code.ok) × (c ≢ Code.canceled)
IsBlamed false none = ⊥
IsBlamed false (some c) = IsServerFault c

is_marked-server : (c : Code) → (is_marked false (class_of_code c) ≡ true) ↔ IsServerFault c
unfolding class_of_code
is_marked-server Code.ok = (λ e. cc, λ h. ground arith)
is_marked-server c = (λ e. ground arith, λ h. ground arith)

is_marked-client :
    (c : Code) → (is_marked true (class_of_code c) ≡ true) ↔ ((c ≢ Code.ok) × (c ≢ Code.canceled))
unfolding class_of_code
is_marked-client Code.ok = (λ e. ground arith, λ h. ground arith)
is_marked-client c = (λ e. ground arith, λ h. ground arith)

is_marked_iff :
    (client : Bool) (o : Option Code) → (is_marked client (class_of o) ≡ true) ↔ IsBlamed client o
is_marked_iff true none = (λ e. tt, λ h. refl)
is_marked_iff true (some c) = is_marked-client c
is_marked_iff false none = (λ e. cc, λ h. absurd h)
is_marked_iff false (some c) = is_marked-server c

-- The two tags that every call gets.
abbrev pub tagged : StatusLib → ℕ → Option Err → World → World
tagged from_error span err w =
    record_event (set_tag span (response_class (class_of (from_error err))))
      (record_event (set_tag span (response_code (reported_code (from_error err)))) w)

-- `SetSpanTags` for an error writes the code and the class, and then the error tag exactly if the
-- outcome counts against the side that the span stands for.
pub set_span_tags-marks :
    (from_error : StatusLib) (span : ℕ) (e : Err) (client : Bool) (w : World)
    → let t = tagged from_error span (some e) w in
      (IsBlamed client (from_error (some e))
        → set_span_tags from_error span (some e) client w
          ≡ record_event (set_tag span (error_tag true)) t)
      × (¬ IsBlamed client (from_error (some e))
          → set_span_tags from_error span (some e) client w ≡ t)
unfolding set_span_tags
set_span_tags-marks from_error span e client w =
    if-of_iff _ _ _ (is_marked_iff client (from_error (some e)))
