-- ===== src/Tracing/World.antt =====
-- The world that the interceptors act on: the spans' history, and the metadata maps in memory.
use triple.Base.{
  ℕ, ◌+◌, String, Bool, true, false, List, ◌∷◌, Option, M, returned, nat_eq, count_if,
}
use triple.Common.Error.{Code, Err, Value}
use triple.Common.Context.{Md}

-- The classes of outcomes, "0xx", "2xx", "4xx" and "5xx".
pub data Class : Type 0 where
  unknown_class success_class client_error_class server_error_class : Class

pub data Tag : Type 0 where
  response_code : Code → Tag
  response_class : Class → Tag
  error_tag : Bool → Tag

-- The fields of one `LogFields` call; `error_event e` is "event"="error" with `e.Error()`.
pub data LogFields : Type 0 where
  grpc_request grpc_response : Value → LogFields
  error_event inject_failed : Err → LogFields

pub data SpanKind : Type 0 where
  rpc_client rpc_server : SpanKind

-- The parent's context is nil where there is none.
pub data Event : Type 0 where
  started : ℕ → String → Option ℕ → SpanKind → Event
  set_tag : ℕ → Tag → Event
  log_fields : ℕ → LogFields → Event
  finished : ℕ → Event

-- Spans are numbered as they are started; the newest event stands first.
pub record World : Type 0 where
  pub next_span : ℕ
  pub events : List Event
  pub next_md : ℕ
  pub md_at : ℕ → Md

abbrev pub record_event : Event → World → World
record_event e w = record w { events = e ∷ w.events }

-- `tracer.StartSpan(method, reference to the parent, kind, gRPCComponentTag)`
unfoldable pub start_span : String → Option ℕ → SpanKind → M World ℕ
start_span method parent kind w = (
  record w {
    next_span = w.next_span + 1;
    events = started w.next_span method parent kind ∷ w.events;
  },
  returned w.next_span,
)

abbrev pub is_finish_of : ℕ → Event → Bool
is_finish_of s (finished t) = nat_eq s t
is_finish_of s (started t m p k) = false
is_finish_of s (set_tag t g) = false
is_finish_of s (log_fields t f) = false

-- How often the span has been finished.
abbrev pub finishes : ℕ → World → ℕ
finishes s w = count_if (is_finish_of s) w.events

abbrev pub is_start : Event → Bool
is_start (started t m p k) = true
is_start (set_tag t g) = false
is_start (log_fields t f) = false
is_start (finished t) = false

-- How many spans have been started.
abbrev pub starts : World → ℕ
starts w = count_if is_start w.events
