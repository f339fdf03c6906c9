-- ===== src/Examples/Fixtures.antt =====
-- The inputs that the runs share.
use triple.Common.Error.{eof, Code}
use triple.Base.{arith, ℕ, false, ◌++◌, ◌∷◌, none, some, String, modify, [], List, refl}
use triple.Tracing.Starts.{DecoratorKeepsStarts}
use triple.Tracing.World.{error_tag, set_tag, record_event, World}
use triple.Tracing.ErrorClass.{StatusLib}
use triple.Tracing.Metadata.{Tracer, MetadataLib}
use triple.Tracing.Options.{
  DecoratorKeepsFinishes, DecoratorReturns, new_options, span_decorator, log_payloads, apply,
  TracingOption, decorate, SpanDecoratorFunc,
}
use triple.Tracing.Metadata.Propagation.{IsMetadataLib}
use triple.Common.Context.{Context}
use triple.Tracing.Unary.{otgrpc_opts}

-- An empty world.
abbrev pub empty_world : World
empty_world = record { next_span = 0; events = []; next_md = 0; md_at = λ a. [] }

abbrev pub plain_lib : MetadataLib
plain_lib = record { new_md = []; copy_md = λ md. md }

pub plain_lib-IsMetadataLib : IsMetadataLib plain_lib
plain_lib-IsMetadataLib = record {
  new_empty = refl;
  copy_values = λ md j. refl;
  copy_keys = λ md u. u;
}

-- A tracer that writes one pair and reads all pairs.
abbrev pub pair_tracer : Tracer (List (String × String))
pair_tracer = record {
  context_of = λ s. s;
  inject_pairs = λ s. ("Uber-Trace-Id", "1") ∷ [];
  inject_error = λ s. none;
  extract_start = [];
  extract_handler = λ k v ps. (ps ++ (k, v) ∷ [], none);
  extract_end = λ ps e. (some 7, e);
}

-- The status package: an end of file has no status, all else is unavailable.
abbrev pub unavailable_status : StatusLib
unavailable_status none = some Code.ok
unavailable_status (some eof) = none
unavailable_status (some e) = some Code.unavailable

-- A decorator that tags the span.
abbrev pub tagging_decorator : SpanDecoratorFunc
tagging_decorator ctx span method req resp err =
    modify (record_event (set_tag span (error_tag false)))

abbrev pub tracing_opts : List TracingOption
tracing_opts = log_payloads ∷ span_decorator tagging_decorator ∷ []

pub tracing_opts-keeps : (s : ℕ) → DecoratorKeepsFinishes s (otgrpc_opts tracing_opts)
unfolding decorate apply log_payloads span_decorator new_options modify
tracing_opts-keeps s ctx method req resp err = record { at = λ w. ground arith }

pub tracing_opts-starts : DecoratorKeepsStarts (otgrpc_opts tracing_opts)
unfolding decorate apply log_payloads span_decorator new_options modify
tracing_opts-starts ctx s method req resp err = record { at = λ w. ground arith }

pub tracing_opts-returns : DecoratorReturns (otgrpc_opts tracing_opts)
unfolding decorate apply log_payloads span_decorator new_options modify
tracing_opts-returns ctx s method req resp err w = refl

abbrev pub sample_context : Context
sample_context = record { values = []; active_span = some 3; outgoing = none; incoming = some 0 }
