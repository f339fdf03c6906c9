-- ===== src/Examples/Carriers.antt =====
-- Span contexts in metadata, and the tags of an outcome.
use triple.Common.Error.{Code, eof, foreign, Err}
use triple.Base.{
  true, ◌≢◌, false, ℕ, ◌==◌, returned, if◌then◌else◌, ◌≡◌, none, some, ◌∷◌, Option, [], List,
  String, refl,
}
use triple.Tracing.ErrorClass.{set_span_tags-marks, set_span_tags, IsBlamed, tagged}
use triple.Common.Context.{Context, Md}
use triple.Tracing.Metadata.{extract_span_context, inject_span_context, values_at}
use triple.Tracing.Metadata.Propagation.{
  inject_span_context_lem, extract-inject, values_under, Collects,
}
use triple.Examples.Fixtures.{
  plain_lib-IsMetadataLib, empty_world, sample_context, pair_tracer, unavailable_status, plain_lib,
}
use triple.Tracing.Metadata.Carrier.{written_under}
use triple.Tracing.World.{error_tag, set_tag, record_event}

abbrev pub collecting : Collects pair_tracer
collecting = record { starts = refl; keeps = λ k v ps. refl }

abbrev server_context : Context
server_context = record { values = []; active_span = none; outgoing = none; incoming = some 0 }

extract-inject_example :
    (seen : List (String × String)) × (extract_span_context plain_lib pair_tracer server_context
        (inject_span_context plain_lib pair_tracer sample_context 5 empty_world).0
      ≡ (some 7, none))
    × ((j : String) → values_under j seen ≡ written_under j (("Uber-Trace-Id", "1") ∷ []))
extract-inject_example =
    extract-inject plain_lib pair_tracer pair_tracer sample_context server_context 5 empty_world
      (inject_span_context plain_lib pair_tracer sample_context 5 empty_world).0
      plain_lib-IsMetadataLib collecting (λ a. tt) refl refl

inject_span_context_lem_example :
    let (w', e) = inject_span_context plain_lib pair_tracer sample_context 5 empty_world in
    (e ≡ returned (record sample_context { outgoing = some 0 }))
    × ((j : String) → values_at j (w'.md_at 0) ≡ written_under j (("Uber-Trace-Id", "1") ∷ []))
    × ((a : ℕ) → a ≢ 0 → w'.md_at a ≡ [])
inject_span_context_lem_example =
    inject_span_context_lem plain_lib pair_tracer sample_context 5 empty_world
      plain_lib-IsMetadataLib

-- Two values under one key, the second of which is an error.
abbrev two_values : Md
two_values = ("a", "1" ∷ "2" ∷ []) ∷ ("b", "3" ∷ []) ∷ []

abbrev stop_at_two : String → String → List String → List String × Option Err
stop_at_two k v seen = (v ∷ seen, if v == "2" then some eof else none)

set_span_tags-marks_example :
    let t = tagged unavailable_status 0 (some (foreign 1)) empty_world in
    (IsBlamed false (some Code.unavailable)
      → set_span_tags unavailable_status 0 (some (foreign 1)) false empty_world
        ≡ record_event (set_tag 0 (error_tag true)) t)
    × (¬ IsBlamed false (some Code.unavailable)
        → set_span_tags unavailable_status 0 (some (foreign 1)) false empty_world ≡ t)
set_span_tags-marks_example = set_span_tags-marks unavailable_status 0 (foreign 1) false empty_world
