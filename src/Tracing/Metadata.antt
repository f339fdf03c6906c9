-- ===== src/Tracing/Metadata.antt =====
-- The carrier of span contexts: `metadataReaderWriter`, `extractSpanContext` of
-- pkg/tracing/server_interceptor.go and `injectSpanContext` of pkg/tracing/client_interceptor.go.
pub mod Carrier
pub mod Propagation
use triple.Base.{
  ℕ, ◌+◌, String, to_lower, List, [], ◌∷◌, ◌++◌, Option, none, some, M, returned, nat_eq,
  if◌then◌else◌,
}
use triple.Base.Dict.{lookup, insert}
use triple.Common.Error.{Err}
use triple.Common.Context.{Context, Md}
use triple.Tracing.World.{World, log_fields, inject_failed, record_event}

-- The metadata package of grpc-go: the empty map and the copy of a map.
pub record MetadataLib : Type 0 where
  pub new_md : Md
  pub copy_md : Md → Md

-- A tracer as the program uses it. `inject` calls `Set` on the carrier with these pairs, in order,
-- and returns an error or nil. `extract` calls `ForeachKey` with a handler over the reader's state
-- and makes the span context and the error of the state and of what `ForeachKey` returned.
pub record Tracer (X : Type 0) : Type 0 where
  pub context_of : ℕ → ℕ
  pub inject_pairs : ℕ → List (String × String)
  pub inject_error : ℕ → Option Err
  pub extract_start : X
  pub extract_handler : String → String → X → X × Option Err
  pub extract_end : X → Option Err → Option ℕ × Option Err

-- `w.Md[key]`, which is the nil slice for a key that is not there.
abbrev pub values_at : String → Md → List String
values_at k md = elim (lookup k md) [ some vs ↦ vs | none ↦ [] ]

-- `Set`
unfoldable pub set : String → String → Md → Md
set key val md = let key = to_lower key in insert key (values_at key md ++ val ∷ []) md

module _ {X : Type 0} (handler : String → String → X → X × Option Err) where
  foreach_value : String → List String → X → X × Option Err
  foreach_value k [] x = (x, none)
  foreach_value k (v ∷ vals) x =
      let (x', e) = handler k v x in
      elim e [ some err ↦ (x', some err) | none ↦ foreach_value k vals x' ]

  -- `ForeachKey`, whose handler acts on the state `X`.
  pub foreach_key : Md → X → X × Option Err
  unfolding foreach_value
  foreach_key [] x = (x, none)
  foreach_key ((k, vals) ∷ md) x =
      let (x', e) = foreach_value k vals x in
      elim e [ some err ↦ (x', some err) | none ↦ foreach_key md x' ]

-- The `Set` calls of one `Inject`.
unfoldable pub set_all : List (String × String) → Md → Md
set_all [] md = md
set_all ((k, v) ∷ kvs) md = set_all kvs (set k v md)

-- A new map in memory.
unfoldable pub alloc_md : Md → M World ℕ
alloc_md md w = (
  record w { next_md = w.next_md + 1; md_at = λ a. if nat_eq a w.next_md then md else w.md_at a },
  returned w.next_md,
)

-- A map in memory is changed in place.
unfoldable pub update_md : ℕ → (Md → Md) → World → World
update_md a f w = record w { md_at = λ b. if nat_eq b a then f (w.md_at a) else w.md_at b }

-- The error of `Inject` is logged on the span.
log_inject_error : ℕ → Option Err → World → World
log_inject_error span none w = w
log_inject_error span (some e) w = record_event (log_fields span (inject_failed e)) w

-- The map that is written to: a new one, or a copy of the one in the context.
fresh_md : MetadataLib → Option ℕ → World → Md
fresh_md lib none w = lib.new_md
fresh_md lib (some a) w = lib.copy_md (w.md_at a)

unfoldable pub inject_span_context :
    {X : Type 0} → MetadataLib → Tracer X → Context → ℕ → M World Context
unfolding alloc_md update_md log_inject_error fresh_md
inject_span_context lib tracer ctx client_span w =
    let (w1, _) = alloc_md (fresh_md lib ctx.outgoing w) w in
    let sc = tracer.context_of client_span in
    let w2 = update_md w.next_md (set_all (tracer.inject_pairs sc)) w1 in
    (
      log_inject_error client_span (tracer.inject_error sc) w2,
      returned (record ctx { outgoing = some w.next_md }),
    )

-- The incoming map, or a new one.
incoming_md : MetadataLib → Option ℕ → World → Md
incoming_md lib none w = lib.new_md
incoming_md lib (some a) w = w.md_at a

unfoldable pub extract_span_context :
    {X : Type 0} → MetadataLib → Tracer X → Context → World → Option ℕ × Option Err
unfolding foreach_key incoming_md
extract_span_context lib tracer ctx w =
    let (x, e) =
      foreach_key tracer.extract_handler (incoming_md lib ctx.incoming w) tracer.extract_start in
    tracer.extract_end x e
