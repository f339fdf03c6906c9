-- ===== src/Tracing/Metadata/Propagation.antt =====
-- A span context on its way from the client's span to the server's: what `injectSpanContext` leaves
-- in memory, and what `extractSpanContext` reads there.
use triple.Base.{
  nat_eq, ℕ, String, ◌≡◌, ◌≢◌, refl, ap, ◌∙◌, List, [], ◌∷◌, ◌++◌, append_assoc, append-nil, Option,
  none, some, returned, arith, if◌then◌else◌, ◌==◌, eq_iff,
}
use triple.Base.Dict.{lookup, HasUniqueKeys}
use triple.Common.Context.{Md, Context}
use triple.Tracing.World.{World}
use triple.Tracing.Metadata.{
  MetadataLib, Tracer, values_at, set_all, foreach_key, fresh_md, inject_span_context,
  extract_span_context, incoming_md,
}
use triple.Tracing.Metadata.Carrier.{
  written_under, values_at-set_all, set_all-HasUniqueKeys, pairs, pairs_of, visit,
  foreach_key-visit,
}

-- What the metadata package documents: a new map is empty, and a copy holds the same values.
pub record IsMetadataLib (lib : MetadataLib) : Type 0 where
  pub new_empty : lib.new_md ≡ []
  pub copy_values : (md : Md) (j : String) → values_at j (lib.copy_md md) ≡ values_at j md
  pub copy_keys : (md : Md) → HasUniqueKeys md → HasUniqueKeys (lib.copy_md md)

-- The values that a context carries under a key.
abbrev pub carried : String → Option ℕ → World → List String
carried j none w = []
carried j (some a) w = values_at j (w.md_at a)

pub carried-md_at :
    (j : String) (o : Option ℕ) (w w' : World) → w.md_at ≡ w'.md_at → carried j o w ≡ carried j o w'
carried-md_at j none w w' e = refl
carried-md_at j (some a) w w' e = ap (λ f. values_at j (f a)) e

fresh_md-carried :
    (lib : MetadataLib) (j : String) (o : Option ℕ) (w : World)
    → IsMetadataLib lib
    → values_at j (fresh_md lib o w) ≡ carried j o w
unfolding fresh_md lookup
fresh_md-carried lib j none w h = rw h.new_empty
fresh_md-carried lib j (some a) w h = h.copy_values (w.md_at a) j

module _ {X : Type 0} (lib : MetadataLib) (tracer : Tracer X) (ctx : Context) (span : ℕ)
    (w : World) where
  -- The map that the call puts together.
  injected_md : Md
  injected_md = set_all (tracer.inject_pairs (tracer.context_of span)) (fresh_md lib ctx.outgoing w)

  inject-md_at :
      (a : ℕ)
      → (inject_span_context lib tracer ctx span w).0.md_at a
        ≡ (if nat_eq a w.next_md then injected_md else w.md_at a)
  unfolding inject_span_context injected_md
  inject-md_at a = ground arith

  inject-md_at_new : (inject_span_context lib tracer ctx span w).0.md_at w.next_md ≡ injected_md
  inject-md_at_new = inject-md_at w.next_md ∙ ground arith

  injected_md-values_at :
      (j : String)
      → IsMetadataLib lib
      → values_at j injected_md
        ≡ carried j ctx.outgoing w ++ written_under j (tracer.inject_pairs (tracer.context_of span))
  unfolding injected_md
  injected_md-values_at j h =
      values_at-set_all (tracer.inject_pairs (tracer.context_of span)) j
        (fresh_md lib ctx.outgoing w)
      ∙ rw (fresh_md-carried lib j ctx.outgoing w h)

  -- `injectSpanContext` never fails. The context that it returns differs from the caller's in the
  -- outgoing map alone, which is new and holds under each key what the caller's map holds and then
  -- what the tracer wrote. No map that was in memory before, the caller's among them, is changed.
  pub inject_span_context_lem :
      IsMetadataLib lib
      → let (w', e) = inject_span_context lib tracer ctx span w in
        (e ≡ returned (record ctx { outgoing = some w.next_md }))
        × ((j : String)
            → values_at j (w'.md_at w.next_md)
              ≡ carried j ctx.outgoing w
                ++ written_under j (tracer.inject_pairs (tracer.context_of span)))
        × ((a : ℕ) → a ≢ w.next_md → w'.md_at a ≡ w.md_at a)
  inject_span_context_lem h = (
    unfold inject_span_context in refl,
    λ j. ap (values_at j) inject-md_at_new ∙ injected_md-values_at j h,
    λ a ne. inject-md_at a ∙ ground arith,
  )

-- The values that stand under a key in a list of pairs.
abbrev pub values_under : String → List (String × String) → List String
values_under j [] = []
values_under j ((k, v) ∷ ps) = let rest = values_under j ps in if k == j then v ∷ rest else rest

values_under-append :
    (j : String) (ps qs : List (String × String))
    → values_under j (ps ++ qs) ≡ values_under j ps ++ values_under j qs
values_under-append j [] qs = refl
values_under-append j ((k, v) ∷ ps) qs = ground (arith, values_under-append j ps qs)

values_under-pairs_of :
    (j k : String) (vs : List String) → values_under j (pairs_of k vs) ≡ (if k == j then vs else [])
unfolding pairs_of
values_under-pairs_of j k [] = ground arith
values_under-pairs_of j k (v ∷ vs) = ground (arith, values_under-pairs_of j k vs)

values_under-pairs-none :
    (j : String) (md : Md) → lookup j md ≡ none → values_under j (pairs md) ≡ []
unfolding lookup pairs
values_under-pairs-none j [] h = refl
values_under-pairs-none j ((k, vs) ∷ md) h =
    rw (values_under-append j (pairs_of k vs) (pairs md))
      (ground (arith, values_under-pairs_of j k vs, values_under-pairs-none j md))

values_under-pairs :
    (j : String) (md : Md) → HasUniqueKeys md → values_under j (pairs md) ≡ values_at j md
unfolding lookup pairs
values_under-pairs j [] u = refl
values_under-pairs j ((k, vs) ∷ md) u = rw (values_under-append j (pairs_of k vs) (pairs md)) (
    ground (
      arith,
      values_under-pairs_of j k vs,
      values_under-pairs j md u.1,
      values_under-pairs-none j md,
      eq_iff k j,
      append-nil vs,
    ))

-- A tracer whose reader keeps every pair that it is handed.
pub record Collects (tracer : Tracer (List (String × String))) : Type 0 where
  pub starts : tracer.extract_start ≡ []
  pub keeps :
      (k v : String) (ps : List (String × String))
      → tracer.extract_handler k v ps ≡ (ps ++ (k, v) ∷ [], none)

visit-Collects :
    (tracer : Tracer (List (String × String)))
    → Collects tracer
    → (ps seen : List (String × String)) → visit tracer.extract_handler ps seen ≡ (seen ++ ps, none)
unfolding visit
visit-Collects tracer c [] seen = ground (arith, append-nil seen)
visit-Collects tracer c ((k, v) ∷ ps) seen = ground (
  arith,
  c.keeps k v seen,
  visit-Collects tracer c ps (seen ++ (k, v) ∷ []),
  append_assoc seen ((k, v) ∷ []) ps,
)

foreach_key-Collects :
    (tracer : Tracer (List (String × String)))
    → Collects tracer
    → (md : Md) → foreach_key tracer.extract_handler md tracer.extract_start ≡ (pairs md, none)
foreach_key-Collects tracer c md =
    foreach_key-visit tracer.extract_handler md tracer.extract_start
    ∙ rw c.starts (visit-Collects tracer c (pairs md) [])

-- All maps in memory are Go maps.
abbrev pub HasGoMaps : World → Type 0
HasGoMaps w = (a : ℕ) → HasUniqueKeys (w.md_at a)

fresh_md-HasUniqueKeys :
    (lib : MetadataLib) (o : Option ℕ) (w : World)
    → IsMetadataLib lib
    → HasGoMaps w
    → HasUniqueKeys (fresh_md lib o w)
unfolding fresh_md
fresh_md-HasUniqueKeys lib none w h g = rw h.new_empty tt
fresh_md-HasUniqueKeys lib (some a) w h g = h.copy_keys (w.md_at a) (g a)

-- A server whose context carries the map that the client's tracer wrote to, in any later state of
-- memory in which that map is unchanged, hands to a reader that keeps all pairs, under each key, exactly
-- what the client's context carried and then what that tracer wrote, in order, and the handler stops at
-- no error. The metadata package does what it documents, and maps in memory are Go maps.
pub extract-inject :
    {X : Type 0} (lib : MetadataLib) (writer : Tracer X) (tracer : Tracer (List (String × String)))
    (ctx server_ctx : Context) (span : ℕ) (w later : World)
    → IsMetadataLib lib
    → Collects tracer
    → HasGoMaps w
    → server_ctx.incoming ≡ some w.next_md
    → later.md_at w.next_md ≡ (inject_span_context lib writer ctx span w).0.md_at w.next_md
    → (seen : List (String × String)) × (extract_span_context lib tracer server_ctx later
        ≡ tracer.extract_end seen none)
      × ((j : String)
          → values_under j seen
            ≡ carried j ctx.outgoing w
              ++ written_under j (writer.inject_pairs (writer.context_of span)))
extract-inject lib writer tracer ctx server_ctx span w later h c g inc kept = (
  pairs md,
  unfold extract_span_context incoming_md in
      ap (λ p. tracer.extract_end p.0 p.1)
        (ap (λ m. foreach_key tracer.extract_handler m tracer.extract_start) reads
          ∙ foreach_key-Collects tracer c md),
  λ j.
      values_under-pairs j md (
        unfold injected_md in
        set_all-HasUniqueKeys _ _ (fresh_md-HasUniqueKeys lib ctx.outgoing w h g))
      ∙ injected_md-values_at lib writer ctx span w j h,
)
  where
    md : Md
    md = injected_md lib writer ctx span w

    reads : incoming_md lib server_ctx.incoming later ≡ md
    reads =
        unfold incoming_md in
        ap (λ o. incoming_md lib o later) inc ∙ kept ∙ inject-md_at_new lib writer ctx span w
