-- ===== src/Tracing/Metadata/Carrier.antt =====
-- What the carrier holds after `Set` calls, and what `ForeachKey` visits.
use triple.Base.{
  String, to_lower, ◌≡◌, refl, sym, ◌∙◌, List, [], ◌∷◌, ◌++◌, append_assoc, append-nil, Option,
  none, some, arith, if◌then◌else◌, ◌==◌, eq_iff,
}
use triple.Base.Dict.{lookup-insert, HasUniqueKeys, insert-HasUniqueKeys}
use triple.Common.Error.{Err}
use triple.Common.Context.{Md}
use triple.Tracing.Metadata.{values_at, set, set_all, foreach_key, foreach_value}

-- The values written under a key by a list of `Set` calls, in order.
abbrev pub written_under : String → List (String × String) → List String
written_under j [] = []
written_under j ((k, v) ∷ kvs) =
    let rest = written_under j kvs in if to_lower k == j then v ∷ rest else rest

values_at-set :
    (k v j : String) (md : Md)
    → values_at j (set k v md)
      ≡ (if to_lower k == j then values_at j md ++ v ∷ [] else values_at j md)
unfolding set
values_at-set k v j md = ground (
  arith,
  lookup-insert (to_lower k) j (values_at (to_lower k) md ++ v ∷ []) md,
  eq_iff (to_lower k) j,
)

-- After any `Set` calls a key holds what it held and then the values written under it, whatever the
-- case of the letters in the calls, in the order of the calls.
pub values_at-set_all :
    (kvs : List (String × String)) (j : String) (md : Md)
    → values_at j (set_all kvs md) ≡ values_at j md ++ written_under j kvs
unfolding set_all
values_at-set_all [] j md = sym (append-nil _)
values_at-set_all ((k, v) ∷ kvs) j md =
    values_at-set_all kvs j (set k v md)
    ∙ ground (
      arith,
      values_at-set k v j md,
      append_assoc (values_at j md) (v ∷ []) (written_under j kvs),
    )

set-HasUniqueKeys : (k v : String) (md : Md) → HasUniqueKeys md → HasUniqueKeys (set k v md)
unfolding set
set-HasUniqueKeys k v md u = insert-HasUniqueKeys (to_lower k) _ md u

pub set_all-HasUniqueKeys :
    (kvs : List (String × String)) (md : Md) → HasUniqueKeys md → HasUniqueKeys (set_all kvs md)
unfolding set_all
set_all-HasUniqueKeys [] md u = u
set_all-HasUniqueKeys ((k, v) ∷ kvs) md u =
    set_all-HasUniqueKeys kvs (set k v md) (set-HasUniqueKeys k v md u)

-- The map as the list of its pairs, in the order of the loop.
unfoldable pub pairs_of : String → List String → List (String × String)
pairs_of k [] = []
pairs_of k (v ∷ vs) = (k, v) ∷ pairs_of k vs

unfoldable pub pairs : Md → List (String × String)
unfolding pairs_of
pairs [] = []
pairs ((k, vs) ∷ md) = pairs_of k vs ++ pairs md

module _ {X : Type 0} (handler : String → String → X → X × Option Err) where
  -- The pairs handed to the handler one by one, up to the first error.
  unfoldable pub visit : List (String × String) → X → X × Option Err
  visit [] x = (x, none)
  visit ((k, v) ∷ ps) x =
      let (x', e) = handler k v x in elim e [ some err ↦ (x', some err) | none ↦ visit ps x' ]

  visit-append :
      (ps qs : List (String × String)) (x : X)
      → visit (ps ++ qs) x
        ≡ (let (x', e) = visit ps x in elim e [ some err ↦ (x', some err) | none ↦ visit qs x' ])
  unfolding visit
  visit-append [] qs x = refl
  visit-append ((k, v) ∷ ps) qs x = ground (arith, visit-append ps qs (handler k v x).0)

  foreach_value-visit :
      (k : String) (vs : List String) (x : X)
      → foreach_value handler k vs x ≡ visit (pairs_of k vs) x
  unfolding foreach_value visit pairs_of
  foreach_value-visit k [] x = refl
  foreach_value-visit k (v ∷ vs) x = ground (arith, foreach_value-visit k vs (handler k v x).0)

  -- The nested loops of `ForeachKey` hand over the pairs of the map one by one and stop at the first
  -- error of the handler, which is returned.
  pub foreach_key-visit : (md : Md) (x : X) → foreach_key handler md x ≡ visit (pairs md) x
  unfolding foreach_key visit pairs
  foreach_key-visit [] x = refl
  foreach_key-visit ((k, vs) ∷ md) x =
      rw (visit-append (pairs_of k vs) (pairs md) x) (
        ground
          (arith, foreach_value-visit k vs x, foreach_key-visit md (visit (pairs_of k vs) x).0))
