-- ===== src/Base/Dict.antt =====
-- A Go map with string keys, as an association list. The list's order is the order in which a
-- `range` loop visits the map; Go fixes none, so a theorem about a loop holds for every list.
use Prim.Native.String.{String}
use mathlib.Core.Path.{◌≡◌, refl}
use mathlib.Core.List.{List, [], ◌∷◌}
use mathlib.Core.Option.{Option, none, some}
use native.Mathlib.Omega.{arith}
use text.Mathlib.Text.{◌==◌}
use text.Mathlib.TextEquality.{eq_iff}
use triple.Base.Tests.{if◌then◌else◌, is_some}

abbrev pub Dict {ℓ} : Type ℓ → Type ℓ
Dict V = List (String × V)

module _ {ℓ} {V : Type ℓ} where
  unfoldable pub lookup : String → Dict V → Option V
  lookup key [] = none
  lookup key ((first, value) ∷ rest) = if first == key then some value else lookup key rest

  unfoldable pub insert : String → V → Dict V → Dict V
  insert key new [] = (key, new) ∷ []
  insert key new ((first, value) ∷ rest) =
      if first == key then (first, new) ∷ rest else (first, value) ∷ insert key new rest

  pub lookup-insert :
      (key other : String) (new : V) (entries : Dict V)
      → lookup other (insert key new entries)
        ≡ (if key == other then some new else lookup other entries)
  unfolding lookup insert
  lookup-insert key other new [] = refl
  lookup-insert key other new ((first, value) ∷ rest) = ground (
    arith,
    lookup-insert key other new rest,
    eq_iff first other,
    eq_iff first key,
    eq_iff key other,
  )

  -- `for k, v := range m { d[k] = v }`
  unfoldable pub copy_into : Dict V → Dict V → Dict V
  copy_into d [] = d
  copy_into d ((k, v) ∷ m) = copy_into (insert k v d) m

  -- No key stands twice, as in every Go map.
  abbrev pub HasUniqueKeys : Dict V → Type ℓ
  HasUniqueKeys [] = Unit
  HasUniqueKeys ((k, v) ∷ m) = (lookup k m ≡ none) × HasUniqueKeys m

  pub insert-HasUniqueKeys :
      (k : String) (v : V) (m : Dict V) → HasUniqueKeys m → HasUniqueKeys (insert k v m)
  unfolding lookup insert
  insert-HasUniqueKeys k v [] u = (refl, tt)
  insert-HasUniqueKeys k v ((j, w) ∷ m) u =
      ground (arith, insert-HasUniqueKeys k v m u.1, lookup-insert k j v m, eq_iff j k, eq_iff k j)

  pub lookup-copy_into :
      (j : String) (d m : Dict V)
      → HasUniqueKeys m
      → lookup j (copy_into d m) ≡ (if is_some (lookup j m) then lookup j m else lookup j d)
  unfolding lookup copy_into
  lookup-copy_into j d [] u = refl
  lookup-copy_into j d ((k, v) ∷ m) u =
      ground (arith, lookup-copy_into j (insert k v d) m u.1, lookup-insert k j v d, eq_iff k j)
