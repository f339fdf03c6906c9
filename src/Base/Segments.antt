-- ===== src/Base/Segments.antt =====
-- Where an entry stands in a list that is put together of others.
use mathlib.Core.Path.{◌≡◌}
use mathlib.Core.Logic.{◌⊎◌, inl, inr}
use mathlib.Core.List.{List, [], ◌∷◌, ◌++◌}

-- The entry stands in the list.
abbrev pub Has : {A : Type 0} → A → List A → Type 0
Has a [] = ⊥
Has a (x ∷ xs) = (a ≡ x) ⊎ Has a xs

module _ {A : Type 0} (a : A) where
  pub Has-left : (xs ys : List A) → Has a xs → Has a (xs ++ ys)
  Has-left [] ys h = absurd h
  Has-left (x ∷ xs) ys (inl e) = inl e
  Has-left (x ∷ xs) ys (inr t) = inr (Has-left xs ys t)

  pub Has-right : (xs ys : List A) → Has a ys → Has a (xs ++ ys)
  Has-right [] ys h = h
  Has-right (x ∷ xs) ys h = inr (Has-right xs ys h)

-- The entry stands in one of five lists.
pub data Segment {A : Type 0} (x : A) (a b c d e : List A) : Type 0 where
  in_first : Has x a → Segment x a b c d e
  in_second : Has x b → Segment x a b c d e
  in_third : Has x c → Segment x a b c d e
  in_fourth : Has x d → Segment x a b c d e
  in_fifth : Has x e → Segment x a b c d e

pub Segment-Has :
    {A : Type 0} (x : A) (a b c d e : List A) → Segment x a b c d e → Has x (a ++ b ++ c ++ d ++ e)
Segment-Has x a b c d e (in_first h) =
    Has-left x (a ++ b ++ c ++ d) e
      (Has-left x (a ++ b ++ c) d (Has-left x (a ++ b) c (Has-left x a b h)))
Segment-Has x a b c d e (in_second h) =
    Has-left x (a ++ b ++ c ++ d) e
      (Has-left x (a ++ b ++ c) d (Has-left x (a ++ b) c (Has-right x a b h)))
Segment-Has x a b c d e (in_third h) =
    Has-left x (a ++ b ++ c ++ d) e (Has-left x (a ++ b ++ c) d (Has-right x (a ++ b) c h))
Segment-Has x a b c d e (in_fourth h) =
    Has-left x (a ++ b ++ c ++ d) e (Has-right x (a ++ b ++ c) d h)
Segment-Has x a b c d e (in_fifth h) = Has-right x (a ++ b ++ c ++ d) e h
