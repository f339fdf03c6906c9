-- ===== src/Base/Effect/Keeps.antt =====
-- Actions that leave an observation of the state alone, by a rule for each way to build an action.
use mathlib.Core.Path.{◌≡◌, refl, ◌∙◌}
use mathlib.Core.Bool.{Bool, true, false}
use triple.Base.Tests.{if◌then◌else◌}
use triple.Base.Effect.{
  Exit, returned, panicked, M, pure, panic, gets, exit, modify, defer, proceed, ◌>>=◌,
}

-- Whether it returns or panics, `m` leaves what `view` shows of the state.
pub record Keeps {S A V : Type 0} (view : S → V) (m : M S A) : Type 0 where
  pub at : (s : S) → view (m s).0 ≡ view s

module _ {S A V : Type 0} {view : S → V} where
  pub Keeps-pure : (a : A) → Keeps view (pure a)
  unfolding pure
  Keeps-pure a = record { at = λ s. refl }

  pub Keeps-panic : Keeps view (panic {A = A})
  unfolding panic
  Keeps-panic = record { at = λ s. refl }

  pub Keeps-gets : (f : S → A) → Keeps view (gets f)
  unfolding gets
  Keeps-gets f = record { at = λ s. refl }

  pub Keeps-exit : (e : Exit A) → Keeps view (exit e)
  unfolding exit
  Keeps-exit e = record { at = λ s. refl }

  pub Keeps-if :
      (b : Bool) {m n : M S A} → Keeps view m → Keeps view n → Keeps view (if b then m else n)
  Keeps-if true km kn = km
  Keeps-if false km kn = kn

  pub Keeps-defer :
      (final : S → S) (m : M S A)
      → ((s : S) → view (final s) ≡ view s)
      → Keeps view m
      → Keeps view (defer final m)
  unfolding defer
  Keeps-defer final m kf km = record { at = λ s. kf (m s).0 ∙ km.at s }

pub Keeps-modify :
    {S V : Type 0} {view : S → V} (f : S → S)
    → ((s : S) → view (f s) ≡ view s)
    → Keeps view (modify f)
unfolding modify
Keeps-modify f k = record { at = k }

module _ {S A B V : Type 0} {view : S → V} where
  Keeps-proceed :
      (e : Exit A) (f : A → M S B) (s : S)
      → ((a : A) → Keeps view (f a))
      → view (proceed e f s).0 ≡ view s
  Keeps-proceed (returned a) f s kf = (kf a).at s
  Keeps-proceed panicked f s kf = refl

  -- What follows `m` keeps the view, so that `m` alone decides it.
  pub bind-Keeps :
      (m : M S A) (f : A → M S B) (s : S)
      → ((a : A) → Keeps view (f a))
      → view ((m >>= f) s).0 ≡ view (m s).0
  unfolding ◌>>=◌
  bind-Keeps m f s kf = Keeps-proceed (m s).1 f (m s).0 kf

  pub Keeps-bind :
      (m : M S A) (f : A → M S B)
      → Keeps view m
      → ((a : A) → Keeps view (f a))
      → Keeps view (m >>= f)
  unfolding ◌>>=◌
  Keeps-bind m f km kf = record { at = λ s. Keeps-proceed (m s).1 f (m s).0 kf ∙ km.at s }

pub ruleset keeps_rules =
    (Keeps-pure, Keeps-panic, Keeps-gets, Keeps-exit, Keeps-if, Keeps-bind, Keeps-modify)
