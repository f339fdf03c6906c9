-- ===== src/Base/Effect.antt =====
-- Stateful Go code: an action takes the state and gives the state back with its exit, which is a
-- value or a panic. What was written before a panic stays written, and a `defer` runs on both exits.
pub mod Keeps
pub mod Post
use mathlib.Core.Path.{◌≡◌, refl, ap, ◌∙◌}
use triple.Base.Tests.{if◌then◌else◌}

pub data Exit (A : Type 0) : Type 0 where
  returned : A → Exit A
  panicked : Exit A

abbrev pub M : Type 0 → Type 0 → Type 0
M S A = S → S × Exit A

module _ {S A : Type 0} where
  unfoldable pub pure : A → M S A
  pure a s = (s, returned a)

  unfoldable pub panic : M S A
  panic s = (s, panicked)

  unfoldable pub gets : (S → A) → M S A
  gets f s = (s, returned (f s))

  -- The exit of a callee that has no effect.
  unfoldable pub exit : Exit A → M S A
  exit e s = (s, e)

  -- `defer final` in a function whose remaining body is `body`.
  unfoldable pub defer : (S → S) → M S A → M S A
  defer final body s = let (s', e) = body s in (final s', e)

unfoldable pub modify : {S : Type 0} → (S → S) → M S (Unit {0})
modify f s = (f s, returned tt)

module _ {S A B : Type 0} where
  abbrev pub proceed : Exit A → (A → M S B) → M S B
  proceed (returned a) f s = f a s
  proceed panicked f s = (s, panicked)

  infixl 10 ◌>>=◌ ◌>>◌
  -- Whoever computes with a chain computes with its plain links too.
  unfoldable pub ◌>>=◌ : M S A → (A → M S B) → M S B
  unfolding pure panic gets exit modify defer
  ◌>>=◌ m f s = let (s', e) = m s in proceed e f s'

  abbrev pub ◌>>◌ : M S A → M S B → M S B
  m >> k = m >>= λ _. k

-- What is returned in the end has no part in the state.
pub state-then_pure : {S A B : Type 0} (m : M S A) (b : B) (s : S) → ((m >> pure b) s).0 ≡ (m s).0
unfolding ◌>>=◌
state-then_pure {S} {A} {B} m b s = go (m s).1 (m s).0
  where
    go : (e : Exit A) (s' : S) → (proceed {B = B} e (λ _. pure b) s').0 ≡ s'
    go (returned a) s' = refl
    go panicked s' = refl

-- One link of a chain that returned.
pub bind-returned :
    {S A B : Type 0} (m : M S A) (f : A → M S B) (s : S) (a : A)
    → (m s).1 ≡ returned a
    → (m >>= f) s ≡ f a (m s).0
unfolding ◌>>=◌
bind-returned m f s a e = ap (λ x. proceed x f (m s).0) e

-- One link of a chain that panicked, which ends the chain.
pub bind-panicked :
    {S A B : Type 0} (m : M S A) (f : A → M S B) (s : S)
    → (m s).1 ≡ panicked
    → (m >>= f) s ≡ ((m s).0, panicked)
unfolding ◌>>=◌
bind-panicked m f s e = ap (λ x. proceed x f (m s).0) e

-- The same where the state is known too.
pub bind-to :
    {S A B : Type 0} (m : M S A) (f : A → M S B) (s s' : S) (a : A)
    → m s ≡ (s', returned a)
    → (m >>= f) s ≡ f a s'
unfolding ◌>>=◌
bind-to m f s s' a e = ap (λ x. proceed x.1 f x.0) e

-- A chain whose links return whatever the state.
pub bind-exit :
    {S A B : Type 0} (m : M S A) (f : A → M S B) (a : A) (b : Exit B) (s : S)
    → ((t : S) → (m t).1 ≡ returned a)
    → ((t : S) → (f a t).1 ≡ b)
    → ((m >>= f) s).1 ≡ b
bind-exit m f a b s em ef = ap (λ x. x.1) (bind-returned m f s a (em s)) ∙ ef (m s).0
