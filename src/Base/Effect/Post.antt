-- ===== src/Base/Effect/Post.antt =====
-- What holds of the value that an action returns, if it returns.
use triple.Base.Effect.{Exit, returned, panicked, M, proceed, ◌>>=◌}

-- A value that is returned has the property.
abbrev pub Post : {A : Type 0} → (A → Type 0) → Exit A → Type 0
Post Q (returned a) = Q a
Post Q panicked = Unit

pub bind-Post :
    {S A B : Type 0} (Q : A → Type 0) (P : B → Type 0) (m : M S A) (f : A → M S B) (s : S)
    → Post Q (m s).1
    → ((a : A) (t : S) → Q a → Post P (f a t).1)
    → Post P ((m >>= f) s).1
unfolding ◌>>=◌
bind-Post {S} Q P m f s q k = go (m s).1 (m s).0 q
  where
    go : (e : Exit _) (t : S) → Post Q e → Post P (proceed e f t).1
    go (returned a) t q = k a t q
    go panicked t q = tt

-- Nothing is asked of the value.
pub any-Post : {A : Type 0} (e : Exit A) → Post (λ a. Unit {0}) e
any-Post (returned a) = tt
any-Post panicked = tt
