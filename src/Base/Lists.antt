-- ===== src/Base/Lists.antt =====
-- Lists over the native numbers, counting, and predicates by recursion.
use Prim.Native.Nat.{ℕ, zero, suc, ◌+◌, ◌≤◌}
use mathlib.Core.Path.{◌≡◌, refl, ap}
use mathlib.Core.Logic.{◌≢◌, ◌⊎◌, inl, inr}
use mathlib.Core.Bool.{Bool}
use mathlib.Core.List.{List, [], ◌∷◌, ◌++◌}
use mathlib.Core.Option.{Option, none, some}
use native.Mathlib.Omega.{arith}
use triple.Base.Tests.{if◌then◌else◌}

module _ {ℓ} {A : Type ℓ} where
  abbrev pub length : List A → ℕ
  length [] = 0
  length (x ∷ xs) = suc (length xs)

  abbrev pub get_elem? : List A → ℕ → Option A
  get_elem? [] i = none
  get_elem? (x ∷ xs) zero = some x
  get_elem? (x ∷ xs) (suc i) = get_elem? xs i

  -- How many entries pass the test.
  abbrev pub count_if : (A → Bool) → List A → ℕ
  count_if p [] = 0
  count_if p (x ∷ xs) = (if p x then 1 else 0) + count_if p xs

  pub count_if-append :
      (p : A → Bool) (xs ys : List A) → count_if p (xs ++ ys) ≡ count_if p xs + count_if p ys
  count_if-append p [] ys = omega arith
  count_if-append p (x ∷ xs) ys = omega (arith, count_if-append p xs ys)

  pub length-append : (xs ys : List A) → length (xs ++ ys) ≡ length xs + length ys
  length-append [] ys = omega arith
  length-append (x ∷ xs) ys = omega (arith, length-append xs ys)

  pub get_elem?-append_last : (xs : List A) (x : A) → get_elem? (xs ++ x ∷ []) (length xs) ≡ some x
  get_elem?-append_last [] x = refl
  get_elem?-append_last (y ∷ xs) x = get_elem?-append_last xs x

  pub get_elem?-append_there :
      (xs ys : List A) (i : ℕ) (x : A)
      → get_elem? xs i ≡ some x
      → (get_elem? (xs ++ ys) i ≡ some x) × (length xs ≢ i)
  get_elem?-append_there [] ys i x h = cc
  get_elem?-append_there (y ∷ xs) ys zero x h = (h, λ e. absurd (omega (arith, e)))
  get_elem?-append_there (y ∷ xs) ys (suc i) x h =
      let (there, ne) = get_elem?-append_there xs ys i x h in (there, λ e. ne (omega (arith, e)))

  abbrev pub All {κ} : (A → Type κ) → List A → Type κ
  All P [] = Unit
  All P (x ∷ xs) = P x × All P xs

  pub All-append {κ} : (P : A → Type κ) (xs ys : List A) → All P xs → All P ys → All P (xs ++ ys)
  All-append P [] ys px py = py
  All-append P (x ∷ xs) ys px py = (px.0, All-append P xs ys px.1 py)

  -- A write out of bounds changes nothing.
  abbrev pub set : List A → ℕ → A → List A
  set [] i v = []
  set (x ∷ xs) zero v = v ∷ xs
  set (x ∷ xs) (suc i) v = x ∷ set xs i v

  abbrev pub replicate : ℕ → A → List A
  replicate zero a = []
  replicate (suc n) a = a ∷ replicate n a

  -- A write at `i` takes the old entry out of the count and puts the new one in.
  pub count_if-set :
      (p : A → Bool) (xs : List A) (i : ℕ) (old new : A)
      → get_elem? xs i ≡ some old
      → count_if p (set xs i new) + (if p old then 1 else 0)
        ≡ count_if p xs + (if p new then 1 else 0)
  count_if-set p [] i old new h = cc
  count_if-set p (x ∷ xs) zero old new h = ground arith
  count_if-set p (x ∷ xs) (suc i) old new h = omega (arith, count_if-set p xs i old new h)

  pub count_if-replicate :
      (p : A → Bool) (n : ℕ) (a : A) → count_if p (replicate n a) ≡ (if p a then n else 0)
  count_if-replicate p zero a = ground arith
  count_if-replicate p (suc n) a = ground (arith, count_if-replicate p n a)

  pub get_elem?-set_ne :
      (xs : List A) (i j : ℕ) (v : A) → i ≢ j → get_elem? (set xs i v) j ≡ get_elem? xs j
  get_elem?-set_ne [] i j v h = refl
  get_elem?-set_ne (x ∷ xs) zero zero v h = absurd (h refl)
  get_elem?-set_ne (x ∷ xs) zero (suc j) v h = refl
  get_elem?-set_ne (x ∷ xs) (suc i) zero v h = refl
  get_elem?-set_ne (x ∷ xs) (suc i) (suc j) v h = get_elem?-set_ne xs i j v (λ e. h (ap suc e))

  pub get_elem?-set_self :
      (xs : List A) (i : ℕ) (old v : A)
      → get_elem? xs i ≡ some old
      → get_elem? (set xs i v) i ≡ some v
  get_elem?-set_self [] i old v h = cc
  get_elem?-set_self (x ∷ xs) zero old v h = refl
  get_elem?-set_self (x ∷ xs) (suc i) old v h = get_elem?-set_self xs i old v h

  pub length-set : (xs : List A) (i : ℕ) (v : A) → length (set xs i v) ≡ length xs
  length-set [] i v = refl
  length-set (x ∷ xs) zero v = refl
  length-set (x ∷ xs) (suc i) v = ap suc (length-set xs i v)

  pub length-replicate : (n : ℕ) (a : A) → length (replicate n a) ≡ n
  length-replicate zero a = refl
  length-replicate (suc n) a = ap suc (length-replicate n a)

  pub get_elem?-replicate :
      (n : ℕ) (a : A) (i : ℕ) → (get_elem? (replicate n a) i ≡ some a) ⊎ (n ≤ i)
  get_elem?-replicate zero a i = inr (omega arith)
  get_elem?-replicate (suc n) a zero = inl refl
  get_elem?-replicate (suc n) a (suc i) = ground (arith, get_elem?-replicate n a i)
