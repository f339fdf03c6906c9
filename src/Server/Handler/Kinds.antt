-- ===== src/Server/Handler/Kinds.antt =====
-- The kinds of calls that the handler tells apart, and the parameters that are pointers.
use triple.Server.Handler.{payload_key, generic_payload, cells, payload_of}
use triple.Base.{
  Bool-cases, eq_iff, if◌then◌else◌, inr, true, ap, ◌==◌, none, ◌++◌, some, inl, arith, panicked, ℕ,
  map, ◌⊎◌, ◌≢◌, ◌≡◌, String, List, [], ◌∷◌, refl,
}
use triple.Common.Context.{value_of, Context}
use triple.Common.Error.{nil_value, object, strings, text, bytes, pointer, Value}

-- The call is not a generic one.
abbrev pub IsPlain : Context → String → Type 0
IsPlain ctx name =
    (name ≢ "$invoke") ⊎ ((payload : List ℕ) → value_of ctx payload_key ≢ bytes payload)

-- The values that pointers point to.
abbrev pub PointTo : List Value → List Value → Type 0
PointTo params vs = params ≡ map pointer vs

not_pointer :
    (v : Value) (params vs : List Value) → ((w : Value) → v ≢ pointer w) → ¬ PointTo (v ∷ params) vs
not_pointer v params [] ne e = cc
not_pointer v params (w ∷ vs) ne e = ne w (ground (arith, e))

pointer_tail :
    (v : Value) (params vs : List Value)
    → ((vs : List Value) → ¬ PointTo params vs)
    → ¬ PointTo (pointer v ∷ params) vs
pointer_tail v params [] ne e = cc
pointer_tail v params (w ∷ ws) ne e = ne ws (ground (arith, e))

pub pointers-cases :
    (params args : List Value)
    → ((vs : List Value) × PointTo params vs)
      ⊎ (((vs : List Value) → ¬ PointTo params vs) × (cells params args ≡ panicked))
unfolding cells
pointers-cases [] args = inl ([], refl)
pointers-cases (pointer v ∷ params) args = elim (pointers-cases params (args ++ v ∷ [])) [
  | inl (vs, e) ↦ inl (v ∷ vs, ap (λ ps. pointer v ∷ ps) e)
  | inr (ne, crash) ↦ inr (λ vs e. pointer_tail v params vs ne e, crash)
]
pointers-cases (nil_value ∷ params) args = inr (λ vs. not_pointer _ params vs (λ w e. cc), refl)
pointers-cases (text t ∷ params) args = inr (λ vs. not_pointer _ params vs (λ w e. cc), refl)
pointers-cases (bytes b ∷ params) args = inr (λ vs. not_pointer _ params vs (λ w e. cc), refl)
pointers-cases (strings t ∷ params) args = inr (λ vs. not_pointer _ params vs (λ w e. cc), refl)
pointers-cases (object n ∷ params) args = inr (λ vs. not_pointer _ params vs (λ w e. cc), refl)

pub payload-cases :
    (name : String) (v : Value)
    → ((payload : List ℕ) × (name ≡ "$invoke")
        × (v ≡ bytes payload)
        × (generic_payload name v ≡ some payload))
      ⊎ (((name ≢ "$invoke") ⊎ ((payload : List ℕ) → v ≢ bytes payload))
          × (generic_payload name v ≡ none))
unfolding generic_payload
payload-cases name v = elim (Bool-cases (name == "$invoke")) [
  | inl e ↦ go v e
  | inr e ↦ inr (inl (ground (arith, eq_iff name "$invoke", e)), rw e refl)
]
  where
    go :
        (v : Value)
        → (name == "$invoke") ≡ true
        → ((payload : List ℕ) × (name ≡ "$invoke")
            × (v ≡ bytes payload)
            × ((if name == "$invoke" then payload_of v else none) ≡ some payload))
          ⊎ (((name ≢ "$invoke") ⊎ ((payload : List ℕ) → v ≢ bytes payload))
              × ((if name == "$invoke" then payload_of v else none) ≡ none))
    go (bytes b) e = inl (b, (eq_iff name "$invoke").0 e, refl, rw e refl)
    go nil_value e = inr (inr (λ p x. cc), rw e refl)
    go (text t) e = inr (inr (λ p x. cc), rw e refl)
    go (strings t) e = inr (inr (λ p x. cc), rw e refl)
    go (pointer w) e = inr (inr (λ p x. cc), rw e refl)
    go (object n) e = inr (inr (λ p x. cc), rw e refl)
