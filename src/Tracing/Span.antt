-- ===== src/Tracing/Span.antt =====
-- What the interceptors of unary calls share: a span round a body, and what is written at the end.
use triple.Base.{
  Keeps-bind, Keeps-modify, ◌≢◌, ℕ, ◌≡◌, refl, String, List, ◌∷◌, Option, M, Exit, returned,
  panicked, pure, defer, modify, ◌>>=◌, ◌>>◌, proceed, keeps_rules, arith, Bool,
}
use triple.Common.Error.{Err, Value}
use triple.Common.Context.{Context}
use triple.Tracing.World.{World, Event, SpanKind, finished, record_event, start_span, finishes}
use triple.Tracing.ErrorClass.{StatusLib}
use triple.Tracing.Options.{
  Options, decorate, report, KeepsFinishes, DecoratorKeepsFinishes, DecoratorReturns,
  finishes-report,
}

-- `span := tracer.StartSpan(...); defer span.Finish()` and the rest of the function.
unfoldable pub with_span : {A : Type 0} → String → Option ℕ → SpanKind → (ℕ → M World A) → M World A
with_span method parent kind body = do
  span ← start_span method parent kind
  defer (record_event (finished span)) (body span)

-- The tags and logs of the outcome, and then the decorator.
unfoldable pub conclude :
    StatusLib
    → Options
    → Context
    → ℕ
    → Bool
    → String
    → Value
    → Value
    → Option Err
    → M World (Unit {0})
conclude from_error o ctx span client method req resp err = do
  modify (report from_error o span client resp err)
  decorate o ctx span method req resp err

pub conclude-KeepsFinishes :
    (from_error : StatusLib) (o : Options) (ctx : Context) (s : ℕ) (client : Bool) (method : String)
    (req resp : Value) (err : Option Err)
    → DecoratorKeepsFinishes s o
    → KeepsFinishes s (conclude from_error o ctx s client method req resp err)
unfolding conclude
conclude-KeepsFinishes from_error o ctx s client method req resp err kd =
    search (keeps_rules, finishes-report, kd)

-- The same for any span, where the decorator does not finish it.
pub conclude-KeepsOther :
    (from_error : StatusLib) (o : Options) (ctx : Context) (t s : ℕ) (client : Bool)
    (method : String) (req resp : Value) (err : Option Err)
    → KeepsFinishes t (decorate o ctx s method req resp err)
    → KeepsFinishes t (conclude from_error o ctx s client method req resp err)
unfolding conclude
conclude-KeepsOther from_error o ctx t s client method req resp err kd =
    Keeps-bind _ _ (Keeps-modify _ (finishes-report t from_error o s client resp err)) λ u. kd

pub conclude-returns :
    (from_error : StatusLib) (o : Options) (ctx : Context) (s : ℕ) (client : Bool) (method : String)
    (req resp : Value) (err : Option Err) (w : World)
    → DecoratorReturns o
    → (conclude from_error o ctx s client method req resp err w).1 ≡ returned tt
unfolding conclude ◌>>=◌
conclude-returns from_error o ctx s client method req resp err w dr =
    dr ctx s method req resp err (report from_error o s client resp err w)

module _ {A : Type 0} (m : M World A) (k : A → M World (Unit {0})) where
  after : Exit A → World → World × Exit A
  after e w = proceed e (λ a. k a >> pure a) w

  after-exit :
      ((a : A) (w : World) → (k a w).1 ≡ returned tt) → (e : Exit A) (w : World) → (after e w).1 ≡ e
  unfolding after ◌>>=◌
  after-exit h (returned a) w = ground (arith, h a w)
  after-exit h panicked w = refl

  -- What is done after `m`, if it always comes back, leaves the exit of `m`.
  pub exit-conclude :
      ((a : A) (w : World) → (k a w).1 ≡ returned tt)
      → (w : World) → ((m >>= λ a. k a >> pure a) w).1 ≡ (m w).1
  unfolding after ◌>>=◌
  exit-conclude h w = after-exit h (m w).1 (m w).0

module _ {A : Type 0} (method : String) (parent : Option ℕ) (kind : SpanKind) (body : ℕ → M World A)
    (w : World) where
  -- The span of a body that does not finish it where it is run is finished exactly once, as the last
  -- thing done, whether the body returns or panics.
  pub with_span-finishes_at :
      finishes w.next_span w ≡ 0
      → finishes w.next_span (body w.next_span (start_span method parent kind w).0).0
        ≡ finishes w.next_span (start_span method parent kind w).0
      → let w' = (with_span method parent kind body w).0 in
        (finishes w.next_span w' ≡ 1)
        × ((rest : List Event) × (w'.events ≡ finished w.next_span ∷ rest))
  unfolding with_span start_span ◌>>=◌
  with_span-finishes_at fresh kb = (ground (arith, kb), (_, refl))

  -- Another span is finished as often as the body finishes it.
  pub with_span-finishes_other :
      (s : ℕ)
      → s ≢ w.next_span
      → finishes s (with_span method parent kind body w).0
        ≡ finishes s (body w.next_span (start_span method parent kind w).0).0
  unfolding with_span start_span ◌>>=◌
  with_span-finishes_other s ne = ground (arith, ne)

  -- The same of a body that never finishes the span.
  pub with_span-finishes_once :
      finishes w.next_span w ≡ 0
      → KeepsFinishes w.next_span (body w.next_span)
      → let w' = (with_span method parent kind body w).0 in
        (finishes w.next_span w' ≡ 1)
        × ((rest : List Event) × (w'.events ≡ finished w.next_span ∷ rest))
  with_span-finishes_once fresh kb =
      with_span-finishes_at fresh (kb.at (start_span method parent kind w).0)
