-- ===== src/Programs/Parallel/Counting.antt =====
-- The counters of a round add up, whatever the order of the turns, and do not wrap.
use triple.Base.{
  none, length-append, [], Option, count_if-append, ◌∷◌, List, ◌≤◌, length, if◌then◌else◌,
  length-set, ◌+◌, count_if-set, not, set, true, count_if, some, false, arith, get_elem?, ◌≡◌, Bool,
  ℕ, refl,
}
use triple.Programs.Parallel.{
  step, IsOver, launch, Turn, run_round, turn, callers_of_round, calling, finished, finishing,
  counting, logging, advance, new_round, Caller, Round,
}

abbrev is_good : Caller → Bool
is_good (logging b) = b
is_good (finishing b) = b
is_good (finished b) = b
is_good calling = false
is_good (counting b) = false

abbrev is_bad : Caller → Bool
is_bad (logging b) = not b
is_bad (finishing b) = not b
is_bad (finished b) = not b
is_bad calling = false
is_bad (counting b) = false

-- The goroutine's call has succeeded, and has not been counted.
abbrev pub is_ready : Caller → Bool
is_ready (counting b) = b
is_ready calling = false
is_ready (logging b) = false
is_ready (finishing b) = false
is_ready (finished b) = false

-- The goroutine has not been counted, and its call has not succeeded.
abbrev pub is_unready : Caller → Bool
is_unready calling = true
is_unready (counting b) = not b
is_unready (logging b) = false
is_unready (finishing b) = false
is_unready (finished b) = false

-- The goroutine has been counted and has not left the WaitGroup.
abbrev pub is_leaving : Caller → Bool
is_leaving (logging b) = true
is_leaving (finishing b) = true
is_leaving calling = false
is_leaving (counting b) = false
is_leaving (finished b) = false

-- The goroutine's call has ended without an error.
abbrev pub has_succeeded : Caller → Bool
has_succeeded calling = false
has_succeeded (counting b) = b
has_succeeded (logging b) = b
has_succeeded (finishing b) = b
has_succeeded (finished b) = b

-- Each goroutine is counted once, in the counter of its outcome.
pub record Inv (r : Round) : Type 0 where
  pub good : r.good_counter ≡ count_if is_good r.callers
  pub bad : r.bad_counter ≡ count_if is_bad r.callers
  pub sums :
      r.good_counter + r.bad_counter + count_if is_ready r.callers + count_if is_unready r.callers
      ≡ length r.callers
  pub group :
      r.wait_group
      ≡ count_if is_ready r.callers + count_if is_unready r.callers + count_if is_leaving r.callers
  pub bound : length r.callers ≤ callers_of_round
  pub succeeded :
      count_if has_succeeded r.callers ≡ count_if is_good r.callers + count_if is_ready r.callers

pub new_round-Inv : Inv new_round
unfolding new_round
new_round-Inv = record {
  good = refl;
  bad = refl;
  sums = refl;
  group = refl;
  bound = omega arith;
  succeeded = refl;
}

module _ (i : ℕ) (r : Round) (v : Inv r) where
  -- What a write at `i` does to a count.
  abbrev Moves : (Caller → Bool) → Caller → Caller → Type 0
  Moves p old new =
      count_if p (set r.callers i new) + (if p old then 1 else 0)
      ≡ count_if p r.callers + (if p new then 1 else 0)

  counts :
      (old new : Caller)
      → get_elem? r.callers i ≡ some old
      → Moves is_good old new
        × Moves is_bad old new
        × Moves is_ready old new
        × Moves is_unready old new
        × Moves is_leaving old new
        × Moves has_succeeded old new
  counts old new h = (
    count_if-set is_good r.callers i old new h,
    count_if-set is_bad r.callers i old new h,
    count_if-set is_ready r.callers i old new h,
    count_if-set is_unready r.callers i old new h,
    count_if-set is_leaving r.callers i old new h,
    count_if-set has_succeeded r.callers i old new h,
  )

  advance-Inv : (c : Caller) (ok : Bool) → get_elem? r.callers i ≡ some c → Inv (advance c i ok r)
  unfolding advance
  advance-Inv calling true h =
      ground (arith, counts calling (counting true) h, length-set r.callers i (counting true))
  advance-Inv calling false h =
      ground (arith, counts calling (counting false) h, length-set r.callers i (counting false))
  advance-Inv (counting true) ok h =
      ground (arith, counts (counting true) (logging true) h, length-set r.callers i (logging true))
  advance-Inv (counting false) ok h =
      ground
        (arith, counts (counting false) (logging false) h, length-set r.callers i (logging false))
  advance-Inv (logging true) ok h =
      ground
        (arith, counts (logging true) (finishing true) h, length-set r.callers i (finishing true))
  advance-Inv (logging false) ok h =
      ground (
        arith,
        counts (logging false) (finishing false) h,
        length-set r.callers i (finishing false),
      )
  advance-Inv (finishing true) ok h =
      ground
        (arith, counts (finishing true) (finished true) h, length-set r.callers i (finished true))
  advance-Inv (finishing false) ok h =
      ground (
        arith,
        counts (finishing false) (finished false) h,
        length-set r.callers i (finished false),
      )
  advance-Inv (finished b) ok h = v

launch-Inv : (r : Round) → Inv r → Inv (turn launch r)
unfolding turn
launch-Inv r v = ground (
  arith,
  v,
  count_if-append is_good r.callers (calling ∷ []),
  count_if-append is_bad r.callers (calling ∷ []),
  count_if-append is_ready r.callers (calling ∷ []),
  count_if-append is_unready r.callers (calling ∷ []),
  count_if-append is_leaving r.callers (calling ∷ []),
  count_if-append has_succeeded r.callers (calling ∷ []),
  length-append r.callers (calling ∷ []),
)

pub turn-Inv : (t : Turn) (r : Round) → Inv r → Inv (turn t r)
unfolding turn
turn-Inv launch r v = launch-Inv r v
turn-Inv (step i ok) r v = go (get_elem? r.callers i) refl
  where
    go :
        (c : Option Caller)
        → get_elem? r.callers i ≡ c
        → Inv (elim c [ some c ↦ advance c i ok r | none ↦ r ])
    go none h = v
    go (some c) h = advance-Inv i r v c ok h

pub run_round-Inv : (turns : List Turn) (r : Round) → Inv r → Inv (run_round turns r)
unfolding run_round
run_round-Inv [] r v = v
run_round-Inv (t ∷ turns) r v = run_round-Inv turns (turn t r) (turn-Inv t r v)

-- Of a round that is over the good counter is the number of the calls that have succeeded, and the bad
-- one that of the others.
pub over-counts :
    (r : Round)
    → Inv r
    → IsOver r
    → (r.good_counter ≡ count_if has_succeeded r.callers)
      × (r.good_counter + r.bad_counter ≡ callers_of_round)
over-counts r v over = (
  omega (arith, v.good, v.group, v.succeeded, over.1),
  omega (arith, v.sums, v.group, over.0, over.1),
)

-- However the goroutines of a round interleave and their calls end, the two counters together never
-- exceed the 2000 calls of the round, so that no increment wraps; and when `wg.Wait()` returns behind
-- the loop, the good counter is the number of the calls that have succeeded, and the bad one the rest
-- of the 2000.
run_round_lem :
    (turns : List Turn)
    → let r = run_round turns new_round in
      (r.good_counter + r.bad_counter ≤ callers_of_round)
      × (IsOver r
          → (r.good_counter ≡ count_if has_succeeded r.callers)
            × (r.good_counter + r.bad_counter ≡ callers_of_round))
run_round_lem turns =
    let r = run_round turns new_round in
    let v = run_round-Inv turns new_round new_round-Inv in
    (omega (arith, v.sums, v.bound), over-counts r v)
