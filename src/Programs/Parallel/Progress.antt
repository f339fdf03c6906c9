-- ===== src/Programs/Parallel/Progress.antt =====
-- A round can always be brought to its end, so that `wg.Wait()` is never stuck.
use triple.Base.{
  length-append, false, length-set, inr, ltb, zero, length, ◌≤◌, ◌-◌, inl, true, Bool-cases, suc,
  ◌<◌, set, ◌*◌, arith, some, ◌⊎◌, ◌+◌, get_elem?, ◌≡◌, ℕ, count_if, ◌++◌, List, [], ◌∷◌, refl,
}
use triple.Programs.Parallel.{
  new_round, run_round, step, launch, calling, finished, finishing, callers_of_round, Turn, logging,
  IsOver, counting, Caller, turn, advance, Round,
}
use triple.Programs.Parallel.Counting.{
  turn-Inv, new_round-Inv, run_round-Inv, is_leaving, is_unready, is_ready, Inv,
}

-- The turns that a goroutine needs to be finished.
abbrev steps_left : Caller → ℕ
steps_left calling = 4
steps_left (counting b) = 3
steps_left (logging b) = 2
steps_left (finishing b) = 1
steps_left (finished b) = 0

abbrev all_steps : List Caller → ℕ
all_steps [] = 0
all_steps (c ∷ cs) = steps_left c + all_steps cs

-- The turns that are left of the round; each launch adds a goroutine with four.
abbrev turns_left : Round → ℕ
turns_left r = all_steps r.callers + 5 * (callers_of_round - length r.callers)

all_steps-set :
    (cs : List Caller) (i : ℕ) (old new : Caller)
    → get_elem? cs i ≡ some old
    → all_steps (set cs i new) + steps_left old ≡ all_steps cs + steps_left new
all_steps-set [] i old new h = cc
all_steps-set (c ∷ cs) zero old new h = ground arith
all_steps-set (c ∷ cs) (suc i) old new h = omega (arith, all_steps-set cs i old new h)

all_steps-append :
    (cs : List Caller) (c : Caller) → all_steps (cs ++ c ∷ []) ≡ all_steps cs + steps_left c
all_steps-append [] c = omega arith
all_steps-append (d ∷ cs) c = omega (arith, all_steps-append cs c)

-- A goroutine that is not finished.
unfinished :
    (cs : List Caller)
    → (all_steps cs ≡ 0) ⊎ ((i : ℕ) × (c : Caller) × (get_elem? cs i ≡ some c) × (0 < steps_left c))
unfinished [] = inl refl
unfinished (calling ∷ cs) = inr (0, calling, refl, omega arith)
unfinished (counting b ∷ cs) = inr (0, counting b, refl, omega arith)
unfinished (logging b ∷ cs) = inr (0, logging b, refl, omega arith)
unfinished (finishing b ∷ cs) = inr (0, finishing b, refl, omega arith)
unfinished (finished b ∷ cs) = elim (unfinished cs) [
  | inl e ↦ inl (omega (arith, e))
  | inr (i, c, there, left) ↦ inr (suc i, c, there, left)
]

-- Who is in the WaitGroup has a turn left.
in_group :
    (cs : List Caller)
    → count_if is_ready cs + count_if is_unready cs + count_if is_leaving cs ≤ all_steps cs
in_group [] = omega arith
in_group (calling ∷ cs) = omega (arith, in_group cs)
in_group (counting true ∷ cs) = omega (arith, in_group cs)
in_group (counting false ∷ cs) = omega (arith, in_group cs)
in_group (logging b ∷ cs) = omega (arith, in_group cs)
in_group (finishing b ∷ cs) = omega (arith, in_group cs)
in_group (finished b ∷ cs) = omega (arith, in_group cs)

advance-steps :
    (c : Caller) (i : ℕ) (r : Round)
    → get_elem? r.callers i ≡ some c
    → 0 < steps_left c
    → turns_left (advance c i true r) < turns_left r
unfolding advance
advance-steps calling i r h p = ground (
  arith,
  all_steps-set r.callers i calling (counting true) h,
  length-set r.callers i (counting true),
)
advance-steps (counting true) i r h p = ground (
  arith,
  all_steps-set r.callers i (counting true) (logging true) h,
  length-set r.callers i (logging true),
)
advance-steps (counting false) i r h p = ground (
  arith,
  all_steps-set r.callers i (counting false) (logging false) h,
  length-set r.callers i (logging false),
)
advance-steps (logging b) i r h p = ground (
  arith,
  all_steps-set r.callers i (logging b) (finishing b) h,
  length-set r.callers i (finishing b),
)
advance-steps (finishing b) i r h p = ground (
  arith,
  all_steps-set r.callers i (finishing b) (finished b) h,
  length-set r.callers i (finished b),
)
advance-steps (finished b) i r h p = absurd (omega (arith, p))

-- A round that is not over has a turn that brings it on.
next_turn : (r : Round) → Inv r → IsOver r ⊎ ((t : Turn) × (turns_left (turn t r) < turns_left r))
unfolding turn
next_turn r v = elim (Bool-cases (ltb (length r.callers) callers_of_round)) [
  | inl less ↦ inr (
    launch,
    ground
        (arith, less, all_steps-append r.callers calling, length-append r.callers (calling ∷ [])),
  )
  | inr full ↦ elim (unfinished r.callers) [
    | inl e ↦ inl (ground (arith, v.bound, full), omega (arith, v.group, in_group r.callers, e))
    | inr (i, c, there, left) ↦ inr (step i true, rw (there, turn) (advance-steps c i r there left))
  ]
]

run_round-append :
    (ts us : List Turn) (r : Round) → run_round (ts ++ us) r ≡ run_round us (run_round ts r)
unfolding run_round
run_round-append [] us r = refl
run_round-append (t ∷ ts) us r = run_round-append ts us (turn t r)

-- With that many turns left at most, some turns end the round.
ends_within :
    (n : ℕ) (r : Round) → Inv r → turns_left r ≤ n → (more : List Turn) × IsOver (run_round more r)
unfolding run_round
ends_within zero r v le = elim (next_turn r v) [
  | inl over ↦ ([], over)
  | inr (t, less) ↦ absurd (omega (arith, le, less))
]
ends_within (suc n) r v le = elim (next_turn r v) [
  | inl over ↦ ([], over)
  | inr (t, less) ↦
      (let (more, over) = ends_within n (turn t r) (turn-Inv t r v) (omega (arith, le, less)) in
        (t ∷ more, over))
]

-- Any round can be brought to its end.
pub run_round-ends : (r : Round) → Inv r → (more : List Turn) × IsOver (run_round more r)
run_round-ends r v = ends_within (turns_left r) r v (omega arith)

-- Whatever turns have been taken, there are turns that bring the round to its end: the 2000 goroutines
-- are launched, the WaitGroup is at zero, and `wg.Wait()` returns. So no order of turns gets stuck.
run_round-completes :
    (turns : List Turn) → (more : List Turn) × IsOver (run_round (turns ++ more) new_round)
run_round-completes turns =
    let r = run_round turns new_round in
    let (more, over) = run_round-ends r (run_round-Inv turns new_round new_round-Inv) in
    (more, rw (run_round-append turns more new_round) over)
