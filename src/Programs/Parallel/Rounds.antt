-- ===== src/Programs/Parallel/Rounds.antt =====
-- example/dubbo/go-client/cmd/client.go: the endless loop of `testSayHelloWithHighParallel`, which prints
-- the counters of each round behind `wg.Wait()`, sleeps, and begins the next.
use triple.Base.{
  ◌++◌, ◌&&◌, ◌∙◌, ap, nat_eq, ◌*◌, ◌+◌, ◌-◌, ◌≤◌, ◌≡◌, length, Bool-cases, inl, inr, zero, suc,
  count_if, if◌then◌else◌, map, arith, Bool, ℕ, List, [], ◌∷◌, refl,
}
use triple.Programs.{second}
use triple.Programs.Parallel.{new_round, callers_of_round, turn, run_round, IsOver, Turn, Round}
use triple.Programs.Parallel.Counting.{has_succeeded, new_round-Inv, turn-Inv, over-counts, Inv}
use triple.Programs.Parallel.Progress.{run_round-ends}

-- The two lines that are printed of a round.
pub data Printed : Type 0 where
  good_counter bad_counter : ℕ → Printed

-- The round that runs, what has been printed, the newest first, and how many nanoseconds the main
-- goroutine has slept.
pub record Tester : Type 0 where
  pub round : Round
  pub printed : List Printed
  pub slept : ℕ

-- A turn within the round, or the main goroutine behind `wg.Wait()`.
pub data Move : Type 0 where
  within : Turn → Move
  go_on : Move

is_over : Round → Bool
is_over r = nat_eq (length r.callers) callers_of_round && nat_eq r.wait_group 0

unfoldable pub print_counters : Tester → Tester
print_counters t = record {
  round = new_round;
  printed = bad_counter t.round.bad_counter ∷ good_counter t.round.good_counter ∷ t.printed;
  slept = t.slept + second * 5;
}

-- As long as the round is not over, `wg.Wait()` does not return.
unfoldable pub move : Move → Tester → Tester
unfolding is_over
move (within u) t = record t { round = turn u t.round }
move go_on t = if is_over t.round then print_counters t else t

unfoldable pub run_moves : List Move → Tester → Tester
run_moves [] t = t
run_moves (m ∷ moves) t = run_moves moves (move m t)

unfoldable pub new_tester : Tester
new_tester = record { round = new_round; printed = []; slept = 0 }

-- The lines stand in pairs, each of which adds up to the calls of a round.
abbrev pub AddsUp : List Printed → Type 0
AddsUp [] = Unit {0}
AddsUp (bad_counter b ∷ good_counter g ∷ ps) = (g + b ≡ callers_of_round) × AddsUp ps
AddsUp (bad_counter b ∷ bad_counter c ∷ ps) = ⊥
AddsUp (bad_counter b ∷ []) = ⊥
AddsUp (good_counter g ∷ ps) = ⊥

record IsSound (t : Tester) : Type 0 where
  counted : Inv t.round
  adds_up : AddsUp t.printed
  sleeps : 2 * t.slept ≡ length t.printed * (5 * second)

move-over : (t : Tester) → IsOver t.round → move go_on t ≡ print_counters t
unfolding move
move-over t over = ground (arith, over)

print_counters-IsSound : (t : Tester) → IsOver t.round → IsSound t → IsSound (print_counters t)
unfolding print_counters
print_counters-IsSound t over s =
    let counts = over-counts t.round s.counted over in
    record {
      counted = new_round-Inv;
      adds_up = (counts.1, s.adds_up);
      sleeps = omega (arith, s.sleeps);
    }

move-IsSound : (m : Move) (t : Tester) → IsSound t → IsSound (move m t)
unfolding move
move-IsSound (within u) t s = record {
  counted = turn-Inv u t.round s.counted;
  adds_up = s.adds_up;
  sleeps = s.sleeps;
}
move-IsSound go_on t s = elim (Bool-cases (is_over t.round)) [
  | inl over ↦ rw over (print_counters-IsSound t (unfold is_over in ground (arith, over)) s)
  | inr more ↦ rw more s
]

run_moves-IsSound : (moves : List Move) (t : Tester) → IsSound t → IsSound (run_moves moves t)
unfolding run_moves
run_moves-IsSound [] t s = s
run_moves-IsSound (m ∷ moves) t s = run_moves-IsSound moves (move m t) (move-IsSound m t s)

new_tester-IsSound : IsSound new_tester
unfolding new_tester
new_tester-IsSound = record { counted = new_round-Inv; adds_up = tt; sleeps = refl }

-- However the goroutines interleave and their calls end, the lines that have been printed stand in
-- pairs, of which each adds up to the 2000 calls of its round, and the main goroutine has slept five
-- seconds for each pair. When `wg.Wait()` returns, it prints the number of the calls of the round that
-- have succeeded and the number of the others, sleeps five seconds, and begins a fresh round; no
-- counter wraps.
pub run_moves_lem :
    (moves : List Move)
    → let t = run_moves moves new_tester in
      let succeeded = count_if has_succeeded t.round.callers in
      AddsUp t.printed
      × (2 * t.slept ≡ length t.printed * (5 * second))
      × (t.round.good_counter + t.round.bad_counter ≤ callers_of_round)
      × (IsOver t.round
          → move go_on t ≡ record {
            round = new_round;
            printed =
                bad_counter (callers_of_round - succeeded) ∷ good_counter succeeded ∷ t.printed;
            slept = t.slept + second * 5;
          })
unfolding print_counters
run_moves_lem moves =
    let t = run_moves moves new_tester in
    let s = run_moves-IsSound moves new_tester new_tester-IsSound in
    (
      s.adds_up,
      s.sleeps,
      omega (arith, s.counted.sums, s.counted.bound),
      λ over.
          let (good, sum) = over-counts t.round s.counted over in
          let bad : t.round.bad_counter
              ≡ callers_of_round - count_if has_succeeded t.round.callers =
            omega (arith, good, sum) in
          move-over t over
          ∙ ap
              (λ (p : ℕ × ℕ). record {
                round = new_round;
                printed = bad_counter p.0 ∷ good_counter p.1 ∷ t.printed;
                slept = t.slept + second * 5;
              })
              (ground (arith, good, bad)),
    )

run_moves-append :
    (ms ns : List Move) (t : Tester) → run_moves (ms ++ ns) t ≡ run_moves ns (run_moves ms t)
unfolding run_moves
run_moves-append [] ns t = refl
run_moves-append (m ∷ ms) ns t = run_moves-append ms ns (move m t)

run_moves-within :
    (turns : List Turn) (t : Tester)
    → run_moves (map within turns) t ≡ record t { round = run_round turns t.round }
unfolding run_moves move run_round
run_moves-within [] t = refl
run_moves-within (u ∷ turns) t = run_moves-within turns (move (within u) t)

-- The next round is printed after some moves.
prints_next :
    (t : Tester)
    → IsSound t
    → (more : List Move) × (length (run_moves more t).printed ≡ length t.printed + 2)
unfolding run_moves print_counters
prints_next t s =
    let (turns, over) = run_round-ends t.round s.counted in
    let t1 : Tester = record t { round = run_round turns t.round } in
    (
      map within turns ++ go_on ∷ [],
      rw
          (
            run_moves-append (map within turns) (go_on ∷ []) t,
            run_moves-within turns t,
            move-over t1 over,
          )
          (omega arith),
    )

prints_rounds :
    (n : ℕ) (t : Tester)
    → IsSound t
    → (more : List Move) × (length (run_moves more t).printed ≡ length t.printed + 2 * n)
unfolding run_moves
prints_rounds zero t s = ([], omega arith)
prints_rounds (suc n) t s =
    let (ms, one) = prints_next t s in
    let (ns, rest) = prints_rounds n (run_moves ms t) (run_moves-IsSound ms t s) in
    (ms ++ ns, rw (run_moves-append ms ns t) (omega (arith, one, rest)))

-- Whatever has been done, the program can go on for any number of rounds: there are moves after which
-- it has printed that many more pairs of lines. So no order of turns gets a round stuck.
pub run_moves-goes_on :
    (moves : List Move) (n : ℕ)
    → (more : List Move) × (length (run_moves (moves ++ more) new_tester).printed
        ≡ length (run_moves moves new_tester).printed + 2 * n)
run_moves-goes_on moves n =
    let (more, printed) =
      prints_rounds n (run_moves moves new_tester)
        (run_moves-IsSound moves new_tester new_tester-IsSound) in
    (more, rw (run_moves-append moves more new_tester) printed)
