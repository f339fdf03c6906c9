-- ===== src/Examples/Race.antt =====
-- The race for the end of a stream.
use triple.Base.{arith, ◌<◌, [], ◌∷◌, true, ◌≡◌, ℕ, ◌≤◌, count_if, List}
use triple.Tracing.Stream.Race.{start, run, race_safe, is_done, is_crashed}
use triple.Tracing.Stream.Race.Progress.{race_completes, turns_of}

-- Two goroutines in turn.
abbrev alternating : List ℕ
alternating = 0 ∷ 1 ∷ 0 ∷ 1 ∷ 1 ∷ 0 ∷ 1 ∷ 0 ∷ []

race_safe_example :
    let s = run alternating (start 2) in (s.span_finishes ≤ 1) × (count_if is_crashed s.threads ≡ 0)
race_safe_example = race_safe 2 alternating

race_completes_example :
    let s = run alternating (start 2) in
    (count_if is_done s.threads ≡ 2) × (s.span_finishes ≡ 1) × (s.finish_chan_closed ≡ true)
race_completes_example = race_completes 2 alternating (omega arith) four_turns
  where
    four_turns : (j : ℕ) → j < 2 → 4 ≤ turns_of j alternating
    four_turns j h = ground arith
