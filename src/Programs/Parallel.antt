-- ===== src/Programs/Parallel.antt =====
-- example/dubbo/go-client/cmd/client.go: one round of `testSayHelloWithHighParallel`. The main goroutine
-- launches the others, and each of their atomic steps is a turn, so a list of turns is an interleaving.
pub mod Counting
pub mod Progress
pub mod Rounds
use triple.Base.{
  none, some, false, ◌^◌, get_elem?, true, ◌++◌, ◌-◌, ◌%◌, ◌≡◌, ◌+◌, set, ltb, if◌then◌else◌, ℕ,
  length, List, Bool, [], ◌∷◌, refl,
}

-- Where a goroutine stands; the Boolean says whether its call of `SayHello` succeeded.
pub data Caller : Type 0 where
  calling : Caller
  counting logging finishing finished : Bool → Caller

-- The two `atomic.Uint32`, the counter of the WaitGroup, and which calls have been logged.
pub record Round : Type 0 where
  pub callers : List Caller
  pub good_counter : ℕ
  pub bad_counter : ℕ
  pub wait_group : ℕ
  pub logged : List Bool

-- A turn of the main goroutine, or of the one of that number; the Boolean is how its call ends, if it
-- calls now.
pub data Turn : Type 0 where
  launch : Turn
  step : ℕ → Bool → Turn

-- How many goroutines a round has.
abbrev pub callers_of_round : ℕ
callers_of_round = 2000

-- `Inc` of an `atomic.Uint32`
abbrev inc : ℕ → ℕ
inc n = (n + 1) % 2 ^ 32

-- One atomic step of the goroutine at `i`.
unfoldable pub advance : Caller → ℕ → Bool → Round → Round
advance calling i ok r = record r { callers = set r.callers i (counting ok) }
advance (counting true) i ok r = record r {
  good_counter = inc r.good_counter;
  callers = set r.callers i (logging true);
}
advance (counting false) i ok r = record r {
  bad_counter = inc r.bad_counter;
  callers = set r.callers i (logging false);
}
advance (logging b) i ok r = record r {
  logged = b ∷ r.logged;
  callers = set r.callers i (finishing b);
}
advance (finishing b) i ok r = record r {
  wait_group = r.wait_group - 1;
  callers = set r.callers i (finished b);
}
advance (finished b) i ok r = r

-- The loop launches its goroutines one after the other, each behind its `wg.Add(1)`.
unfoldable pub turn : Turn → Round → Round
turn launch r =
    if ltb (length r.callers) callers_of_round
    then record r { wait_group = r.wait_group + 1; callers = r.callers ++ calling ∷ [] }
    else r
turn (step i ok) r = elim (get_elem? r.callers i) [ some c ↦ advance c i ok r | none ↦ r ]

unfoldable pub run_round : List Turn → Round → Round
run_round [] r = r
run_round (t ∷ turns) r = run_round turns (turn t r)

-- A round begins with fresh counters.
unfoldable pub new_round : Round
new_round = record { callers = []; good_counter = 0; bad_counter = 0; wait_group = 0; logged = [] }

-- The loop is over and `wg.Wait()` returns.
abbrev pub IsOver : Round → Type 0
IsOver r = (length r.callers ≡ callers_of_round) × (r.wait_group ≡ 0)
