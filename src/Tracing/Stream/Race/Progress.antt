-- ===== src/Tracing/Stream/Race/Progress.antt =====
-- Every goroutine that calls `finishFunc` comes out of it after four turns, whatever the others do.
use triple.Base.{
  length-replicate, true, ◌+◌, ◌∙◌, zero, ◌<◌, ◌∷◌, leb, count_if, length-set, length, List,
  get_elem?-set_self, get_elem?-set_ne, ap, inr, arith, inl, nat_eq, Bool-cases, ◌⊎◌, if◌then◌else◌,
  ◌≤◌, suc, ◌≡◌, get_elem?, Option, ℕ, refl, [], set, none, some, ◌-◌,
}
use triple.Tracing.Stream.Race.{
  is_closing, start-Inv, run-Inv, is_crashed, is_busy, is_done, turn, run, start, swapping,
  finishing, reporting, crashed, done, closing, System, advance, Pc,
}

-- The turns that a goroutine needs at most.
abbrev turns_left : Pc → ℕ
turns_left swapping = 4
turns_left closing = 3
turns_left reporting = 2
turns_left finishing = 1
turns_left done = 0
turns_left crashed = 0

abbrev left_at : Option Pc → ℕ
left_at (some pc) = turns_left pc
left_at none = 0

abbrev left : ℕ → System → ℕ
left j s = left_at (get_elem? s.threads j)

advance-threads :
    (pc : Pc) (i : ℕ) (s : System)
    → get_elem? s.threads i ≡ some pc
    → ((new : Pc) × ((advance pc i s).threads ≡ set s.threads i new)
        × (suc (turns_left new) ≤ turns_left pc))
      ⊎ (((advance pc i s).threads ≡ s.threads) × (turns_left pc ≡ 0))
unfolding advance
advance-threads swapping i s h = elim (Bool-cases (nat_eq s.is_finished 0)) [
  | inl e ↦ inl (closing, rw e refl, omega arith)
  | inr e ↦ inl (done, rw e refl, omega arith)
]
advance-threads closing i s h = elim (Bool-cases s.finish_chan_closed) [
  | inl e ↦ inl (crashed, rw e refl, omega arith)
  | inr e ↦ inl (reporting, rw e refl, omega arith)
]
advance-threads reporting i s h = inl (finishing, refl, omega arith)
advance-threads finishing i s h = inl (done, refl, omega arith)
advance-threads done i s h = inr (refl, refl)
advance-threads crashed i s h = inr (refl, refl)

-- A turn of `i` leaves `i` a step less, or nothing if nothing was left, and the others as they were.
left-advance :
    (pc : Pc) (i j : ℕ) (s : System)
    → get_elem? s.threads i ≡ some pc
    → left j (advance pc i s) ≤ (if nat_eq j i then left j s - 1 else left j s)
left-advance pc i j s h = elim (advance-threads pc i s h) [
  | inl (new, e, less) ↦ ground (
    arith,
    e,
    ap (λ ts. left_at (get_elem? ts j)) e,
    get_elem?-set_ne s.threads i j new,
    get_elem?-set_self s.threads i pc new h,
  )
  | inr (e, zero_left) ↦ ground (arith, ap (λ ts. left_at (get_elem? ts j)) e)
]

left-turn :
    (i j : ℕ) (s : System) → left j (turn i s) ≤ (if nat_eq j i then left j s - 1 else left j s)
unfolding turn
left-turn i j s = go (get_elem? s.threads i) refl
  where
    go :
        (p : Option Pc)
        → get_elem? s.threads i ≡ p
        → left j (elim p [ some pc ↦ advance pc i s | none ↦ s ])
          ≤ (if nat_eq j i then left j s - 1 else left j s)
    go none h = ground (arith, h)
    go (some pc) h = left-advance pc i j s h

-- The turns of goroutine `j` in a schedule.
abbrev pub turns_of : ℕ → List ℕ → ℕ
turns_of j = count_if (nat_eq j)

left-run :
    (schedule : List ℕ) (j : ℕ) (s : System)
    → left j (run schedule s) ≤ left j s - turns_of j schedule
unfolding run
left-run [] j s = omega arith
left-run (i ∷ schedule) j s = ground (arith, left-run schedule j (turn i s), left-turn i j s)

length-advance : (pc : Pc) (i : ℕ) (s : System) → length (advance pc i s).threads ≡ length s.threads
unfolding advance
length-advance swapping i s =
    ground (arith, length-set s.threads i closing, length-set s.threads i done)
length-advance closing i s =
    ground (arith, length-set s.threads i crashed, length-set s.threads i reporting)
length-advance reporting i s = length-set s.threads i finishing
length-advance finishing i s = length-set s.threads i done
length-advance done i s = refl
length-advance crashed i s = refl

abbrev advance_at : Option Pc → ℕ → System → System
advance_at p i s = elim p [ some pc ↦ advance pc i s | none ↦ s ]

length-run : (schedule : List ℕ) (s : System) → length (run schedule s).threads ≡ length s.threads
unfolding run turn
length-run [] s = refl
length-run (i ∷ schedule) s = length-run schedule (turn i s) ∙ go (get_elem? s.threads i)
  where
    go : (p : Option Pc) → length (advance_at p i s).threads ≡ length s.threads
    go none = refl
    go (some pc) = length-advance pc i s

-- Nobody stands inside, and everybody is done or crashed.
abbrev IsOver : List Pc → Type 0
IsOver xs =
    (count_if is_busy xs ≡ 0)
    × (count_if is_closing xs ≡ 0)
    × (count_if is_done xs + count_if is_crashed xs ≡ length xs)

cons-IsOver : (p : Pc) (xs : List Pc) → turns_left p ≡ 0 → IsOver xs → IsOver (p ∷ xs)
cons-IsOver done xs e h = omega arith
cons-IsOver crashed xs e h = omega arith
cons-IsOver swapping xs e h = absurd (omega arith)
cons-IsOver closing xs e h = absurd (omega arith)
cons-IsOver reporting xs e h = absurd (omega arith)
cons-IsOver finishing xs e h = absurd (omega arith)

all_out : (xs : List Pc) → ((j : ℕ) → left_at (get_elem? xs j) ≡ 0) → IsOver xs
all_out [] h = (refl, refl, omega arith)
all_out (pc ∷ xs) h = cons-IsOver pc xs (h 0) (all_out xs (λ j. h (suc j)))

left-start : (n j : ℕ) → left j (start n) ≤ (if leb n j then 0 else 4)
unfolding start
left-start zero j = ground arith
left-start (suc n) zero = ground arith
left-start (suc n) (suc j) = ground (arith, left-start n j)

-- Where some goroutines call `finishFunc` at once and each gets four turns, all of them come out and
-- the span has been finished exactly once, in every interleaving.
pub race_completes :
    (n : ℕ) (schedule : List ℕ)
    → 0 < n
    → ((j : ℕ) → j < n → 4 ≤ turns_of j schedule)
    → let s = run schedule (start n) in
      (count_if is_done s.threads ≡ n) × (s.span_finishes ≡ 1) × (s.finish_chan_closed ≡ true)
race_completes n schedule pos fair =
    let v = run-Inv schedule (start n) (start-Inv n) in
    let over = all_out (run schedule (start n)).threads nobody_left in
    ground (arith, v, over, length-run schedule (start n), started)
  where
    nobody_left : (j : ℕ) → left j (run schedule (start n)) ≡ 0
    nobody_left j = ground (arith, left-run schedule j (start n), left-start n j, fair j)

    started : length (start n).threads ≡ n
    started = unfold start in length-replicate n swapping
