-- ===== src/Tracing/Stream/Race.antt =====
-- `finishFunc` of pkg/tracing/client_interceptor.go called by several goroutines at once. Each of
-- its atomic steps is a turn, and a schedule says whose turn it is, so a schedule is an interleaving.
pub mod Progress
use triple.Base.{
  none, count_if-set, ◌≡◌, ◌+◌, count_if-replicate, nat_eq, false, [], some, if◌then◌else◌,
  count_if, ◌∷◌, replicate, Option, get_elem?, arith, true, ◌≤◌, List, Bool, ℕ, refl, set,
}

-- Where a goroutine stands in `finishFunc`; `crashed` is a panic of `close`.
pub data Pc : Type 0 where
  swapping closing reporting finishing done crashed : Pc

pub record System : Type 0 where
  pub threads : List Pc
  pub is_finished : ℕ
  pub finish_chan_closed : Bool
  pub span_finishes : ℕ

-- One atomic step of the goroutine at `i`, which stands at the given place.
unfoldable pub advance : Pc → ℕ → System → System
advance swapping i s =
    if nat_eq s.is_finished 0
    then record s { is_finished = 1; threads = set s.threads i closing }
    else record s { threads = set s.threads i done }
advance closing i s =
    if s.finish_chan_closed
    then record s { threads = set s.threads i crashed }
    else record s { finish_chan_closed = true; threads = set s.threads i reporting }
advance reporting i s = record s { threads = set s.threads i finishing }
advance finishing i s = record s {
  span_finishes = s.span_finishes + 1;
  threads = set s.threads i done;
}
advance done i s = s
advance crashed i s = s

unfoldable pub turn : ℕ → System → System
turn i s = elim (get_elem? s.threads i) [ some pc ↦ advance pc i s | none ↦ s ]

unfoldable pub run : List ℕ → System → System
run [] s = s
run (i ∷ schedule) s = run schedule (turn i s)

-- `n` goroutines about to call `finishFunc` on a new stream.
unfoldable pub start : ℕ → System
start n = record {
  threads = replicate n swapping;
  is_finished = 0;
  finish_chan_closed = false;
  span_finishes = 0;
}

abbrev pub is_busy : Pc → Bool
is_busy closing = true
is_busy reporting = true
is_busy finishing = true
is_busy swapping = false
is_busy done = false
is_busy crashed = false

abbrev pub is_closing : Pc → Bool
is_closing closing = true
is_closing swapping = false
is_closing reporting = false
is_closing finishing = false
is_closing done = false
is_closing crashed = false

abbrev pub is_crashed : Pc → Bool
is_crashed crashed = true
is_crashed swapping = false
is_crashed closing = false
is_crashed reporting = false
is_crashed finishing = false
is_crashed done = false

abbrev pub is_done : Pc → Bool
is_done done = true
is_done swapping = false
is_done closing = false
is_done reporting = false
is_done finishing = false
is_done crashed = false

-- One goroutine at most is past the swap, and what it has still to do is what is not yet done.
pub record Inv (s : System) : Type 0 where
  pub flag : s.is_finished ≤ 1
  pub owner : count_if is_busy s.threads + s.span_finishes ≡ s.is_finished
  pub channel :
      count_if is_closing s.threads + (if s.finish_chan_closed then 1 else 0) ≡ s.is_finished
  pub no_crash : count_if is_crashed s.threads ≡ 0
  pub nobody_done : s.is_finished ≡ 0 → count_if is_done s.threads ≡ 0

pub start-Inv : (n : ℕ) → Inv (start n)
unfolding start
start-Inv n = ground (
  arith,
  count_if-replicate is_busy n swapping,
  count_if-replicate is_closing n swapping,
  count_if-replicate is_crashed n swapping,
  count_if-replicate is_done n swapping,
)

module _ (i : ℕ) (s : System) (v : Inv s) where
  -- What a write at `i` does to the four counts.
  abbrev Counts : Pc → Pc → Type 0
  Counts old new =
      (count_if is_busy (set s.threads i new) + (if is_busy old then 1 else 0)
        ≡ count_if is_busy s.threads + (if is_busy new then 1 else 0))
      × (count_if is_closing (set s.threads i new) + (if is_closing old then 1 else 0)
          ≡ count_if is_closing s.threads + (if is_closing new then 1 else 0))
      × (count_if is_crashed (set s.threads i new) + (if is_crashed old then 1 else 0)
          ≡ count_if is_crashed s.threads + (if is_crashed new then 1 else 0))
      × (count_if is_done (set s.threads i new) + (if is_done old then 1 else 0)
          ≡ count_if is_done s.threads + (if is_done new then 1 else 0))

  counts : (old new : Pc) → get_elem? s.threads i ≡ some old → Counts old new
  counts old new h = (
    count_if-set is_busy s.threads i old new h,
    count_if-set is_closing s.threads i old new h,
    count_if-set is_crashed s.threads i old new h,
    count_if-set is_done s.threads i old new h,
  )

  advance-Inv : (pc : Pc) → get_elem? s.threads i ≡ some pc → Inv (advance pc i s)
  unfolding advance
  advance-Inv swapping h = ground (arith, counts swapping closing h, counts swapping done h)
  advance-Inv closing h = ground (arith, counts closing crashed h, counts closing reporting h)
  advance-Inv reporting h = ground (arith, counts reporting finishing h)
  advance-Inv finishing h = ground (arith, counts finishing done h)
  advance-Inv done h = v
  advance-Inv crashed h = v

  turn-Inv : Inv (turn i s)
  unfolding turn
  turn-Inv = go (get_elem? s.threads i) refl
    where
      go :
          (p : Option Pc)
          → get_elem? s.threads i ≡ p
          → Inv (elim p [ some pc ↦ advance pc i s | none ↦ s ])
      go none h = v
      go (some pc) h = advance-Inv pc h

pub run-Inv : (schedule : List ℕ) (s : System) → Inv s → Inv (run schedule s)
unfolding run
run-Inv [] s v = v
run-Inv (i ∷ schedule) s v = run-Inv schedule (turn i s) (turn-Inv i s v)

-- However the calls of any number of goroutines interleave, the span is finished at most once and no
-- `close` panics.
pub race_safe :
    (n : ℕ) (schedule : List ℕ)
    → let s = run schedule (start n) in (s.span_finishes ≤ 1) × (count_if is_crashed s.threads ≡ 0)
race_safe n schedule = omega (arith, run-Inv schedule (start n) (start-Inv n))
