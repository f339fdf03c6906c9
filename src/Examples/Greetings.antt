-- ===== src/Examples/Greetings.antt =====
-- The example programs: the provider, the signals that end it, a round of calls, and a stream.
use triple.Programs.Provider
use triple.Programs.Startup.{Platform, run_provider}
use triple.Base.{
  ◌*◌, ◌-◌, map, length, ◌++◌, Option, count_if, ◌≢◌, none, ◌>>=◌, false, some, true, modify, ◌≤◌,
  pure, returned, ◌+◌, ◌≡◌, String, List, [], ◌∷◌, refl,
}
use triple.Programs.Signals.{
  init_signal_lem, ended, ended_process, waiting, signal_lines, sighup, Signal, init_signal,
}
use triple.Programs.Parallel.{
  IsOver, callers_of_round, step, launch, advance, Turn, new_round, turn, run_round,
}
use triple.Programs.Consumer.{
  StreamClient, test_say_hello_stream, test_say_hello, GreeterClientImpl,
}
use triple.Programs.{after_func, second, sleep, write, User, Process}
use triple.Programs.Parallel.Counting.{has_succeeded}
use triple.Programs.Parallel.Rounds.{
  Move, within, go_on, run_moves, move, new_tester, AddsUp, bad_counter, good_counter,
  run_moves_lem, run_moves-goes_on,
}

abbrev idle_process : Process (List User)
idle_process = record { world = []; lines = []; slept = 0; timers = [] }

abbrev signal_name : Signal → String
signal_name sighup = "hangup"
signal_name s = "other"

init_signal_lem_example :
    (init_signal signal_name (sighup ∷ sighup ∷ []) idle_process ≡ (
      record idle_process {
        lines = signal_lines signal_name (sighup ∷ sighup ∷ []) idle_process.lines;
      },
      returned waiting,
    ))
    × ((sig : Signal) (rest : List Signal)
        → sig ≢ sighup
        → init_signal signal_name (sighup ∷ sighup ∷ sig ∷ rest) idle_process ≡ (
          ended_process signal_name (sighup ∷ sighup ∷ sig ∷ []) idle_process,
          returned (ended rest),
        ))
init_signal_lem_example =
    init_signal_lem signal_name (sighup ∷ sighup ∷ []) idle_process (refl, (refl, tt))

-- Two goroutines, of which one fails.
abbrev two_callers : List Turn
two_callers = launch ∷ step 0 true ∷ launch ∷ step 1 false ∷ step 1 false ∷ step 0 true ∷ []

abbrev two_moves : List Move
two_moves = map within two_callers

run_moves_lem_example :
    let t = run_moves two_moves new_tester in
    let succeeded = count_if has_succeeded t.round.callers in
    AddsUp t.printed
    × (2 * t.slept ≡ length t.printed * (5 * second))
    × (t.round.good_counter + t.round.bad_counter ≤ callers_of_round)
    × (IsOver t.round
        → move go_on t ≡ record {
          round = new_round;
          printed = bad_counter (callers_of_round - succeeded) ∷ good_counter succeeded ∷ t.printed;
          slept = t.slept + second * 5;
        })
run_moves_lem_example = run_moves_lem two_moves

run_moves-goes_on_example :
    (more : List Move) × (length (run_moves (two_moves ++ more) new_tester).printed
      ≡ length (run_moves two_moves new_tester).printed + 2 * 3)
run_moves-goes_on_example = run_moves-goes_on two_moves 3

-- A round that is not over prints nothing.
two_moves-silent : (run_moves (two_moves ++ go_on ∷ []) new_tester).printed ≡ []
unfolding run_moves move run_round turn advance new_round new_tester
two_moves-silent = refl

two_callers-counted :
    let r = run_round two_callers new_round in (r.good_counter ≡ 1) × (r.bad_counter ≡ 1)
unfolding run_round turn advance new_round
two_callers-counted = (refl, refl)

abbrev first : List User → Option User
first [] = none
first (u ∷ us) = some u

-- What is sent runs the provider, whose answer is received.
abbrev direct_stream : StreamClient (List User)
direct_stream = record {
  send = λ request. Provider.say_hello_stream (record {
    recv = λ p. (p, returned (some request, none));
    send = λ user p. (record p { world = user ∷ [] }, returned none);
  });
  recv = λ p. (p, returned (first p.world, none));
}

-- The consumer's stub, answered by the provider in the same process.
abbrev direct_stub : GreeterClientImpl (List User)
direct_stub = record {
  say_hello_stream = λ ctx p. (p, returned (some direct_stream, none));
  say_hello = Provider.say_hello;
}

test_say_hello-direct : (test_say_hello direct_stub idle_process).1 ≡ returned tt
unfolding test_say_hello Provider.say_hello write sleep pure modify ◌>>=◌
test_say_hello-direct = refl

test_say_hello_stream-direct :
    let run = test_say_hello_stream direct_stub idle_process in
    (run.1 ≡ returned tt)
    × (run.0.world ≡ record { name = "hello laurence"; id = "123456789"; age = 18 } ∷ [])
unfolding test_say_hello_stream Provider.say_hello_stream write pure modify ◌>>=◌
test_say_hello_stream-direct = (refl, refl)

-- The provider's program up to its end.
run_provider-ends :
    let platform : Platform (List User) = record {
      set_mutex_profile_fraction = λ n. pure tt;
      set_provider_service = pure tt;
      go_listen_and_serve = λ address. pure tt;
      load = pure tt;
    } in
    (run_provider platform signal_name (sighup ∷ Signal.kill ∷ []) idle_process).1
    ≡ returned (ended [])
unfolding run_provider init_signal write sleep after_func pure modify ◌>>=◌
run_provider-ends = refl
