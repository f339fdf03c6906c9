-- ===== src/Programs/Signals.antt =====
-- example/dubbo/go-server/cmd/server.go: `initSignal`, which keeps the server up until a signal ends it.
use triple.Base.{
  ap, ◌++◌, ◌≢◌, returned, ◌≡◌, if◌then◌else◌, ◌+◌, All, ◌>>=◌, ◌>>◌, modify, pure, false, ◌*◌, M,
  true, ℕ, String, Bool, List, [], ◌∷◌, refl,
}
use triple.Programs.{after_func, infof, second, sleep, println, Line, Process, write}
use triple.Common.Error.{text, nil_value}

-- The signals that the program asks for, and others.
pub data Signal : Type 0 where
  interrupt kill sighup sigquit sigterm : Signal
  signal : ℕ → Signal

-- `initSignal` still waits, or it has returned and left these signals in the channel.
pub data Wait : Type 0 where
  waiting : Wait
  ended : List Signal → Wait

abbrev is_sighup : Signal → Bool
is_sighup sighup = true
is_sighup s = false

-- int(3 * time.Second)
abbrev survival_timeout : ℕ
survival_timeout = 3 * second

module _ (string_of : Signal → String) where
  -- The lines for signals that have come, in front of earlier ones.
  abbrev pub signal_lines : List Signal → List Line → List Line
  signal_lines [] lines = lines
  signal_lines (sig ∷ signals) lines =
      signal_lines signals (infof "get signal %s" (text (string_of sig)) ∷ lines)

is_sighup-ne : (sig : Signal) → sig ≢ sighup → is_sighup sig ≡ false
is_sighup-ne interrupt ne = refl
is_sighup-ne kill ne = refl
is_sighup-ne sighup ne = absurd (ne refl)
is_sighup-ne sigquit ne = refl
is_sighup-ne sigterm ne = refl
is_sighup-ne (signal n) ne = refl

-- `string_of` is the method `String` of a signal.
module _ {W : Type 0} (string_of : Signal → String) where
  -- The end of the loop.
  exit_program : M (Process W) (Unit {0})
  exit_program = do
    sleep (second * 5)
    after_func survival_timeout
    write (println "provider app exit now..." nil_value)

  -- The loop over the signals that have come so far.
  unfoldable pub init_signal : List Signal → M (Process W) Wait
  unfolding exit_program
  init_signal [] = pure waiting
  init_signal (sig ∷ signals) = do
    write (infof "get signal %s" (text (string_of sig)))
    if is_sighup sig then init_signal signals else (do exit_program; pure (ended signals))

  -- What the process has done when the program has ended.
  abbrev pub ended_process : List Signal → Process W → Process W
  ended_process signals p = record p {
    lines = println "provider app exit now..." nil_value ∷ signal_lines string_of signals p.lines;
    slept = p.slept + 5 * second;
    timers =
        record {
          slept_before = p.slept + 5 * second;
          lines_before = signal_lines string_of signals p.lines;
          duration = 3 * second;
        }
        ∷ p.timers;
  }

  -- While only SIGHUP comes, the program logs each and waits. At the first other signal it ends, for
  -- any signals behind that: it has logged the signals up to that one, slept five seconds, only then
  -- started the timer of three seconds that is to end it by force, and only after that written the
  -- last line.
  pub init_signal_lem :
      (hangups : List Signal) (p : Process W)
      → All (λ s. s ≡ sighup) hangups
      → (init_signal hangups p
          ≡ (record p { lines = signal_lines string_of hangups p.lines }, returned waiting))
        × ((sig : Signal) (rest : List Signal)
            → sig ≢ sighup
            → init_signal (hangups ++ sig ∷ rest) p
              ≡ (ended_process (hangups ++ sig ∷ []) p, returned (ended rest)))
  unfolding init_signal exit_program write sleep after_func modify pure ◌>>=◌
  init_signal_lem [] p ok = (refl, λ sig rest ne. rw (is_sighup-ne sig ne) refl)
  init_signal_lem (s ∷ hangups) p ok =
      let p1 : Process W = record p {
        lines = infof "get signal %s" (text (string_of s)) ∷ p.lines;
      } in
      let hup : is_sighup s ≡ true = ap is_sighup ok.0 in
      let rest = init_signal_lem hangups p1 ok.1 in rw hup rest
