-- ===== src/Programs.antt =====
-- example/dubbo: the process of an example program, and the messages of its service.
pub mod Provider
pub mod Signals
pub mod Startup
pub mod Consumer
pub mod Parallel
use triple.Base.{Option, ◌+◌, M, String, ℕ, List, modify, [], ◌∷◌, refl}
use triple.Common.Error.{Value}

-- proto.HelloRequest and proto.User, without what protobuf keeps in them.
pub record HelloRequest : Type 0 where
  pub name : String

pub record User : Type 0 where
  pub name : String
  pub id : String
  pub age : ℕ  -- int32

-- A line of the output: a call of the logger with its format and arguments, or of `fmt.Println`.
pub data Line : Type 0 where
  infof : String → Value → Line
  infof_user : String → Option User → Line
  println : String → Value → Line

-- A timer of `time.AfterFunc`: what the process had slept and written when the timer was started, and
-- how long the timer takes.
pub record Timer : Type 0 where
  pub slept_before : ℕ
  pub lines_before : List Line
  pub duration : ℕ

-- What a program has written, how many nanoseconds it has slept, and the timers it has started.
-- `W` is the state of the network and of whatever else the calls reach. The newest entry stands first.
pub record Process (W : Type 0) : Type 0 where
  pub world : W
  pub lines : List Line
  pub slept : ℕ
  pub timers : List Timer

module _ {W : Type 0} where
  unfoldable pub write : Line → M (Process W) (Unit {0})
  unfolding modify
  write l = modify (λ p. record p { lines = l ∷ p.lines })

  -- `time.Sleep`
  unfoldable pub sleep : ℕ → M (Process W) (Unit {0})
  unfolding modify
  sleep d = modify (λ p. record p { slept = p.slept + d })

  -- `time.AfterFunc`
  unfoldable pub after_func : ℕ → M (Process W) (Unit {0})
  unfolding modify
  after_func d = modify (λ p. record p {
    timers = record { slept_before = p.slept; lines_before = p.lines; duration = d } ∷ p.timers;
  })

-- time.Second
abbrev pub second : ℕ
second = 1000000000
