-- ===== src/Common/Logger.antt =====
-- pkg/common/logger/logger.go and default_logger.go: the interface, and the wrapper that passes
-- every call on. What a foreign logger prints is outside the model: a call ends in its sink.
use triple.Common.DefaultLogger.{ZapConfig, zap_logger_config}
use triple.Base.{ℕ, String, Bool, true, false, ◌≡◌, refl, Exit, returned, panicked}

-- The methods of the interface `Logger`.
pub data Method : Type 0 where
  info warn error debug infof warnf errorf debugf : Method

-- An interface value: nil, a zap logger with its configuration and the callers that it skips, one that
-- the user brings, or a `LoggerWrapper` with the interface value in its field.
pub data Logger : Type 0 where
  nil_logger : Logger
  zap_logger : ZapConfig → ℕ → Logger
  user_logger : ℕ → Logger
  wrapper : Logger → Logger

pub record LogCall : Type 0 where
  pub method : Method
  pub message : String

-- A call that reached a logger which prints: the sink and the call.
pub record LogEntry : Type 0 where
  pub sink : Logger
  pub call : LogCall

-- The configuration is a literal, and its `Build` gives no error.
abbrev pub default_logger : Logger
default_logger = zap_logger zap_logger_config 1

unfoldable pub get_default_logger : Logger
get_default_logger = default_logger

unfoldable pub new_logger_wrapper : Logger → Logger
new_logger_wrapper l = wrapper l

-- A method call on an interface value: nil panics, and each method of the wrapper calls the same
-- method of the field with the same arguments.
unfoldable pub call_logger : Logger → LogCall → Exit LogEntry
call_logger nil_logger c = panicked
call_logger (zap_logger z k) c = returned (record { sink = zap_logger z k; call = c })
call_logger (user_logger n) c = returned (record { sink = user_logger n; call = c })
call_logger (wrapper l) c = call_logger l c

abbrev pub is_nil : Logger → Bool
is_nil nil_logger = true
is_nil (zap_logger z k) = false
is_nil (user_logger n) = false
is_nil (wrapper l) = false

-- Wrapping a logger changes nothing of what a call does, a panic on nil included.
pub call_logger-new_logger_wrapper :
    (l : Logger) (c : LogCall) → call_logger (new_logger_wrapper l) c ≡ call_logger l c
unfolding call_logger new_logger_wrapper
call_logger-new_logger_wrapper l c = refl

-- Calls on the logger come out at some sink.
abbrev pub CanLog : Logger → Type 0
CanLog nil_logger = ⊥
CanLog (zap_logger z k) = Unit {0}
CanLog (user_logger n) = Unit {0}
CanLog (wrapper l) = CanLog l

pub CanLog-call_logger :
    (l : Logger) (c : LogCall) → CanLog l → (e : LogEntry) × (call_logger l c ≡ returned e)
unfolding call_logger
CanLog-call_logger nil_logger c h = absurd h
CanLog-call_logger (zap_logger z k) c h = (_, refl)
CanLog-call_logger (user_logger n) c h = (_, refl)
CanLog-call_logger (wrapper l) c h = CanLog-call_logger l c h
