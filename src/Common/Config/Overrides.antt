-- ===== src/Common/Config/Overrides.antt =====
-- The order of the option functions of `NewTripleOption`: the last one to set a field wins.
use triple.Base.{◌≡◌, refl, ◌∙◌, ap, List, [], ◌∷◌, ◌++◌, All, if◌then◌else◌, ◌==◌}
use triple.Base.Int.{ℤ, is_zero}
use triple.Common.Constant.{CodecType, pb_codec_name, default_timeout}
use triple.Common.Logger.{Logger, LogCall, call_logger, new_logger_wrapper}
use triple.Common.Config.{
  TripleOption, OptionFunction, new_triple_option, zero_option, apply_functions,
}
use triple.Common.Config.Functions.{with_client_timeout, with_codec_type, with_logger}

module _ {F : Type 0} (field : TripleOption → F) where
  -- The function leaves the field as it finds it.
  abbrev pub Keeps : OptionFunction → Type 0
  Keeps g = (o : TripleOption) → field (g o) ≡ field o

  apply_functions-Keeps :
      (gs : List OptionFunction) (o : TripleOption)
      → All Keeps gs
      → field (apply_functions gs o) ≡ field o
  unfolding apply_functions
  apply_functions-Keeps [] o k = refl
  apply_functions-Keeps (g ∷ gs) o k = apply_functions-Keeps gs (g o) k.1 ∙ k.0 o

  -- What the last function to touch the field wrote is what is left.
  last_wins :
      (fs gs : List OptionFunction) (f : OptionFunction) (v : F) (o : TripleOption)
      → All Keeps gs
      → ((p : TripleOption) → field (f p) ≡ v)
      → field (apply_functions (fs ++ f ∷ gs) o) ≡ v
  unfolding apply_functions
  last_wins [] gs f v o k e = apply_functions-Keeps gs (f o) k ∙ e o
  last_wins (g ∷ fs) gs f v o k e = last_wins fs gs f v (g o) k e

-- Of the functions given to `NewTripleOption`, the last that sets the codec decides it: the option
-- has that codec, or protobuf if it was the empty name, whatever stands before it.
pub codec_type_last_wins :
    (fs gs : List OptionFunction) (c : CodecType)
    → All (Keeps (λ o. o.codec_type)) gs
    → (new_triple_option (fs ++ with_codec_type c ∷ gs)).codec_type
      ≡ (if c == "" then pb_codec_name else c)
unfolding new_triple_option with_codec_type
codec_type_last_wins fs gs c k =
    ap (λ t. if t == "" then pb_codec_name else t)
      (last_wins (λ o. o.codec_type) fs gs (with_codec_type c) c zero_option k (λ p. refl))

-- Of the functions given to `NewTripleOption`, the last that sets the timeout decides it: the option
-- has that timeout, or the default one if it was zero, whatever stands before it.
pub timeout_last_wins :
    (fs gs : List OptionFunction) (t : ℤ)
    → All (Keeps (λ o. o.timeout)) gs
    → (new_triple_option (fs ++ with_client_timeout t ∷ gs)).timeout
      ≡ (if is_zero t then default_timeout else t)
unfolding new_triple_option with_client_timeout
timeout_last_wins fs gs t k =
    ap (λ t. if is_zero t then default_timeout else t)
      (last_wins (λ o. o.timeout) fs gs (with_client_timeout t) t zero_option k (λ p. refl))

-- After `WithLogger(l)` every call on the option's logger does what the call does on `l`. So the
-- wrapper is transparent, and for a nil `l` the default logger is not put in and the call panics.
pub logger_last_wins :
    (fs gs : List OptionFunction) (l : Logger) (c : LogCall)
    → All (Keeps (λ o. o.logger)) gs
    → call_logger (new_triple_option (fs ++ with_logger l ∷ gs)).logger c ≡ call_logger l c
unfolding new_triple_option with_logger call_logger
logger_last_wins fs gs l c k =
    rw (
      last_wins (λ o. o.logger) fs gs (with_logger l) (new_logger_wrapper l) zero_option k
        λ p. refl)
