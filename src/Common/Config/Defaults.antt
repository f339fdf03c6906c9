-- ===== src/Common/Config/Defaults.antt =====
-- What `Validate` leaves: no field that the network code needs is empty, and nothing else changed.
use triple.Base.{◌≡◌, ◌≢◌, ◌↔◌, subst, List, arith, eq_iff}
use triple.Base.Int.{pos}
use triple.Common.Logger.{nil_logger}
use triple.Common.Config.{
  TripleOption, validate, OptionFunction, new_triple_option, zero_option, apply_functions,
}

-- The fields that have a default are all set.
pub record IsComplete (o : TripleOption) : Type 0 where
  pub timeout_set : o.timeout ≢ pos 0
  pub buffer_size_set : o.buffer_size ≢ 0
  pub location_set : o.location ≢ ""
  pub protocol_set : o.protocol ≢ ""
  pub codec_type_set : o.codec_type ≢ ""
  pub logger_set : o.logger ≢ nil_logger
  pub num_workers_set : o.num_workers ≢ 0

validate-IsComplete : (o : TripleOption) → IsComplete (validate o)
unfolding validate
validate-IsComplete o = record {
  timeout_set = ground arith;
  buffer_size_set = ground arith;
  location_set = ground (arith, eq_iff o.location "", eq_iff "127.0.0.1:20001" "");
  protocol_set = ground (arith, eq_iff o.protocol "", eq_iff "tri" "");
  codec_type_set = ground (arith, eq_iff o.codec_type "", eq_iff "protobuf" "");
  logger_set = ground arith;
  num_workers_set = ground arith;
}

-- `NewTripleOption` returns an option in which each field that has a default is set, whatever the
-- option functions do.
new_triple_option-IsComplete : (fs : List OptionFunction) → IsComplete (new_triple_option fs)
unfolding new_triple_option
new_triple_option-IsComplete fs = validate-IsComplete (apply_functions fs zero_option)

validate-eq_self : (o : TripleOption) → IsComplete o → validate o ≡ o
unfolding validate
validate-eq_self o c =
    ground (arith, eq_iff o.location "", eq_iff o.protocol "", eq_iff o.codec_type "")

-- `Validate` changes an option exactly when a field that has a default is empty; in particular it
-- overwrites no set field and is idempotent.
validate-fixed_iff : (o : TripleOption) → (validate o ≡ o) ↔ IsComplete o
validate-fixed_iff o = (λ e. subst IsComplete e (validate-IsComplete o), validate-eq_self o)
