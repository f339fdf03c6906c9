-- ===== src/Common/Error.antt =====
-- Errors as values: Go's `error` interface, the gRPC status codes that the program names, and the
-- dynamic values that go through `interface{}`.
use triple.Base.{ℕ, String, List}

-- codes.Code, a uint32; `code n` is a number that has no name.
pub data Code : Type 0 where
  ok canceled unknown invalid_argument deadline_exceeded not_found already_exists : Code
  permission_denied resource_exhausted failed_precondition aborted out_of_range : Code
  unimplemented internal unavailable data_loss unauthenticated : Code
  code : ℕ → Code

-- An error value. `status_errorf` and `errorf` are made by the program; `foreign` comes from outside.
pub data Err : Type 0 where
  eof : Err
  status_errorf : Code → String → Err
  errorf : String → Err
  foreign : ℕ → Err

-- A pair `(value, error)` that holds exactly one of the two.
pub data Result (A : Type 0) : Type 0 where
  success : A → Result A
  failure : Err → Result A

-- A dynamic value. `pointer v` points to a cell that holds `v`; `object` is any other value.
pub data Value : Type 0 where
  nil_value : Value
  text : String → Value
  bytes : List ℕ → Value
  strings : List String → Value
  pointer : Value → Value
  object : ℕ → Value
