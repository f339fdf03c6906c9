-- ===== src/Server/Handler.antt =====
-- `GenericCodec.UnmarshalRequest` of pkg/triple/dubbo3_server.go, and the handler that
-- `createGrpcDesc` puts into the descriptor of a service with `InvokeWithArgs`.
pub mod Arguments
pub mod Endings
pub mod Kinds
use triple.Base.{
  concat, none, exit, panicked, pure, ◌==◌, ◌++◌, some, ◌>>=◌, if◌then◌else◌, returned, M, ℕ, Exit,
  Option, List, String, [], ◌∷◌,
}
use triple.Common.Context.{value_of, assert_text, Context}
use triple.Common.Error.{nil_value, failure, pointer, bytes, Err, success, Result, Value}
use triple.Common.Logger.{errorf}

-- The codecs as the handler uses them: the arguments of a marshalled wrapper, and a hessian value.
pub record GenericLib : Type 0 where
  pub unmarshal_wrapper : List ℕ → Result (List (List ℕ))
  pub decode : List ℕ → Result Value

-- A `TripleUnaryService`: the pointers to the parameters of a method, if it has the method, and a
-- call of it.
pub record UnaryService (S : Type 0) : Type 0 where
  pub get_req_params_interfaces : String → Option (List Value)
  pub invoke_with_args : Context → String → List Value → M S (Value × Option Err)

-- `dec` of grpc: it writes the request into the pointers, or fails.
abbrev pub Decoder : Type 0 → Type 0
Decoder S = List Value → M S (Result (List Value))

module _ (lib : GenericLib) where
  -- The loop over the arguments, which stops at the first that cannot be decoded.
  unfoldable pub decode_args : List (List ℕ) → List Value → Result (List Value)
  decode_args [] result = success result
  decode_args (v ∷ args) result = elim (lib.decode v) [
    | success val ↦ decode_args args (result ++ val ∷ [])
    | failure err ↦ failure err
  ]

  unfoldable pub unmarshal_request : List ℕ → Result (List Value)
  unfolding decode_args
  unmarshal_request payload = elim (lib.unmarshal_wrapper payload) [
    | success args ↦ decode_args args []
    | failure err ↦ failure err
  ]

-- `reflect.ValueOf(v).Elem().Interface()` for each parameter, which panics on one that is no pointer.
unfoldable pub cells : List Value → List Value → Exit (List Value)
cells [] args = returned args
cells (pointer v ∷ params) args = cells params (args ++ v ∷ [])
cells (_ ∷ params) args = panicked

abbrev pub method_key : String
method_key = "XXX_TRIPLE_GO_METHOD_NAME"

abbrev pub payload_key : String
payload_key = "XXX_TRIPLE_GO_GENERIC_PAYLOAD"

-- `.([]byte)` with its flag.
abbrev payload_of : Value → Option (List ℕ)
payload_of (bytes payload) = some payload
payload_of v = none

-- The payload, if the call is a generic one.
unfoldable pub generic_payload : String → Value → Option (List ℕ)
generic_payload method_name v = if method_name == "$invoke" then payload_of v else none

abbrev pub missing_method : String → Err
missing_method name =
    Err.errorf
      (concat "method name " (concat name " is not provided by service, please check if correct"))

abbrev pub bad_request : Err
bad_request =
    Err.errorf "unaryProcessor.processUnaryRPC: generic invoke with request %s unmarshal error = %s"

module _ {S : Type 0} (lib : GenericLib) (service base : UnaryService S) where
  invoke_generic : Context → String → Result (List Value) → M S (Value × Option Err)
  invoke_generic ctx method_name (success args) = base.invoke_with_args ctx method_name args
  invoke_generic ctx method_name (failure err) = pure (nil_value, some bad_request)

  -- What follows the decoding of the request.
  invoke_decoded : Context → String → Result (List Value) → M S (Value × Option Err)
  invoke_decoded ctx method_name (success params) = do
    args ← exit (cells params [])
    base.invoke_with_args ctx method_name args
  invoke_decoded ctx method_name (failure e) = pure (nil_value, some e)

  invoke_method : Context → String → Decoder S → Option (List Value) → M S (Value × Option Err)
  unfolding invoke_decoded
  invoke_method ctx method_name dec (some req_param) = do
    decoded ← dec req_param
    invoke_decoded ctx method_name decoded
  invoke_method ctx method_name dec none = pure (nil_value, some (missing_method method_name))

  -- The two ways of a call, by the payload of a generic one.
  dispatch : Context → String → Decoder S → Option (List ℕ) → M S (Value × Option Err)
  unfolding invoke_generic invoke_method
  dispatch ctx method_name dec (some payload) =
      invoke_generic ctx method_name (unmarshal_request lib payload)
  dispatch ctx method_name dec none =
      invoke_method ctx method_name dec (service.get_req_params_interfaces method_name)

  -- The handler; `base` is the registered service and `service` the one that the descriptor was made
  -- for. Its interceptor is never used.
  unfoldable pub invoke_handler : Context → Decoder S → M S (Value × Option Err)
  unfolding dispatch
  invoke_handler ctx dec = do
    method_name ← exit (assert_text (value_of ctx method_key))
    dispatch ctx method_name dec (generic_payload method_name (value_of ctx payload_key))
