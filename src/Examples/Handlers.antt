-- ===== src/Examples/Handlers.antt =====
-- Calls of a unary service.
use triple.Base.{
  ◌>>=◌, refl, none, ◌↔◌, length, some, returned, ◌+◌, ◌==◌, nat_eq, ◌≡◌, if◌then◌else◌, ℕ, List,
  String, [], ◌∷◌,
}
use triple.Server.Handler.{
  cells, payload_key, decode_args, missing_method, invoke_handler, method_key, Decoder,
  generic_payload, unmarshal_request, GenericLib, UnaryService,
}
use triple.Common.Context.{assert_text, value_of, Context}
use triple.Common.Error.{eof, failure, nil_value, pointer, text, bytes, success}
use triple.Base.Dict.{lookup}
use triple.Server.Handler.Arguments.{unmarshal_request_iff, Decodes}
use triple.Server.Handler.Endings.{Ending, invoke_handler-Ending}

-- A wrapper holds one argument for each byte; an empty one cannot be unmarshalled.
abbrev byte_args : List ℕ → List (List ℕ)
byte_args [] = []
byte_args (b ∷ bs) = (b ∷ []) ∷ byte_args bs

abbrev pub byte_lib : GenericLib
byte_lib = record {
  unmarshal_wrapper =
      λ payload. if nat_eq (length payload) 0 then failure eof else success (byte_args payload);
  decode = λ arg. success (bytes arg);
}

-- A service with one method, which counts its calls and gives its arguments back.
abbrev pub counting_service : UnaryService ℕ
counting_service = record {
  get_req_params_interfaces = λ name.
      if name == "SayHello" then some (pointer nil_value ∷ pointer nil_value ∷ []) else none;
  invoke_with_args = λ ctx name args n. (n + length args, returned (nil_value, none));
}

abbrev pub two_texts : Decoder ℕ
two_texts params n = (n + 10, returned (success (pointer (text "a") ∷ pointer (text "b") ∷ [])))

abbrev pub method_context : String → Context
method_context name = record {
  values = (method_key, text name) ∷ (payload_key, bytes (1 ∷ 2 ∷ [])) ∷ [];
  active_span = none;
  outgoing = none;
  incoming = none;
}

unmarshal_request_iff_example :
    (unmarshal_request byte_lib (1 ∷ 2 ∷ []) ≡ success (bytes (1 ∷ []) ∷ bytes (2 ∷ []) ∷ [])) ↔ (
      (args : List (List ℕ)) × (byte_lib.unmarshal_wrapper (1 ∷ 2 ∷ []) ≡ success args)
      × Decodes byte_lib args (bytes (1 ∷ []) ∷ bytes (2 ∷ []) ∷ []))
unmarshal_request_iff_example =
    unmarshal_request_iff byte_lib (1 ∷ 2 ∷ []) (bytes (1 ∷ []) ∷ bytes (2 ∷ []) ∷ [])

invoke_handler-Ending_example :
    Ending byte_lib counting_service counting_service (method_context "SayHello") two_texts 0 (
      invoke_handler byte_lib counting_service counting_service
        (method_context "SayHello")
        two_texts
        0)
invoke_handler-Ending_example =
    invoke_handler-Ending byte_lib counting_service counting_service (method_context "SayHello")
      two_texts 0

-- A plain call counts the two arguments after the decoder, a generic one those of its payload.
plain_run :
    invoke_handler byte_lib counting_service counting_service
      (method_context "SayHello")
      two_texts
      0
    ≡ (12, returned (nil_value, none))
unfolding invoke_handler generic_payload value_of lookup ◌>>=◌ assert_text cells
plain_run = refl

generic_run :
    invoke_handler byte_lib counting_service counting_service (method_context "$invoke") two_texts 0
    ≡ (2, returned (nil_value, none))
unfolding invoke_handler unmarshal_request decode_args generic_payload value_of lookup ◌>>=◌
    assert_text
generic_run = refl

-- A method that the service does not have.
missing_run :
    invoke_handler byte_lib counting_service counting_service (method_context "SayBye") two_texts 0
    ≡ (0, returned (nil_value, some (missing_method "SayBye")))
unfolding invoke_handler generic_payload value_of lookup ◌>>=◌ assert_text
missing_run = refl
