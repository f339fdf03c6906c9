-- ===== src/Server/Handler/Endings.antt =====
-- Every way in which the handler of a service with `InvokeWithArgs` can end.
use triple.Server.Handler.{
  missing_method, bad_request, invoke_handler, unmarshal_request, method_key, payload_key, Decoder,
  UnaryService, GenericLib, generic_payload,
}
use triple.Server.Handler.Arguments.{invoke_handler-decoded, invoke_handler-generic}
use triple.Base.{
  ◌>>=◌, ◌∙◌, returned, inr, ap, none, Option, some, inl, Exit, arith, panicked, ℕ, map, ◌≡◌,
  String, List, [], refl,
}
use triple.Common.Context.{assert_text, value_of, Context}
use triple.Common.Error.{
  nil_value, object, strings, failure, success, Result, Err, text, bytes, pointer, Value,
}
use triple.Server.Handler.Kinds.{IsPlain, PointTo, pointers-cases, payload-cases}

module _ {S : Type 0} (lib : GenericLib) (service base : UnaryService S) (ctx : Context)
    (dec : Decoder S) (s : S) where
  abbrev Run : Type 0
  Run = S × Exit (Value × Option Err)

  -- The context names the method.
  abbrev pub IsCallOf : String → Type 0
  IsCallOf name = value_of ctx method_key ≡ text name

  -- The parameters of a plain call.
  abbrev pub Takes : String → List Value → Type 0
  Takes name params =
      IsCallOf name × IsPlain ctx name × (service.get_req_params_interfaces name ≡ some params)

  -- What the handler ends with, by the case that the call is.
  pub data Ending (r : Run) : Type 0 where
    unnamed : ((name : String) → ¬ IsCallOf name) → r ≡ (s, panicked) → Ending r
    generic :
        (payload : List ℕ) (vs : List Value)
        → IsCallOf "$invoke"
        → value_of ctx payload_key ≡ bytes payload
        → unmarshal_request lib payload ≡ success vs
        → r ≡ base.invoke_with_args ctx "$invoke" vs s
        → Ending r
    bad_payload :
        (payload : List ℕ) (err : Err)
        → IsCallOf "$invoke"
        → value_of ctx payload_key ≡ bytes payload
        → unmarshal_request lib payload ≡ failure err
        → r ≡ (s, returned (nil_value, some bad_request))
        → Ending r
    missing :
        (name : String)
        → IsCallOf name
        → IsPlain ctx name
        → service.get_req_params_interfaces name ≡ none
        → r ≡ (s, returned (nil_value, some (missing_method name)))
        → Ending r
    undecoded :
        (name : String) (params : List Value) (s' : S) (e : Err)
        → Takes name params
        → dec params s ≡ (s', returned (failure e))
        → r ≡ (s', returned (nil_value, some e))
        → Ending r
    crashed :
        (name : String) (params : List Value) (s' : S)
        → Takes name params
        → dec params s ≡ (s', panicked)
        → r ≡ (s', panicked)
        → Ending r
    decoded :
        (name : String) (params vs : List Value) (s' : S)
        → Takes name params
        → dec params s ≡ (s', returned (success (map pointer vs)))
        → r ≡ base.invoke_with_args ctx name vs s'
        → Ending r
    no_pointer :
        (name : String) (params filled : List Value) (s' : S)
        → Takes name params
        → dec params s ≡ (s', returned (success filled))
        → ((vs : List Value) → ¬ PointTo filled vs)
        → r ≡ (s', panicked)
        → Ending r

  unnamed_lem :
      ((name : String) → ¬ IsCallOf name)
      → assert_text (value_of ctx method_key) ≡ panicked
      → Ending (invoke_handler lib service base ctx dec s)
  unfolding invoke_handler ◌>>=◌
  unnamed_lem absent crash = unnamed absent (rw crash refl)

  generic_lem :
      (payload : List ℕ)
      → IsCallOf "$invoke"
      → value_of ctx payload_key ≡ bytes payload
      → (u : Result (List Value)) → unmarshal_request lib payload ≡ u
      → Ending (invoke_handler lib service base ctx dec s)
  unfolding invoke_handler assert_text generic_payload ◌>>=◌
  generic_lem payload named carries (success vs) u =
      generic payload vs named carries u
        (invoke_handler-generic lib service base ctx dec s payload vs named carries u)
  generic_lem payload named carries (failure err) u =
      bad_payload payload err named carries u (ground (arith, named, carries, u))

  decoded_lem :
      (name : String) (params : List Value)
      → Takes name params
      → generic_payload name (value_of ctx payload_key) ≡ none
      → (r : S × Exit (Result (List Value))) → dec params s ≡ r
      → Ending (invoke_handler lib service base ctx dec s)
  unfolding invoke_handler assert_text ◌>>=◌
  decoded_lem name params (named, plain, has) e (s', panicked) d =
      crashed name params s' (named, plain, has) d (rw (named, e, has, d) refl)
  decoded_lem name params (named, plain, has) e (s', returned (failure x)) d =
      undecoded name params s' x (named, plain, has) d (rw (named, e, has, d) refl)
  decoded_lem name params (named, plain, has) e (s', returned (success filled)) d =
      elim (pointers-cases filled []) [
        | inl (vs, q) ↦
            decoded name params vs s' (named, plain, has) (rw (d, q) refl)
              (invoke_handler-decoded lib service base ctx dec s name params vs s' named e has
                (rw (d, q) refl))
        | inr (absent, crash) ↦
            no_pointer name params filled s' (named, plain, has) d absent
              (rw (named, e, has, d, crash) refl)
      ]

  plain_lem :
      (name : String)
      → IsCallOf name
      → IsPlain ctx name
      → generic_payload name (value_of ctx payload_key) ≡ none
      → (o : Option (List Value)) → service.get_req_params_interfaces name ≡ o
      → Ending (invoke_handler lib service base ctx dec s)
  unfolding invoke_handler assert_text ◌>>=◌
  plain_lem name named plain e none has = missing name named plain has (rw (named, e, has) refl)
  plain_lem name named plain e (some params) has =
      decoded_lem name params (named, plain, has) e (dec params s) refl

  named_lem :
      (v : Value) → value_of ctx method_key ≡ v → Ending (invoke_handler lib service base ctx dec s)
  unfolding assert_text
  named_lem (text name) e = elim (payload-cases name (value_of ctx payload_key)) [
    | inl (payload, is, carries, g) ↦
        generic_lem payload (e ∙ ap text is) carries (unmarshal_request lib payload) refl
    | inr (plain, g) ↦ plain_lem name e plain g (service.get_req_params_interfaces name) refl
  ]
  named_lem nil_value e = unnamed_lem (λ name h. cc) (rw e refl)
  named_lem (bytes b) e = unnamed_lem (λ name h. cc) (rw e refl)
  named_lem (strings t) e = unnamed_lem (λ name h. cc) (rw e refl)
  named_lem (pointer w) e = unnamed_lem (λ name h. cc) (rw e refl)
  named_lem (object n) e = unnamed_lem (λ name h. cc) (rw e refl)

  -- Whatever the context, the service and the decoder, the handler ends in one of these ways. Without
  -- a method's name it panics. A generic call of `$invoke` with a byte payload calls the service with
  -- the values of the payload in order, the request itself not being decoded, or fails if the payload
  -- cannot be unmarshalled. Any other call of a method that the service does not have fails. One that
  -- it has decodes the request into the pointers of the method's parameters: it fails with the
  -- decoder's error, panics with the decoder's panic or on a parameter that is no pointer, and
  -- otherwise calls the registered service with what the parameters point to then, in order.
  pub invoke_handler-Ending : Ending (invoke_handler lib service base ctx dec s)
  invoke_handler-Ending = named_lem (value_of ctx method_key) refl
