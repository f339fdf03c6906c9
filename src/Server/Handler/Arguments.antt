-- ===== src/Server/Handler/Arguments.antt =====
-- The arguments with which the handler calls the service.
use triple.Base.{
  sym, subst, some, arith, none, append_assoc, ap, refl, ◌∙◌, ◌>>=◌, append-nil, ◌↔◌, ◌++◌,
  returned, ◌≡◌, map, String, ℕ, List, [], ◌∷◌,
}
use triple.Server.Handler.{
  payload_key, generic_payload, method_key, invoke_handler, Decoder, unmarshal_request, decode_args,
  UnaryService, cells, GenericLib,
}
use triple.Common.Context.{value_of, assert_text, Context}
use triple.Common.Error.{bytes, text, failure, Result, success, pointer, Value}

module _ (lib : GenericLib) where
  -- Each argument decodes to the value at its place.
  abbrev pub Decodes : List (List ℕ) → List Value → Type 0
  Decodes [] [] = Unit {0}
  Decodes (a ∷ args) (v ∷ vs) = (lib.decode a ≡ success v) × Decodes args vs
  Decodes [] (v ∷ vs) = ⊥
  Decodes (a ∷ args) [] = ⊥

  decode_args-success :
      (args : List (List ℕ)) (vs seen : List Value)
      → Decodes args vs
      → decode_args lib args seen ≡ success (seen ++ vs)
  unfolding decode_args
  decode_args-success [] [] seen h = ap success (sym (append-nil seen))
  decode_args-success (a ∷ args) (v ∷ vs) seen h =
      ground (
        arith,
        h.0,
        decode_args-success args vs (seen ++ v ∷ []) h.1,
        append_assoc seen (v ∷ []) vs,
      )
  decode_args-success [] (v ∷ vs) seen h = absurd h
  decode_args-success (a ∷ args) [] seen h = absurd h

  decode_args-Decodes :
      (args : List (List ℕ)) (seen out : List Value)
      → decode_args lib args seen ≡ success out
      → (vs : List Value) × Decodes args vs × (out ≡ seen ++ vs)
  unfolding decode_args
  decode_args-Decodes [] seen out e = ([], tt, ground (arith, e, append-nil seen))
  decode_args-Decodes (a ∷ args) seen out e =
      go (lib.decode a) refl (λ v. decode_args-Decodes args (seen ++ v ∷ []) out) e
    where
      go :
          (r : Result Value)
          → lib.decode a ≡ r
          → ((v : Value)
              → decode_args lib args (seen ++ v ∷ []) ≡ success out
              → (vs : List Value) × Decodes args vs × (out ≡ (seen ++ v ∷ []) ++ vs))
          → (elim r [
            | success val ↦ decode_args lib args (seen ++ val ∷ [])
            | failure err ↦ failure err
          ])
            ≡ success out
          → (vs : List Value) × Decodes (a ∷ args) vs × (out ≡ seen ++ vs)
      go (success v) d ih rest =
          let (vs, ds, eq) = ih v rest in (v ∷ vs, (d, ds), eq ∙ append_assoc seen (v ∷ []) vs)
      go (failure x) d ih rest = absurd (ground (arith, rest))

  wrapper-Decodes :
      (r : Result (List (List ℕ))) (vs : List Value)
      → (elim r [ success args ↦ decode_args lib args [] | failure err ↦ failure err ]) ≡ success vs
      → (args : List (List ℕ)) × (r ≡ success args) × Decodes args vs
  wrapper-Decodes (success args) vs e =
      let (vs', ds, eq) = decode_args-Decodes args [] vs e in
      (args, refl, subst (Decodes args) (sym eq) ds)
  wrapper-Decodes (failure x) vs e = absurd (ground (arith, e))

  -- `UnmarshalRequest` returns the values exactly if the wrapper can be unmarshalled and each of its
  -- arguments decodes to the value at its place.
  pub unmarshal_request_iff :
      (payload : List ℕ) (vs : List Value)
      → (unmarshal_request lib payload ≡ success vs) ↔ (
          (args : List (List ℕ)) × (lib.unmarshal_wrapper payload ≡ success args) × Decodes args vs)
  unfolding unmarshal_request
  unmarshal_request_iff payload vs = (
    wrapper-Decodes (lib.unmarshal_wrapper payload) vs,
    λ h. ground (arith, h.1, decode_args-success h.0 vs [] h.2),
  )

cells-pointers : (vs args : List Value) → cells (map pointer vs) args ≡ returned (args ++ vs)
unfolding cells
cells-pointers [] args = rw (append-nil args) refl
cells-pointers (v ∷ vs) args =
    cells-pointers vs (args ++ v ∷ []) ∙ ap returned (append_assoc args (v ∷ []) vs)

module _ {S : Type 0} (lib : GenericLib) (service base : UnaryService S) (ctx : Context)
    (dec : Decoder S) (s : S) where
  -- A generic call whose payload can be unmarshalled calls the service with the values in it, and the
  -- request itself is not decoded.
  pub invoke_handler-generic :
      (payload : List ℕ) (vs : List Value)
      → value_of ctx method_key ≡ text "$invoke"
      → value_of ctx payload_key ≡ bytes payload
      → unmarshal_request lib payload ≡ success vs
      → invoke_handler lib service base ctx dec s ≡ base.invoke_with_args ctx "$invoke" vs s
  unfolding invoke_handler assert_text generic_payload ◌>>=◌
  invoke_handler-generic payload vs named carries decoded = ground (arith, named, carries, decoded)

  -- Any other call of a method that the service has decodes the request into the pointers of the
  -- method's parameters, and calls the registered service with what they point to then, in order.
  pub invoke_handler-decoded :
      (name : String) (params vs : List Value) (s' : S)
      → value_of ctx method_key ≡ text name
      → generic_payload name (value_of ctx payload_key) ≡ none
      → service.get_req_params_interfaces name ≡ some params
      → dec params s ≡ (s', returned (success (map pointer vs)))
      → invoke_handler lib service base ctx dec s ≡ base.invoke_with_args ctx name vs s'
  unfolding invoke_handler assert_text ◌>>=◌
  invoke_handler-decoded name params vs s' named plain has decoded =
      rw (named, plain, has, decoded, cells-pointers vs []) refl
