-- ===== src/Common/Codec/History.antt =====
-- The registry after any history of `SetTripleCodec` calls, against a description by the history.
use triple.Base.{
  String, concat, ◌≡◌, refl, ◌∙◌, ap, List, [], ◌∷◌, Option, none, some, if◌then◌else◌, ◌==◌, arith,
}
use triple.Base.Dict.{lookup, lookup-insert}
use triple.Common.Constant.{CodecType}
use triple.Common.Error.{errorf, success, failure}
use triple.Common.Config.{TripleOption}
use triple.Common.Codec.{
  EncodingLib, CodecFactory, Registry, empty_registry, set_triple_codec, get_triple_codec,
  get_codec_in_wrapper_name,
}

-- One call of `SetTripleCodec`.
pub record Registration (Codec : Type 0) : Type 0 where
  pub codec_type : CodecType
  pub factory : CodecFactory Codec
  pub opts : List TripleOption

-- The name that a call sets, if it sets one.
abbrev named : List TripleOption → Option String
named [] = none
named (o ∷ os) =
    if o.serializer_type_in_wrapper == "" then none else some o.serializer_type_in_wrapper

abbrev or_else {ℓ} : {A : Type ℓ} → Option A → Option A → Option A
or_else none b = b
or_else (some a) b = some a

module _ {Codec : Type 0} where
  unfoldable pub register_all :
      EncodingLib Codec → List (Registration Codec) → Registry Codec → Registry Codec
  register_all lib [] r = r
  register_all lib (c ∷ cs) r =
      register_all lib cs (set_triple_codec lib c.codec_type c.factory c.opts r)

  -- The factory of the last call for the name; `found` is what earlier calls gave.
  unfoldable pub last_factory :
      CodecType
      → List (Registration Codec)
      → Option (CodecFactory Codec)
      → Option (CodecFactory Codec)
  last_factory n [] found = found
  last_factory n (c ∷ cs) found =
      last_factory n cs (if c.codec_type == n then some c.factory else found)

  -- The last non-empty serializer type given for the name.
  unfoldable pub last_serializer_type :
      CodecType → List (Registration Codec) → Option String → Option String
  last_serializer_type n [] found = found
  last_serializer_type n (c ∷ cs) found =
      last_serializer_type n cs (if c.codec_type == n then or_else (named c.opts) found else found)

  set_triple_codec-factory :
      (lib : EncodingLib Codec) (c : Registration Codec) (r : Registry Codec) (n : CodecType)
      → lookup n (set_triple_codec lib c.codec_type c.factory c.opts r).codec_factory_map
        ≡ (if c.codec_type == n then some c.factory else lookup n r.codec_factory_map)
  unfolding set_triple_codec
  set_triple_codec-factory lib c r n = go c.opts
    where
      go :
          (os : List TripleOption)
          → lookup n (set_triple_codec lib c.codec_type c.factory os r).codec_factory_map
            ≡ (if c.codec_type == n then some c.factory else lookup n r.codec_factory_map)
      go [] = lookup-insert c.codec_type n c.factory r.codec_factory_map
      go (o ∷ os) = ground (arith, lookup-insert c.codec_type n c.factory r.codec_factory_map)

  set_triple_codec-serializer_type :
      (lib : EncodingLib Codec) (t : CodecType) (f : CodecFactory Codec) (os : List TripleOption)
      (r : Registry Codec) (n : CodecType)
      → lookup n (set_triple_codec lib t f os r).codec_in_wrapper_serializer_type_map ≡ (
          if t == n
          then or_else (named os) (lookup n r.codec_in_wrapper_serializer_type_map)
          else lookup n r.codec_in_wrapper_serializer_type_map)
  unfolding set_triple_codec
  set_triple_codec-serializer_type lib t f [] r n = ground arith
  set_triple_codec-serializer_type lib t f (o ∷ os) r n =
      ground (
        arith,
        lookup-insert t n o.serializer_type_in_wrapper r.codec_in_wrapper_serializer_type_map,
      )

  register_all-factory :
      (lib : EncodingLib Codec) (cs : List (Registration Codec)) (r : Registry Codec)
      (n : CodecType)
      → lookup n (register_all lib cs r).codec_factory_map
        ≡ last_factory n cs (lookup n r.codec_factory_map)
  unfolding register_all last_factory
  register_all-factory lib [] r n = refl
  register_all-factory lib (c ∷ cs) r n =
      register_all-factory lib cs _ n ∙ ap (last_factory n cs) (set_triple_codec-factory lib c r n)

  register_all-serializer_type :
      (lib : EncodingLib Codec) (cs : List (Registration Codec)) (r : Registry Codec)
      (n : CodecType)
      → lookup n (register_all lib cs r).codec_in_wrapper_serializer_type_map
        ≡ last_serializer_type n cs (lookup n r.codec_in_wrapper_serializer_type_map)
  unfolding register_all last_serializer_type
  register_all-serializer_type lib [] r n = refl
  register_all-serializer_type lib (c ∷ cs) r n =
      register_all-serializer_type lib cs _ n
      ∙ ap (last_serializer_type n cs)
          (set_triple_codec-serializer_type lib c.codec_type c.factory c.opts r n)

  -- After any calls of `SetTripleCodec`, `GetTripleCodec` runs the factory of the last call for the
  -- name and fails exactly for a name that no call was for, and `GetCodecInWrapperName` gives the
  -- last non-empty serializer type that a call for the name had in its first option, else the name.
  pub register_all-refines :
      (lib : EncodingLib Codec) (cs : List (Registration Codec)) (n : CodecType)
      → let r = register_all lib cs empty_registry in
        (get_triple_codec r n ≡ elim (last_factory n cs none) [
          | some f ↦ success (f tt)
          | none ↦ failure (errorf (concat "Codec " (concat n " factory undefined!")))
        ])
        × (get_codec_in_wrapper_name r n
            ≡ elim (last_serializer_type n cs none) [ some s ↦ s | none ↦ n ])
  unfolding get_triple_codec get_codec_in_wrapper_name empty_registry lookup
  register_all-refines lib cs n = (
    ground (arith, register_all-factory lib cs empty_registry n),
    ground (arith, register_all-serializer_type lib cs empty_registry n),
  )
