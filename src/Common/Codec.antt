-- ===== src/Common/Codec.antt =====
-- pkg/common/codec.go: the registry of codecs and of the names that they have inside a wrapper.
pub mod History
use triple.Base.{
  String, concat, Bool, true, false, ◌≡◌, List, [], ◌∷◌, ◌++◌, Option, none, some, if◌then◌else◌,
  ◌==◌,
}
use triple.Base.Dict.{Dict, lookup, insert}
use triple.Common.Constant.{CodecType}
use triple.Common.Error.{Err, errorf, Result, success, failure}
use triple.Common.Config.{TripleOption}

-- The codec constructors of the grpc-go fork, which the program only calls.
pub record EncodingLib (Codec : Type 0) : Type 0 where
  pub new_pb_wrapper_two_way_codec : String → Codec → Codec → Codec
  pub new_protobuf_codec : Codec
  pub new_hessian_codec : Codec
  pub new_msg_pack_codec : Codec
  pub nil_codec : Codec

abbrev pub CodecFactory : Type 0 → Type 0
CodecFactory Codec = Unit {0} → Codec

-- The two maps of the package, and the codecs given to `encoding.RegisterCodec`, newest first.
pub record Registry (Codec : Type 0) : Type 0 where
  pub registered_codecs : List Codec
  pub codec_factory_map : Dict (CodecFactory Codec)
  pub codec_in_wrapper_serializer_type_map : Dict String

module _ {Codec : Type 0} where
  -- The maps as the package starts.
  unfoldable pub empty_registry : Registry Codec
  empty_registry = record {
    registered_codecs = [];
    codec_factory_map = [];
    codec_in_wrapper_serializer_type_map = [];
  }

  -- The part of `SetTripleCodec` behind the factory map, with its early returns.
  set_serializer_type : CodecType → List TripleOption → Registry Codec → Registry Codec
  set_serializer_type codec_type [] r = r
  set_serializer_type codec_type (o ∷ os) r =
      if o.serializer_type_in_wrapper == "" then r else record r {
        codec_in_wrapper_serializer_type_map =
            insert codec_type o.serializer_type_in_wrapper r.codec_in_wrapper_serializer_type_map;
      }

  unfoldable pub set_triple_codec :
      EncodingLib Codec
      → CodecType
      → CodecFactory Codec
      → List TripleOption
      → Registry Codec
      → Registry Codec
  unfolding set_serializer_type
  set_triple_codec lib codec_type f opt r = set_serializer_type codec_type opt (record r {
    registered_codecs =
        lib.new_pb_wrapper_two_way_codec codec_type (f tt) lib.new_protobuf_codec
        ∷ r.registered_codecs;
    codec_factory_map = insert codec_type f r.codec_factory_map;
  })

  unfoldable pub get_triple_codec : Registry Codec → CodecType → Result Codec
  get_triple_codec r codec_name = elim (lookup codec_name r.codec_factory_map) [
    | some f ↦ success (f tt)
    | none ↦ failure (errorf (concat "Codec " (concat codec_name " factory undefined!")))
  ]

  unfoldable pub get_codec_in_wrapper_name : Registry Codec → CodecType → String
  get_codec_in_wrapper_name r name = elim (lookup name r.codec_in_wrapper_serializer_type_map) [
    | some in_wrapper_name ↦ in_wrapper_name
    | none ↦ name
  ]
