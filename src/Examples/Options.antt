-- ===== src/Examples/Options.antt =====
-- Options, codecs and credentials.
use triple.Common.Config.Settings.{function_of, set_codec_type, set_logger}
use triple.Common.Config.{new_triple_option, zero_option, TripleOption}
use triple.Common.Logger.{user_logger, Method, nil_logger, call_logger}
use triple.Common.Config.Settings.Settled.{new_triple_option_lem, settled}
use triple.Base.{map, eq_iff, ◌∷◌, arith, ◌↔◌, none, false, [], inl, ◌≡◌, String, List}
use triple.Security.{get_client_tls_certificate, TlsFiles, get_server_tls_certificate}
use triple.Common.Config.Functions.{with_logger}
use triple.Common.Codec.{get_codec_in_wrapper_name, get_triple_codec, empty_registry, EncodingLib}
use triple.Common.Codec.History.{
  register_all-refines, register_all, last_serializer_type, Registration, last_factory,
}
use triple.Security.Downgrade.{no_creds_iff, HasBadCa, WantsTls}
use triple.Common.Error.{success}
use triple.Common.Config.Overrides.{logger_last_wins}

abbrev pub text_lib : EncodingLib String
text_lib = record {
  new_pb_wrapper_two_way_codec = λ t f p. t;
  new_protobuf_codec = "pb";
  new_hessian_codec = "h";
  new_msg_pack_codec = "m";
  nil_codec = "";
}

-- A codec that is registered twice, the second time with a name inside the wrapper.
abbrev pub registrations : List (Registration String)
registrations =
    record { codec_type = "json"; factory = λ _. "one"; opts = [] }
    ∷ record {
      codec_type = "json";
      factory = λ _. "two";
      opts = record zero_option { serializer_type_in_wrapper = "fastjson" } ∷ [];
    }
    ∷ []

register_all-refines_example :
    let r = register_all text_lib registrations empty_registry in
    (get_triple_codec r "json" ≡ success "two") × (get_codec_in_wrapper_name r "json" ≡ "fastjson")
unfolding last_factory last_serializer_type zero_option
register_all-refines_example = register_all-refines text_lib registrations "json"

logger_last_wins_example :
    call_logger
      (new_triple_option (with_logger (user_logger 1) ∷ with_logger nil_logger ∷ [])).logger
      (record { method = Method.warn; message = "m" })
    ≡ call_logger nil_logger (record { method = Method.warn; message = "m" })
logger_last_wins_example =
    logger_last_wins (with_logger (user_logger 1) ∷ []) [] nil_logger
      (record { method = Method.warn; message = "m" }) tt

-- All files can be read, and none is a PEM file.
abbrev pub garbage_files : TlsFiles
garbage_files = record {
  read_file = λ name. success 0;
  is_pem = λ ca. false;
  load_x509_key_pair = λ cert key. success 0;
  read_client_tls = λ cert name. success 0;
}

abbrev tls_option : TripleOption
tls_option = record zero_option {
  ca_cert_file = "ca.pem";
  tls_cert_file = "cert.pem";
  tls_key_file = "key.pem";
}

tls_option-WantsTls : WantsTls tls_option
unfolding zero_option
tls_option-WantsTls = inl (ground (arith, eq_iff "cert.pem" ""))

no_creds_iff_example :
    ((get_server_tls_certificate garbage_files tls_option ≡ (none, none))
      ↔ HasBadCa garbage_files tls_option)
    × ((get_client_tls_certificate garbage_files tls_option ≡ (none, none))
        ↔ HasBadCa garbage_files tls_option)
no_creds_iff_example = no_creds_iff garbage_files tls_option tls_option-WantsTls

-- Two codecs, the second of them empty, and a logger between them.
new_triple_option_lem_example :
    new_triple_option (
      map function_of (set_codec_type "json" ∷ set_logger (user_logger 1) ∷ set_codec_type "" ∷ []))
    ≡ settled (set_codec_type "json" ∷ set_logger (user_logger 1) ∷ set_codec_type "" ∷ [])
new_triple_option_lem_example =
    new_triple_option_lem
      (set_codec_type "json" ∷ set_logger (user_logger 1) ∷ set_codec_type "" ∷ [])
