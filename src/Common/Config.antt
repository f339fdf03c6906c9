-- ===== src/Common/Config.antt =====
-- pkg/config/config.go: the option record, its defaults and the option functions.
pub mod Functions
pub mod Defaults
pub mod Overrides
pub mod Settings
use triple.Base.{ℕ, String, Bool, false, List, [], ◌∷◌, if◌then◌else◌, ◌==◌, nat_eq}
use triple.Base.Int.{ℤ, pos, is_zero}
use triple.Common.Constant.{
  CodecType, triple_protocol, default_http2_controller_read_buffer_size, default_timeout,
  default_listening_address, pb_codec_name, default_num_workers,
}
use triple.Common.Logger.{Logger, nil_logger, is_nil, get_default_logger}

-- The Go type `config.Option`.
pub record TripleOption : Type 0 where
  pub timeout : ℤ
  pub buffer_size : ℕ  -- uint32
  pub location : String
  pub protocol : String
  pub codec_type : CodecType
  pub serializer_type_in_wrapper : String
  pub header_group : String
  pub header_app_version : String
  pub grpc_max_call_send_msg_size : ℤ
  pub grpc_max_server_send_msg_size : ℤ
  pub grpc_max_call_recv_msg_size : ℤ
  pub grpc_max_server_recv_msg_size : ℤ
  pub grpc_keep_alive_time : ℤ
  pub grpc_keep_alive_timeout : ℤ
  pub jaeger_address : String
  pub jaeger_service_name : String
  pub jaeger_use_agent : Bool
  pub logger : Logger
  pub num_workers : ℕ  -- uint32
  pub proxy_mode_enable : Bool
  pub ca_cert_file : String
  pub tls_cert_file : String
  pub tls_key_file : String
  pub tls_server_name : String

-- `&Option{}`
unfoldable pub zero_option : TripleOption
zero_option = record {
  timeout = pos 0;
  buffer_size = 0;
  location = "";
  protocol = "";
  codec_type = "";
  serializer_type_in_wrapper = "";
  header_group = "";
  header_app_version = "";
  grpc_max_call_send_msg_size = pos 0;
  grpc_max_server_send_msg_size = pos 0;
  grpc_max_call_recv_msg_size = pos 0;
  grpc_max_server_recv_msg_size = pos 0;
  grpc_keep_alive_time = pos 0;
  grpc_keep_alive_timeout = pos 0;
  jaeger_address = "";
  jaeger_service_name = "";
  jaeger_use_agent = false;
  logger = nil_logger;
  num_workers = 0;
  proxy_mode_enable = false;
  ca_cert_file = "";
  tls_cert_file = "";
  tls_key_file = "";
  tls_server_name = "";
}

-- `NumWorkers` is a uint32, so its test `<= 0` is a test for 0.
unfoldable pub validate : TripleOption → TripleOption
unfolding get_default_logger
validate o = record o {
  timeout = if is_zero o.timeout then default_timeout else o.timeout;
  buffer_size =
      if nat_eq o.buffer_size 0 then default_http2_controller_read_buffer_size else o.buffer_size;
  location = if o.location == "" then default_listening_address else o.location;
  logger = if is_nil o.logger then get_default_logger else o.logger;
  protocol = if o.protocol == "" then triple_protocol else o.protocol;
  codec_type = if o.codec_type == "" then pb_codec_name else o.codec_type;
  num_workers = if nat_eq o.num_workers 0 then default_num_workers else o.num_workers;
}

-- An `OptionFunction` changes the option that it is given.
abbrev pub OptionFunction : Type 0
OptionFunction = TripleOption → TripleOption

unfoldable pub apply_functions : List OptionFunction → OptionFunction
apply_functions [] o = o
apply_functions (f ∷ fs) o = apply_functions fs (f o)

unfoldable pub new_triple_option : List OptionFunction → TripleOption
unfolding apply_functions zero_option validate
new_triple_option fs = validate (apply_functions fs zero_option)
