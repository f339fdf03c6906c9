-- ===== src/Common/Config/Settings.antt =====
-- The option functions as data, and the option that a list of them makes, described field by field.
pub mod Settled
use triple.Base.{
  false, ◌==◌, nat_eq, ◌∙◌, ap, ◌≡◌, String, map, if◌then◌else◌, ℕ, none, Bool, Option, some, List,
  [], ◌∷◌, refl,
}
use triple.Common.Config.{
  validate, TripleOption, zero_option, apply_functions, OptionFunction, new_triple_option,
}
use triple.Base.Int.{pos, is_zero, ℤ}
use triple.Common.Config.Functions.{
  with_jaeger_config, with_proxy_mode_enable, with_grpc_keep_alive_timeout,
  with_grpc_keep_alive_time_interval, with_grpc_max_server_recv_message_size,
  with_grpc_max_server_send_message_size, with_grpc_max_call_recv_message_size,
  with_grpc_max_call_send_message_size, with_num_worker, with_serializer_type_in_wrapper,
  with_logger, with_header_group, with_header_app_version, with_location, with_protocol,
  with_codec_type, with_buffer_size, with_client_timeout,
}
use triple.Common.Logger.{
  new_logger_wrapper, nil_logger, default_logger, is_nil, Logger, get_default_logger, wrapper,
}
use triple.Common.Constant.{
  default_num_workers, default_listening_address, triple_protocol, pb_codec_name,
  default_http2_controller_read_buffer_size, default_timeout, CodecType,
}

-- One call of an option function, with its arguments.
pub data Setting : Type 0 where
  set_client_timeout set_grpc_max_call_send_message_size set_grpc_max_call_recv_message_size
        set_grpc_max_server_send_message_size set_grpc_max_server_recv_message_size
        set_grpc_keep_alive_time_interval set_grpc_keep_alive_timeout :
      ℤ → Setting
  set_buffer_size set_num_worker : ℕ → Setting
  set_codec_type : CodecType → Setting
  set_protocol set_location set_header_app_version set_header_group set_serializer_type_in_wrapper :
      String → Setting
  set_logger : Logger → Setting
  set_proxy_mode_enable : Bool → Setting
  set_jaeger_config : String → String → Bool → Setting

unfoldable pub function_of : Setting → OptionFunction
function_of (set_client_timeout x) = with_client_timeout x
function_of (set_buffer_size x) = with_buffer_size x
function_of (set_codec_type x) = with_codec_type x
function_of (set_protocol x) = with_protocol x
function_of (set_location x) = with_location x
function_of (set_header_app_version x) = with_header_app_version x
function_of (set_header_group x) = with_header_group x
function_of (set_logger x) = with_logger x
function_of (set_serializer_type_in_wrapper x) = with_serializer_type_in_wrapper x
function_of (set_num_worker x) = with_num_worker x
function_of (set_grpc_max_call_send_message_size x) = with_grpc_max_call_send_message_size x
function_of (set_grpc_max_call_recv_message_size x) = with_grpc_max_call_recv_message_size x
function_of (set_grpc_max_server_send_message_size x) = with_grpc_max_server_send_message_size x
function_of (set_grpc_max_server_recv_message_size x) = with_grpc_max_server_recv_message_size x
function_of (set_grpc_keep_alive_time_interval x) = with_grpc_keep_alive_time_interval x
function_of (set_grpc_keep_alive_timeout x) = with_grpc_keep_alive_timeout x
function_of (set_proxy_mode_enable x) = with_proxy_mode_enable x
function_of (set_jaeger_config address name agent) = with_jaeger_config address name agent

-- What a setting writes to the fields of the option, where it writes to them.
pub record Effects : Type 0 where
  pub timeout : Option ℤ
  pub buffer_size : Option ℕ
  pub codec_type : Option CodecType
  pub protocol : Option String
  pub location : Option String
  pub header_app_version : Option String
  pub header_group : Option String
  pub logger : Option Logger
  pub serializer_type_in_wrapper : Option String
  pub num_workers : Option ℕ
  pub grpc_max_call_send_msg_size : Option ℤ
  pub grpc_max_call_recv_msg_size : Option ℤ
  pub grpc_max_server_send_msg_size : Option ℤ
  pub grpc_max_server_recv_msg_size : Option ℤ
  pub grpc_keep_alive_time : Option ℤ
  pub grpc_keep_alive_timeout : Option ℤ
  pub proxy_mode_enable : Option Bool
  pub jaeger_address : Option String
  pub jaeger_service_name : Option String
  pub jaeger_use_agent : Option Bool

abbrev no_effects : Effects
no_effects = record {
  timeout = none;
  buffer_size = none;
  codec_type = none;
  protocol = none;
  location = none;
  header_app_version = none;
  header_group = none;
  logger = none;
  serializer_type_in_wrapper = none;
  num_workers = none;
  grpc_max_call_send_msg_size = none;
  grpc_max_call_recv_msg_size = none;
  grpc_max_server_send_msg_size = none;
  grpc_max_server_recv_msg_size = none;
  grpc_keep_alive_time = none;
  grpc_keep_alive_timeout = none;
  proxy_mode_enable = none;
  jaeger_address = none;
  jaeger_service_name = none;
  jaeger_use_agent = none;
}

abbrev pub effects : Setting → Effects
effects (set_client_timeout x) = record no_effects { timeout = some x }
effects (set_buffer_size x) = record no_effects { buffer_size = some x }
effects (set_codec_type x) = record no_effects { codec_type = some x }
effects (set_protocol x) = record no_effects { protocol = some x }
effects (set_location x) = record no_effects { location = some x }
effects (set_header_app_version x) = record no_effects { header_app_version = some x }
effects (set_header_group x) = record no_effects { header_group = some x }
effects (set_logger x) = record no_effects { logger = some (wrapper x) }
effects (set_serializer_type_in_wrapper x) = record no_effects {
  serializer_type_in_wrapper = some x;
}
effects (set_num_worker x) = record no_effects { num_workers = some x }
effects (set_grpc_max_call_send_message_size x) = record no_effects {
  grpc_max_call_send_msg_size = some x;
}
effects (set_grpc_max_call_recv_message_size x) = record no_effects {
  grpc_max_call_recv_msg_size = some x;
}
effects (set_grpc_max_server_send_message_size x) = record no_effects {
  grpc_max_server_send_msg_size = some x;
}
effects (set_grpc_max_server_recv_message_size x) = record no_effects {
  grpc_max_server_recv_msg_size = some x;
}
effects (set_grpc_keep_alive_time_interval x) = record no_effects { grpc_keep_alive_time = some x }
effects (set_grpc_keep_alive_timeout x) = record no_effects { grpc_keep_alive_timeout = some x }
effects (set_proxy_mode_enable x) = record no_effects { proxy_mode_enable = some x }
effects (set_jaeger_config address name agent) = record no_effects {
  jaeger_address = some address;
  jaeger_service_name = some name;
  jaeger_use_agent = some agent;
}
