-- ===== src/Common/Config/Functions.antt =====
-- The option functions of pkg/config/config.go, in the order of the file.
use triple.Base.{ℕ, String, Bool}
use triple.Base.Int.{ℤ}
use triple.Common.Constant.{CodecType}
use triple.Common.Logger.{Logger, new_logger_wrapper}
use triple.Common.Config.{OptionFunction}

unfoldable pub with_client_timeout : ℤ → OptionFunction
with_client_timeout timeout o = record o { timeout = timeout }

unfoldable pub with_buffer_size : ℕ → OptionFunction
with_buffer_size size o = record o { buffer_size = size }

unfoldable pub with_codec_type : CodecType → OptionFunction
with_codec_type serializer_type o = record o { codec_type = serializer_type }

unfoldable pub with_protocol : String → OptionFunction
with_protocol protocol o = record o { protocol = protocol }

unfoldable pub with_location : String → OptionFunction
with_location location o = record o { location = location }

unfoldable pub with_header_app_version : String → OptionFunction
with_header_app_version app_version o = record o { header_app_version = app_version }

unfoldable pub with_header_group : String → OptionFunction
with_header_group group o = record o { header_group = group }

unfoldable pub with_logger : Logger → OptionFunction
unfolding new_logger_wrapper
with_logger logger o = record o { logger = new_logger_wrapper logger }

unfoldable pub with_serializer_type_in_wrapper : String → OptionFunction
with_serializer_type_in_wrapper name o = record o { serializer_type_in_wrapper = name }

unfoldable pub with_num_worker : ℕ → OptionFunction
with_num_worker num_workers o = record o { num_workers = num_workers }

unfoldable pub with_grpc_max_call_send_message_size : ℤ → OptionFunction
with_grpc_max_call_send_message_size size o = record o { grpc_max_call_send_msg_size = size }

unfoldable pub with_grpc_max_call_recv_message_size : ℤ → OptionFunction
with_grpc_max_call_recv_message_size size o = record o { grpc_max_call_recv_msg_size = size }

unfoldable pub with_grpc_max_server_send_message_size : ℤ → OptionFunction
with_grpc_max_server_send_message_size size o = record o { grpc_max_server_send_msg_size = size }

unfoldable pub with_grpc_max_server_recv_message_size : ℤ → OptionFunction
with_grpc_max_server_recv_message_size size o = record o { grpc_max_server_recv_msg_size = size }

unfoldable pub with_grpc_keep_alive_time_interval : ℤ → OptionFunction
with_grpc_keep_alive_time_interval interval o = record o { grpc_keep_alive_time = interval }

unfoldable pub with_grpc_keep_alive_timeout : ℤ → OptionFunction
with_grpc_keep_alive_timeout timeout o = record o { grpc_keep_alive_timeout = timeout }

unfoldable pub with_jaeger_config : String → String → Bool → OptionFunction
with_jaeger_config address service_name use_agent o = record o {
  jaeger_address = address;
  jaeger_service_name = service_name;
  jaeger_use_agent = use_agent;
}

unfoldable pub with_proxy_mode_enable : Bool → OptionFunction
with_proxy_mode_enable enable o = record o { proxy_mode_enable = enable }
