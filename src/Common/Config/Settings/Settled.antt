-- ===== src/Common/Config/Settings/Settled.antt =====
-- The option that a list of settings makes, field by field.
use triple.Common.Config.Settings.{
  set_buffer_size, set_client_timeout, set_codec_type, set_grpc_keep_alive_time_interval,
  set_grpc_keep_alive_timeout, set_grpc_max_call_recv_message_size,
  set_grpc_max_call_send_message_size, set_grpc_max_server_recv_message_size,
  set_grpc_max_server_send_message_size, set_header_app_version, set_header_group,
  set_jaeger_config, set_location, set_logger, set_num_worker, set_protocol, set_proxy_mode_enable,
  set_serializer_type_in_wrapper, effects, Effects, Setting, function_of,
}
use triple.Base.{
  false, ◌==◌, nat_eq, ◌∙◌, ap, ◌≡◌, none, map, some, if◌then◌else◌, Bool, List, Option, [], ◌∷◌,
  refl,
}
use triple.Common.Config.{validate, zero_option, TripleOption, apply_functions, new_triple_option}
use triple.Common.Config.Functions.{
  with_jaeger_config, with_proxy_mode_enable, with_grpc_keep_alive_timeout,
  with_grpc_keep_alive_time_interval, with_grpc_max_server_recv_message_size,
  with_grpc_max_server_send_message_size, with_grpc_max_call_recv_message_size,
  with_grpc_max_call_send_message_size, with_num_worker, with_serializer_type_in_wrapper,
  with_logger, with_header_group, with_header_app_version, with_location, with_protocol,
  with_codec_type, with_buffer_size, with_client_timeout,
}
use triple.Base.Int.{pos, is_zero}
use triple.Common.Constant.{
  default_num_workers, default_listening_address, triple_protocol, pb_codec_name,
  default_http2_controller_read_buffer_size, default_timeout,
}
use triple.Common.Logger.{
  new_logger_wrapper, nil_logger, default_logger, is_nil, get_default_logger,
}

abbrev value_or : {F : Type 0} → F → Option F → F
value_or v none = v
value_or v (some w) = w

-- A value that passes the test for empty is replaced.
abbrev default_if : {F : Type 0} → (F → Bool) → F → F → F
default_if is_empty d v = if is_empty v then d else v

-- The value of the last setting that writes one, or the old value.
abbrev pub last_of : {F : Type 0} → (Effects → Option F) → List Setting → F → F
last_of field [] v = v
last_of field (s ∷ ss) v = last_of field ss (value_or v (field (effects s)))

-- The option after the settings.
abbrev overridden : List Setting → TripleOption → TripleOption
overridden ss o = record o {
  timeout = last_of (λ e. e.timeout) ss o.timeout;
  buffer_size = last_of (λ e. e.buffer_size) ss o.buffer_size;
  codec_type = last_of (λ e. e.codec_type) ss o.codec_type;
  protocol = last_of (λ e. e.protocol) ss o.protocol;
  location = last_of (λ e. e.location) ss o.location;
  header_app_version = last_of (λ e. e.header_app_version) ss o.header_app_version;
  header_group = last_of (λ e. e.header_group) ss o.header_group;
  logger = last_of (λ e. e.logger) ss o.logger;
  serializer_type_in_wrapper =
      last_of (λ e. e.serializer_type_in_wrapper) ss o.serializer_type_in_wrapper;
  num_workers = last_of (λ e. e.num_workers) ss o.num_workers;
  grpc_max_call_send_msg_size =
      last_of (λ e. e.grpc_max_call_send_msg_size) ss o.grpc_max_call_send_msg_size;
  grpc_max_call_recv_msg_size =
      last_of (λ e. e.grpc_max_call_recv_msg_size) ss o.grpc_max_call_recv_msg_size;
  grpc_max_server_send_msg_size =
      last_of (λ e. e.grpc_max_server_send_msg_size) ss o.grpc_max_server_send_msg_size;
  grpc_max_server_recv_msg_size =
      last_of (λ e. e.grpc_max_server_recv_msg_size) ss o.grpc_max_server_recv_msg_size;
  grpc_keep_alive_time = last_of (λ e. e.grpc_keep_alive_time) ss o.grpc_keep_alive_time;
  grpc_keep_alive_timeout = last_of (λ e. e.grpc_keep_alive_timeout) ss o.grpc_keep_alive_timeout;
  proxy_mode_enable = last_of (λ e. e.proxy_mode_enable) ss o.proxy_mode_enable;
  jaeger_address = last_of (λ e. e.jaeger_address) ss o.jaeger_address;
  jaeger_service_name = last_of (λ e. e.jaeger_service_name) ss o.jaeger_service_name;
  jaeger_use_agent = last_of (λ e. e.jaeger_use_agent) ss o.jaeger_use_agent;
}

function_of-effects : (s : Setting) (o : TripleOption) → function_of s o ≡ overridden (s ∷ []) o
unfolding function_of with_client_timeout with_buffer_size with_codec_type with_protocol
    with_location with_header_app_version with_header_group with_logger
    with_serializer_type_in_wrapper with_num_worker with_grpc_max_call_send_message_size
    with_grpc_max_call_recv_message_size with_grpc_max_server_send_message_size
    with_grpc_max_server_recv_message_size with_grpc_keep_alive_time_interval
    with_grpc_keep_alive_timeout with_proxy_mode_enable with_jaeger_config new_logger_wrapper
function_of-effects (set_client_timeout x) o = refl
function_of-effects (set_buffer_size x) o = refl
function_of-effects (set_codec_type x) o = refl
function_of-effects (set_protocol x) o = refl
function_of-effects (set_location x) o = refl
function_of-effects (set_header_app_version x) o = refl
function_of-effects (set_header_group x) o = refl
function_of-effects (set_logger x) o = refl
function_of-effects (set_serializer_type_in_wrapper x) o = refl
function_of-effects (set_num_worker x) o = refl
function_of-effects (set_grpc_max_call_send_message_size x) o = refl
function_of-effects (set_grpc_max_call_recv_message_size x) o = refl
function_of-effects (set_grpc_max_server_send_message_size x) o = refl
function_of-effects (set_grpc_max_server_recv_message_size x) o = refl
function_of-effects (set_grpc_keep_alive_time_interval x) o = refl
function_of-effects (set_grpc_keep_alive_timeout x) o = refl
function_of-effects (set_proxy_mode_enable x) o = refl
function_of-effects (set_jaeger_config address name agent) o = refl

apply_functions-overridden :
    (ss : List Setting) (o : TripleOption)
    → apply_functions (map function_of ss) o ≡ overridden ss o
unfolding apply_functions
apply_functions-overridden [] o = refl
apply_functions-overridden (s ∷ ss) o =
    apply_functions-overridden ss (function_of s o) ∙ ap (overridden ss) (function_of-effects s o)

-- Each field is, by itself, what the last setting for it wrote, or its default where that is empty or
-- there is none; the fields of TLS have no option function.
abbrev pub settled : List Setting → TripleOption
settled ss = record {
  timeout = default_if is_zero default_timeout (last_of (λ e. e.timeout) ss (pos 0));
  buffer_size =
      default_if (λ n. nat_eq n 0) default_http2_controller_read_buffer_size
        (last_of (λ e. e.buffer_size) ss 0);
  codec_type = default_if (λ t. t == "") pb_codec_name (last_of (λ e. e.codec_type) ss "");
  protocol = default_if (λ t. t == "") triple_protocol (last_of (λ e. e.protocol) ss "");
  location = default_if (λ t. t == "") default_listening_address (last_of (λ e. e.location) ss "");
  header_app_version = last_of (λ e. e.header_app_version) ss "";
  header_group = last_of (λ e. e.header_group) ss "";
  logger = default_if is_nil default_logger (last_of (λ e. e.logger) ss nil_logger);
  serializer_type_in_wrapper = last_of (λ e. e.serializer_type_in_wrapper) ss "";
  num_workers =
      default_if (λ n. nat_eq n 0) default_num_workers (last_of (λ e. e.num_workers) ss 0);
  grpc_max_call_send_msg_size = last_of (λ e. e.grpc_max_call_send_msg_size) ss (pos 0);
  grpc_max_call_recv_msg_size = last_of (λ e. e.grpc_max_call_recv_msg_size) ss (pos 0);
  grpc_max_server_send_msg_size = last_of (λ e. e.grpc_max_server_send_msg_size) ss (pos 0);
  grpc_max_server_recv_msg_size = last_of (λ e. e.grpc_max_server_recv_msg_size) ss (pos 0);
  grpc_keep_alive_time = last_of (λ e. e.grpc_keep_alive_time) ss (pos 0);
  grpc_keep_alive_timeout = last_of (λ e. e.grpc_keep_alive_timeout) ss (pos 0);
  proxy_mode_enable = last_of (λ e. e.proxy_mode_enable) ss false;
  jaeger_address = last_of (λ e. e.jaeger_address) ss "";
  jaeger_service_name = last_of (λ e. e.jaeger_service_name) ss "";
  jaeger_use_agent = last_of (λ e. e.jaeger_use_agent) ss false;
  ca_cert_file = "";
  tls_cert_file = "";
  tls_key_file = "";
  tls_server_name = "";
}

-- `NewTripleOption` with any calls of option functions, in any number and order, makes the option
-- whose every field is what the last call for that field gave, or the field's default where it gave the
-- empty value or there was no such call. So calls for other fields never matter.
pub new_triple_option_lem :
    (ss : List Setting) → new_triple_option (map function_of ss) ≡ settled ss
unfolding new_triple_option zero_option validate get_default_logger
new_triple_option_lem ss = ap validate (apply_functions-overridden ss zero_option)
