-- ===== src/Common/Constant.antt =====
-- pkg/common/constant/constant.go. A `CodecType` is a string type, and a `time.Duration` an int64
-- number of nanoseconds.
use triple.Base.{ℕ, String, ◌*◌}
use triple.Base.Int.{ℤ, pos}

abbrev pub triple_protocol : String
triple_protocol = "tri"

abbrev pub default_http2_controller_read_buffer_size : ℕ
default_http2_controller_read_buffer_size = 4096

abbrev pub default_timeout : ℤ
default_timeout = pos (1000000000 * 3)

abbrev pub default_listening_address : String
default_listening_address = "127.0.0.1:20001"

abbrev pub CodecType : Type 0
CodecType = String

abbrev pub pb_codec_name : CodecType
pb_codec_name = "protobuf"

abbrev pub hessian_codec_name : CodecType
hessian_codec_name = "hessian2"

abbrev pub msg_pack_codec_name : CodecType
msg_pack_codec_name = "msgpack"

abbrev pub default_num_workers : ℕ
default_num_workers = 720

abbrev pub interface_key : String
interface_key = "interface"

-- Keys of contexts.
abbrev pub triple_request_id : String
triple_request_id = "tri-req-id"

abbrev pub triple_service_version : String
triple_service_version = "tri-service-version"
