-- ===== src/Common/DefaultLogger.antt =====
-- pkg/common/logger/default_logger/default_logger.go: the configuration of the zap logger that is used
-- where the user gives none.
use triple.Base.{List, String, false, Bool, [], ◌∷◌}

-- The functions of zapcore that encode a field, and the levels, by the names that the source takes.
pub data Encoder : Type 0 where
  capital_color_level_encoder iso8601_time_encoder seconds_duration_encoder : Encoder
  short_caller_encoder : Encoder

pub data Level : Type 0 where
  debug_level info_level warn_level error_level : Level

-- zapcore.EncoderConfig
pub record EncoderConfig : Type 0 where
  pub time_key : String
  pub level_key : String
  pub name_key : String
  pub caller_key : String
  pub message_key : String
  pub stacktrace_key : String
  pub encode_level : Encoder
  pub encode_time : Encoder
  pub encode_duration : Encoder
  pub encode_caller : Encoder

-- zap.Config
pub record ZapConfig : Type 0 where
  pub level : Level
  pub development : Bool
  pub encoding : String
  pub encoder_config : EncoderConfig
  pub output_paths : List String
  pub error_output_paths : List String

abbrev zap_logger_encoder_config : EncoderConfig
zap_logger_encoder_config = record {
  time_key = "time";
  level_key = "level";
  name_key = "logger";
  caller_key = "caller";
  message_key = "message";
  stacktrace_key = "stacktrace";
  encode_level = capital_color_level_encoder;
  encode_time = iso8601_time_encoder;
  encode_duration = seconds_duration_encoder;
  encode_caller = short_caller_encoder;
}

abbrev pub zap_logger_config : ZapConfig
zap_logger_config = record {
  level = debug_level;
  development = false;
  encoding = "console";
  encoder_config = zap_logger_encoder_config;
  output_paths = "stderr" ∷ [];
  error_output_paths = "stderr" ∷ [];
}
