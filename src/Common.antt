-- ===== src/Common.antt =====
-- pkg/common (constant, logger, codec.go, service.go) and pkg/config.
pub mod Constant
pub mod DefaultLogger
pub mod Logger
pub mod Error
pub mod Context
pub mod Config
pub mod Attachment
pub mod Codec
