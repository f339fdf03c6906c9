-- ===== src/Tracing.antt =====
-- pkg/tracing: the interceptors that put a span round each call.
pub mod World
pub mod ErrorClass
pub mod Metadata
pub mod Jaeger
pub mod Options
pub mod Span
pub mod Starts
pub mod Unary
pub mod Stream
