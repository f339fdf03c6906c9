-- ===== src/Tracing/Jaeger.antt =====
-- pkg/tracing/jaeger.go. A tracer is what it was made of; how it samples and sends is Jaeger's.
use triple.Base.{Exit, String, Bool, true}
use triple.Common.Logger.{error, call_logger, LogEntry, Logger}

pub data Sender : Type 0 where
  http_transport udp_transport : String → Sender

-- `&jaegerLogger{Logger: logger}`
pub record JaegerLogger : Type 0 where
  pub logger : Logger

pub record JaegerTracer : Type 0 where
  pub service : String
  pub const_sampler : Bool
  pub sender : Sender
  pub reporter_logger : JaegerLogger

-- `jaegerLogger.Error`
unfoldable pub jaeger_logger_error : JaegerLogger → String → Exit LogEntry
jaeger_logger_error j msg = call_logger j.logger (record { method = error; message = msg })

unfoldable pub new_jaeger_tracer_direct : String → String → Logger → JaegerTracer
new_jaeger_tracer_direct service http_endpoint logger = record {
  service = service;
  const_sampler = true;
  sender = http_transport http_endpoint;
  reporter_logger = record { logger = logger };
}

unfoldable pub new_jaeger_tracer_agent : String → String → Logger → JaegerTracer
new_jaeger_tracer_agent service agent_address logger = record {
  service = service;
  const_sampler = true;
  sender = udp_transport agent_address;
  reporter_logger = record { logger = logger };
}
