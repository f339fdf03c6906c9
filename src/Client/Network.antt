-- ===== src/Client/Network.antt =====
-- The process round a client, and what the client asks of grpc-go. `S` is the state of the network
-- and of whatever else the calls reach.
use triple.Base.{panicked, returned, M, Bool, ◌∷◌, Option, String, ◌-◌, ◌+◌, ℕ, List}
use triple.Base.Int.{ℤ}
use triple.Common.Context.{Context, Md}
use triple.Tracing.Jaeger.{JaegerTracer}
use triple.Common.Logger.{call_logger, Method, LogEntry, Logger}
use triple.Security.{Credentials}
use triple.Common.Error.{Err, Value}

pub data SizeOption : Type 0 where
  max_call_send_msg_size max_call_recv_msg_size : ℤ → SizeOption

-- The options of a dial. A tracer stands for the pair of its interceptors.
pub data DialOption : Type 0 where
  with_unary_interceptor with_stream_interceptor : JaegerTracer → DialOption
  with_transport_credentials : Credentials → DialOption
  with_default_call_options : List SizeOption → DialOption
  with_keepalive_params : ℤ → ℤ → Bool → DialOption

-- The timers of `context.WithTimeout` that nobody has cancelled are counted.
pub record Net (S : Type 0) : Type 0 where
  pub world : S
  pub logs : List LogEntry
  pub live_timers : ℕ
  pub closed_conns : List ℕ

-- What `ClientConn.Invoke` of the fork returns.
pub record Reply : Type 0 where
  pub trailer : Md
  pub err : Option Err

-- An argument of a call: its context, or a value.
pub data Arg : Type 0 where
  context : Context → Arg
  value : Value → Arg

-- The grpc-go fork: `DialContext` with the timeout of its context, and `NewClientStream` and
-- `ClientConn.Invoke` on a connection that may be nil. Streams are numbered. Any call may panic.
pub record GrpcLib (S Codec : Type 0) : Type 0 where
  pub dial_context : ℤ → String → List DialOption → M (Net S) (Option ℕ × Option Err)
  pub new_client_stream : Option ℕ → Context → String → M (Net S) (Option ℕ × Option Err)
  pub invoke : Option ℕ → Context → ℤ → String → List Arg → Value → List Codec → M (Net S) Reply

module _ {S : Type 0} where
  unfoldable pub with_timeout : Net S → Net S
  with_timeout n = record n { live_timers = n.live_timers + 1 }

  unfoldable pub cancel : Net S → Net S
  cancel n = record n { live_timers = n.live_timers - 1 }

  unfoldable pub log_call : Logger → Method → String → M (Net S) (Unit {0})
  log_call l method message n =
      elim (call_logger l (record { method = method; message = message })) [
        | returned entry ↦ (record n { logs = entry ∷ n.logs }, returned tt)
        | panicked ↦ (n, panicked)
      ]

  unfoldable pub close_conn : ℕ → Net S → Net S
  close_conn c n = record n { closed_conns = c ∷ n.closed_conns }
