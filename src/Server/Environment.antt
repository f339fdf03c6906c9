-- ===== src/Server/Environment.antt =====
-- The process round a `TripleServer`: listeners, gRPC servers, the service descriptors in memory and
-- what has been logged. `net.Listen` is the operating system's: it fails on an address that an open
-- listener holds, and else as `binds` says. An address is one with a fixed port: with port 0, for which
-- the system picks a free port at each call, `net.Listen` would not fail.
use triple.Base.{
  none, length, count_if, ◌==◌, false, returned, set, nat_eq, if◌then◌else◌, ◌&&◌, panicked, some,
  [], ◌∷◌, Bool, M, get_elem?, ◌++◌, true, ℕ, Option, List, String,
}
use triple.Tracing.Jaeger.{JaegerTracer}
use triple.Common.Logger.{call_logger, Method, LogEntry, Logger}
use triple.Base.Int.{ℤ}
use triple.Security.{Credentials}

-- The options of `grpc.NewServer`.
pub data ServerOption (Codec : Type 0) : Type 0 where
  unary_interceptor stream_interceptor : JaegerTracer → ServerOption Codec
  max_recv_msg_size max_send_msg_size : ℤ → ServerOption Codec
  proxy_mode_enable : Bool → ServerOption Codec
  creds : Credentials → ServerOption Codec
  force_server_codec : Codec → ServerOption Codec

-- Who answers the calls of a service: generated code, or the handler `InvokeWithArgs` over the
-- service of that number.
pub data Handlers : Type 0 where
  generated invoke_with_args : ℕ → Handlers

-- grpc.ServiceDesc
pub record ServiceDesc : Type 0 where
  pub service_name : String
  pub handlers : Handlers

-- What `RegisterService` keeps: a copy of the descriptor as it is at the call, and the service.
pub record Registered : Type 0 where
  pub desc : ServiceDesc
  pub service : ℕ

pub record GrpcServer (Codec : Type 0) : Type 0 where
  pub options : List (ServerOption Codec)
  pub services : List Registered
  pub stopped : Bool
  pub serving : List (Option ℕ)

pub record Listener : Type 0 where
  pub address : String
  pub is_open : Bool

-- Listeners and servers are numbered in the order in which they are made.
pub record Host (Codec : Type 0) : Type 0 where
  pub listeners : List Listener
  pub servers : List (GrpcServer Codec)
  pub desc_at : ℕ → ServiceDesc
  pub reflection_server : List (ℕ × ℕ)
  pub logs : List LogEntry
  pub stdout : List String

abbrev pub is_open_at : String → Listener → Bool
is_open_at address l = l.is_open && l.address == address

unfoldable pub close_listener : ℕ → List Listener → List Listener
close_listener i ls = elim (get_elem? ls i) [
  | some l ↦ set ls i (record l { is_open = false })
  | none ↦ ls
]

module _ {Codec : Type 0} where
  -- A call of the option's logger.
  unfoldable pub log : Logger → Method → String → M (Host Codec) (Unit {0})
  log l method message h = elim (call_logger l (record { method = method; message = message })) [
    | returned entry ↦ (record h { logs = entry ∷ h.logs }, returned tt)
    | panicked ↦ (h, panicked)
  ]

  unfoldable pub listen : (String → Bool) → String → M (Host Codec) (Option ℕ)
  listen binds address h =
      if binds address && nat_eq (count_if (is_open_at address) h.listeners) 0
      then (
        record h { listeners = h.listeners ++ record { address = address; is_open = true } ∷ [] },
        returned (some (length h.listeners)),
      )
      else (h, returned none)

  -- `lst.Close()`, and a panic on a nil listener.
  unfoldable pub close : Option ℕ → M (Host Codec) (Unit {0})
  unfolding close_listener
  close none h = (h, panicked)
  close (some i) h = (record h { listeners = close_listener i h.listeners }, returned tt)

  unfoldable pub new_server : List (ServerOption Codec) → M (Host Codec) ℕ
  new_server options h = (
    record h {
      servers =
          h.servers
          ++ record { options = options; services = []; stopped = false; serving = [] } ∷ [];
    },
    returned (length h.servers),
  )

  unfoldable pub update_server : ℕ → (GrpcServer Codec → GrpcServer Codec) → Host Codec → Host Codec
  update_server i f h = elim (get_elem? h.servers i) [
    | some s ↦ record h { servers = set h.servers i (f s) }
    | none ↦ h
  ]

  abbrev pub register_in : Registered → GrpcServer Codec → GrpcServer Codec
  register_in r s = record s { services = s.services ++ r ∷ [] }

  -- `go grpcServer.Serve(lst)`
  abbrev pub serve_in : Option ℕ → GrpcServer Codec → GrpcServer Codec
  serve_in lst s = record s { serving = s.serving ++ lst ∷ [] }

  abbrev pub stop_in : GrpcServer Codec → GrpcServer Codec
  stop_in s = record s { stopped = true }
