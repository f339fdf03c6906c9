-- ===== src/Server/Registration.antt =====
-- How `TripleServer.Start` and `RefreshService` register the services of the map
-- (pkg/triple/dubbo3_server.go).
use triple.Base.{
  [], ◌∷◌, none, ◌&&◌, panic, gets, is_some, ◌==◌, ◌>>=◌, nat_eq, if◌then◌else◌, some, pure, Bool,
  ◌>>◌, modify, M, Option, ℕ, String,
}
use triple.Server.Environment.{register_in, update_server, invoke_with_args, Host, ServiceDesc}
use triple.Base.Dict.{Dict}

-- A value of the service map, by the interfaces that it implements: `TripleGrpcService` with the
-- address of the descriptor that `XXX_ServiceDesc` returns, `TripleUnaryService`, and
-- `TripleGrpcReflectService`.
pub record Service : Type 0 where
  pub number : ℕ
  pub grpc_desc : Option ℕ
  pub is_unary : Bool
  pub is_reflect : Bool

abbrev pub reflection_key : String
reflection_key = "grpc.reflection.v1alpha.ServerReflection"

-- The descriptor that `createGrpcDesc` makes.
unfoldable pub create_grpc_desc : String → ℕ → ServiceDesc
create_grpc_desc service_name service = record {
  service_name = service_name;
  handlers = invoke_with_args service;
}

module _ {Codec : Type 0} where
  -- `desc.ServiceName = key` writes to the descriptor in memory.
  unfoldable pub rename_desc : ℕ → String → Host Codec → Host Codec
  rename_desc a key h = record h {
    desc_at = λ b. if nat_eq b a then record (h.desc_at a) { service_name = key } else h.desc_at b;
  }

  -- `grpcServer.RegisterService(desc, value)`
  unfoldable pub register_service : ℕ → ServiceDesc → ℕ → M (Host Codec) (Unit {0})
  register_service server desc service =
      modify (update_server server (register_in (record { desc = desc; service = service })))

  unfoldable pub register_desc : ℕ → String → Service → Option ℕ → M (Host Codec) (Unit {0})
  unfolding register_service
  register_desc server key value (some a) = do
    modify (rename_desc a key)
    desc ← gets (λ h. h.desc_at a)
    register_service server desc value.number
  register_desc server key value none =
      if value.is_unary
      then register_service server (create_grpc_desc key value.number) value.number
      else panic

  -- The reflection service is told its server; a service that is not one panics.
  unfoldable pub set_reflection : ℕ → String → Service → M (Host Codec) (Unit {0})
  set_reflection server key value =
      if key == reflection_key
      then (if is_some value.grpc_desc && value.is_reflect
          then modify
              (λ h. record h { reflection_server = (value.number, server) ∷ h.reflection_server })
          else panic)
      else pure tt

  -- One round of the `Range` callback, but for `registeredKey`.
  unfoldable pub register_one : ℕ → String → Service → M (Host Codec) (Unit {0})
  unfolding register_desc set_reflection
  register_one server key value = do
    register_desc server key value value.grpc_desc
    set_reflection server key value

  unfoldable pub register_services : ℕ → Dict Service → M (Host Codec) (Unit {0})
  register_services server [] = pure tt
  register_services server ((key, value) ∷ m) = do
    register_one server key value
    register_services server m
