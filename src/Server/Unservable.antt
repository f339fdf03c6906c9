-- ===== src/Server/Unservable.antt =====
-- What `Start` and `RefreshService` do with a service that does not implement what its key needs.
pub mod Panics
use triple.Base.{
  modify, bind-returned, bind-panicked, get_elem?-set_ne, get_elem?-append_there, ◌∙◌, sym, ap,
  ◌>>=◌, panic, pure, nat_eq, eq_iff, if◌then◌else◌, ◌≢◌, ◌==◌, ◌&&◌, ◌⊎◌, inl, inr, is_some,
  get_elem?, get_elem?-append_last, length, set, Bool-cases, Option, none, some, true, false,
  returned, panicked, Exit, ◌≡◌, ◌++◌, All, Bool, ℕ, String, List, arith, [], ◌∷◌, refl,
}
use triple.Base.Dict.{insert, Dict}
use triple.Common.Codec.{Registry, EncodingLib}
use triple.Common.Logger.{debugf, CanLog}
use triple.Security.{TlsFiles}
use triple.Server.{
  mark_registered, on_host, on_server, start_services, start_on, start, refresh_service, System,
}
use triple.Server.Environment.{update_server, listen, register_in, Listener, GrpcServer, Host}
use triple.Server.Lifecycle.{can_listen, mark_all}
use triple.Server.Options.{new_grpc_server_with_codec}
use triple.Server.Options.Building.{fresh_server, log-returns, new_grpc_server_with_codec-makes}
use triple.Server.Registering.{IsServable, register_one-Registers, registered_as}
use triple.Server.Registration.{
  rename_desc, register_desc, set_reflection, register_one, register_services, reflection_key,
  Service,
}

-- The service implements neither interface, or is not the reflection service that its key says it is.
abbrev pub IsUnservable : String × Service → Type 0
IsUnservable (key, v) =
    ((v.grpc_desc ≡ none) × (v.is_unary ≡ false))
    ⊎ (((key == reflection_key) ≡ true) × ((is_some v.grpc_desc && v.is_reflect) ≡ false))

module _ {Codec : Type 0} where
  -- Going from `h` to `h'`, the listeners and all servers but `i` stay as they are.
  record KeepsOthers (h h' : Host Codec) (i : ℕ) : Type 0 where
    listeners_kept : h'.listeners ≡ h.listeners
    others : (j : ℕ) → i ≢ j → get_elem? h'.servers j ≡ get_elem? h.servers j

  KeepsOthers-refl : (h : Host Codec) (i : ℕ) → KeepsOthers h h i
  KeepsOthers-refl h i = record { listeners_kept = refl; others = λ j ne. refl }

  KeepsOthers-trans :
      {h h' h'' : Host Codec} {i : ℕ}
      → KeepsOthers h h' i
      → KeepsOthers h' h'' i
      → KeepsOthers h h'' i
  KeepsOthers-trans p q = record {
    listeners_kept = q.listeners_kept ∙ p.listeners_kept;
    others = λ j ne. q.others j ne ∙ p.others j ne;
  }

  update_server-KeepsOthers :
      (i : ℕ) (f : GrpcServer Codec → GrpcServer Codec) (h : Host Codec)
      → KeepsOthers h (update_server i f h) i
  unfolding update_server
  update_server-KeepsOthers i f h = go (get_elem? h.servers i)
    where
      go :
          (s : Option (GrpcServer Codec))
          → KeepsOthers h
              (elim s [ some s ↦ record h { servers = set h.servers i (f s) } | none ↦ h ])
              i
      go none = KeepsOthers-refl h i
      go (some s) = record {
        listeners_kept = refl;
        others = λ j ne. get_elem?-set_ne h.servers i j (f s) ne;
      }

  register_desc-KeepsOthers :
      (i : ℕ) (key : String) (v : Service) (d : Option ℕ) (h : Host Codec)
      → KeepsOthers h (register_desc i key v d h).0 i
  unfolding register_desc rename_desc ◌>>=◌
  register_desc-KeepsOthers i key v none h = elim (Bool-cases v.is_unary) [
    | inl e ↦ rw e (update_server-KeepsOthers i _ h)
    | inr e ↦ rw e (KeepsOthers-refl h i)
  ]
  register_desc-KeepsOthers i key v (some a) h =
      KeepsOthers-trans (record { listeners_kept = refl; others = λ j ne. refl })
        (update_server-KeepsOthers i _ (rename_desc a key h))

  -- The exit of the registration is a panic or not.
  register_desc-cases :
      (i : ℕ) (key : String) (v : Service) (d : Option ℕ) (h : Host Codec)
      → ((register_desc i key v d h).1 ≡ returned tt) ⊎ ((register_desc i key v d h).1 ≡ panicked)
  unfolding register_desc ◌>>=◌
  register_desc-cases i key v none h = elim (Bool-cases v.is_unary) [
    | inl e ↦ inl (rw e refl)
    | inr e ↦ inr (rw e refl)
  ]
  register_desc-cases i key v (some a) h = inl refl

  set_reflection-panics :
      (i : ℕ) (key : String) (v : Service) (h : Host Codec)
      → (key == reflection_key) ≡ true
      → (is_some v.grpc_desc && v.is_reflect) ≡ false
      → set_reflection i key v h ≡ (h, panicked)
  unfolding set_reflection panic
  set_reflection-panics i key v h special other = rw (special, other) refl

  register_one-unservable :
      (i : ℕ) (key : String) (v : Service) (h : Host Codec)
      → IsUnservable (key, v)
      → ((register_one i key v h).1 ≡ panicked) × KeepsOthers h (register_one i key v h).0 i
  unfolding register_one
  register_one-unservable i key v h (inl (absent, not_unary)) =
      rw
        (bind-panicked (register_desc i key v v.grpc_desc) (λ u. set_reflection i key v) h
          (unfold register_desc panic in rw (absent, not_unary) refl))
        (refl, register_desc-KeepsOthers i key v v.grpc_desc h)
  register_one-unservable i key v h (inr (special, other)) =
      let kept = register_desc-KeepsOthers i key v v.grpc_desc h in
      elim (register_desc-cases i key v v.grpc_desc h) [
        | inl e ↦
            rw
              (
                bind-returned (register_desc i key v v.grpc_desc) (λ u. set_reflection i key v) h tt
                    e,
                set_reflection-panics i key v (register_desc i key v v.grpc_desc h).0 special other,
              )
              (refl, kept)
        | inr e ↦
            rw (bind-panicked (register_desc i key v v.grpc_desc) (λ u. set_reflection i key v) h e)
              (refl, kept)
      ]

  register_services-unservable :
      (i : ℕ) (before rest : Dict Service) (key : String) (v : Service) (h : Host Codec)
      (s : GrpcServer Codec)
      → All IsServable before
      → IsUnservable (key, v)
      → get_elem? h.servers i ≡ some s
      → ((register_services i (before ++ (key, v) ∷ rest) h).1 ≡ panicked)
        × KeepsOthers h (register_services i (before ++ (key, v) ∷ rest) h).0 i
  unfolding register_services
  register_services-unservable i [] rest key v h s ok bad there =
      let (e, kept) = register_one-unservable i key v h bad in
      rw (bind-panicked (register_one i key v) (λ u. register_services i rest) h e) (refl, kept)
  register_services-unservable i ((k, u) ∷ before) rest key v h s ok bad there =
      let one = register_one-Registers i k u h s ok.0 there in
      let first : KeepsOthers h (register_one i k u h).0 i = record {
        listeners_kept = one.1.listeners_kept;
        others = one.1.others;
      } in
      let (e, kept) =
        register_services-unservable i before rest key v (register_one i k u h).0 _ ok.1 bad
          one.1.served in
      rw
        (bind-returned (register_one i k u) (λ x. register_services i (before ++ (key, v) ∷ rest)) h
          tt one.0)
        (e, KeepsOthers-trans first kept)

  -- The same in `Start`, which marks the keys on its way.
  start_services-unservable :
      (i : ℕ) (before rest : Dict Service) (key : String) (v : Service) (y : System Codec)
      (s : GrpcServer Codec)
      → All IsServable before
      → IsUnservable (key, v)
      → get_elem? y.host.servers i ≡ some s
      → let run = start_services i (before ++ (key, v) ∷ rest) y in
        (run.1 ≡ panicked)
        × KeepsOthers y.host run.0.host i
        × (run.0.server ≡ record y.server {
          registered_key = mark_all (before ++ (key, v) ∷ []) y.server.registered_key;
        })
  unfolding start_services on_host modify mark_registered ◌>>=◌
  start_services-unservable i [] rest key v y s ok bad there =
      let (e, kept) = register_one-unservable i key v y.host bad in rw e (refl, kept, refl)
  start_services-unservable i ((k, u) ∷ before) rest key v y s ok bad there =
      let one = register_one-Registers i k u y.host s ok.0 there in
      let first : KeepsOthers y.host (register_one i k u y.host).0 i = record {
        listeners_kept = one.1.listeners_kept;
        others = one.1.others;
      } in
      let (e, kept, marks) =
        start_services-unservable i before rest key v
          (record (on_server (mark_registered k) y) { host = (register_one i k u y.host).0 }) _ ok.1
          bad one.1.served in
      rw (one.0) (e, KeepsOthers-trans first kept, marks)
