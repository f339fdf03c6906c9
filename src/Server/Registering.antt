-- ===== src/Server/Registering.antt =====
-- What registering the services of a map does to a gRPC server.
use triple.Base.{
  pure, append-nil, append_assoc, ap, ◌∙◌, sym, if◌then◌else◌, All, nat_eq, inr, inl, Bool-cases,
  bind-returned, Option, length-set, ◌&&◌, get_elem?-set_ne, get_elem?-set_self, is_some, length,
  [], ◌≢◌, ◌==◌, arith, ◌∷◌, ◌++◌, set, returned, true, none, some, ◌>>=◌, ◌≡◌, List, get_elem?, ℕ,
  String, refl,
}
use triple.Server.Environment.{
  register_in, invoke_with_args, Registered, ServiceDesc, GrpcServer, Host, update_server,
}
use triple.Server.Registration.{
  register_services, register_desc, set_reflection, reflection_key, rename_desc, create_grpc_desc,
  Service, register_one,
}
use triple.Base.Dict.{Dict}

-- The entry that a service with the descriptor gets under its key, given the descriptors in memory.
abbrev entry : (ℕ → ServiceDesc) → String → Option ℕ → ℕ → Registered
entry desc_at key (some a) number = record {
  desc = record { service_name = key; handlers = (desc_at a).handlers };
  service = number;
}
entry desc_at key none number = record {
  desc = record { service_name = key; handlers = invoke_with_args number };
  service = number;
}

abbrev pub registered_as : (ℕ → ServiceDesc) → String → Service → Registered
registered_as desc_at key v = entry desc_at key v.grpc_desc v.number

abbrev pub all_registered : (ℕ → ServiceDesc) → Dict Service → List Registered
all_registered desc_at [] = []
all_registered desc_at ((key, v) ∷ m) = registered_as desc_at key v ∷ all_registered desc_at m

-- The handlers are all that an entry takes from the descriptors in memory.
registered_as-cong :
    (key : String) (v : Service) (f g : ℕ → ServiceDesc)
    → ((a : ℕ) → (f a).handlers ≡ (g a).handlers)
    → registered_as f key v ≡ registered_as g key v
registered_as-cong key v f g e = entry-cong v.grpc_desc
  where
    entry-cong : (d : Option ℕ) → entry f key d v.number ≡ entry g key d v.number
    entry-cong none = refl
    entry-cong (some a) = rw (e a) refl

pub all_registered-cong :
    (m : Dict Service) (f g : ℕ → ServiceDesc)
    → ((a : ℕ) → (f a).handlers ≡ (g a).handlers)
    → all_registered f m ≡ all_registered g m
all_registered-cong [] f g e = refl
all_registered-cong ((key, v) ∷ m) f g e =
    rw (registered_as-cong key v f g e, all_registered-cong m f g e) refl

-- The service implements one of the two interfaces, and the reflection service its own.
abbrev pub IsServable : String × Service → Type 0
IsServable (key, v) =
    ((v.grpc_desc ≡ none) → v.is_unary ≡ true)
    × ((key == reflection_key) ≡ true → (is_some v.grpc_desc && v.is_reflect) ≡ true)

module _ {Codec : Type 0} where
  -- Going from `h` to `h'`, the server `i`, which was `s`, has got the entries, and nothing that a
  -- client could see of anything else has changed.
  pub record Registers (h h' : Host Codec) (i : ℕ) (s : GrpcServer Codec) (rs : List Registered)
      : Type 0 where
    pub served : get_elem? h'.servers i ≡ some (record s { services = s.services ++ rs })
    pub others : (j : ℕ) → i ≢ j → get_elem? h'.servers j ≡ get_elem? h.servers j
    pub handlers_kept : (a : ℕ) → (h'.desc_at a).handlers ≡ (h.desc_at a).handlers
    pub listeners_kept : h'.listeners ≡ h.listeners
    pub count_kept : length h'.servers ≡ length h.servers

  pub update_server-found :
      (i : ℕ) (f : GrpcServer Codec → GrpcServer Codec) (h : Host Codec) (s : GrpcServer Codec)
      → get_elem? h.servers i ≡ some s
      → update_server i f h ≡ record h { servers = set h.servers i (f s) }
  unfolding update_server
  update_server-found i f h s e = ground (arith, e)

  -- An update that only adds an entry to the server.
  adds-Registers :
      (h : Host Codec) (i : ℕ) (s : GrpcServer Codec) (r : Registered) (descs : ℕ → ServiceDesc)
      (refl_servers : List (ℕ × ℕ))
      → get_elem? h.servers i ≡ some s
      → ((a : ℕ) → (descs a).handlers ≡ (h.desc_at a).handlers)
      → Registers h
          (record h {
            servers = set h.servers i (register_in r s);
            desc_at = descs;
            reflection_server = refl_servers;
          })
          i
          s
          (r ∷ [])
  adds-Registers h i s r descs refl_servers e k = record {
    served = get_elem?-set_self h.servers i s (register_in r s) e;
    others = λ j ne. get_elem?-set_ne h.servers i j (register_in r s) ne;
    handlers_kept = k;
    listeners_kept = refl;
    count_kept = length-set h.servers i (register_in r s);
  }

  kept_by_rename :
      (a b : ℕ) (h : Host Codec) (key : String)
      → ((rename_desc a key h).desc_at b).handlers ≡ (h.desc_at b).handlers
  unfolding rename_desc
  kept_by_rename a b h key = ground arith

  register_desc-Registers :
      (i : ℕ) (key : String) (v : Service) (d : Option ℕ) (h : Host Codec) (s : GrpcServer Codec)
      → (d ≡ none → v.is_unary ≡ true)
      → get_elem? h.servers i ≡ some s
      → ((register_desc i key v d h).1 ≡ returned tt)
        × Registers h (register_desc i key v d h).0 i s (entry h.desc_at key d v.number ∷ [])
  unfolding register_desc create_grpc_desc rename_desc ◌>>=◌
  register_desc-Registers i key v none h s unary e = rw (unary refl) (
    refl,
    rw (update_server-found i (register_in (entry h.desc_at key none v.number)) h s e) (
        adds-Registers h i s (entry h.desc_at key none v.number) h.desc_at h.reflection_server e
          λ a. refl),
  )
  register_desc-Registers i key v (some a) h s unary e =
      let same : nat_eq a a ≡ true = ground arith in
      let r = entry h.desc_at key (some a) v.number in
      rw (same) (
        refl,
        rw (update_server-found i (register_in r) (rename_desc a key h) s e) (
            adds-Registers h i s r (λ b. if nat_eq b a then r.desc else h.desc_at b)
              h.reflection_server e λ b. kept_by_rename a b h key),
      )

  set_reflection-keeps :
      (i : ℕ) (key : String) (v : Service) (h : Host Codec)
      → ((key == reflection_key) ≡ true → (is_some v.grpc_desc && v.is_reflect) ≡ true)
      → ((set_reflection i key v h).1 ≡ returned tt)
        × ((rs : List (ℕ × ℕ)) × ((set_reflection i key v h).0
              ≡ record h { reflection_server = rs }))
  unfolding set_reflection ◌>>=◌
  set_reflection-keeps i key v h ok = elim (Bool-cases (key == reflection_key)) [
    | inl e ↦ rw (e, ok e) (refl, (_, refl))
    | inr e ↦ rw e (refl, (_, refl))
  ]

  -- Who is told about a server plays no part.
  reflected :
      {h h' : Host Codec} {i : ℕ} {s : GrpcServer Codec} {rs : List Registered}
      (told : List (ℕ × ℕ))
      → Registers h h' i s rs
      → Registers h (record h' { reflection_server = told }) i s rs
  reflected told r = record {
    served = r.served;
    others = r.others;
    handlers_kept = r.handlers_kept;
    listeners_kept = r.listeners_kept;
    count_kept = r.count_kept;
  }

  -- One service under its key, also where its descriptor is shared with another key.
  pub register_one-Registers :
      (i : ℕ) (key : String) (v : Service) (h : Host Codec) (s : GrpcServer Codec)
      → IsServable (key, v)
      → get_elem? h.servers i ≡ some s
      → ((register_one i key v h).1 ≡ returned tt)
        × Registers h (register_one i key v h).0 i s (registered_as h.desc_at key v ∷ [])
  unfolding register_one
  register_one-Registers i key v h s servable e =
      let d = register_desc-Registers i key v v.grpc_desc h s servable.0 e in
      let h1 = (register_desc i key v v.grpc_desc h).0 in
      let r = set_reflection-keeps i key v h1 servable.1 in
      rw (bind-returned (register_desc i key v v.grpc_desc) (λ _. set_reflection i key v) h tt d.0)
        (r.0, rw (r.1.1) (reflected r.1.0 d.1))

  pub Registers-trans :
      {h h' h'' : Host Codec} {i : ℕ} {s : GrpcServer Codec} {rs rs' : List Registered}
      → Registers h h' i s rs
      → Registers h' h'' i (record s { services = s.services ++ rs }) rs'
      → Registers h h'' i s (rs ++ rs')
  Registers-trans {s} {rs} {rs'} p q = record {
    served = q.served ∙ ap (λ r. some (record s { services = r })) (append_assoc s.services rs rs');
    others = λ j ne. q.others j ne ∙ p.others j ne;
    handlers_kept = λ a. q.handlers_kept a ∙ p.handlers_kept a;
    listeners_kept = q.listeners_kept ∙ p.listeners_kept;
    count_kept = q.count_kept ∙ p.count_kept;
  }

  pub Registers-none :
      (h : Host Codec) (i : ℕ) (s : GrpcServer Codec)
      → get_elem? h.servers i ≡ some s
      → Registers h h i s []
  Registers-none h i s e = record {
    served = e ∙ ap (λ r. some (record s { services = r })) (sym (append-nil s.services));
    others = λ j ne. refl;
    handlers_kept = λ a. refl;
    listeners_kept = refl;
    count_kept = refl;
  }

  -- If every service of the map implements what its key needs, then registering the map on a server
  -- that exists returns. The server has then, behind its earlier services, one entry for each key of
  -- the map, in order, with the key as its name and the handlers of the key's own service, also where
  -- several keys share one descriptor; other servers and the listeners are unchanged.
  pub register_services_lem :
      (i : ℕ) (m : Dict Service) (h : Host Codec) (s : GrpcServer Codec)
      → All IsServable m
      → get_elem? h.servers i ≡ some s
      → ((register_services i m h).1 ≡ returned tt)
        × Registers h (register_services i m h).0 i s (all_registered h.desc_at m)
  unfolding register_services pure
  register_services_lem i [] h s ok e = (refl, Registers-none h i s e)
  register_services_lem i ((key, v) ∷ m) h s ok e =
      let one = register_one-Registers i key v h s ok.0 e in
      let h1 = (register_one i key v h).0 in
      let s1 = record s { services = s.services ++ registered_as h.desc_at key v ∷ [] } in
      let rest = register_services_lem i m h1 s1 ok.1 one.1.served in
      rw (bind-returned (register_one i key v) (λ _. register_services i m) h tt one.0) (
        rest.0,
        rw (sym (all_registered-cong m h1.desc_at h.desc_at one.1.handlers_kept))
            (Registers-trans one.1 rest.1),
      )
