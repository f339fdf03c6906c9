-- ===== src/Server/Options/Wanted.antt =====
-- Which options a server is made with, one by one.
use triple.Server.Options.{tracing_options, size_options, proxy_options}
use triple.Base.{
  in_fifth, in_fourth, in_third, Segment-Has, in_second, Segment, in_first, Bool, Has-right, ap,
  All-append, Has-left, Has, eq_iff, arith, zero, Bool-cases, suc, false, ℕ, All, if◌then◌else◌,
  ◌==◌, none, some, true, ◌≢◌, inl, inr, ◌⊎◌, ◌≡◌, ◌++◌, List, [], ◌∷◌, refl,
}
use triple.Security.{Credentials, Creds, insecure, get_server_tls_certificate, TlsFiles}
use triple.Common.Codec.{Registry, EncodingLib}
use triple.Common.Config.{TripleOption}
use triple.Server.Environment.{
  force_server_codec, creds, proxy_mode_enable, max_send_msg_size, max_recv_msg_size,
  stream_interceptor, unary_interceptor, ServerOption,
}
use triple.Tracing.Jaeger.{new_jaeger_tracer_direct, JaegerTracer}
use triple.Client.Calls.{client_codec}
use triple.Common.Error.{failure, success}
use triple.Base.Int.{is_zero, negsuc, ℤ, pos}
use triple.Common.Constant.{pb_codec_name}
use triple.Server.Options.Building.Agreement.{wrapped}

pos-suc_ne : (n : ℕ) → pos (suc n) ≢ pos 0
pos-suc_ne n e = cc

negsuc_ne : (n : ℕ) → negsuc n ≢ pos 0
negsuc_ne n e = cc

module _ {Codec : Type 0} (files : TlsFiles) (lib : EncodingLib Codec) (registry : Registry Codec)
    (opt : TripleOption) where
  -- The tracer of a server does not ask whether the address is an agent's.
  abbrev tracer : JaegerTracer
  tracer = new_jaeger_tracer_direct opt.jaeger_service_name opt.jaeger_address opt.logger

  -- The codec of the option, or the nil one where nobody registered it.
  abbrev pub server_codec : Codec
  server_codec = elim (client_codec lib registry opt.codec_type) [
    | success c ↦ c
    | failure err ↦ lib.nil_codec
  ]

  -- What each option needs.
  abbrev pub IsWanted : ServerOption Codec → Type 0
  IsWanted (unary_interceptor t) = (opt.jaeger_address ≢ "") × (t ≡ tracer)
  IsWanted (stream_interceptor t) = (opt.jaeger_address ≢ "") × (t ≡ tracer)
  IsWanted (max_recv_msg_size n) =
      (opt.grpc_max_server_recv_msg_size ≢ pos 0) × (n ≡ opt.grpc_max_server_recv_msg_size)
  IsWanted (max_send_msg_size n) =
      (opt.grpc_max_call_send_msg_size ≢ pos 0) × (n ≡ opt.grpc_max_call_send_msg_size)
  IsWanted (proxy_mode_enable b) = (opt.proxy_mode_enable ≡ true) × (b ≡ true)
  IsWanted (creds c) =
      (get_server_tls_certificate files opt ≡ (some c, none))
      ⊎ ((get_server_tls_certificate files opt ≡ (none, none)) × (c ≡ insecure))
  IsWanted (force_server_codec c) =
      (opt.codec_type ≢ pb_codec_name) × (c ≡ wrapped lib opt.codec_type server_codec)

  tracing-All : All IsWanted (tracing_options files lib registry opt)
  unfolding tracing_options
  tracing-All = elim (Bool-cases (opt.jaeger_address == "")) [
    | inl e ↦ rw e tt
    | inr e ↦
        (let ne : opt.jaeger_address ≢ "" = ground (arith, eq_iff opt.jaeger_address "", e) in
          rw e ((ne, refl), ((ne, refl), tt)))
  ]

  tracing-Has :
      (o : ServerOption Codec)
      → opt.jaeger_address ≢ ""
      → (o ≡ unary_interceptor tracer) ⊎ (o ≡ stream_interceptor tracer)
      → Has o (tracing_options files lib registry opt)
  unfolding tracing_options
  tracing-Has o ne which =
      let other : (opt.jaeger_address == "") ≡ false =
        ground (arith, eq_iff opt.jaeger_address "") in
      rw other (elim which [ inl e ↦ inl e | inr e ↦ inr (inl e) ])

  size_list : (ℤ → ServerOption Codec) → ℤ → List (ServerOption Codec)
  size_list f n = if is_zero n then [] else f n ∷ []

  size_list-All :
      (f : ℤ → ServerOption Codec) (n : ℤ)
      → (n ≢ pos 0 → IsWanted (f n))
      → All IsWanted (size_list f n)
  unfolding size_list
  size_list-All f (pos zero) w = tt
  size_list-All f (pos (suc n)) w = (w (pos-suc_ne n), tt)
  size_list-All f (negsuc n) w = (w (negsuc_ne n), tt)

  size_list-Has : (f : ℤ → ServerOption Codec) (n : ℤ) → n ≢ pos 0 → Has (f n) (size_list f n)
  unfolding size_list
  size_list-Has f (pos zero) ne = absurd (ne refl)
  size_list-Has f (pos (suc n)) ne = inl refl
  size_list-Has f (negsuc n) ne = inl refl

  proxy-All : All IsWanted (proxy_options files lib registry opt)
  unfolding proxy_options
  proxy-All = elim (Bool-cases opt.proxy_mode_enable) [
    | inl e ↦ rw e ((refl, refl), tt)
    | inr e ↦ rw e tt
  ]

  unfoldable pub creds_of : Creds → List (ServerOption Codec)
  creds_of (c, some err) = []
  creds_of (some c, none) = creds c ∷ []
  creds_of (none, none) = creds insecure ∷ []

  creds_of-All : (c : Creds) → get_server_tls_certificate files opt ≡ c → All IsWanted (creds_of c)
  unfolding creds_of
  creds_of-All (c, some err) e = tt
  creds_of-All (some c, none) e = (inl e, tt)
  creds_of-All (none, none) e = (inr (e, refl), tt)

  unfoldable pub codec_of : List (ServerOption Codec)
  codec_of =
      if opt.codec_type == pb_codec_name
      then []
      else force_server_codec (wrapped lib opt.codec_type server_codec) ∷ []

  codec_of-All : All IsWanted codec_of
  unfolding codec_of
  codec_of-All = elim (Bool-cases (opt.codec_type == pb_codec_name)) [
    | inl e ↦ rw e tt
    | inr e ↦ rw e ((ground (arith, eq_iff opt.codec_type pb_codec_name, e), refl), tt)
  ]

  -- The options, in their order.
  unfoldable pub wanted_options : List (ServerOption Codec)
  unfolding tracing_options size_options proxy_options
  wanted_options =
      tracing_options files lib registry opt
      ++ size_options files lib registry opt
      ++ proxy_options files lib registry opt
      ++ creds_of (get_server_tls_certificate files opt)
      ++ codec_of

  pub wanted_options-All : All IsWanted wanted_options
  unfolding wanted_options size_options size_list
  wanted_options-All =
      All-append IsWanted _ _
        (All-append IsWanted _ _
          (All-append IsWanted _ _
            (All-append IsWanted _ _ tracing-All (
              All-append IsWanted _ _
                (size_list-All max_recv_msg_size opt.grpc_max_server_recv_msg_size λ ne. (ne, refl))
                (size_list-All max_send_msg_size opt.grpc_max_call_send_msg_size λ ne. (ne, refl))))
            proxy-All)
          (creds_of-All (get_server_tls_certificate files opt) refl))
        codec_of-All

  size-Has :
      (o : ServerOption Codec)
      → Has o (size_list max_recv_msg_size opt.grpc_max_server_recv_msg_size)
        ⊎ Has o (size_list max_send_msg_size opt.grpc_max_call_send_msg_size)
      → Has o (size_options files lib registry opt)
  unfolding size_options size_list
  size-Has o (inl h) = Has-left o _ _ h
  size-Has o (inr h) = Has-right o _ _ h

  creds_of-Has :
      (c : Credentials)
      → IsWanted (creds c)
      → Has (creds c) (creds_of (get_server_tls_certificate files opt))
  unfolding creds_of
  creds_of-Has c (inl e) = rw e (inl refl)
  creds_of-Has c (inr (e, same)) = rw (e, same) (inl refl)

  codec_of-Has : (c : Codec) → IsWanted (force_server_codec c) → Has (force_server_codec c) codec_of
  unfolding codec_of
  codec_of-Has c (ne, same) =
      let other : (opt.codec_type == pb_codec_name) ≡ false =
        ground (arith, eq_iff opt.codec_type pb_codec_name) in
      rw (other, same) (inl refl)

  proxy-Has :
      (b : Bool)
      → IsWanted (proxy_mode_enable b)
      → Has (proxy_mode_enable b) (proxy_options files lib registry opt)
  unfolding proxy_options
  proxy-Has b (on, same) = rw (on, same) (inl refl)

  recv-Has :
      (n : ℤ)
      → IsWanted (max_recv_msg_size n)
      → Has (max_recv_msg_size n) (size_options files lib registry opt)
  recv-Has n (ne, same) = size-Has _ (inl (rw same (size_list-Has max_recv_msg_size _ ne)))

  send-Has :
      (n : ℤ)
      → IsWanted (max_send_msg_size n)
      → Has (max_send_msg_size n) (size_options files lib registry opt)
  send-Has n (ne, same) = size-Has _ (inr (rw same (size_list-Has max_send_msg_size _ ne)))

  wanted_options-Segment :
      (o : ServerOption Codec)
      → Segment o
          (tracing_options files lib registry opt)
          (size_options files lib registry opt)
          (proxy_options files lib registry opt)
          (creds_of (get_server_tls_certificate files opt))
          codec_of
      → Has o wanted_options
  unfolding wanted_options
  wanted_options-Segment o s = Segment-Has o _ _ _ _ _ s

  pub wanted_options-Has : (o : ServerOption Codec) → IsWanted o → Has o wanted_options
  wanted_options-Has (unary_interceptor t) (ne, same) =
      wanted_options-Segment _ (in_first (tracing-Has _ ne (inl (ap unary_interceptor same))))
  wanted_options-Has (stream_interceptor t) (ne, same) =
      wanted_options-Segment _ (in_first (tracing-Has _ ne (inr (ap stream_interceptor same))))
  wanted_options-Has (max_recv_msg_size n) w = wanted_options-Segment _ (in_second (recv-Has n w))
  wanted_options-Has (max_send_msg_size n) w = wanted_options-Segment _ (in_second (send-Has n w))
  wanted_options-Has (proxy_mode_enable b) w = wanted_options-Segment _ (in_third (proxy-Has b w))
  wanted_options-Has (creds c) w = wanted_options-Segment _ (in_fourth (creds_of-Has c w))
  wanted_options-Has (force_server_codec c) w =
      wanted_options-Segment _ (in_fifth (codec_of-Has c w))
