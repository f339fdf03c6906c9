-- ===== src/Security/Downgrade.antt =====
-- When a configured TLS is silently replaced by no security.
use triple.Base.{eq_iff, arith, ◌↔◌, false, none, ◌≡◌, ◌⊎◌, ℕ, ◌≢◌}
use triple.Security.{get_client_tls_certificate, get_server_tls_certificate, TlsFiles}
use triple.Common.Config.{TripleOption}
use triple.Common.Error.{success}

-- The option names a certificate or a key.
abbrev pub WantsTls : TripleOption → Type 0
WantsTls opt = (opt.tls_cert_file ≢ "") ⊎ (opt.tls_key_file ≢ "")

-- The CA file can be read and holds no PEM certificate.
abbrev pub HasBadCa : TlsFiles → TripleOption → Type 0
HasBadCa files opt =
    (opt.ca_cert_file ≢ "")
    × ((ca : ℕ) × (files.read_file opt.ca_cert_file ≡ success ca) × (files.is_pem ca ≡ false))

module _ (files : TlsFiles) (opt : TripleOption) where
  -- With TLS asked for, the server's function returns neither credentials nor an error exactly where
  -- the CA file is readable and no PEM.
  server_no_creds_iff :
      WantsTls opt → (get_server_tls_certificate files opt ≡ (none, none)) ↔ HasBadCa files opt
  unfolding get_server_tls_certificate
  server_no_creds_iff wants = (
    λ e. ground (
      arith,
      eq_iff opt.tls_cert_file "",
      eq_iff opt.tls_key_file "",
      eq_iff opt.ca_cert_file "",
    ),
    λ h. ground (
      arith,
      eq_iff opt.tls_cert_file "",
      eq_iff opt.tls_key_file "",
      eq_iff opt.ca_cert_file "",
    ),
  )

  -- With TLS asked for, the client's function returns neither credentials nor an error exactly where
  -- the CA file is readable and no PEM.
  client_no_creds_iff :
      WantsTls opt → (get_client_tls_certificate files opt ≡ (none, none)) ↔ HasBadCa files opt
  unfolding get_client_tls_certificate
  client_no_creds_iff wants = (
    λ e. ground (
      arith,
      eq_iff opt.tls_cert_file "",
      eq_iff opt.tls_key_file "",
      eq_iff opt.ca_cert_file "",
    ),
    λ h. ground (
      arith,
      eq_iff opt.tls_cert_file "",
      eq_iff opt.tls_key_file "",
      eq_iff opt.ca_cert_file "",
    ),
  )

  -- With TLS asked for, each side goes without credentials and without an error exactly where the CA
  -- file is readable and no PEM, so that both sides are downgraded by the same file and by no other.
  pub no_creds_iff :
      WantsTls opt
      → ((get_server_tls_certificate files opt ≡ (none, none)) ↔ HasBadCa files opt)
        × ((get_client_tls_certificate files opt ≡ (none, none)) ↔ HasBadCa files opt)
  no_creds_iff wants = (server_no_creds_iff wants, client_no_creds_iff wants)

  -- No function gives credentials and an error at once.
  pub creds_or_error :
      ((get_server_tls_certificate files opt).0 ≡ none)
      ⊎ ((get_server_tls_certificate files opt).1 ≡ none)
  unfolding get_server_tls_certificate
  creds_or_error = ground arith
