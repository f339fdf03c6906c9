-- ===== src/Security.antt =====
-- TLS credentials: `getServerTlsCertificate` of pkg/triple/dubbo3_server.go and
-- `getClientTlsCertificate` of pkg/triple/dubbo3_client.go. Files, keys and certificate pools are
-- read by the Go library; what it answers is a parameter.
pub mod Downgrade
use triple.Base.{
  ◌∷◌, ◌&&◌, [], some, true, if◌then◌else◌, ◌==◌, List, none, ℕ, false, String, Option, Bool, refl,
}
use triple.Common.Error.{failure, Err, success, Result}
use triple.Common.Config.{TripleOption}

-- The answers of `ioutil.ReadFile`, `AppendCertsFromPEM`, `tls.LoadX509KeyPair`, and of
-- `credentials.NewClientTLSFromFile` of grpc-go. Bytes, pools and key pairs are numbered.
pub record TlsFiles : Type 0 where
  pub read_file : String → Result ℕ
  pub is_pem : ℕ → Bool
  pub load_x509_key_pair : String → String → Result ℕ
  pub read_client_tls : String → String → Result ℕ

-- tls.Config; a nil pool is `none`.
pub record TlsConfig : Type 0 where
  pub require_and_verify_client_cert : Bool
  pub client_cas : Option ℕ
  pub root_cas : Option ℕ
  pub certificates : List ℕ
  pub server_name : String

-- What the credentials were made of.
pub data Credentials : Type 0 where
  new_tls : TlsConfig → Credentials
  client_tls_from_file : ℕ → Credentials
  insecure : Credentials

-- A pair `(creds, err)` in which both may be nil.
abbrev pub Creds : Type 0
Creds = Option Credentials × Option Err

abbrev no_tls : TripleOption → Bool
no_tls opt = opt.tls_cert_file == "" && opt.tls_key_file == ""

module _ (files : TlsFiles) where
  -- The end of both functions: the key pair, and the configuration with it.
  with_key_pair : TripleOption → TlsConfig → Creds
  with_key_pair opt cfg = elim (files.load_x509_key_pair opt.tls_cert_file opt.tls_key_file) [
    | success cert ↦ (
      some (new_tls (record cfg { certificates = cert ∷ []; server_name = opt.tls_server_name })),
      none,
    )
    | failure err ↦ (none, some err)
  ]

  -- The pool read from a CA file goes on to the rest; the error that is returned where the file is
  -- no PEM is the one of the read, and nil.
  with_ca_pool : TripleOption → (ℕ → Creds) → Creds
  with_ca_pool opt rest = elim (files.read_file opt.ca_cert_file) [
    | success ca_bytes ↦ (if files.is_pem ca_bytes then rest ca_bytes else (none, none))
    | failure err ↦ (none, some err)
  ]

  -- `&tls.Config{}`
  empty_config : TlsConfig
  empty_config = record {
    require_and_verify_client_cert = false;
    client_cas = none;
    root_cas = none;
    certificates = [];
    server_name = "";
  }

  unfoldable pub get_server_tls_certificate : TripleOption → Creds
  unfolding with_key_pair with_ca_pool empty_config
  get_server_tls_certificate opt =
      if no_tls opt
      then (none, none)
      else (if opt.ca_cert_file == ""
          then with_key_pair opt empty_config
          else with_ca_pool opt (λ ca.
            with_key_pair opt (record empty_config {
              require_and_verify_client_cert = true;
              client_cas = some ca;
            })))

  unfoldable pub get_client_tls_certificate : TripleOption → Creds
  unfolding with_key_pair with_ca_pool empty_config
  get_client_tls_certificate opt =
      if no_tls opt
      then (none, none)
      else (if opt.ca_cert_file == ""
          then elim (files.read_client_tls opt.tls_cert_file opt.tls_server_name) [
            | success creds ↦ (some (client_tls_from_file creds), none)
            | failure err ↦ (none, some err)
          ]
          else with_ca_pool opt
              (λ ca. with_key_pair opt (record empty_config { root_cas = some ca })))
