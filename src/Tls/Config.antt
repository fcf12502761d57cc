-- ===== src/Tls/Config.antt =====
-- transport/tls.rs: load_tls_server_config and load_tls_client_config. The files, rustls_pemfile and
-- the builders of rustls are parameters; the texts of the errors are left out.
use rustcomm.Prelude.{ℕ, Option, none, some, List, [], ◌∷◌}
use rustcomm.Error.{
  ErrorKind, Error, Result, ok, err, ◌>>=◌, tls_certificate_load, tls_key_load,
  tls_invalid_certificate, tls_invalid_key, tls_server_config_build,
}

-- Files `F`, certificates `C`, keys `K`, certificate stores `R`; `none` is an Err.
pub record Loader (F C K R X Y : Type 0) : Type 0 where
  pub open_file : List ℕ → Result ErrorKind F
  pub certs : F → Option (List C)
  -- Ok(None) is `some none`
  pub private_key : F → Option (Option K)
  pub with_single_cert : List C → K → Option X
  pub empty_store : R
  pub add_cert : R → C → Option R
  pub with_root_certificates : R → Y

-- map_err
abbrev pub or_error : {A : Type 0} → Error → Option A → Result Error A
or_error e none = err e
or_error e (some a) = ok a

abbrev pub file_or : {A : Type 0} → (ErrorKind → Error) → Result ErrorKind A → Result Error A
file_or e (ok a) = ok a
file_or e (err kind) = err (e kind)

abbrev pub not_empty : {A : Type 0} → List A → Result Error (List A)
not_empty [] = err tls_invalid_certificate
not_empty (c ∷ cs) = ok (c ∷ cs)

module _ {F C K R X Y : Type 0} (loader : Loader F C K R X Y) where
  -- A certificate file must hold a certificate.
  unfoldable pub load_certs : List ℕ → Result Error (List C)
  load_certs path =
      file_or tls_certificate_load (loader.open_file path)
      >>= (λ file. or_error tls_invalid_certificate (loader.certs file))
      >>= not_empty

  unfoldable pub load_key : List ℕ → Result Error K
  load_key path =
      file_or tls_key_load (loader.open_file path)
      >>= (λ file. or_error tls_invalid_key (loader.private_key file))
      >>= (λ key. or_error tls_invalid_key key)

  unfoldable pub load_tls_server_config : List ℕ → List ℕ → Result Error X
  unfolding load_certs load_key
  load_tls_server_config cert_path key_path = load_certs cert_path >>= λ cert_chain.
      load_key key_path >>= λ key.
      or_error tls_server_config_build (loader.with_single_cert cert_chain key)

  -- for cert in ca_certs { root_cert_store.add(cert)? }
  unfoldable pub add_certs : R → List C → Result Error R
  add_certs store [] = ok store
  add_certs store (cert ∷ rest) =
      or_error tls_invalid_certificate (loader.add_cert store cert) >>= λ s. add_certs s rest

  unfoldable pub load_tls_client_config : List ℕ → Result Error Y
  unfolding load_certs add_certs
  load_tls_client_config ca_cert_path =
      load_certs ca_cert_path
      >>= (λ ca_certs. add_certs loader.empty_store ca_certs)
      >>= λ root_cert_store. ok (loader.with_root_certificates root_cert_store)
