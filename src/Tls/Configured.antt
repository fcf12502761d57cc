-- ===== src/Tls/Configured.antt =====
-- transport/tls.rs: which certificates a TlsTransport needs for listening and for connecting.
use rustcomm.Prelude.{ℕ, ◌≡◌, ◌⊎◌, refl, inl, inr, Option, none, some, List}
use rustcomm.Error.{
  ErrorKind, Error, Result, io, ok, err, ◌>>=◌, from_io, tls_server_config_missing,
  tls_client_config_missing,
}
use rustcomm.Transport.Types.{SocketAddr, SocketAnswers}
use rustcomm.Transport.Exit.{raised}
use rustcomm.Tls.Session.{Rustls}
use rustcomm.Tls.Config.{Loader, load_tls_server_config, load_tls_client_config}
use rustcomm.Tls.State.{
  TlsTransport, TlsSettings, cert_path, key_path, ca_cert_path, new_named, server_config,
  client_config, loaded, fresh,
}
use rustcomm.Tls.Manage.{connect, connect_with, listen, listen_with}

module _ {F C K R X Y A : Type 0} (loader : Loader F C K R X Y) where
  is_loaded :
      (r : Result Error A) {o : Option A}
      → loaded loader r ≡ ok o
      → (a : A) × (r ≡ ok a) × (o ≡ some a)
  is_loaded (ok a) h = (a, refl, cc h)
  is_loaded (err e) h = cc

  is_not_loaded : (r : Result Error A) {e : Error} → loaded loader r ≡ err e → r ≡ err e
  is_not_loaded (ok a) h = cc
  is_not_loaded (err e) h = cc h

module _ {F C K R S X Y : Type 0} (loader : Loader F C K R X Y) (rustls : Rustls S X Y) where
  -- With both files the transport has the configuration loaded from them, otherwise no listener.
  abbrev pub ServerSide : Option (List ℕ) → Option (List ℕ) → TlsTransport S X Y → Type 0
  ServerSide (some cert) (some key) t =
      (config : X) × (load_tls_server_config loader cert key ≡ ok config)
      × (t.tls_server_config ≡ some config)
  ServerSide cert key t =
      (resolved : Result ErrorKind (List SocketAddr)) (a : SocketAnswers)
      → listen t resolved a ≡ raised tls_server_config_missing t

  abbrev pub ClientSide : Option (List ℕ) → TlsTransport S X Y → Type 0
  ClientSide (some ca_cert) t =
      (config : Y) × (load_tls_client_config loader ca_cert ≡ ok config)
      × (t.tls_client_config ≡ some config)
  ClientSide none t =
      (resolved : Result ErrorKind (List SocketAddr)) (a : SocketAnswers)
      → connect rustls t resolved a ≡ raised tls_client_config_missing t

  -- The loading of the files that are given fails with this error.
  abbrev pub ServerFails : Option (List ℕ) → Option (List ℕ) → Error → Type 0
  ServerFails (some cert) (some key) e = load_tls_server_config loader cert key ≡ err e
  ServerFails cert key e = ⊥

  abbrev pub ClientFails : Option (List ℕ) → Error → Type 0
  ClientFails (some ca_cert) e = load_tls_client_config loader ca_cert ≡ err e
  ClientFails none e = ⊥

  -- Poll::new or Waker::new fails, and this is its error.
  abbrev pub SystemFails :
      Result ErrorKind (Unit {0}) → Result ErrorKind (Unit {0}) → Error → Type 0
  SystemFails (err kind) waker e = e ≡ io kind
  SystemFails (ok _) (err kind) e = e ≡ io kind
  SystemFails (ok _) (ok _) e = ⊥

  abbrev pub Configures :
      TlsSettings
      → Result ErrorKind (Unit {0})
      → Result ErrorKind (Unit {0})
      → Result Error (TlsTransport S X Y)
      → Type 0
  Configures c poll waker (ok t) =
      ServerSide (cert_path c) (key_path c) t
      × ClientSide (ca_cert_path c) t
      × (poll ≡ ok tt)
      × (waker ≡ ok tt)
  Configures c poll waker (err e) =
      ServerFails (cert_path c) (key_path c) e
      ⊎ ClientFails (ca_cert_path c) e
      ⊎ SystemFails poll waker e

  server_side :
      (cert key : Option (List ℕ)) (t : TlsTransport S X Y)
      → server_config loader cert key ≡ ok t.tls_server_config
      → ServerSide cert key t
  unfolding server_config listen listen_with
  server_side (some cert) (some key) t h =
      is_loaded loader (load_tls_server_config loader cert key) h
  server_side (some cert) none t h =
      λ resolved a. let absent : t.tls_server_config ≡ none = cc h in simp absent refl
  server_side none key t h =
      λ resolved a. let absent : t.tls_server_config ≡ none = cc h in simp absent refl

  client_side :
      (ca_cert : Option (List ℕ)) (t : TlsTransport S X Y)
      → client_config loader ca_cert ≡ ok t.tls_client_config
      → ClientSide ca_cert t
  unfolding client_config connect connect_with
  client_side (some ca_cert) t h = is_loaded loader (load_tls_client_config loader ca_cert) h
  client_side none t h =
      λ resolved a. let absent : t.tls_client_config ≡ none = cc h in simp absent refl

  server_fails :
      (cert key : Option (List ℕ)) (e : Error)
      → server_config loader cert key ≡ err e
      → ServerFails cert key e
  unfolding server_config
  server_fails (some cert) (some key) e h =
      is_not_loaded loader (load_tls_server_config loader cert key) h
  server_fails (some cert) none e h = cc
  server_fails none key e h = cc

  client_fails :
      (ca_cert : Option (List ℕ)) (e : Error)
      → client_config loader ca_cert ≡ err e
      → ClientFails ca_cert e
  unfolding client_config
  client_fails (some ca_cert) e h = is_not_loaded loader (load_tls_client_config loader ca_cert) h
  client_fails none e h = cc

  -- The two loads as they come out.
  both_configure :
      (c : TlsSettings) (poll waker : Result ErrorKind (Unit {0})) (s : Result Error (Option X))
      (k : Result Error (Option Y))
      → server_config loader (cert_path c) (key_path c) ≡ s
      → client_config loader (ca_cert_path c) ≡ k
      → Configures c poll waker (
          s >>= λ server. k >>= λ client.
          from_io poll >>= λ _. from_io waker >>= λ _. ok (fresh loader c.settings server client))
  both_configure c (ok _) (ok _) (ok server) (ok client) p q = (
    server_side (cert_path c) (key_path c) (fresh loader c.settings server client) p,
    client_side (ca_cert_path c) (fresh loader c.settings server client) q,
    refl,
    refl,
  )
  both_configure c (ok _) (err kind) (ok server) (ok client) p q = inr (inr refl)
  both_configure c (err kind) waker (ok server) (ok client) p q = inr (inr refl)
  both_configure c poll waker (ok server) (err e) p q =
      inr (inl (client_fails (ca_cert_path c) e q))
  both_configure c poll waker (err e) k p q = inl (server_fails (cert_path c) (key_path c) e p)

  -- When new_named gives a transport, Poll::new and Waker::new have succeeded, the transport has
  -- the server configuration loaded from the two files, if both are given, and otherwise every
  -- listen fails with TlsServerConfigMissing and changes nothing; likewise for the file of the
  -- authorities and connect. When it fails, the error is that of loading files that are given, or
  -- the Io error of Poll::new, or that of Waker::new if Poll::new has succeeded.
  pub new_named-Configures :
      (c : TlsSettings) (poll waker : Result ErrorKind (Unit {0}))
      → Configures c poll waker (new_named loader c poll waker)
  unfolding new_named
  new_named-Configures c poll waker =
      both_configure c poll waker (server_config loader (cert_path c) (key_path c))
        (client_config loader (ca_cert_path c)) refl refl
