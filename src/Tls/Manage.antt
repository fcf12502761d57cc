-- ===== src/Tls/Manage.antt =====
-- transport/tls.rs: connect, listen, close and shutdown.
use rustcomm.Prelude.{ℕ, Option, none, some, List, [], ◌∷◌, if◌then◌else◌}
use rustcomm.Error.{
  ErrorKind, Result, tls_client_config_missing, tls_server_config_missing, tls_invalid_server_name,
  tls_client_config_build,
}
use rustcomm.Table.{lookup, insert, remove, keys}
use rustcomm.Transport.Types.{SocketAddr, SocketAnswers, Shutdown, readable, writable}
use rustcomm.Transport.Exit.{Exit, raised, panicked, question, empty_resolution}
use rustcomm.Tcp.State.{register, deregister, shutdown}
use rustcomm.Tcp.Manage.{deregister_all, shutdown_all, values}
use rustcomm.Tls.Session.{Rustls}
use rustcomm.Tls.State.{
  Connection, TlsTransport, not_connected, add_connection, drop_connection, advance_connection_id,
}

-- A connection that connect() has started.
abbrev pub connecting : {S : Type 0} → S → SocketAddr → SocketAddr → Connection S
connecting tls_conn local_addr peer_addr = record {
  tls_conn = tls_conn;
  connected = not_connected;
  interest = writable;
  local_addr = local_addr;
  peer_addr = peer_addr;
  send_buf = [];
}

module _ {S X Y : Type 0} (rustls : Rustls S X Y) where
  -- What rustls::ClientConnection::new returned, and the rest of connect.
  unfoldable pub connect_session :
      TlsTransport S X Y
      → SocketAddr
      → SocketAddr
      → Option S
      → Exit (TlsTransport S X Y) (ℕ × SocketAddr)
  connect_session t local_addr peer_addr none = raised tls_client_config_build t
  connect_session t local_addr peer_addr (some tls_conn) =
      advance_connection_id (add_connection t t.next_id (connecting tls_conn local_addr peer_addr))
        (t.next_id, peer_addr)

  unfoldable pub connect_first :
      TlsTransport S X Y
      → Y
      → SocketAnswers
      → List SocketAddr
      → Exit (TlsTransport S X Y) (ℕ × SocketAddr)
  unfolding connect_session
  connect_first t config a [] = panicked empty_resolution
  connect_first t config a (peer_addr ∷ _) = question a.opened t λ _. question a.nodelay t λ _.
      if rustls.localhost_is_valid
      then connect_session t a.local_addr peer_addr (rustls.new_client config)
      else raised tls_invalid_server_name t

  unfoldable pub connect_with :
      TlsTransport S X Y
      → Result ErrorKind (List SocketAddr)
      → SocketAnswers
      → Option Y
      → Exit (TlsTransport S X Y) (ℕ × SocketAddr)
  unfolding connect_first
  connect_with t resolved a none = raised tls_client_config_missing t
  connect_with t resolved a (some config) = question resolved t (connect_first t config a)

  -- The second argument is what addr.to_socket_addrs() returned.
  unfoldable pub connect :
      TlsTransport S X Y
      → Result ErrorKind (List SocketAddr)
      → SocketAnswers
      → Exit (TlsTransport S X Y) (ℕ × SocketAddr)
  unfolding connect_with
  connect t resolved a = connect_with t resolved a t.tls_client_config

module _ {S X Y : Type 0} where
  -- Register a listener's socket and store it.
  unfoldable pub add_listener : TlsTransport S X Y → ℕ → SocketAddr → TlsTransport S X Y
  add_listener t id local_addr = record t {
    listeners = insert id local_addr t.listeners;
    calls = register id readable ∷ t.calls;
  }

  unfoldable pub listen_first :
      TlsTransport S X Y
      → SocketAnswers
      → List SocketAddr
      → Exit (TlsTransport S X Y) (ℕ × SocketAddr)
  listen_first t a [] = panicked empty_resolution
  listen_first t a (requested_addr ∷ _) =
      question a.opened t
        λ _. advance_connection_id (add_listener t t.next_id a.local_addr) (t.next_id, a.local_addr)

  unfoldable pub listen_with :
      TlsTransport S X Y
      → Result ErrorKind (List SocketAddr)
      → SocketAnswers
      → Option X
      → Exit (TlsTransport S X Y) (ℕ × SocketAddr)
  unfolding listen_first
  listen_with t resolved a none = raised tls_server_config_missing t
  listen_with t resolved a (some config) = question resolved t (listen_first t a)

  unfoldable pub listen :
      TlsTransport S X Y
      → Result ErrorKind (List SocketAddr)
      → SocketAnswers
      → Exit (TlsTransport S X Y) (ℕ × SocketAddr)
  unfolding listen_with
  listen t resolved a = listen_with t resolved a t.tls_server_config

  unfoldable pub get_listener_addresses : TlsTransport S X Y → List SocketAddr
  unfolding values
  get_listener_addresses t = values t.listeners

  close_found : TlsTransport S X Y → ℕ → Option (Connection S) → TlsTransport S X Y
  close_found t id none = t
  close_found t id (some conn) = drop_connection t id

  unfoldable pub close_connection : TlsTransport S X Y → ℕ → TlsTransport S X Y
  unfolding close_found drop_connection
  close_connection t id = close_found t id (lookup id t.connections)

  unfoldable pub close_all_connections : TlsTransport S X Y → TlsTransport S X Y
  close_all_connections t = record t {
    connections = [];
    calls = deregister_all (keys t.connections) t.calls;
  }

  -- Whether the socket's shutdown succeeds is only logged.
  shutdown_found : TlsTransport S X Y → ℕ → Shutdown → Option (Connection S) → TlsTransport S X Y
  shutdown_found t id how none = t
  shutdown_found t id how (some conn) = record t { calls = shutdown id how ∷ t.calls }

  unfoldable pub shutdown_connection : TlsTransport S X Y → ℕ → Shutdown → TlsTransport S X Y
  unfolding shutdown_found
  shutdown_connection t id how = shutdown_found t id how (lookup id t.connections)

  unfoldable pub shutdown_all_connections : TlsTransport S X Y → Shutdown → TlsTransport S X Y
  unfolding shutdown_all
  shutdown_all_connections t how = record t {
    calls = shutdown_all (keys t.connections) how t.calls;
  }

  unfoldable pub drop_listener : TlsTransport S X Y → ℕ → TlsTransport S X Y
  drop_listener t id = record t {
    listeners = remove id t.listeners;
    calls = deregister id ∷ t.calls;
  }

  close_listener_found : TlsTransport S X Y → ℕ → Option SocketAddr → TlsTransport S X Y
  close_listener_found t id none = t
  close_listener_found t id (some addr) = drop_listener t id

  unfoldable pub close_listener : TlsTransport S X Y → ℕ → TlsTransport S X Y
  unfolding close_listener_found drop_listener
  close_listener t id = close_listener_found t id (lookup id t.listeners)

  unfoldable pub close_all_listeners : TlsTransport S X Y → TlsTransport S X Y
  close_all_listeners t = record t {
    listeners = [];
    calls = deregister_all (keys t.listeners) t.calls;
  }

  unfoldable pub close_all : TlsTransport S X Y → TlsTransport S X Y
  unfolding close_all_listeners close_all_connections
  close_all t = close_all_connections (close_all_listeners t)
