-- ===== src/Tls/Accept.antt =====
-- transport/tls.rs: accept_connections. The loop over `accept` is the one of Tcp/Accept.
use rustcomm.Prelude.{ℕ, Option, none, some, List, [], ◌∷◌, ◌++◌, is_nil}
use rustcomm.Error.{io, tls_server_config_build}
use rustcomm.Table.{lookup}
use rustcomm.Transport.Types.{SocketAddr, readable}
use rustcomm.Transport.Exit.{
  Exit, returned, after, raised, panicked, listener_missing, config_missing,
}
use rustcomm.Tcp.Accept.{
  Stream, Accepts, Collected, streams, nodelay_error, listener_error, collect,
}
use rustcomm.Tls.Session.{Rustls}
use rustcomm.Tls.State.{
  Connection, TlsTransport, tcp_connected, add_connection, advance_connection_id,
  track_spurious_wakeup,
}
use rustcomm.Tls.Manage.{drop_listener}

-- A connection from accept() is TCP established.
abbrev pub accepted_connection : {S : Type 0} → S → Stream → Connection S
accepted_connection tls_conn stream = record {
  tls_conn = tls_conn;
  connected = tcp_connected;
  interest = readable;
  local_addr = stream.local_addr;
  peer_addr = stream.peer_addr;
  send_buf = [];
}

module _ {S X Y : Type 0} (rustls : Rustls S X Y) where
  -- ServerConnection::new on the server configuration; `none` is a missing configuration.
  abbrev pub new_session : Option X → Option (Option S)
  new_session none = none
  new_session (some config) = some (rustls.new_server config)

  unfoldable pub accept_session :
      TlsTransport S X Y → Stream → Option (Option S) → List ℕ → Exit (TlsTransport S X Y) (List ℕ)
  accept_session t stream none new_conn_ids = panicked config_missing
  accept_session t stream (some none) new_conn_ids = raised tls_server_config_build t
  accept_session t stream (some (some tls_conn)) new_conn_ids =
      advance_connection_id (add_connection t t.next_id (accepted_connection tls_conn stream))
        (new_conn_ids ++ t.next_id ∷ [])

  unfoldable pub add_accepted :
      TlsTransport S X Y → List Stream → List ℕ → Exit (TlsTransport S X Y) (List ℕ)
  unfolding accept_session
  add_accepted t [] new_conn_ids = returned new_conn_ids t
  add_accepted t (stream ∷ rest) new_conn_ids =
      after (accept_session t stream (new_session t.tls_server_config) new_conn_ids)
        λ ids t'. add_accepted t' rest ids

  unfoldable pub accept_end :
      TlsTransport S X Y → ℕ → Collected → Exit (TlsTransport S X Y) (List ℕ)
  unfolding add_accepted
  accept_end t id (streams new_streams) =
      after (add_accepted t new_streams [])
        λ new_conn_ids t'. track_spurious_wakeup t' (is_nil new_streams) new_conn_ids
  accept_end t id (nodelay_error kind) = raised (io kind) t
  accept_end t id (listener_error kind) = raised (io kind) (drop_listener t id)

  unfoldable pub accept_found :
      TlsTransport S X Y → ℕ → Accepts → Option SocketAddr → Exit (TlsTransport S X Y) (List ℕ)
  unfolding accept_end collect
  accept_found t id accepts none = panicked listener_missing
  accept_found t id accepts (some addr) = accept_end t id (collect accepts [])

  unfoldable pub accept_connections :
      TlsTransport S X Y → ℕ → Accepts → Exit (TlsTransport S X Y) (List ℕ)
  unfolding accept_found
  accept_connections t id accepts = accept_found t id accepts (lookup id t.listeners)
