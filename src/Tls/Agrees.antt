-- ===== src/Tls/Agrees.antt =====
-- transport/tls.rs: where a TLS transport does what a TCP transport does.
use rustcomm.Prelude.{
  ℕ, ◌≡◌, ◌∙◌, refl, ap, inl, inr, true, some, List, [], ◌∷◌, ◌++◌, is_nil, Option-cases,
}
use rustcomm.Error.{ErrorKind, Result, ok, err}
use rustcomm.Table.{lookup}
use rustcomm.Table.Values.{map_values, lookup-map_values, keys-map_values}
use rustcomm.Transport.Types.{SocketAddr, SocketAnswers, Shutdown}
use rustcomm.Transport.Exit.{on_state, Leaves, Leaves-all}
use rustcomm.Tcp.State
use rustcomm.Tcp.Manage
use rustcomm.Tcp.Accept.{
  Stream, Accepts, Collected, streams, nodelay_error, listener_error, collect,
}
use rustcomm.Tcp.Accept
use rustcomm.Tls.Session.{Rustls}
use rustcomm.Tls.State.{TlsTransport, add_connection}
use rustcomm.Tls.Plain.{
  plain_connection, on_state-question, on_state-after, plain, add_connection-plain,
  drop_connection-plain, advance_connection_id-plain, advance_connection_id-keeps,
  track_spurious_wakeup-plain,
}
use rustcomm.Tls.Manage.{
  connecting, connect, connect_first, connect_session, connect_with, add_listener, listen_first,
  listen_with, listen, close_connection, close_all_connections, shutdown_connection,
  shutdown_all_connections, drop_listener, close_listener, close_all_listeners, close_all,
}
use rustcomm.Tls.Accept.{
  accepted_connection, new_session, accept_session, add_accepted, accept_end, accept_found,
  accept_connections,
}

module _ {S X Y : Type 0} (t : TlsTransport S X Y) where
  pub close_connection-plain :
      (id : ℕ) → plain (close_connection t id) ≡ Manage.close_connection (plain t) id
  unfolding close_connection Manage.close_connection
  close_connection-plain id = elim (Option-cases (lookup id t.connections)) [
    | inl e ↦ rw (lookup-map_values plain_connection id t.connections, e) refl
    | inr (conn, e) ↦
        rw (lookup-map_values plain_connection id t.connections, e) (drop_connection-plain t id)
  ]

  pub close_all_connections-plain :
      plain (close_all_connections t) ≡ Manage.close_all_connections (plain t)
  unfolding close_all_connections Manage.close_all_connections map_values
  close_all_connections-plain = rw (keys-map_values plain_connection t.connections) refl

  pub shutdown_connection-plain :
      (id : ℕ) (how : Shutdown)
      → plain (shutdown_connection t id how) ≡ Manage.shutdown_connection (plain t) id how
  unfolding shutdown_connection Manage.shutdown_connection
  shutdown_connection-plain id how = elim (Option-cases (lookup id t.connections)) [
    | inl e ↦ rw (lookup-map_values plain_connection id t.connections, e) refl
    | inr (conn, e) ↦ rw (lookup-map_values plain_connection id t.connections, e) refl
  ]

  pub shutdown_all_connections-plain :
      (how : Shutdown)
      → plain (shutdown_all_connections t how) ≡ Manage.shutdown_all_connections (plain t) how
  unfolding shutdown_all_connections Manage.shutdown_all_connections
  shutdown_all_connections-plain how = rw (keys-map_values plain_connection t.connections) refl

  pub close_listener-plain :
      (id : ℕ) → plain (close_listener t id) ≡ Manage.close_listener (plain t) id
  unfolding close_listener Manage.close_listener Manage.drop_listener
  close_listener-plain id = elim (Option-cases (lookup id t.listeners)) [
    | inl e ↦ rw e refl
    | inr (addr, e) ↦ rw e refl
  ]

  pub close_all_listeners-plain :
      plain (close_all_listeners t) ≡ Manage.close_all_listeners (plain t)
  unfolding close_all_listeners Manage.close_all_listeners
  close_all_listeners-plain = refl

pub close_all-plain :
    {S X Y : Type 0} (t : TlsTransport S X Y) → plain (close_all t) ≡ Manage.close_all (plain t)
unfolding close_all Manage.close_all
close_all-plain t =
    close_all_connections-plain (close_all_listeners t)
    ∙ ap Manage.close_all_connections (close_all_listeners-plain t)

pub add_listener-plain :
    {S X Y : Type 0} (t : TlsTransport S X Y) (id : ℕ) (addr : SocketAddr)
    → plain (add_listener t id addr) ≡ Manage.add_listener (plain t) id addr
unfolding add_listener Manage.add_listener
add_listener-plain t id addr = refl

pub drop_listener-plain :
    {S X Y : Type 0} (t : TlsTransport S X Y) (id : ℕ)
    → plain (drop_listener t id) ≡ Manage.drop_listener (plain t) id
unfolding drop_listener Manage.drop_listener
drop_listener-plain t id = refl

pub listen-plain :
    {S X Y : Type 0} (t : TlsTransport S X Y) (resolved : Result ErrorKind (List SocketAddr))
    (a : SocketAnswers) (config : X)
    → t.tls_server_config ≡ some config
    → on_state plain (listen t resolved a) ≡ Manage.listen (plain t) resolved a
unfolding listen listen_with listen_first Manage.listen Manage.listen_first
listen-plain t (err kind) a config c = rw c refl
listen-plain t (ok []) a config c = rw c refl
listen-plain t (ok (addr ∷ rest)) a config c =
    let result : ℕ × SocketAddr = (t.next_id, a.local_addr) in
    simp c (
      on_state-question plain a.opened t _ _ λ _.
        advance_connection_id-plain (add_listener t t.next_id a.local_addr) result
        ∙ ap (λ u. State.advance_connection_id u result)
            (add_listener-plain t t.next_id a.local_addr))

pub connect-plain :
    {S X Y : Type 0} (rustls : Rustls S X Y) (t : TlsTransport S X Y)
    (resolved : Result ErrorKind (List SocketAddr)) (a : SocketAnswers) (config : Y) (s : S)
    → t.tls_client_config ≡ some config
    → rustls.localhost_is_valid ≡ true
    → rustls.new_client config ≡ some s
    → on_state plain (connect rustls t resolved a) ≡ Manage.connect (plain t) resolved a
unfolding connect connect_with connect_first connect_session Manage.connect Manage.connect_first
connect-plain rustls t (err kind) a config s c v n = rw c refl
connect-plain rustls t (ok []) a config s c v n = rw c refl
connect-plain rustls t (ok (addr ∷ rest)) a config s c v n =
    let conn = connecting s a.local_addr addr in
    simp c (
      on_state-question plain a.opened t _ _ λ _. on_state-question plain a.nodelay t _ _ λ _.
        rw (v, n)
          (advance_connection_id-plain (add_connection t t.next_id conn) (t.next_id, addr)
            ∙ ap (λ u. State.advance_connection_id u (t.next_id, addr))
                (add_connection-plain t t.next_id conn)))

module _ {S X Y : Type 0} (rustls : Rustls S X Y) where
  accept_session-plain :
      (t : TlsTransport S X Y) (stream : Stream) (s : S) (ids : List ℕ)
      → on_state plain (accept_session rustls t stream (some (some s)) ids)
        ≡ State.advance_connection_id
            (State.add_connection (plain t) t.next_id (Accept.accepted_connection stream))
            (ids ++ t.next_id ∷ [])
  unfolding accept_session
  accept_session-plain t stream s ids =
      let conn = accepted_connection s stream in
      let result = ids ++ t.next_id ∷ [] in
      advance_connection_id-plain (add_connection t t.next_id conn) result
      ∙ ap (λ u. State.advance_connection_id u result) (add_connection-plain t t.next_id conn)

  accept_session-keeps :
      (t : TlsTransport S X Y) (stream : Stream) (s : S) (ids : List ℕ) {config : X}
      → t.tls_server_config ≡ some config
      → Leaves
          (λ u. u.tls_server_config ≡ some config)
          (accept_session rustls t stream (some (some s)) ids)
  unfolding accept_session add_connection
  accept_session-keeps t stream s ids {config} c =
      advance_connection_id-keeps (λ u. u.tls_server_config ≡ some config)
        (add_connection t t.next_id (accepted_connection s stream)) (ids ++ t.next_id ∷ []) λ _. c

  add_accepted-plain :
      (t : TlsTransport S X Y) (config : X) (s : S) (new : List Stream) (ids : List ℕ)
      → t.tls_server_config ≡ some config
      → rustls.new_server config ≡ some s
      → on_state plain (add_accepted rustls t new ids) ≡ Accept.add_accepted (plain t) new ids
  unfolding add_accepted Accept.add_accepted
  add_accepted-plain t config s [] ids c n = refl
  add_accepted-plain t config s (stream ∷ rest) ids c n =
      let made : new_session rustls t.tls_server_config ≡ some (some s) = rw (c, n) refl in
      simp made (
        on_state-after plain (λ u. u.tls_server_config ≡ some config)
          (accept_session rustls t stream (some (some s)) ids) _ _
          (accept_session-plain t stream s ids) (accept_session-keeps t stream s ids c)
          λ ids' t' c'. add_accepted-plain t' config s rest ids' c' n)

  accept_end-plain :
      (t : TlsTransport S X Y) (config : X) (s : S) (id : ℕ) (c : Collected)
      → t.tls_server_config ≡ some config
      → rustls.new_server config ≡ some s
      → on_state plain (accept_end rustls t id c) ≡ Accept.accept_end (plain t) id c
  unfolding accept_end Accept.accept_end drop_listener Manage.drop_listener
  accept_end-plain t config s id (streams new) c n =
      on_state-after plain (λ u. Unit) (add_accepted rustls t new []) _ _
        (add_accepted-plain t config s new [] c n) (Leaves-all _)
        λ ids t' _. track_spurious_wakeup-plain t' (is_nil new) ids
  accept_end-plain t config s id (nodelay_error kind) c n = refl
  accept_end-plain t config s id (listener_error kind) c n = refl

  pub accept_connections-plain :
      (t : TlsTransport S X Y) (config : X) (s : S) (id : ℕ) (accepts : Accepts)
      → t.tls_server_config ≡ some config
      → rustls.new_server config ≡ some s
      → on_state plain (accept_connections rustls t id accepts)
        ≡ Accept.accept_connections (plain t) id accepts
  unfolding accept_connections Accept.accept_connections accept_found Accept.accept_found
  accept_connections-plain t config s id accepts c n = elim (Option-cases (lookup id t.listeners)) [
    | inl e ↦ simp e refl
    | inr (addr, e) ↦ simp e (accept_end-plain t config s id (collect accepts []) c n)
  ]
