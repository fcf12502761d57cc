-- ===== src/Tls/Invariant/Opening.antt =====
-- connect, listen and accept_connections keep the invariant.
use rustcomm.Prelude.{
  ℕ, ◌≡◌, refl, sym, subst, inl, inr, true, Option, none, some, List, [], ◌∷◌, arith, Option-cases,
  Bool-cases,
}
use rustcomm.Error.{ErrorKind, Result}
use rustcomm.Table.{is_some, lookup}
use rustcomm.Transport.Types.{SocketAddr, SocketAnswers}
use rustcomm.Transport.Exit.{Leaves, Leaves-question, Leaves-after}
use rustcomm.Tcp.Invariant.Defs.{IsInStep, IsConsistent}
use rustcomm.Tcp.Invariant.Primitives
use rustcomm.Tcp.Accept.{
  Stream, Accepts, Collected, streams, nodelay_error, listener_error, collect,
}
use rustcomm.Tls.Session.{Session, Rustls}
use rustcomm.Tls.State.{TlsTransport, add_connection}
use rustcomm.Tls.Plain.{plain}
use rustcomm.Tls.Manage.{
  connecting, connect, connect_with, connect_first, connect_session, add_listener, listen,
  listen_with, listen_first, drop_listener,
}
use rustcomm.Tls.Accept.{
  accepted_connection, new_session, accept_session, add_accepted, accept_end, accept_found,
  accept_connections,
}
use rustcomm.Tls.Agrees.{add_listener-plain, drop_listener-plain}
use rustcomm.Tls.Invariant.Defs.{IsSound, WaitsForClient}
use rustcomm.Tls.Invariant.Steps.{
  advance_connection_id-IsSound, add_connection-IsInStep, add_connection-AreSessionsServed,
  track_spurious_wakeup-IsSound,
}
use rustcomm.Tls.Invariant.Closing.{remaining_configured}

module _ {S X Y : Type 0} (rustls : Rustls S X Y) where
  connect_session-IsSound :
      (t : TlsTransport S X Y) (local_addr peer_addr : SocketAddr) (o : Option S)
      → IsSound rustls.session t
      → Leaves (IsSound rustls.session) (connect_session rustls t local_addr peer_addr o)
  unfolding connect_session add_connection
  connect_session-IsSound t local_addr peer_addr none h = h
  connect_session-IsSound t local_addr peer_addr (some s) h =
      let conn = connecting s local_addr peer_addr in
      advance_connection_id-IsSound rustls.session (add_connection t t.next_id conn)
        (t.next_id, peer_addr) (add_connection-IsInStep rustls.session t conn h refl)
        h.consistent.next_in_range
        (add_connection-AreSessionsServed rustls.session t t.next_id conn h.sessions (ground arith))

  connect_first-IsSound :
      (t : TlsTransport S X Y) (config : Y) (a : SocketAnswers) (addrs : List SocketAddr)
      → IsSound rustls.session t
      → Leaves (IsSound rustls.session) (connect_first rustls t config a addrs)
  unfolding connect_first
  connect_first-IsSound t config a [] h = tt
  connect_first-IsSound t config a (peer ∷ _) h =
      Leaves-question (IsSound rustls.session) a.opened _ h λ _.
        Leaves-question (IsSound rustls.session) a.nodelay _ h λ _.
          elim (Bool-cases rustls.localhost_is_valid) [
            | inl v ↦
                rw v (connect_session-IsSound t a.local_addr peer (rustls.new_client config) h)
            | inr v ↦ rw v h
          ]

  connect_with-IsSound :
      (t : TlsTransport S X Y) (resolved : Result ErrorKind (List SocketAddr)) (a : SocketAnswers)
      (o : Option Y)
      → IsSound rustls.session t
      → Leaves (IsSound rustls.session) (connect_with rustls t resolved a o)
  unfolding connect_with
  connect_with-IsSound t resolved a none h = h
  connect_with-IsSound t resolved a (some config) h =
      Leaves-question (IsSound rustls.session) resolved _ h
        λ addrs. connect_first-IsSound t config a addrs h

  pub connect-IsSound :
      (t : TlsTransport S X Y) (resolved : Result ErrorKind (List SocketAddr)) (a : SocketAnswers)
      → IsSound rustls.session t
      → Leaves (IsSound rustls.session) (connect rustls t resolved a)
  unfolding connect
  connect-IsSound t resolved a h = connect_with-IsSound t resolved a t.tls_client_config h

module _ {S X Y : Type 0} (session : Session S) (t : TlsTransport S X Y) where
  listen_first-IsSound :
      (a : SocketAnswers) (addrs : List SocketAddr)
      → IsSound session t
      → is_some t.tls_server_config ≡ true
      → Leaves (IsSound session) (listen_first t a addrs)
  unfolding listen_first add_listener
  listen_first-IsSound a [] h c = tt
  listen_first-IsSound a (requested ∷ _) h c = Leaves-question (IsSound session) a.opened _ h λ _.
      advance_connection_id-IsSound session (add_listener t t.next_id a.local_addr)
        (t.next_id, a.local_addr)
        (subst IsInStep (sym (add_listener-plain t t.next_id a.local_addr))
          (Primitives.add_listener-IsInStep (plain t) a.local_addr h.consistent))
        h.consistent.next_in_range
        (record { flushing = h.flushing; configured = ground (arith, c) })

  listen_with-IsSound :
      (resolved : Result ErrorKind (List SocketAddr)) (a : SocketAnswers) (o : Option X)
      → IsSound session t
      → t.tls_server_config ≡ o
      → Leaves (IsSound session) (listen_with t resolved a o)
  unfolding listen_with
  listen_with-IsSound resolved a none h c = h
  listen_with-IsSound resolved a (some config) h c =
      Leaves-question (IsSound session) resolved _ h
        λ addrs. listen_first-IsSound a addrs h (rw c refl)

  pub listen-IsSound :
      (resolved : Result ErrorKind (List SocketAddr)) (a : SocketAnswers)
      → IsSound session t
      → Leaves (IsSound session) (listen t resolved a)
  unfolding listen
  listen-IsSound resolved a h = listen_with-IsSound resolved a t.tls_server_config h refl

module _ {S X Y : Type 0} (rustls : Rustls S X Y) (waits : WaitsForClient rustls) where
  accept_session-IsSound :
      (t : TlsTransport S X Y) (stream : Stream) (o : Option X) (ids : List ℕ)
      → IsSound rustls.session t
      → Leaves (IsSound rustls.session) (accept_session rustls t stream (new_session rustls o) ids)
  unfolding accept_session add_connection
  accept_session-IsSound t stream none ids h = tt
  accept_session-IsSound t stream (some config) ids h =
      elim (Option-cases (rustls.new_server config)) [
        | inl e ↦ rw e h
        | inr (s, e) ↦
            let conn = accepted_connection s stream in
            rw e (
              advance_connection_id-IsSound rustls.session (add_connection t t.next_id conn) _
                (add_connection-IsInStep rustls.session t conn h refl) h.consistent.next_in_range
                (add_connection-AreSessionsServed rustls.session t t.next_id conn h.sessions
                  (ground (arith, waits config s e))))
      ]

  pub add_accepted-IsSound :
      (t : TlsTransport S X Y) (new : List Stream) (ids : List ℕ)
      → IsSound rustls.session t
      → Leaves (IsSound rustls.session) (add_accepted rustls t new ids)
  unfolding add_accepted
  add_accepted-IsSound t [] ids h = h
  add_accepted-IsSound t (stream ∷ rest) ids h =
      Leaves-after (IsSound rustls.session)
        (accept_session rustls t stream (new_session rustls t.tls_server_config) ids) _
        (accept_session-IsSound t stream t.tls_server_config ids h)
        λ ids' t' h'. add_accepted-IsSound t' rest ids' h'

  accept_end-IsSound :
      (t : TlsTransport S X Y) (id : ℕ) (addr : SocketAddr) (c : Collected)
      → IsSound rustls.session t
      → lookup id t.listeners ≡ some addr
      → Leaves (IsSound rustls.session) (accept_end rustls t id c)
  unfolding accept_end drop_listener
  accept_end-IsSound t id addr (streams new) h e =
      Leaves-after (IsSound rustls.session) (add_accepted rustls t new []) _
        (add_accepted-IsSound t new [] h)
        λ ids t' h'. track_spurious_wakeup-IsSound rustls.session t' _ ids h'
  accept_end-IsSound t id addr (nodelay_error kind) h e = h
  accept_end-IsSound t id addr (listener_error kind) h e = record {
    consistent =
        subst IsConsistent (sym (drop_listener-plain t id))
          (Primitives.drop_listener-IsConsistent (plain t) id h.consistent addr e);
    sessions = record {
      flushing = h.flushing;
      configured = remaining_configured rustls.session t id h.sessions;
    };
  }

  pub accept_connections-IsSound :
      (t : TlsTransport S X Y) (id : ℕ) (accepts : Accepts)
      → IsSound rustls.session t
      → Leaves (IsSound rustls.session) (accept_connections rustls t id accepts)
  unfolding accept_connections accept_found
  accept_connections-IsSound t id accepts h = elim (Option-cases (lookup id t.listeners)) [
    | inl e ↦ simp e tt
    | inr (addr, e) ↦ simp e (accept_end-IsSound t id addr (collect accepts []) h e)
  ]
