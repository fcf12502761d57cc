-- ===== src/Tls/Invariant/Closing.antt =====
-- close, shutdown and the data operations keep the invariant.
use rustcomm.Prelude.{
  ℕ, ◌||◌, is_nil, ◌≡◌, refl, sym, subst, inl, inr, true, Option, none, some, List, [], ◌∷◌, arith,
  Option-cases,
}
use rustcomm.Table.{Table, is_some, lookup, remove, lookup-empty}
use rustcomm.Transport.Types.{Shutdown}
use rustcomm.Tcp.Invariant.Defs.{IsConsistent}
use rustcomm.Tcp.Invariant.Closing
use rustcomm.Tcp.Invariant.Opening
use rustcomm.Tcp.Send.{split_last}
use rustcomm.Tls.Session.{Session}
use rustcomm.Tls.State.{Connection, TlsTransport, queue_data}
use rustcomm.Tls.Manage.{
  close_connection, close_all_connections, shutdown_connection, shutdown_all_connections,
  drop_listener, close_listener, close_all_listeners, close_all,
}
use rustcomm.Tls.Send.{queue_each, queue_split, queue_to}
use rustcomm.Tls.Agrees.{
  close_all_connections-plain, shutdown_connection-plain, shutdown_all_connections-plain,
  close_listener-plain, close_all_listeners-plain,
}
use rustcomm.Tls.Invariant.Defs.{AreSessionsServed, IsSound}
use rustcomm.Tls.Invariant.Steps.{lookup-plain, drop_connection-IsSound, put_connection-IsSound}

is_nil-remove :
    {V : Type 0} (id : ℕ) (table : Table V) → is_nil table ≡ true → is_nil (remove id table) ≡ true
unfolding remove
is_nil-remove id [] h = refl
is_nil-remove id (entry ∷ table) h = cc

pub remaining_configured :
    {S X Y : Type 0} (session : Session S) (t : TlsTransport S X Y) (id : ℕ)
    → AreSessionsServed session t
    → is_nil (remove id t.listeners) || is_some t.tls_server_config ≡ true
remaining_configured session t id h = ground (arith, h.configured, is_nil-remove id t.listeners)

module _ {S X Y : Type 0} (session : Session S) (t : TlsTransport S X Y)
    (h : IsSound session t) where
  pub close_connection-IsSound : (id : ℕ) → IsSound session (close_connection t id)
  unfolding close_connection
  close_connection-IsSound id = elim (Option-cases (lookup id t.connections)) [
    | inl e ↦ simp e h
    | inr (conn, e) ↦ simp e (drop_connection-IsSound session t id conn h e)
  ]

  pub close_all_connections-IsSound : IsSound session (close_all_connections t)
  unfolding close_all_connections
  close_all_connections-IsSound = record {
    consistent =
        subst IsConsistent (sym (close_all_connections-plain t))
          (Closing.close_all_connections-IsConsistent _ h.consistent);
    sessions = record {
      flushing = λ j. ground (arith, lookup-empty {V = Connection S} j);
      configured = h.configured;
    };
  }

  pub shutdown_connection-IsSound :
      (id : ℕ) (how : Shutdown) → IsSound session (shutdown_connection t id how)
  unfolding shutdown_connection
  shutdown_connection-IsSound id how = record {
    consistent =
        subst IsConsistent (sym (shutdown_connection-plain t id how))
          (Opening.shutdown_connection-IsConsistent _ id how h.consistent);
    sessions = elim (Option-cases (lookup id t.connections)) [
      | inl e ↦ simp e h.sessions
      | inr (conn, e) ↦ simp e (record { flushing = h.flushing; configured = h.configured })
    ];
  }

  pub shutdown_all_connections-IsSound :
      (how : Shutdown) → IsSound session (shutdown_all_connections t how)
  unfolding shutdown_all_connections
  shutdown_all_connections-IsSound how = record {
    consistent =
        subst IsConsistent (sym (shutdown_all_connections-plain t how))
          (Opening.shutdown_all_connections-IsConsistent _ how h.consistent);
    sessions = record { flushing = h.flushing; configured = h.configured };
  }

  pub close_listener-IsSound : (id : ℕ) → IsSound session (close_listener t id)
  unfolding close_listener drop_listener
  close_listener-IsSound id = record {
    consistent =
        subst IsConsistent (sym (close_listener-plain t id))
          (Closing.close_listener-IsConsistent _ id h.consistent);
    sessions = elim (Option-cases (lookup id t.listeners)) [
      | inl e ↦ simp e h.sessions
      | inr (addr, e) ↦ simp e (record {
        flushing = h.flushing;
        configured = remaining_configured session t id h.sessions;
      })
    ];
  }

  pub close_all_listeners-IsSound : IsSound session (close_all_listeners t)
  unfolding close_all_listeners
  close_all_listeners-IsSound = record {
    consistent =
        subst IsConsistent (sym (close_all_listeners-plain t))
          (Closing.close_all_listeners-IsConsistent _ h.consistent);
    sessions = record { flushing = h.flushing; configured = refl };
  }

  -- Whatever is queued, the connection asks for room to write.
  pub queue_data-IsSound : (id : ℕ) (buf : List ℕ) → IsSound session (queue_data t id buf)
  unfolding queue_data
  queue_data-IsSound id buf = elim (Option-cases (lookup id t.connections)) [
    | inl e ↦ simp e h
    | inr (conn, e) ↦ simp e (
        put_connection-IsSound session t id conn _ h e
          (ground (arith, h.consistent.served id, lookup-plain session t id e)) (ground arith))
  ]

module _ {S X Y : Type 0} (session : Session S) where
  pub close_all-IsSound :
      (t : TlsTransport S X Y) → IsSound session t → IsSound session (close_all t)
  unfolding close_all
  close_all-IsSound t h =
      close_all_connections-IsSound session (close_all_listeners t)
        (close_all_listeners-IsSound session t h)

  queue_each-IsSound :
      (t : TlsTransport S X Y) (ids buf : List ℕ)
      → IsSound session t
      → IsSound session (queue_each t ids buf)
  unfolding queue_each
  queue_each-IsSound t [] buf h = h
  queue_each-IsSound t (id ∷ ids) buf h =
      queue_each-IsSound (queue_data t id buf) ids buf (queue_data-IsSound session t h id buf)

  queue_split-IsSound :
      (t : TlsTransport S X Y) (buf : List ℕ) (o : Option (List ℕ × ℕ))
      → IsSound session t
      → IsSound session (queue_split t buf o)
  unfolding queue_split
  queue_split-IsSound t buf none h = h
  queue_split-IsSound t buf (some (rest, last)) h =
      queue_data-IsSound session _ (queue_each-IsSound t rest buf h) last buf

  pub queue_to-IsSound :
      (t : TlsTransport S X Y) (ids buf : List ℕ)
      → IsSound session t
      → IsSound session (queue_to t ids buf)
  unfolding queue_to
  queue_to-IsSound t ids buf h = queue_split-IsSound t buf (split_last ids) h
