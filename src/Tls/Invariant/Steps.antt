-- ===== src/Tls/Invariant/Steps.antt =====
-- The steps from which the methods are made keep the invariant.
use rustcomm.Prelude.{ℕ, ◌≡◌, ◌∙◌, sym, ap, subst, Bool, true, some, arith}
use rustcomm.Table.{lookup, lookup-insert, lookup-remove}
use rustcomm.Table.Values.{map_option, lookup-map_values}
use rustcomm.Transport.Exit.{on_state, Exit, Leaves, Leaves-both}
use rustcomm.Tcp.Ids.Cycle.{InRange}
use rustcomm.Tcp.Invariant.Defs.{is_served, IsInStep, IsConsistent}
use rustcomm.Tcp.Invariant.Primitives
use rustcomm.Tls.Session.{Session}
use rustcomm.Tls.State.{
  Connection, TlsTransport, add_connection, drop_connection, put_connection, advance_connection_id,
  track_spurious_wakeup,
}
use rustcomm.Tls.Plain.{
  plain, plain_connection, Leaves-on_state, add_connection-plain, drop_connection-plain,
  put_connection-plain, advance_connection_id-plain, advance_connection_id-keeps,
  track_spurious_wakeup-plain, track_spurious_wakeup-keeps,
}
use rustcomm.Tls.Invariant.Defs.{is_flushing, AreSessionsServed, IsSound}

module _ {S X Y : Type 0} (session : Session S) where
  -- A method is followed on the plain transport and on the sessions.
  pub sound :
      {A : Type 0} (m : Exit (TlsTransport S X Y) A)
      → Leaves IsConsistent (on_state plain m)
      → Leaves (AreSessionsServed session) m
      → Leaves (IsSound session) m
  sound m h k =
      Leaves-both (λ t. IsConsistent (plain t)) (AreSessionsServed session) (IsSound session) m
        (λ t c s. record { consistent = c; sessions = s }) (Leaves-on_state plain IsConsistent m h)
        k

  pub lookup-plain :
      (t : TlsTransport S X Y) (id : ℕ) {conn : Connection S}
      → lookup id t.connections ≡ some conn
      → lookup id (plain t).connections ≡ some (plain_connection conn)
  lookup-plain t id e =
      lookup-map_values plain_connection id t.connections ∙ ap (map_option plain_connection) e

  pub advance_connection_id-IsSound :
      {A : Type 0} (t : TlsTransport S X Y) (a : A)
      → IsInStep (plain t)
      → InRange t.next_id
      → AreSessionsServed session t
      → Leaves (IsSound session) (advance_connection_id t a)
  advance_connection_id-IsSound t a h r s =
      sound (advance_connection_id t a)
        (subst (Leaves IsConsistent) (sym (advance_connection_id-plain t a))
          (Primitives.advance_connection_id-IsConsistent (plain t) a h r))
        (advance_connection_id-keeps (AreSessionsServed session) t a
          λ id. record { flushing = s.flushing; configured = s.configured })

  pub track_spurious_wakeup-IsSound :
      {A : Type 0} (t : TlsTransport S X Y) (b : Bool) (a : A)
      → IsSound session t
      → Leaves (IsSound session) (track_spurious_wakeup t b a)
  track_spurious_wakeup-IsSound t b a h =
      sound (track_spurious_wakeup t b a)
        (subst (Leaves IsConsistent) (sym (track_spurious_wakeup-plain t b a))
          (Primitives.track_spurious_wakeup-IsConsistent (plain t) b a h.consistent))
        (track_spurious_wakeup-keeps (AreSessionsServed session) t b a
          λ n. record { flushing = h.flushing; configured = h.configured })

  pub drop_connection-IsSound :
      (t : TlsTransport S X Y) (id : ℕ) (old : Connection S)
      → IsSound session t
      → lookup id t.connections ≡ some old
      → IsSound session (drop_connection t id)
  unfolding drop_connection
  drop_connection-IsSound t id old h e = record {
    consistent = subst IsConsistent (sym (drop_connection-plain t id)) (
        Primitives.drop_connection-IsConsistent (plain t) id h.consistent (plain_connection old)
          (lookup-plain t id e));
    sessions = record {
      flushing = λ j. ground (arith, h.flushing j, lookup-remove id j t.connections);
      configured = h.configured;
    };
  }

  -- `calls` are those of the methods before.
  pub put_connection-IsSound :
      (t : TlsTransport S X Y) (id : ℕ) (old conn : Connection S)
      → IsSound session t
      → lookup id t.connections ≡ some old
      → is_served (plain_connection conn) ≡ true
      → is_flushing session conn ≡ true
      → IsSound session (put_connection t id old conn)
  unfolding put_connection
  put_connection-IsSound t id old conn h e s f = record {
    consistent = subst IsConsistent (sym (put_connection-plain t id old conn)) (
        Primitives.replace-IsConsistent (plain t) id h.consistent (plain_connection old)
          (plain_connection conn) (lookup-plain t id e) s);
    sessions = record {
      flushing = λ j. ground (arith, h.flushing j, f, lookup-insert id j conn t.connections);
      configured = h.configured;
    };
  }

  pub add_connection-IsInStep :
      (t : TlsTransport S X Y) (conn : Connection S)
      → IsSound session t
      → is_served (plain_connection conn) ≡ true
      → IsInStep (plain (add_connection t t.next_id conn))
  add_connection-IsInStep t conn h s =
      subst IsInStep (sym (add_connection-plain t t.next_id conn))
        (Primitives.add_connection-IsInStep (plain t) (plain_connection conn) h.consistent s)

  pub add_connection-AreSessionsServed :
      (t : TlsTransport S X Y) (id : ℕ) (conn : Connection S)
      → AreSessionsServed session t
      → is_flushing session conn ≡ true
      → AreSessionsServed session (add_connection t id conn)
  unfolding add_connection
  add_connection-AreSessionsServed t id conn h f = record {
    flushing = λ j. ground (arith, h.flushing j, f, lookup-insert id j conn t.connections);
    configured = h.configured;
  }
