-- ===== src/Tcp/Invariant/Primitives.antt =====
-- The steps from which the methods are made keep the invariant.
use rustcomm.Prelude.{
  ℕ, suc, ◌+◌, ◌≡◌, refl, inl, inr, Bool, true, false, some, arith, length, leb, Bool-cases,
  Option-cases,
}
use rustcomm.Table.{lookup, insert, contains_key, lookup-insert, lookup-remove}
use rustcomm.Transport.Types.{SocketAddr}
use rustcomm.Transport.Exit.{Leaves}
use rustcomm.Tcp.State.{
  Connection, TcpTransport, in_use, advance, advance_connection_id, track_spurious_wakeup,
  add_connection, drop_connection, reregister_if_changed,
}
use rustcomm.Table.Keys.{insert-Distinct, remove-Distinct}
use rustcomm.Tcp.Manage.{add_listener, drop_listener}
use rustcomm.Tcp.Ids.Cycle.{InRange}
use rustcomm.Tcp.Ids.Free.{advance_free}
use rustcomm.Tcp.Registered.{registered}
use rustcomm.Tcp.Invariant.Defs.{is_served, IsInStep, IsConsistent}

-- The counters and logs beside the sockets do not matter.
pub IsInStep-same :
    (t u : TcpTransport)
    → IsInStep t
    → u.connections ≡ t.connections
    → u.listeners ≡ t.listeners
    → u.calls ≡ t.calls
    → IsInStep u
unfolding in_use
IsInStep-same t u h p q r = record {
  in_step = λ j. rw (p, q, r) (h.in_step j);
  disjoint = λ j. rw (p, q) (h.disjoint j);
  in_range = λ j l. rw (p, q) (h.in_range j l);
  served = λ j. rw p (h.served j);
  one_connection = rw p h.one_connection;
  one_listener = rw q h.one_listener;
  accepted = rw r h.accepted;
}

pub track_spurious_wakeup-IsConsistent :
    {A : Type 0} (t : TcpTransport) (b : Bool) (a : A)
    → IsConsistent t
    → Leaves IsConsistent (track_spurious_wakeup t b a)
unfolding track_spurious_wakeup in_use
track_spurious_wakeup-IsConsistent t true a h =
    elim (Bool-cases (leb (t.spurious_wakeups + 1) t.max_spurious_wakeups)) [
      | inl e ↦ rw e (record {
        sockets = IsInStep-same t _ h.sockets refl refl refl;
        next_in_range = h.next_in_range;
        next_is_free = h.next_is_free;
      })
      | inr e ↦ rw e tt
    ]
track_spurious_wakeup-IsConsistent t false a h = record {
  sockets = IsInStep-same t _ h.sockets refl refl refl;
  next_in_range = h.next_in_range;
  next_is_free = h.next_is_free;
}

-- Whatever id is found next, it is a free one.
pub advance_connection_id-IsConsistent :
    {A : Type 0} (t : TcpTransport) (a : A)
    → IsInStep t
    → InRange t.next_id
    → Leaves IsConsistent (advance_connection_id t a)
unfolding advance_connection_id in_use
advance_connection_id-IsConsistent {A} t a h r =
    let fuel = suc (length t.listeners + length t.connections) in
    elim (Option-cases (advance fuel t t.next_id)) [
      | inl e ↦ rw e tt
      | inr (id, e) ↦
          let free = advance_free fuel t t.next_id id r e in
          rw e (record {
            sockets = IsInStep-same t (record t { next_id = id }) h refl refl refl;
            next_in_range = free.1;
            next_is_free = free.0;
          })
    ]

module _ (t : TcpTransport) (id : ℕ) (h : IsConsistent t) where
  -- A connection gives way to another; its socket is registered anew if the interest is another.
  pub replace-IsConsistent :
      (old conn : Connection)
      → lookup id t.connections ≡ some old
      → is_served conn ≡ true
      → IsConsistent (record t {
        connections = insert id conn t.connections;
        calls = reregister_if_changed id old.interest conn.interest t.calls;
      })
  unfolding in_use contains_key reregister_if_changed registered
  replace-IsConsistent old conn e s = record {
    sockets = record {
      in_step =
          λ j. ground (arith, h.in_step j, h.in_step id, e, lookup-insert id j conn t.connections);
      disjoint = λ j. ground (arith, h.disjoint j, e, lookup-insert id j conn t.connections);
      in_range = λ j l. ground (arith, h.in_range j l, e, lookup-insert id j conn t.connections);
      served = λ j. ground (arith, h.served j, s, lookup-insert id j conn t.connections);
      one_connection = insert-Distinct id conn t.connections h.one_connection;
      one_listener = h.one_listener;
      accepted = ground (arith, h.accepted, h.in_step id, e);
    };
    next_in_range = h.next_in_range;
    next_is_free = ground (arith, h.next_is_free, e, lookup-insert id t.next_id conn t.connections);
  }

  pub drop_connection-IsConsistent :
      (old : Connection) → lookup id t.connections ≡ some old → IsConsistent (drop_connection t id)
  unfolding in_use contains_key drop_connection registered
  drop_connection-IsConsistent old e = record {
    sockets = record {
      in_step = λ j. ground (arith, h.in_step j, h.disjoint j, e, lookup-remove id j t.connections);
      disjoint = λ j. ground (arith, h.disjoint j, lookup-remove id j t.connections);
      in_range = λ j l. ground (arith, h.in_range j l, lookup-remove id j t.connections);
      served = λ j. ground (arith, h.served j, lookup-remove id j t.connections);
      one_connection = remove-Distinct id t.connections h.one_connection;
      one_listener = h.one_listener;
      accepted = ground (arith, h.accepted, h.in_step id, e);
    };
    next_in_range = h.next_in_range;
    next_is_free = ground (arith, h.next_is_free, lookup-remove id t.next_id t.connections);
  }

  pub drop_listener-IsConsistent :
      (old : SocketAddr) → lookup id t.listeners ≡ some old → IsConsistent (drop_listener t id)
  unfolding in_use contains_key drop_listener registered
  drop_listener-IsConsistent old e = record {
    sockets = record {
      in_step = λ j. ground (arith, h.in_step j, h.disjoint j, e, lookup-remove id j t.listeners);
      disjoint = λ j. ground (arith, h.disjoint j, lookup-remove id j t.listeners);
      in_range = λ j l. ground (arith, h.in_range j l, lookup-remove id j t.listeners);
      served = h.served;
      one_connection = h.one_connection;
      one_listener = remove-Distinct id t.listeners h.one_listener;
      accepted = ground (arith, h.accepted, h.in_step id, e);
    };
    next_in_range = h.next_in_range;
    next_is_free = ground (arith, h.next_is_free, lookup-remove id t.next_id t.listeners);
  }

-- A new socket takes the next id.
pub add_connection-IsInStep :
    (t : TcpTransport) (conn : Connection)
    → IsConsistent t
    → is_served conn ≡ true
    → IsInStep (add_connection t t.next_id conn)
unfolding in_use contains_key add_connection registered
add_connection-IsInStep t conn h s = record {
  in_step = λ j.
      ground (arith, h.in_step j, h.next_is_free, lookup-insert t.next_id j conn t.connections);
  disjoint = λ j.
      ground (arith, h.disjoint j, h.next_is_free, lookup-insert t.next_id j conn t.connections);
  in_range = λ j l.
      ground (arith, h.in_range j l, h.next_in_range, lookup-insert t.next_id j conn t.connections);
  served = λ j. ground (arith, h.served j, s, lookup-insert t.next_id j conn t.connections);
  one_connection = insert-Distinct t.next_id conn t.connections h.one_connection;
  one_listener = h.one_listener;
  accepted = ground (arith, h.accepted, h.in_step t.next_id, h.next_is_free);
}

pub add_listener-IsInStep :
    (t : TcpTransport) (addr : SocketAddr)
    → IsConsistent t
    → IsInStep (add_listener t t.next_id addr)
unfolding in_use contains_key add_listener registered
add_listener-IsInStep t addr h = record {
  in_step =
      λ j. ground (arith, h.in_step j, h.next_is_free, lookup-insert t.next_id j addr t.listeners);
  disjoint =
      λ j. ground (arith, h.disjoint j, h.next_is_free, lookup-insert t.next_id j addr t.listeners);
  in_range = λ j l.
      ground (arith, h.in_range j l, h.next_in_range, lookup-insert t.next_id j addr t.listeners);
  served = h.served;
  one_connection = h.one_connection;
  one_listener = insert-Distinct t.next_id addr t.listeners h.one_listener;
  accepted = ground (arith, h.accepted, h.in_step t.next_id, h.next_is_free);
}
