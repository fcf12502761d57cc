-- ===== src/Tcp/Invariant/Closing.antt =====
-- close_connection, close_listener and the three that close everything keep the invariant.
use rustcomm.Prelude.{
  contains, Distinct, ℕ, ◌≡◌, refl, inl, inr, true, none, List, [], ◌∷◌, arith, if◌then◌else◌,
  Option-cases,
}
use rustcomm.Table.{lookup, keys, contains_key, is_some, lookup-empty}
use rustcomm.Table.Keys.{contains-keys}
use rustcomm.Transport.Types.{SocketAddr}
use rustcomm.Tcp.State.{Connection, TcpTransport, Call, deregister, in_use}
use rustcomm.Tcp.Manage.{
  close_connection, close_listener, deregister_all, close_all_connections, close_all_listeners,
  close_all,
}
use rustcomm.Tcp.Registered.{registered, AreAccepted}
use rustcomm.Tcp.Invariant.Defs.{IsConsistent}
use rustcomm.Tcp.Invariant.Primitives.{drop_connection-IsConsistent, drop_listener-IsConsistent}

registered-deregister_all :
    (ids : List ℕ) (calls : List Call) (j : ℕ)
    → registered (deregister_all ids calls) j
      ≡ (if contains ids j then none else registered calls j)
unfolding registered deregister_all contains
registered-deregister_all [] calls j = refl
registered-deregister_all (i ∷ ids) calls j =
    ground (arith, registered-deregister_all ids (deregister i ∷ calls) j)

deregister_all-AreAccepted :
    (ids : List ℕ) (calls : List Call)
    → Distinct ids
    → ((j : ℕ) → contains ids j ≡ true → is_some (registered calls j) ≡ true)
    → AreAccepted calls
    → AreAccepted (deregister_all ids calls)
unfolding deregister_all contains registered
deregister_all-AreAccepted [] calls d known a = a
deregister_all-AreAccepted (i ∷ ids) calls d known a =
    deregister_all-AreAccepted ids (deregister i ∷ calls) d.1 (λ j m. ground (arith, known j, d.0))
      (known i (ground arith), a)

pub close_connection-IsConsistent :
    (t : TcpTransport) (id : ℕ) → IsConsistent t → IsConsistent (close_connection t id)
unfolding close_connection
close_connection-IsConsistent t id h = elim (Option-cases (lookup id t.connections)) [
  | inl e ↦ rw e h
  | inr (conn, e) ↦ rw e (drop_connection-IsConsistent t id h conn e)
]

pub close_listener-IsConsistent :
    (t : TcpTransport) (id : ℕ) → IsConsistent t → IsConsistent (close_listener t id)
unfolding close_listener
close_listener-IsConsistent t id h = elim (Option-cases (lookup id t.listeners)) [
  | inl e ↦ rw e h
  | inr (addr, e) ↦ rw e (drop_listener-IsConsistent t id h addr e)
]

pub close_all_connections-IsConsistent :
    (t : TcpTransport) → IsConsistent t → IsConsistent (close_all_connections t)
unfolding close_all_connections in_use contains_key keys
close_all_connections-IsConsistent t h =
    let ids = keys t.connections in
    record {
      sockets = record {
        in_step = λ j. ground (
          arith,
          h.in_step j,
          h.disjoint j,
          lookup-empty {V = Connection} j,
          contains-keys j t.connections,
          registered-deregister_all ids t.calls j,
        );
        disjoint = λ j. ground (arith, lookup-empty {V = Connection} j);
        in_range = λ j l. ground (arith, h.in_range j l, lookup-empty {V = Connection} j);
        served = λ j. ground (arith, lookup-empty {V = Connection} j);
        one_connection = tt;
        one_listener = h.one_listener;
        accepted =
            deregister_all-AreAccepted ids t.calls h.one_connection
              (λ j m. ground (arith, h.in_step j, contains-keys j t.connections)) h.accepted;
      };
      next_in_range = h.next_in_range;
      next_is_free = ground (arith, h.next_is_free, lookup-empty {V = Connection} t.next_id);
    }

pub close_all_listeners-IsConsistent :
    (t : TcpTransport) → IsConsistent t → IsConsistent (close_all_listeners t)
unfolding close_all_listeners in_use contains_key keys
close_all_listeners-IsConsistent t h =
    let ids = keys t.listeners in
    record {
      sockets = record {
        in_step = λ j. ground (
          arith,
          h.in_step j,
          h.disjoint j,
          lookup-empty {V = SocketAddr} j,
          contains-keys j t.listeners,
          registered-deregister_all ids t.calls j,
        );
        disjoint = λ j. ground (arith, lookup-empty {V = SocketAddr} j);
        in_range = λ j l. ground (arith, h.in_range j l, lookup-empty {V = SocketAddr} j);
        served = h.served;
        one_connection = h.one_connection;
        one_listener = tt;
        accepted =
            deregister_all-AreAccepted ids t.calls h.one_listener
              (λ j m. ground (arith, h.in_step j, h.disjoint j, contains-keys j t.listeners))
              h.accepted;
      };
      next_in_range = h.next_in_range;
      next_is_free = ground (arith, h.next_is_free, lookup-empty {V = SocketAddr} t.next_id);
    }

pub close_all-IsConsistent : (t : TcpTransport) → IsConsistent t → IsConsistent (close_all t)
unfolding close_all
close_all-IsConsistent t h =
    close_all_connections-IsConsistent (close_all_listeners t)
      (close_all_listeners-IsConsistent t h)
