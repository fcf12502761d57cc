-- ===== src/Tcp/Invariant/Opening.antt =====
-- connect, listen, shutdown and the data operations keep the invariant.
use rustcomm.Prelude.{
  contains, ℕ, ◌≡◌, refl, inl, inr, true, Option, none, some, List, [], ◌∷◌, arith, Option-cases,
}
use rustcomm.Error.{ErrorKind, Result}
use rustcomm.Table.{lookup, keys, is_some}
use rustcomm.Table.Keys.{contains-keys}
use rustcomm.Transport.Types.{SocketAddr, SocketAnswers, Shutdown}
use rustcomm.Transport.Exit.{Leaves, Leaves-question}
use rustcomm.Tcp.State.{TcpTransport, Call, shutdown, wrote, in_use, add_connection, queue_data}
use rustcomm.Tcp.Manage.{
  connect, connect_first, listen, listen_first, connecting, add_listener, shutdown_connection,
  shutdown_all, shutdown_all_connections,
}
use rustcomm.Tcp.Send.{queue_each, queue_to, queue_split, split_last}
use rustcomm.Tcp.Registered.{registered, AreAccepted}
use rustcomm.Tcp.Invariant.Defs.{IsConsistent}
use rustcomm.Tcp.Invariant.Primitives.{
  add_connection-IsInStep, add_listener-IsInStep, advance_connection_id-IsConsistent,
  replace-IsConsistent,
}

connect_first-IsConsistent :
    (t : TcpTransport) (a : SocketAnswers) (addrs : List SocketAddr)
    → IsConsistent t
    → Leaves IsConsistent (connect_first t a addrs)
unfolding connect_first add_connection
connect_first-IsConsistent t a [] h = tt
connect_first-IsConsistent t a (peer ∷ _) h = Leaves-question IsConsistent a.opened _ h λ _.
    Leaves-question IsConsistent a.nodelay _ h λ _.
      advance_connection_id-IsConsistent (add_connection t t.next_id (connecting a.local_addr peer))
        (t.next_id, peer) (add_connection-IsInStep t (connecting a.local_addr peer) h refl)
        h.next_in_range

pub connect-IsConsistent :
    (t : TcpTransport) (resolved : Result ErrorKind (List SocketAddr)) (a : SocketAnswers)
    → IsConsistent t
    → Leaves IsConsistent (connect t resolved a)
unfolding connect
connect-IsConsistent t resolved a h =
    Leaves-question IsConsistent resolved _ h λ addrs. connect_first-IsConsistent t a addrs h

listen_first-IsConsistent :
    (t : TcpTransport) (a : SocketAnswers) (addrs : List SocketAddr)
    → IsConsistent t
    → Leaves IsConsistent (listen_first t a addrs)
unfolding listen_first add_listener
listen_first-IsConsistent t a [] h = tt
listen_first-IsConsistent t a (requested ∷ _) h = Leaves-question IsConsistent a.opened _ h λ _.
    advance_connection_id-IsConsistent (add_listener t t.next_id a.local_addr)
      (t.next_id, a.local_addr) (add_listener-IsInStep t a.local_addr h) h.next_in_range

pub listen-IsConsistent :
    (t : TcpTransport) (resolved : Result ErrorKind (List SocketAddr)) (a : SocketAnswers)
    → IsConsistent t
    → Leaves IsConsistent (listen t resolved a)
unfolding listen
listen-IsConsistent t resolved a h =
    Leaves-question IsConsistent resolved _ h λ addrs. listen_first-IsConsistent t a addrs h

-- A call that leaves the registrations as they are.
quiet-IsConsistent :
    (t : TcpTransport) (calls : List Call)
    → IsConsistent t
    → ((j : ℕ) → registered calls j ≡ registered t.calls j)
    → AreAccepted calls
    → IsConsistent (record t { calls = calls })
unfolding in_use
quiet-IsConsistent t calls h same a = record {
  sockets = record {
    in_step = λ j. rw (same j) (h.in_step j);
    disjoint = h.disjoint;
    in_range = h.in_range;
    served = h.served;
    one_connection = h.one_connection;
    one_listener = h.one_listener;
    accepted = a;
  };
  next_in_range = h.next_in_range;
  next_is_free = h.next_is_free;
}

pub wrote-IsConsistent :
    (t : TcpTransport) (id : ℕ) (bytes : List ℕ)
    → IsConsistent t
    → is_some (lookup id t.connections) ≡ true
    → IsConsistent (record t { calls = wrote id bytes ∷ t.calls })
unfolding registered
wrote-IsConsistent t id bytes h e =
    quiet-IsConsistent t (wrote id bytes ∷ t.calls) h (λ j. refl)
      (ground (arith, h.in_step id), h.accepted)

pub shutdown_connection-IsConsistent :
    (t : TcpTransport) (id : ℕ) (how : Shutdown)
    → IsConsistent t
    → IsConsistent (shutdown_connection t id how)
unfolding shutdown_connection registered
shutdown_connection-IsConsistent t id how h = elim (Option-cases (lookup id t.connections)) [
  | inl e ↦ rw e h
  | inr (conn, e) ↦ rw e (
      quiet-IsConsistent t (shutdown id how ∷ t.calls) h (λ j. refl)
        (ground (arith, h.in_step id), h.accepted))
]

registered-shutdown_all :
    (ids : List ℕ) (how : Shutdown) (calls : List Call) (j : ℕ)
    → registered (shutdown_all ids how calls) j ≡ registered calls j
unfolding registered shutdown_all
registered-shutdown_all [] how calls j = refl
registered-shutdown_all (i ∷ ids) how calls j =
    registered-shutdown_all ids how (shutdown i how ∷ calls) j

shutdown_all-AreAccepted :
    (ids : List ℕ) (how : Shutdown) (calls : List Call)
    → ((j : ℕ) → contains ids j ≡ true → is_some (registered calls j) ≡ true)
    → AreAccepted calls
    → AreAccepted (shutdown_all ids how calls)
unfolding shutdown_all contains registered
shutdown_all-AreAccepted [] how calls known a = a
shutdown_all-AreAccepted (i ∷ ids) how calls known a =
    shutdown_all-AreAccepted ids how (shutdown i how ∷ calls) (λ j m. known j (ground arith))
      (known i (ground arith), a)

pub shutdown_all_connections-IsConsistent :
    (t : TcpTransport) (how : Shutdown)
    → IsConsistent t
    → IsConsistent (shutdown_all_connections t how)
unfolding shutdown_all_connections
shutdown_all_connections-IsConsistent t how h =
    quiet-IsConsistent t (shutdown_all (keys t.connections) how t.calls) h
      (registered-shutdown_all (keys t.connections) how t.calls)
      (shutdown_all-AreAccepted (keys t.connections) how t.calls
        (λ j m. ground (arith, h.in_step j, contains-keys j t.connections)) h.accepted)

pub queue_data-IsConsistent :
    (t : TcpTransport) (id : ℕ) (buf : List ℕ) → IsConsistent t → IsConsistent (queue_data t id buf)
unfolding queue_data
queue_data-IsConsistent t id buf h = elim (Option-cases (lookup id t.connections)) [
  | inl e ↦ rw e h
  | inr (conn, e) ↦ rw e (replace-IsConsistent t id h conn _ e (ground arith))
]

queue_each-IsConsistent :
    (t : TcpTransport) (ids buf : List ℕ) → IsConsistent t → IsConsistent (queue_each t ids buf)
unfolding queue_each
queue_each-IsConsistent t [] buf h = h
queue_each-IsConsistent t (id ∷ ids) buf h =
    queue_each-IsConsistent (queue_data t id buf) ids buf (queue_data-IsConsistent t id buf h)

pub queue_to-IsConsistent :
    (t : TcpTransport) (ids buf : List ℕ) → IsConsistent t → IsConsistent (queue_to t ids buf)
unfolding queue_to
queue_to-IsConsistent t ids buf h = split (split_last ids)
  where
    split : (o : Option (List ℕ × ℕ)) → IsConsistent (queue_split t buf o)
    split none = h
    split (some (rest, last)) =
        queue_data-IsConsistent _ last buf (queue_each-IsConsistent t rest buf h)
