-- ===== src/Tcp/Early.antt =====
-- transport/tcp.rs: data queued on a connection that is still being established.
use rustcomm.Prelude.{ℕ, ◌≡◌, ◌∙◌, true, false, some, List, arith, contains, ◌==◌, ==_refl}
use rustcomm.Table.{lookup, contains_key, is_some}
use rustcomm.Transport.Types.{read_write}
use rustcomm.Transport.Exit.{panicked, not_connected}
use rustcomm.Tcp.State.{Connection, TcpTransport, queue_data, in_use, wake_id}
use rustcomm.Tcp.Send.{send_to}
use rustcomm.Tcp.Read.{read_connection, read_found}
use rustcomm.Tcp.Events.{PollEvent, Progress, handle_connection, handle_event}
use rustcomm.Tcp.Stream.Sending.{queued, lookup-queue_data}
use rustcomm.Tcp.Registered.{registered}
use rustcomm.Tcp.Invariant.Defs.{IsConsistent}
use rustcomm.Tcp.Invariant.Opening.{queue_data-IsConsistent}

-- A readable event for a connection that is not established stops the program.
readable-before_established :
    (t : TcpTransport) (conn : Connection) (e : PollEvent) (p : Progress)
    → IsConsistent t
    → lookup e.token t.connections ≡ some conn
    → conn.connected ≡ false
    → e.is_readable ≡ true
    → contains p.disconnected_ids e.token ≡ false
    → handle_event t e p ≡ panicked not_connected
unfolding handle_event handle_connection read_connection read_found contains_key in_use
readable-before_established t conn e p h at early r fresh =
    let no_wake : (e.token == wake_id) ≡ false = ground (arith, at, h.in_range e.token) in
    let no_listener : is_some (lookup e.token t.listeners) ≡ false =
      ground (arith, at, h.disjoint e.token) in
    simp (no_wake, no_listener, fresh, at, r, early)

-- On a consistent transport, bytes sent on a connection that is not established register its socket
-- for READABLE as well, and an event that calls the socket readable, in a poll that has not dropped
-- the connection, stops the program at assert!(conn.connected).
pub send_to-before_established :
    (t : TcpTransport) (id : ℕ) (conn : Connection) (buf : List ℕ) (e : PollEvent) (p : Progress)
    → IsConsistent t
    → lookup id t.connections ≡ some conn
    → conn.connected ≡ false
    → e.token ≡ id
    → e.is_readable ≡ true
    → contains p.disconnected_ids id ≡ false
    → (registered (send_to t id buf).calls id ≡ some read_write)
      × (handle_event (send_to t id buf) e p ≡ panicked not_connected)
unfolding send_to
send_to-before_established t id conn buf e p h at early token r fresh =
    let u = queue_data t id buf in
    let k = queue_data-IsConsistent t id buf h in
    let at' : lookup id u.connections ≡ some (queued buf conn) =
      lookup-queue_data t id id buf ∙ rw (==_refl id, at) in
    (
      k.in_step id ∙ rw at',
      readable-before_established u (queued buf conn) e p k (rw token at') early r (rw token fresh),
    )
