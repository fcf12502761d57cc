-- ===== src/Tcp/Spurious.antt =====
-- transport/tcp.rs: an empty buffer that is sent.
use rustcomm.Prelude.{
  ℕ, ◌+◌, ◌≡◌, refl, ap, ◌∙◌, inl, inr, true, false, Option, some, List, [], ◌++◌, arith, contains,
  leb, ◌==◌, ==_refl, if◌then◌else◌, Bool-cases, Option-cases,
}
use rustcomm.Table.{lookup, contains_key, is_some, insert}
use rustcomm.Transport.Exit.{returned, panicked, too_many_spurious_wakeups}
use rustcomm.Error.{ErrorKind}
use rustcomm.Tcp.State.{
  Call, Connection, TcpTransport, queue_data, in_use, wake_id, track_spurious_wakeup,
  reregister_if_changed,
}
use rustcomm.Transport.Types.{readable}
use rustcomm.Tcp.Send.{send_to}
use rustcomm.Tcp.Write.{
  Writes, took, full, write_error, write_loop, all_written, write_ok, write_connection, write_found,
  write_established, establish, write_end, write_finish,
}
use rustcomm.Tcp.Events.{PollEvent, Progress, handle_writable, handle_connection, handle_event}
use rustcomm.Tcp.Stream.Sending.{queued, lookup-queue_data}
use rustcomm.Tcp.Invariant.Defs.{IsConsistent}
use rustcomm.Tcp.Invariant.Opening.{queue_data-IsConsistent}

-- With nothing to send, the loop ends at once, whatever the socket would answer.
write_loop-empty :
    (id : ℕ) (writes : Writes) (calls : List Call)
    → write_loop id [] writes 0 calls ≡ all_written 0 calls
unfolding write_loop
write_loop-empty id (took sz rest) calls = refl
write_loop-empty id full calls = refl
write_loop-empty id (write_error kind) calls = refl

-- The connection listens for data only.
abbrev pub quiet : TcpTransport → ℕ → Connection → TcpTransport
quiet t id conn = record t {
  connections = insert id (record conn { interest = readable }) t.connections;
  calls = reregister_if_changed id conn.interest readable t.calls;
}

write_connection-empty :
    (t : TcpTransport) (id : ℕ) (conn : Connection) (take_error : Option ErrorKind)
    (writes : Writes)
    → lookup id t.connections ≡ some conn
    → conn.connected ≡ true
    → conn.send_buf ≡ []
    → write_connection t id take_error writes
      ≡ track_spurious_wakeup (quiet t id conn) true write_ok
unfolding write_connection write_found write_established establish write_end write_finish
write_connection-empty t id conn take_error writes at c empty =
    simp (at, c, empty, write_loop-empty id writes t.calls) refl

queue_data-wakeups :
    (t : TcpTransport) (id : ℕ) (buf : List ℕ)
    → ((queue_data t id buf).spurious_wakeups ≡ t.spurious_wakeups)
      × ((queue_data t id buf).max_spurious_wakeups ≡ t.max_spurious_wakeups)
unfolding queue_data
queue_data-wakeups t id buf = elim (Option-cases (lookup id t.connections)) [
  | inl e ↦ rw e (refl, refl)
  | inr (conn, e) ↦ rw e (refl, refl)
]

-- On a consistent transport, an empty buffer is sent to an established connection with nothing to
-- send: then an event that calls the socket writable and not readable, in a poll that has not
-- dropped the connection, counts as a spurious wakeup, and it stops the program when as many as are
-- allowed came before it.
pub send_to-empty :
    (t : TcpTransport) (id : ℕ) (conn : Connection) (e : PollEvent) (p : Progress)
    → IsConsistent t
    → lookup id t.connections ≡ some conn
    → conn.connected ≡ true
    → conn.send_buf ≡ []
    → e.token ≡ id
    → e.is_readable ≡ false
    → e.is_writable ≡ true
    → contains p.disconnected_ids id ≡ false
    → handle_event (send_to t id []) e p ≡ (
        if leb (t.spurious_wakeups + 1) t.max_spurious_wakeups
        then returned p (record (quiet (send_to t id []) id (queued [] conn)) {
          spurious_wakeups = t.spurious_wakeups + 1;
        })
        else panicked too_many_spurious_wakeups)
unfolding send_to handle_event handle_connection handle_writable contains_key in_use
    track_spurious_wakeup
send_to-empty t id conn e p h at c empty token r w fresh =
    let u = queue_data t id [] in
    let k = queue_data-IsConsistent t id [] h in
    let at' : lookup id u.connections ≡ some (queued [] conn) =
      lookup-queue_data t id id [] ∙ rw (==_refl id, at) in
    let no_wake : (id == wake_id) ≡ false = ground (arith, at', k.in_range id) in
    let no_listener : is_some (lookup id u.listeners) ≡ false =
      ground (arith, at', k.disjoint id) in
    let written =
      write_connection-empty u id (queued [] conn) e.take_error e.writes at' c
        (ap (λ (xs : List ℕ). xs ++ []) empty) in
    let same = queue_data-wakeups t id [] in
    elim (Bool-cases (leb (t.spurious_wakeups + 1) t.max_spurious_wakeups)) [
      | inl ok ↦
          rw token (simp (no_wake, no_listener, fresh, at', r, w, written, same.0, same.1, ok) refl)
      | inr ok ↦
          rw token (simp (no_wake, no_listener, fresh, at', r, w, written, same.0, same.1, ok) refl)
    ]
