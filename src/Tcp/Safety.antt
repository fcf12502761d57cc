-- ===== src/Tcp/Safety.antt =====
-- transport/tcp.rs: when serving an event of a connection stops the program, and when it does not.
use rustcomm.Prelude.{
  ℕ, ◌+◌, ◌-◌, ◌≤◌, ◌≡◌, inl, inr, Bool, true, false, not, ◌&&◌, ◌||◌, Option, none, some, arith,
  length, take, is_nil, leb, contains, ◌==◌, Bool-cases,
}
use rustcomm.Error.{ErrorKind}
use rustcomm.Table.{lookup, contains_key, is_some}
use rustcomm.Transport.Exit.{Exit, returned, raised, panicked, after}
use rustcomm.Tcp.State.{Connection, TcpTransport, track_spurious_wakeup, in_use, wake_id}
use rustcomm.Tcp.Read.{ReadLoop, read_end, read_found, read_connection}
use rustcomm.Tcp.Write.{
  Writes, WriteLoop, all_written, stopped, broken, out_of_range, establish, write_finish, write_end,
  write_established, write_found, write_connection,
}
use rustcomm.Tcp.Events.{
  PollEvent, Progress, handle_writable, after_read, handle_connection, handle_event,
}
use rustcomm.Tcp.Stream.Writing.{FitWrites, LoopSends, write_loop-Sends, SameBuf, establish-SameBuf}
use rustcomm.Tcp.Invariant.Defs.{IsConsistent}

abbrev pub Returns : {S A : Type 0} → Exit S A → Type 0
Returns (returned a s) = Unit
Returns (raised e s) = ⊥
Returns (panicked p) = ⊥

track-Returns :
    {A : Type 0} (t : TcpTransport) (b : Bool) (a : A)
    → t.spurious_wakeups + 1 ≤ t.max_spurious_wakeups
    → Returns (track_spurious_wakeup t b a)
unfolding track_spurious_wakeup
track-Returns t true a h =
    let ok : leb (t.spurious_wakeups + 1) t.max_spurious_wakeups ≡ true = ground arith in rw ok tt
track-Returns t false a h = tt

write_end-Returns :
    (t : TcpTransport) (id : ℕ) (old conn : Connection) (l : WriteLoop)
    → LoopSends id conn.send_buf 0 t.calls l
    → t.spurious_wakeups + 1 ≤ t.max_spurious_wakeups
    → Returns (write_end t id old conn l)
unfolding write_end write_finish
write_end-Returns t id old conn (all_written pos calls) s h =
    elim (Bool-cases (not old.connected && conn.connected)) [
      | inl c ↦ simp c tt
      | inr c ↦ simp c (track-Returns _ _ _ h)
    ]
write_end-Returns t id old conn (stopped pos calls) s h =
    elim (Bool-cases (not old.connected && conn.connected)) [
      | inl c ↦ simp c tt
      | inr c ↦ simp c (track-Returns _ _ _ h)
    ]
write_end-Returns t id old conn (broken calls) s h = tt
write_end-Returns t id old conn out_of_range s h = s

write_established-Returns :
    (t : TcpTransport) (id : ℕ) (old : Connection) (writes : Writes) (o : Option Connection)
    → SameBuf old.send_buf o
    → FitWrites (length old.send_buf) writes
    → t.spurious_wakeups + 1 ≤ t.max_spurious_wakeups
    → Returns (write_established t id old writes o)
unfolding write_established
write_established-Returns t id old writes none b fit h = tt
write_established-Returns t id old writes (some conn) b fit h =
    let all : length old.send_buf - 0 ≡ length old.send_buf = omega arith in
    simp b.1 (
      write_end-Returns t id old conn _
        (write_loop-Sends id conn.send_buf writes 0 t.calls (omega arith) (rw (b.0, all) fit)) h)

pub write_connection-Returns :
    (t : TcpTransport) (id : ℕ) (take_error : Option ErrorKind) (writes : Writes)
    (conn : Connection)
    → lookup id t.connections ≡ some conn
    → FitWrites (length conn.send_buf) writes
    → t.spurious_wakeups + 1 ≤ t.max_spurious_wakeups
    → Returns (write_connection t id take_error writes)
unfolding write_connection write_found
write_connection-Returns t id take_error writes conn e fit h = rw e (
    write_established-Returns t id conn writes (establish conn take_error)
      (establish-SameBuf conn take_error) fit h)

after-Returns :
    {A B : Type 0} (f : A → B) (m : Exit TcpTransport A)
    → Returns m
    → Returns (after m (λ r t'. returned (f r) t'))
after-Returns f (returned r t') k = tt
after-Returns f (raised error t') k = k
after-Returns f (panicked why) k = k

handle_writable-Returns :
    (t : TcpTransport) (e : PollEvent) (p : Progress) (conn : Connection)
    → lookup e.token t.connections ≡ some conn
    → FitWrites (length conn.send_buf) e.writes
    → t.spurious_wakeups + 1 ≤ t.max_spurious_wakeups
    → Returns (handle_writable t e p)
unfolding handle_writable
handle_writable-Returns t e p conn at fit h = elim (Bool-cases e.is_writable) [
  | inl w ↦ simp w (
      after-Returns _ (write_connection t e.token e.take_error e.writes)
        (write_connection-Returns t e.token e.take_error e.writes conn at fit h))
  | inr w ↦ simp w tt
]

-- Reading, and then the writable half of the event.
read_end-Returns :
    (t : TcpTransport) (e : PollEvent) (p : Progress) (conn : Connection) (l : ReadLoop)
    → lookup e.token t.connections ≡ some conn
    → FitWrites (length conn.send_buf) e.writes
    → t.spurious_wakeups + 2 ≤ t.max_spurious_wakeups
    → Returns (after (read_end t e.token l) (after_read e p))
unfolding read_end track_spurious_wakeup after_read
read_end-Returns t e p conn l at fit h = elim (Bool-cases l.disconnect) [
  | inl d ↦ simp d tt
  | inr d ↦ elim (Bool-cases (is_nil (take l.recv_pos l.recv_buf))) [
    | inl n ↦
        let ok : leb (t.spurious_wakeups + 1) t.max_spurious_wakeups ≡ true = ground arith in
        simp (d, n, ok) (handle_writable-Returns _ e _ conn at fit (omega arith))
    | inr n ↦ simp (d, n) (handle_writable-Returns _ e _ conn at fit (omega arith))
  ]
]

-- On a consistent transport, a readable or writable event of a connection that is established, or
-- of one that is not called readable, is served without a panic and without an error, as long as no
-- write takes more bytes than it is given and two more wakeups for nothing are allowed.
pub handle_event-Returns :
    (t : TcpTransport) (e : PollEvent) (p : Progress) (conn : Connection)
    → IsConsistent t
    → lookup e.token t.connections ≡ some conn
    → (e.is_readable || e.is_writable) ≡ true
    → (not e.is_readable || conn.connected) ≡ true
    → FitWrites (length conn.send_buf) e.writes
    → t.spurious_wakeups + 2 ≤ t.max_spurious_wakeups
    → Returns (handle_event t e p)
unfolding handle_event handle_connection read_connection read_found contains_key in_use
handle_event-Returns t e p conn h at ready early fit room =
    let no_wake : (e.token == wake_id) ≡ false = ground (arith, at, h.in_range e.token) in
    let no_listener : is_some (lookup e.token t.listeners) ≡ false =
      ground (arith, at, h.disjoint e.token) in
    elim (Bool-cases (contains p.disconnected_ids e.token)) [
      | inl gone ↦ simp (no_wake, no_listener, gone) tt
      | inr here ↦ elim (Bool-cases e.is_readable) [
        | inl r ↦
            let c : conn.connected ≡ true = ground arith in
            simp (no_wake, no_listener, here, at, r, c) (read_end-Returns t e p conn _ at fit room)
        | inr r ↦
            let w : e.is_writable ≡ true = ground arith in
            simp (no_wake, no_listener, here, at, r, w)
              (rw w at (handle_writable-Returns t e p conn at fit (omega arith)))
      ]
    ]
