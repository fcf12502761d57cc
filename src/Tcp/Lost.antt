-- ===== src/Tcp/Lost.antt =====
-- transport/tcp.rs, fetch_events: an error of accept() after data that the same poll has brought.
use rustcomm.Prelude.{
  ℕ, ◌+◌, ◌≡◌, ◌∙◌, ap, refl, inl, inr, true, false, not, ◌&&◌, Option, none, some, [], ◌∷◌, arith,
  is_nil, contains, ◌==◌, leb, Bool-cases, Option-cases, if◌then◌else◌,
}
use rustcomm.Error.{ErrorKind, io, ok}
use rustcomm.Table.{lookup, contains_key, is_some}
use rustcomm.Transport.Types.{SocketAddr}
use rustcomm.Transport.Exit.{Exit, returned, raised, panicked, after, Leaves}
use rustcomm.Tcp.State.{
  Connection, TcpTransport, in_use, wake_id, drop_connection, track_spurious_wakeup,
}
use rustcomm.Tcp.Manage.{drop_listener}
use rustcomm.Tcp.Accept.{accept_error, accept_connections, collect}
use rustcomm.Tcp.Write.{
  Writes, WriteLoop, all_written, stopped, broken, out_of_range, WriteConnectionResult,
  write_finish, write_end, write_established, write_found, write_connection,
}
use rustcomm.Tcp.Events.{
  PollEvent, Progress, RoundEnd, push_data, after_read, after_write, handle_writable,
  handle_connection, handle_event, handle_events, poll_round,
}
use rustcomm.Tcp.ReadBuffer.{arrived, ends, FitReads, read_connection-arrived}
use rustcomm.Tcp.Invariant.Defs.{IsConsistent}

abbrev pub none_yet : Progress
none_yet = record { dispatch_events = []; disconnected_ids = [] }

-- The listeners are those of `t`.
abbrev KeepsListeners : {A : Type 0} → TcpTransport → Exit TcpTransport A → Type 0
KeepsListeners t m = Leaves (λ t'. t'.listeners ≡ t.listeners) m

write_finish-KeepsListeners :
    (t : TcpTransport) (id : ℕ) (old conn : Connection) (send_pos : ℕ)
    → KeepsListeners t (write_finish t id old conn send_pos)
unfolding write_finish track_spurious_wakeup
write_finish-KeepsListeners t id old conn send_pos =
    elim (Bool-cases (not old.connected && conn.connected)) [
      | inl c ↦ rw c refl
      | inr c ↦ elim (Bool-cases (send_pos == 0)) [
        | inl z ↦ elim (Bool-cases (leb (t.spurious_wakeups + 1) t.max_spurious_wakeups)) [
          | inl l ↦ rw (c, z, l) refl
          | inr l ↦ rw (c, z, l) tt
        ]
        | inr z ↦ rw (c, z) refl
      ]
    ]

write_end-KeepsListeners :
    (t : TcpTransport) (id : ℕ) (old conn : Connection) (l : WriteLoop)
    → KeepsListeners t (write_end t id old conn l)
unfolding write_end drop_connection
write_end-KeepsListeners t id old conn (all_written send_pos calls) =
    write_finish-KeepsListeners (record t { calls = calls }) id old _ send_pos
write_end-KeepsListeners t id old conn (stopped send_pos calls) =
    write_finish-KeepsListeners (record t { calls = calls }) id old conn send_pos
write_end-KeepsListeners t id old conn (broken calls) = refl
write_end-KeepsListeners t id old conn out_of_range = tt

write_established-KeepsListeners :
    (t : TcpTransport) (id : ℕ) (old : Connection) (writes : Writes) (now : Option Connection)
    → KeepsListeners t (write_established t id old writes now)
unfolding write_established drop_connection
write_established-KeepsListeners t id old writes none = refl
write_established-KeepsListeners t id old writes (some conn) = elim (Bool-cases conn.connected) [
  | inl c ↦ rw c (write_end-KeepsListeners t id old (record conn { connected = true }) _)
  | inr c ↦ rw c tt
]

write_connection-KeepsListeners :
    (t : TcpTransport) (id : ℕ) (take_error : Option ErrorKind) (writes : Writes)
    → KeepsListeners t (write_connection t id take_error writes)
unfolding write_connection write_found
write_connection-KeepsListeners t id take_error writes =
    elim (Option-cases (lookup id t.connections)) [
      | inl e ↦ rw e tt
      | inr (conn, e) ↦ rw e (write_established-KeepsListeners t id conn writes _)
    ]

handle_event-data :
    (t : TcpTransport) (conn : Connection) (e : PollEvent)
    → IsConsistent t
    → lookup e.token t.connections ≡ some conn
    → conn.connected ≡ true
    → e.is_readable ≡ true
    → FitReads t.max_read_size e.reads
    → ends e.reads ≡ false
    → is_nil (arrived e.reads) ≡ false
    → handle_event t e none_yet
      ≡ handle_writable
          (record t { spurious_wakeups = 0 })
          e
          (push_data none_yet e.token (arrived e.reads))
unfolding handle_event handle_connection after_read contains_key in_use contains
    track_spurious_wakeup
handle_event-data t conn e h at c r fit open_ some_data =
    let no_wake : (e.token == wake_id) ≡ false = ground (arith, at, h.in_range e.token) in
    let no_listener : is_some (lookup e.token t.listeners) ≡ false =
      ground (arith, at, h.disjoint e.token) in
    simp
      (
        no_wake,
        no_listener,
        at,
        r,
        read_connection-arrived t e.token e.reads conn at c fit,
        open_,
        some_data,
      )
      refl

handle_event-accept_error :
    (t : TcpTransport) (addr : SocketAddr) (e : PollEvent) (p : Progress) (kind : ErrorKind)
    → (e.token == wake_id) ≡ false
    → lookup e.token t.listeners ≡ some addr
    → e.accepts ≡ accept_error kind
    → handle_event t e p ≡ raised (io kind) (drop_listener t e.token)
unfolding handle_event contains_key accept_connections collect
handle_event-accept_error t addr e p kind no_wake at failed = simp (no_wake, at, failed) refl

-- What is left to do with the listener's event, after the data has been read.
accepting-raises :
    (t : TcpTransport) (addr : SocketAddr) (e : PollEvent) (kind : ErrorKind)
    (m : Exit TcpTransport WriteConnectionResult) (f : WriteConnectionResult → Progress)
    → (e.token == wake_id) ≡ false
    → lookup e.token t.listeners ≡ some addr
    → e.accepts ≡ accept_error kind
    → KeepsListeners t m
    → after (after m (λ r t'. returned (f r) t')) (λ p t'. handle_events t' (e ∷ []) p)
      ≡ after m (λ r t'. raised (io kind) (drop_listener t' e.token))
unfolding handle_events
accepting-raises t addr e kind (returned r t') f no_wake listens failed k =
    let listens' : lookup e.token t'.listeners ≡ some addr = ap (lookup e.token) k ∙ listens in
    rw (handle_event-accept_error t' addr e (f r) kind no_wake listens' failed) refl
accepting-raises t addr e kind (raised x t') f no_wake listens failed k = refl
accepting-raises t addr e kind (panicked x) f no_wake listens failed k = refl

after_raised :
    {A B : Type 0} (m : Exit TcpTransport B) (kind : ErrorKind) (id : ℕ)
    (g : A → TcpTransport → Exit TcpTransport RoundEnd)
    → after (after m (λ r t'. raised (io kind) (drop_listener t' id))) g
      ≡ after m (λ r t'. raised (io kind) (drop_listener t' id))
after_raised (returned r t') kind id g = refl
after_raised (raised x t') kind id g = refl
after_raised (panicked x) kind id g = refl

-- On a consistent transport, a poll reports an event that is readable, on an established
-- connection, which brings data and does not end the stream, and then a listener whose accept()
-- fails with an error. Then the round returns this error, and the listener is removed; when the
-- first event is writable as well, the writable half runs in between, as it does when no data has
-- been read, and if that panics, so does the round. The data that was read from the socket is in no
-- event and no part of the state.
pub poll_round-loses :
    (t : TcpTransport) (conn : Connection) (addr : SocketAddr) (data_event accept_event : PollEvent)
    (kind : ErrorKind)
    → IsConsistent t
    → lookup data_event.token t.connections ≡ some conn
    → conn.connected ≡ true
    → data_event.is_readable ≡ true
    → FitReads t.max_read_size data_event.reads
    → ends data_event.reads ≡ false
    → is_nil (arrived data_event.reads) ≡ false
    → lookup accept_event.token t.listeners ≡ some addr
    → accept_event.accepts ≡ accept_error kind
    → let read : TcpTransport = record t { spurious_wakeups = 0 } in
      poll_round t (ok (data_event ∷ accept_event ∷ [])) ≡ (
        if data_event.is_writable
        then after
            (write_connection read data_event.token data_event.take_error data_event.writes)
            (λ r t'. raised (io kind) (drop_listener t' accept_event.token))
        else raised (io kind) (drop_listener read accept_event.token))
unfolding poll_round handle_events handle_writable in_use contains_key
poll_round-loses t conn addr data_event accept_event kind h at c r fit open_ some_data listens
      failed =
    let no_wake : (accept_event.token == wake_id) ≡ false =
      ground (arith, listens, h.in_range accept_event.token) in
    let read : TcpTransport = record t { spurious_wakeups = 0 } in
    let progress = push_data none_yet data_event.token (arrived data_event.reads) in
    let handled = handle_event-data t conn data_event h at c r fit open_ some_data in
    let writing = write_connection read data_event.token data_event.take_error data_event.writes in
    let kept =
      write_connection-KeepsListeners read data_event.token data_event.take_error
        data_event.writes in
    let finish : Progress → TcpTransport → Exit TcpTransport RoundEnd = λ p t'.
      returned
        (if is_nil p.dispatch_events then RoundEnd.go_on else RoundEnd.done p.dispatch_events) t' in
    elim (Bool-cases data_event.is_writable) [
      | inl w ↦
          rw (handled, w)
            (ap (λ m. after m finish)
                (accepting-raises read addr accept_event kind writing
                  (after_write progress data_event.token) no_wake listens failed kept)
              ∙ after_raised writing kind accept_event.token finish)
      | inr w ↦
          rw (handled, w)
            (rw
              (handle_event-accept_error read addr accept_event progress kind no_wake listens
                failed)
              refl)
    ]
