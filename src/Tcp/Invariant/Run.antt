-- ===== src/Tcp/Invariant/Run.antt =====
-- The requests of other threads, the events of a poll and fetch_events keep the invariant, and so
-- does every run of the transport.
use rustcomm.Prelude.{
  ℕ, refl, inl, inr, not, ◌&&◌, ◌||◌, List, [], ◌∷◌, arith, ◌==◌, Bool-cases, contains,
}
use rustcomm.Error.{ErrorKind, Result, ok, err, from_io}
use rustcomm.Table.{is_empty, contains_key}
use rustcomm.Table
use rustcomm.Transport.Types.{
  TransportEvent, SocketAddr, SocketAnswers, Response, SendRequest, connect_request, listen_request,
  get_listener_addresses_request, close_connection_request, close_all_connections_request,
  shutdown_connection_request, shutdown_all_connections_request, close_listener_request,
  close_all_listeners_request, close_all_request, send_to_request, send_to_many_request,
  broadcast_request, broadcast_except_request, broadcast_except_many_request,
}
use rustcomm.Transport.Exit.{
  Fetched, Exit, Leaves, FetchLeaves, Leaves-after, returned, raised, panicked, Made, Made->>=,
}
use rustcomm.Tcp.State.{TcpTransport, Settings, fresh, new_named, in_use, wake_id}
use rustcomm.Tcp.Send.{send_to, send_to_many, broadcast, broadcast_except, broadcast_except_many}
use rustcomm.Tcp.Read.{ReadConnectionResult, read_ok, read_disconnected, read_connection}
use rustcomm.Tcp.Write.{write_connection}
use rustcomm.Tcp.Accept.{accept_connections}
use rustcomm.Tcp.Requests.{respond, respond_result, process_request, process_interface_requests}
use rustcomm.Tcp.Events.{
  PollEvent, Progress, handle_writable, after_read, handle_connection, handle_event, handle_events,
  Round, RoundEnd, done, go_on, poll_round, fetch_round, fetch_next, fetch_events,
}
use rustcomm.Tcp.Registered.{registered}
use rustcomm.Tcp.Invariant.Defs.{IsConsistent}
use rustcomm.Tcp.Invariant.Primitives.{IsInStep-same}
use rustcomm.Tcp.Invariant.Closing.{
  close_connection-IsConsistent, close_listener-IsConsistent, close_all_connections-IsConsistent,
  close_all_listeners-IsConsistent, close_all-IsConsistent,
}
use rustcomm.Tcp.Invariant.Opening.{
  connect-IsConsistent, listen-IsConsistent, shutdown_connection-IsConsistent,
  shutdown_all_connections-IsConsistent, queue_data-IsConsistent, queue_to-IsConsistent,
}
use rustcomm.Tcp.Invariant.Io.{
  read_connection-IsConsistent, write_connection-IsConsistent, accept_connections-IsConsistent,
}

respond-IsConsistent :
    (t : TcpTransport) (r : Response) → IsConsistent t → IsConsistent (respond t r)
unfolding respond in_use
respond-IsConsistent t r h = record {
  sockets = IsInStep-same t _ h.sockets refl refl refl;
  next_in_range = h.next_in_range;
  next_is_free = h.next_is_free;
}

respond_result-IsConsistent :
    (response : ℕ) (m : Exit TcpTransport (ℕ × SocketAddr))
    → Leaves IsConsistent m
    → Leaves IsConsistent (respond_result response m)
unfolding respond_result
respond_result-IsConsistent response (returned r t) h = respond-IsConsistent t _ h
respond_result-IsConsistent response (raised e t) h = respond-IsConsistent t _ h
respond_result-IsConsistent response (panicked p) h = tt

pub process_request-IsConsistent :
    (t : TcpTransport) (r : SendRequest) (a : SocketAnswers)
    → IsConsistent t
    → Leaves IsConsistent (process_request t r a)
unfolding process_request send_to send_to_many broadcast broadcast_except broadcast_except_many
process_request-IsConsistent t (connect_request addr response) a h =
    respond_result-IsConsistent response _ (connect-IsConsistent t _ a h)
process_request-IsConsistent t (listen_request addr response) a h =
    respond_result-IsConsistent response _ (listen-IsConsistent t _ a h)
process_request-IsConsistent t (get_listener_addresses_request response) a h =
    respond-IsConsistent t _ h
process_request-IsConsistent t (close_connection_request id) a h =
    close_connection-IsConsistent t id h
process_request-IsConsistent t close_all_connections_request a h =
    close_all_connections-IsConsistent t h
process_request-IsConsistent t (shutdown_connection_request id how) a h =
    shutdown_connection-IsConsistent t id how h
process_request-IsConsistent t (shutdown_all_connections_request how) a h =
    shutdown_all_connections-IsConsistent t how h
process_request-IsConsistent t (close_listener_request id) a h = close_listener-IsConsistent t id h
process_request-IsConsistent t close_all_listeners_request a h =
    close_all_listeners-IsConsistent t h
process_request-IsConsistent t close_all_request a h = close_all-IsConsistent t h
process_request-IsConsistent t (send_to_request id bytes) a h = queue_data-IsConsistent t id bytes h
process_request-IsConsistent t (send_to_many_request ids bytes) a h =
    queue_to-IsConsistent t ids bytes h
process_request-IsConsistent t (broadcast_request bytes) a h = queue_to-IsConsistent t _ bytes h
process_request-IsConsistent t (broadcast_except_request bytes except_id) a h =
    queue_to-IsConsistent t _ bytes h
process_request-IsConsistent t (broadcast_except_many_request bytes except_ids) a h =
    queue_to-IsConsistent t _ bytes h

process_interface_requests-IsConsistent :
    (t : TcpTransport) (requests : List (SendRequest × SocketAnswers))
    → IsConsistent t
    → Leaves IsConsistent (process_interface_requests t requests)
unfolding process_interface_requests
process_interface_requests-IsConsistent t [] h = h
process_interface_requests-IsConsistent t ((r, a) ∷ rest) h =
    Leaves-after IsConsistent (process_request t r a) _ (process_request-IsConsistent t r a h)
      λ _ t' h'. process_interface_requests-IsConsistent t' rest h'

handle_writable-IsConsistent :
    (t : TcpTransport) (e : PollEvent) (p : Progress)
    → IsConsistent t
    → Leaves IsConsistent (handle_writable t e p)
unfolding handle_writable
handle_writable-IsConsistent t e p h = elim (Bool-cases e.is_writable) [
  | inl w ↦ rw w (
      Leaves-after IsConsistent (write_connection t e.token e.take_error e.writes) _
        (write_connection-IsConsistent t e.token e.take_error e.writes h) λ r t' h'. h')
  | inr w ↦ rw w h
]

after_read-IsConsistent :
    (e : PollEvent) (p : Progress) (r : ReadConnectionResult) (t : TcpTransport)
    → IsConsistent t
    → Leaves IsConsistent (after_read e p r t)
unfolding after_read
after_read-IsConsistent e p (read_ok bytes) t h = handle_writable-IsConsistent t e _ h
after_read-IsConsistent e p (read_disconnected bytes) t h = h

handle_connection-IsConsistent :
    (t : TcpTransport) (e : PollEvent) (p : Progress)
    → IsConsistent t
    → Leaves IsConsistent (handle_connection t e p)
unfolding handle_connection
handle_connection-IsConsistent t e p h = elim (Bool-cases e.is_readable) [
  | inl r ↦ rw r (
      Leaves-after IsConsistent (read_connection t e.token e.reads) (after_read e p)
        (read_connection-IsConsistent t e.token e.reads h) (after_read-IsConsistent e p))
  | inr r ↦ rw r (handle_writable-IsConsistent t e p h)
]

pub handle_event-IsConsistent :
    (t : TcpTransport) (e : PollEvent) (p : Progress)
    → IsConsistent t
    → Leaves IsConsistent (handle_event t e p)
unfolding handle_event
handle_event-IsConsistent t e p h = elim (Bool-cases (e.token == wake_id)) [
  | inl a ↦ rw a h
  | inr a ↦ elim (Bool-cases (contains_key e.token t.listeners)) [
    | inl b ↦
        rw (a, b)
          (Leaves-after IsConsistent (accept_connections t e.token e.accepts) _
            (accept_connections-IsConsistent t e.token e.accepts h) λ ids t' h'. h')
    | inr b ↦ elim (Bool-cases (contains p.disconnected_ids e.token)) [
      | inl c ↦ rw (a, b, c) h
      | inr c ↦ elim (Bool-cases (not (contains_key e.token t.connections))) [
        | inl d ↦ rw (a, b, c, d) tt
        | inr d ↦ elim (Bool-cases (not (e.is_readable || e.is_writable))) [
          | inl f ↦ rw (a, b, c, d, f) tt
          | inr f ↦ rw (a, b, c, d, f) (handle_connection-IsConsistent t e p h)
        ]
      ]
    ]
  ]
]

handle_events-IsConsistent :
    (t : TcpTransport) (events : List PollEvent) (p : Progress)
    → IsConsistent t
    → Leaves IsConsistent (handle_events t events p)
unfolding handle_events
handle_events-IsConsistent t [] p h = h
handle_events-IsConsistent t (e ∷ rest) p h =
    Leaves-after IsConsistent (handle_event t e p) _ (handle_event-IsConsistent t e p h)
      λ p' t' h'. handle_events-IsConsistent t' rest p' h'

poll_round-IsConsistent :
    (t : TcpTransport) (polled : Result ErrorKind (List PollEvent))
    → IsConsistent t
    → Leaves IsConsistent (poll_round t polled)
unfolding poll_round
poll_round-IsConsistent t (err kind) h = h
poll_round-IsConsistent t (ok events) h =
    Leaves-after IsConsistent (handle_events t events _) _ (handle_events-IsConsistent t events _ h)
      λ p t' h'. h'

fetch_round-IsConsistent :
    (t : TcpTransport) (r : Round) → IsConsistent t → Leaves IsConsistent (fetch_round t r)
unfolding fetch_round
fetch_round-IsConsistent t r h =
    Leaves-after IsConsistent (process_interface_requests t r.requests) _
      (process_interface_requests-IsConsistent t r.requests h)
      λ _ t' h'. elim (Bool-cases (is_empty t'.connections && is_empty t'.listeners)) [
        | inl e ↦ rw e h'
        | inr e ↦ rw e (poll_round-IsConsistent t' r.polled h')
      ]

fetch_next-IsConsistent :
    (m : Exit TcpTransport RoundEnd)
    (again : TcpTransport → Fetched TcpTransport (List TransportEvent))
    → Leaves IsConsistent m
    → ((t : TcpTransport) → IsConsistent t → FetchLeaves IsConsistent (again t))
    → FetchLeaves IsConsistent (fetch_next m again)
unfolding fetch_next
fetch_next-IsConsistent (returned (done events) t) again h k = h
fetch_next-IsConsistent (returned go_on t) again h k = k t h
fetch_next-IsConsistent (raised e t) again h k = h
fetch_next-IsConsistent (panicked p) again h k = tt

-- From a consistent state, fetch_events leaves a consistent state, whatever the other threads ask
-- and the sockets answer, whether it returns events, returns an error or waits.
pub fetch_events-IsConsistent :
    (t : TcpTransport) (rounds : List Round)
    → IsConsistent t
    → FetchLeaves IsConsistent (fetch_events t rounds)
unfolding fetch_events
fetch_events-IsConsistent t [] h = h
fetch_events-IsConsistent t (r ∷ rest) h =
    fetch_next-IsConsistent (fetch_round t r) _ (fetch_round-IsConsistent t r h)
      λ t' h'. fetch_events-IsConsistent t' rest h'

fresh-IsConsistent : (c : Settings) → IsConsistent (fresh c)
unfolding in_use contains_key Table.lookup registered Table.keys
fresh-IsConsistent c = record {
  sockets = record {
    in_step = λ j. refl;
    disjoint = λ j. refl;
    in_range = λ j l. refl;
    served = λ j. refl;
    one_connection = tt;
    one_listener = tt;
    accepted = tt;
  };
  next_in_range = omega arith;
  next_is_free = refl;
}

pub new_named-IsConsistent :
    (c : Settings) (poll waker : Result ErrorKind (Unit {0}))
    → Made IsConsistent (new_named c poll waker)
unfolding new_named
new_named-IsConsistent c poll waker =
    Made->>= IsConsistent (from_io poll) _
      λ _. Made->>= IsConsistent (from_io waker) _ λ _. fresh-IsConsistent c
