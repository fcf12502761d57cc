-- ===== src/Tls/Invariant/Run.antt =====
-- transport/tls.rs: the requests of other threads, the events of a poll and fetch_events keep the invariant, and so
-- does every run of the transport.
use rustcomm.Prelude.{ℕ, refl, inl, inr, not, ◌&&◌, ◌||◌, List, [], ◌∷◌, ◌==◌, Bool-cases, contains}
use rustcomm.Error.{ErrorKind, Result, ok, err}
use rustcomm.Table.{is_empty, contains_key}
use rustcomm.Transport.Types.{
  TransportEvent, SocketAddr, SocketAnswers, Response, SendRequest, connect_request, listen_request,
  get_listener_addresses_request, close_connection_request, close_all_connections_request,
  shutdown_connection_request, shutdown_all_connections_request, close_listener_request,
  close_all_listeners_request, close_all_request, send_to_request, send_to_many_request,
  broadcast_request, broadcast_except_request, broadcast_except_many_request,
}
use rustcomm.Transport.Exit.{
  Fetched, Exit, Leaves, FetchLeaves, Leaves-after, returned, raised, panicked,
}
use rustcomm.Tcp.State.{wake_id}
use rustcomm.Tls.Session.{Rustls}
use rustcomm.Tls.State.{TlsTransport}
use rustcomm.Tls.Send.{send_to, send_to_many, broadcast, broadcast_except, broadcast_except_many}
use rustcomm.Tls.Read.{
  ReadConnectionResult, read_ok, read_connected, read_disconnected, read_connection,
}
use rustcomm.Tls.Write.{write_connection}
use rustcomm.Tls.Accept.{accept_connections}
use rustcomm.Tls.Requests.{respond, respond_result, process_request, process_interface_requests}
use rustcomm.Tcp.Events.{Progress, RoundEnd, done, go_on}
use rustcomm.Tls.Events.{
  PollEvent, handle_writable, after_read, handle_connection, handle_event, handle_events, Round,
  poll_round, fetch_round, fetch_next, fetch_events,
}
use rustcomm.Tcp.State
use rustcomm.Tcp.Invariant.Primitives.{IsInStep-same}
use rustcomm.Tls.Plain.{plain}
use rustcomm.Tls.Invariant.Defs.{IsSound, WaitsForClient}
use rustcomm.Tls.Invariant.Closing.{
  close_connection-IsSound, close_listener-IsSound, close_all_connections-IsSound,
  close_all_listeners-IsSound, close_all-IsSound, shutdown_connection-IsSound,
  shutdown_all_connections-IsSound, queue_data-IsSound, queue_to-IsSound,
}
use rustcomm.Tls.Invariant.Opening.{connect-IsSound, listen-IsSound, accept_connections-IsSound}
use rustcomm.Tls.Invariant.Reading.{read_connection-IsSound}
use rustcomm.Tls.Invariant.Writing.{write_connection-IsSound}

module _ {S X Y : Type 0} (rustls : Rustls S X Y) (waits : WaitsForClient rustls) where
  respond-IsSound :
      (t : TlsTransport S X Y) (r : Response)
      → IsSound rustls.session t
      → IsSound rustls.session (respond t r)
  unfolding respond State.in_use
  respond-IsSound t r h = record {
    consistent = record {
      sockets = IsInStep-same (plain t) _ h.consistent.sockets refl refl refl;
      next_in_range = h.consistent.next_in_range;
      next_is_free = h.consistent.next_is_free;
    };
    sessions = record { flushing = h.flushing; configured = h.configured };
  }

  respond_result-IsSound :
      (response : ℕ) (m : Exit (TlsTransport S X Y) (ℕ × SocketAddr))
      → Leaves (IsSound rustls.session) m
      → Leaves (IsSound rustls.session) (respond_result response m)
  unfolding respond_result
  respond_result-IsSound response (returned r t) h = respond-IsSound t _ h
  respond_result-IsSound response (raised e t) h = respond-IsSound t _ h
  respond_result-IsSound response (panicked p) h = tt

  pub process_request-IsSound :
      (t : TlsTransport S X Y) (r : SendRequest) (a : SocketAnswers)
      → IsSound rustls.session t
      → Leaves (IsSound rustls.session) (process_request rustls t r a)
  unfolding process_request send_to send_to_many broadcast broadcast_except broadcast_except_many
  process_request-IsSound t (connect_request addr response) a h =
      respond_result-IsSound response _ (connect-IsSound rustls t _ a h)
  process_request-IsSound t (listen_request addr response) a h =
      respond_result-IsSound response _ (listen-IsSound rustls.session t _ a h)
  process_request-IsSound t (get_listener_addresses_request response) a h = respond-IsSound t _ h
  process_request-IsSound t (close_connection_request id) a h =
      close_connection-IsSound rustls.session t h id
  process_request-IsSound t close_all_connections_request a h =
      close_all_connections-IsSound rustls.session t h
  process_request-IsSound t (shutdown_connection_request id how) a h =
      shutdown_connection-IsSound rustls.session t h id how
  process_request-IsSound t (shutdown_all_connections_request how) a h =
      shutdown_all_connections-IsSound rustls.session t h how
  process_request-IsSound t (close_listener_request id) a h =
      close_listener-IsSound rustls.session t h id
  process_request-IsSound t close_all_listeners_request a h =
      close_all_listeners-IsSound rustls.session t h
  process_request-IsSound t close_all_request a h = close_all-IsSound rustls.session t h
  process_request-IsSound t (send_to_request id bytes) a h =
      queue_data-IsSound rustls.session t h id bytes
  process_request-IsSound t (send_to_many_request ids bytes) a h =
      queue_to-IsSound rustls.session t ids bytes h
  process_request-IsSound t (broadcast_request bytes) a h =
      queue_to-IsSound rustls.session t _ bytes h
  process_request-IsSound t (broadcast_except_request bytes except_id) a h =
      queue_to-IsSound rustls.session t _ bytes h
  process_request-IsSound t (broadcast_except_many_request bytes except_ids) a h =
      queue_to-IsSound rustls.session t _ bytes h

  process_interface_requests-IsSound :
      (t : TlsTransport S X Y) (requests : List (SendRequest × SocketAnswers))
      → IsSound rustls.session t
      → Leaves (IsSound rustls.session) (process_interface_requests rustls t requests)
  unfolding process_interface_requests
  process_interface_requests-IsSound t [] h = h
  process_interface_requests-IsSound t ((r, a) ∷ rest) h =
      Leaves-after (IsSound rustls.session) (process_request rustls t r a) _
        (process_request-IsSound t r a h) λ _ t' h'. process_interface_requests-IsSound t' rest h'

  handle_writable-IsSound :
      (t : TlsTransport S X Y) (e : PollEvent) (p : Progress)
      → IsSound rustls.session t
      → Leaves (IsSound rustls.session) (handle_writable rustls t e p)
  unfolding handle_writable
  handle_writable-IsSound t e p h = elim (Bool-cases e.is_writable) [
    | inl w ↦ rw w (
        Leaves-after (IsSound rustls.session)
          (write_connection rustls.session t e.token e.take_error e.writes) _
          (write_connection-IsSound rustls.session t e.token e.take_error e.writes h) λ r t' h'. h')
    | inr w ↦ rw w h
  ]

  after_read-IsSound :
      (e : PollEvent) (p : Progress) (r : ReadConnectionResult) (t : TlsTransport S X Y)
      → IsSound rustls.session t
      → Leaves (IsSound rustls.session) (after_read rustls e p r t)
  unfolding after_read
  after_read-IsSound e p (read_ok bytes) t h = handle_writable-IsSound t e _ h
  after_read-IsSound e p (read_connected bytes) t h = handle_writable-IsSound t e _ h
  after_read-IsSound e p (read_disconnected bytes) t h = h

  handle_connection-IsSound :
      (t : TlsTransport S X Y) (e : PollEvent) (p : Progress)
      → IsSound rustls.session t
      → Leaves (IsSound rustls.session) (handle_connection rustls t e p)
  unfolding handle_connection
  handle_connection-IsSound t e p h = elim (Bool-cases e.is_readable) [
    | inl r ↦ rw r (
        Leaves-after (IsSound rustls.session) (read_connection rustls.session t e.token e.reads)
          (after_read rustls e p) (read_connection-IsSound rustls.session t e.token e.reads h)
          (after_read-IsSound e p))
    | inr r ↦ rw r (handle_writable-IsSound t e p h)
  ]

  pub handle_event-IsSound :
      (t : TlsTransport S X Y) (e : PollEvent) (p : Progress)
      → IsSound rustls.session t
      → Leaves (IsSound rustls.session) (handle_event rustls t e p)
  unfolding handle_event
  handle_event-IsSound t e p h = elim (Bool-cases (e.token == wake_id)) [
    | inl a ↦ rw a h
    | inr a ↦ elim (Bool-cases (contains_key e.token t.listeners)) [
      | inl b ↦
          rw (a, b)
            (Leaves-after (IsSound rustls.session) (accept_connections rustls t e.token e.accepts) _
              (accept_connections-IsSound rustls waits t e.token e.accepts h) λ ids t' h'. h')
      | inr b ↦ elim (Bool-cases (contains p.disconnected_ids e.token)) [
        | inl c ↦ rw (a, b, c) h
        | inr c ↦ elim (Bool-cases (not (contains_key e.token t.connections))) [
          | inl d ↦ rw (a, b, c, d) tt
          | inr d ↦ elim (Bool-cases (not (e.is_readable || e.is_writable))) [
            | inl f ↦ rw (a, b, c, d, f) tt
            | inr f ↦ rw (a, b, c, d, f) (handle_connection-IsSound t e p h)
          ]
        ]
      ]
    ]
  ]

  handle_events-IsSound :
      (t : TlsTransport S X Y) (events : List PollEvent) (p : Progress)
      → IsSound rustls.session t
      → Leaves (IsSound rustls.session) (handle_events rustls t events p)
  unfolding handle_events
  handle_events-IsSound t [] p h = h
  handle_events-IsSound t (e ∷ rest) p h =
      Leaves-after (IsSound rustls.session) (handle_event rustls t e p) _
        (handle_event-IsSound t e p h) λ p' t' h'. handle_events-IsSound t' rest p' h'

  poll_round-IsSound :
      (t : TlsTransport S X Y) (polled : Result ErrorKind (List PollEvent))
      → IsSound rustls.session t
      → Leaves (IsSound rustls.session) (poll_round rustls t polled)
  unfolding poll_round
  poll_round-IsSound t (err kind) h = h
  poll_round-IsSound t (ok events) h =
      Leaves-after (IsSound rustls.session) (handle_events rustls t events _) _
        (handle_events-IsSound t events _ h) λ p t' h'. h'

  fetch_round-IsSound :
      (t : TlsTransport S X Y) (r : Round)
      → IsSound rustls.session t
      → Leaves (IsSound rustls.session) (fetch_round rustls t r)
  unfolding fetch_round
  fetch_round-IsSound t r h =
      Leaves-after (IsSound rustls.session) (process_interface_requests rustls t r.requests) _
        (process_interface_requests-IsSound t r.requests h)
        λ _ t' h'. elim (Bool-cases (is_empty t'.connections && is_empty t'.listeners)) [
          | inl e ↦ rw e h'
          | inr e ↦ rw e (poll_round-IsSound t' r.polled h')
        ]

  fetch_next-IsSound :
      (m : Exit (TlsTransport S X Y) RoundEnd)
      (again : TlsTransport S X Y → Fetched (TlsTransport S X Y) (List TransportEvent))
      → Leaves (IsSound rustls.session) m
      → ((t : TlsTransport S X Y)
          → IsSound rustls.session t
          → FetchLeaves (IsSound rustls.session) (again t))
      → FetchLeaves (IsSound rustls.session) (fetch_next rustls m again)
  unfolding fetch_next
  fetch_next-IsSound (returned (done events) t) again h k = h
  fetch_next-IsSound (returned go_on t) again h k = k t h
  fetch_next-IsSound (raised e t) again h k = h
  fetch_next-IsSound (panicked p) again h k = tt

  -- From a consistent state, fetch_events rustls leaves a consistent state, whatever the other threads ask
  -- and the sockets answer, whether it returns events, returns an error or waits.
  pub fetch_events-IsSound :
      (t : TlsTransport S X Y) (rounds : List Round)
      → IsSound rustls.session t
      → FetchLeaves (IsSound rustls.session) (fetch_events rustls t rounds)
  unfolding fetch_events
  fetch_events-IsSound t [] h = h
  fetch_events-IsSound t (r ∷ rest) h =
      fetch_next-IsSound (fetch_round rustls t r) _ (fetch_round-IsSound t r h)
        λ t' h'. fetch_events-IsSound t' rest h'
