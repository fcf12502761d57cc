-- ===== src/Tls/Events.antt =====
-- transport/tls.rs: fetch_events. An event of the poll comes with the answers of the sockets to the
-- calls that serving it makes.
use rustcomm.Prelude.{
  contains, ℕ, Bool, not, ◌&&◌, ◌||◌, Option, List, [], ◌∷◌, is_nil, ◌==◌, if◌then◌else◌,
}
use rustcomm.Error.{ErrorKind, io, Result, ok, err}
use rustcomm.Table.{contains_key, is_empty}
use rustcomm.Transport.Types.{
  SendRequest, SocketAnswers, TransportEvent, inactive, connected, disconnected,
}
use rustcomm.Transport.Exit.{
  Fetched, fetched, waiting, Exit, returned, raised, panicked, after, connection_missing,
  no_readiness,
}
use rustcomm.Tcp.State.{wake_id}
use rustcomm.Tcp.Accept.{Accepts}
use rustcomm.Tcp.Events.{Progress, push, push_last, push_data, RoundEnd, done, go_on, after_write}
use rustcomm.Tls.Session.{Rustls}
use rustcomm.Tls.State.{TlsTransport}
use rustcomm.Tls.Read.{
  ReadConnectionResult, read_ok, read_connected, read_disconnected, read_connection,
}
use rustcomm.Tls.Write.{write_connection}
use rustcomm.Tls.Accept.{accept_connections}
use rustcomm.Tls.Requests.{process_interface_requests}

pub record PollEvent : Type 0 where
  pub token : ℕ
  pub is_readable : Bool
  pub is_writable : Bool
  pub accepts : Accepts
  pub reads : List (Result ErrorKind (List ℕ))
  pub take_error : Option ErrorKind
  pub writes : List (Result ErrorKind ℕ)

-- One round of the loop: the requests that wait in the channel, and what the poll returns.
pub record Round : Type 0 where
  pub requests : List (SendRequest × SocketAnswers)
  pub polled : Result ErrorKind (List PollEvent)

module _ {S X Y : Type 0} (rustls : Rustls S X Y) where
  -- The results of write_connection are handled as in Tcp/Events.
  unfoldable pub handle_writable :
      TlsTransport S X Y → PollEvent → Progress → Exit (TlsTransport S X Y) Progress
  unfolding after_write
  handle_writable t e p =
      if e.is_writable
      then after (write_connection rustls.session t e.token e.take_error e.writes)
          (λ r t'. returned (after_write p e.token r) t')
      else returned p t

  -- `Ok` goes on to the writable half, also when the connection has been removed.
  unfoldable pub after_read :
      PollEvent
      → Progress
      → ReadConnectionResult
      → TlsTransport S X Y
      → Exit (TlsTransport S X Y) Progress
  unfolding handle_writable
  after_read e p (read_ok bytes) t = handle_writable t e (push_data p e.token bytes)
  after_read e p (read_connected bytes) t =
      handle_writable t e (push (push_data p e.token bytes) (connected e.token))
  after_read e p (read_disconnected bytes) t =
      returned (push_last (push_data p e.token bytes) e.token (disconnected e.token)) t

  unfoldable pub handle_connection :
      TlsTransport S X Y → PollEvent → Progress → Exit (TlsTransport S X Y) Progress
  unfolding after_read handle_writable
  handle_connection t e p =
      if e.is_readable
      then after (read_connection rustls.session t e.token e.reads) (after_read e p)
      else handle_writable t e p

  -- Accepting pushes no event.
  unfoldable pub handle_event :
      TlsTransport S X Y → PollEvent → Progress → Exit (TlsTransport S X Y) Progress
  unfolding handle_connection
  handle_event t e p =
      if e.token == wake_id
      then returned p t
      else if contains_key e.token t.listeners
      then after (accept_connections rustls t e.token e.accepts) (λ new_conn_ids t'. returned p t')
      else if contains p.disconnected_ids e.token
      then returned p t
      else if not (contains_key e.token t.connections)
      then panicked connection_missing
      else if not (e.is_readable || e.is_writable)
      then panicked no_readiness
      else handle_connection t e p

  unfoldable pub handle_events :
      TlsTransport S X Y → List PollEvent → Progress → Exit (TlsTransport S X Y) Progress
  handle_events t [] p = returned p t
  handle_events t (e ∷ rest) p = after (handle_event t e p) λ p' t'. handle_events t' rest p'

  unfoldable pub poll_round :
      TlsTransport S X Y → Result ErrorKind (List PollEvent) → Exit (TlsTransport S X Y) RoundEnd
  unfolding handle_events
  poll_round t (err kind) = raised (io kind) t
  poll_round t (ok events) =
      after (handle_events t events (record { dispatch_events = []; disconnected_ids = [] }))
        λ p t'. returned (if is_nil p.dispatch_events then go_on else done p.dispatch_events) t'

  unfoldable pub fetch_round : TlsTransport S X Y → Round → Exit (TlsTransport S X Y) RoundEnd
  unfolding poll_round
  fetch_round t r = after (process_interface_requests rustls t r.requests) λ _ t'.
      if is_empty t'.connections && is_empty t'.listeners
      then returned (done (inactive ∷ [])) t'
      else poll_round t' r.polled

  unfoldable pub fetch_next :
      Exit (TlsTransport S X Y) RoundEnd
      → (TlsTransport S X Y → Fetched (TlsTransport S X Y) (List TransportEvent))
      → Fetched (TlsTransport S X Y) (List TransportEvent)
  fetch_next (returned (done events) t) again = fetched (returned events t)
  fetch_next (returned go_on t) again = again t
  fetch_next (raised e t) again = fetched (raised e t)
  fetch_next (panicked p) again = fetched (panicked p)

  -- while dispatch_events.is_empty()
  unfoldable pub fetch_events :
      TlsTransport S X Y → List Round → Fetched (TlsTransport S X Y) (List TransportEvent)
  unfolding fetch_next fetch_round
  fetch_events t [] = waiting t
  fetch_events t (r ∷ rest) = fetch_next (fetch_round t r) λ t'. fetch_events t' rest
