-- ===== src/Tcp/Events.antt =====
-- transport/tcp.rs: fetch_events. An event of the poll comes with the answers of the sockets to the
-- calls that serving it makes.
use rustcomm.Prelude.{
  contains, ℕ, Bool, not, ◌&&◌, ◌||◌, Option, List, [], ◌∷◌, ◌++◌, map, is_nil, ◌==◌, if◌then◌else◌,
}
use rustcomm.Error.{ErrorKind, io, Result, ok, err}
use rustcomm.Table.{contains_key, is_empty}
use rustcomm.Transport.Types.{
  SendRequest, SocketAnswers, TransportEvent, inactive, connected, disconnected, received,
}
use rustcomm.Transport.Exit.{
  Fetched, fetched, waiting, Exit, returned, raised, panicked, after, connection_missing,
  no_readiness,
}
use rustcomm.Tcp.State.{TcpTransport, wake_id}
use rustcomm.Tcp.Read.{Reads, ReadConnectionResult, read_ok, read_disconnected, read_connection}
use rustcomm.Tcp.Write.{
  Writes, WriteConnectionResult, write_ok, write_connected, write_disconnected, connection_failed,
  write_connection,
}
use rustcomm.Tcp.Accept.{Accepts, accept_connections}
use rustcomm.Tcp.Requests.{process_interface_requests}

pub record PollEvent : Type 0 where
  pub token : ℕ
  pub is_readable : Bool
  pub is_writable : Bool
  pub accepts : Accepts
  pub reads : Reads
  pub take_error : Option ErrorKind
  pub writes : Writes

-- The loop's variables: dispatch_events and disconnected_ids.
pub record Progress : Type 0 where
  pub dispatch_events : List TransportEvent
  pub disconnected_ids : List ℕ

abbrev pub push : Progress → TransportEvent → Progress
push p e = record p { dispatch_events = p.dispatch_events ++ e ∷ [] }

-- The event that ends a connection: its id is in disconnected_ids from now on.
abbrev pub push_last : Progress → ℕ → TransportEvent → Progress
push_last p id e = record {
  dispatch_events = p.dispatch_events ++ e ∷ [];
  disconnected_ids = id ∷ p.disconnected_ids;
}

abbrev pub push_data : Progress → ℕ → List ℕ → Progress
push_data p id [] = p
push_data p id (b ∷ bytes) = push p (received id (b ∷ bytes))

unfoldable pub after_write : Progress → ℕ → WriteConnectionResult → Progress
after_write p id write_ok = p
after_write p id write_connected = push p (connected id)
after_write p id write_disconnected = push_last p id (disconnected id)
after_write p id connection_failed = push_last p id (TransportEvent.connection_failed id)

unfoldable pub handle_writable : TcpTransport → PollEvent → Progress → Exit TcpTransport Progress
unfolding after_write
handle_writable t e p =
    if e.is_writable
    then after (write_connection t e.token e.take_error e.writes)
        (λ r t'. returned (after_write p e.token r) t')
    else returned p t

unfoldable pub after_read :
    PollEvent → Progress → ReadConnectionResult → TcpTransport → Exit TcpTransport Progress
unfolding handle_writable
after_read e p (read_ok bytes) t = handle_writable t e (push_data p e.token bytes)
after_read e p (read_disconnected bytes) t =
    returned (push_last (push_data p e.token bytes) e.token (disconnected e.token)) t

unfoldable pub handle_connection : TcpTransport → PollEvent → Progress → Exit TcpTransport Progress
unfolding after_read handle_writable
handle_connection t e p =
    if e.is_readable
    then after (read_connection t e.token e.reads) (after_read e p)
    else handle_writable t e p

unfoldable pub handle_event : TcpTransport → PollEvent → Progress → Exit TcpTransport Progress
unfolding handle_connection
handle_event t e p =
    if e.token == wake_id
    then returned p t
    else if contains_key e.token t.listeners
    then after (accept_connections t e.token e.accepts) (λ new_conn_ids t'.
      returned (record p { dispatch_events = p.dispatch_events ++ map connected new_conn_ids }) t')
    else if contains p.disconnected_ids e.token
    then returned p t
    else if not (contains_key e.token t.connections)
    then panicked connection_missing
    else if not (e.is_readable || e.is_writable)
    then panicked no_readiness
    else handle_connection t e p

unfoldable pub handle_events : TcpTransport → List PollEvent → Progress → Exit TcpTransport Progress
handle_events t [] p = returned p t
handle_events t (e ∷ rest) p = after (handle_event t e p) λ p' t'. handle_events t' rest p'

-- One round of the loop: the requests that wait in the channel, and what the poll returns.
pub record Round : Type 0 where
  pub requests : List (SendRequest × SocketAnswers)
  pub polled : Result ErrorKind (List PollEvent)

-- A round ends the call, or the loop goes on.
pub data RoundEnd : Type 0 where
  done : List TransportEvent → RoundEnd
  go_on : RoundEnd

unfoldable pub poll_round :
    TcpTransport → Result ErrorKind (List PollEvent) → Exit TcpTransport RoundEnd
poll_round t (err kind) = raised (io kind) t
poll_round t (ok events) =
    after (handle_events t events (record { dispatch_events = []; disconnected_ids = [] }))
      λ p t'. returned (if is_nil p.dispatch_events then go_on else done p.dispatch_events) t'

unfoldable pub fetch_round : TcpTransport → Round → Exit TcpTransport RoundEnd
unfolding poll_round
fetch_round t r = after (process_interface_requests t r.requests) λ _ t'.
    if is_empty t'.connections && is_empty t'.listeners
    then returned (done (inactive ∷ [])) t'
    else poll_round t' r.polled

unfoldable pub fetch_next :
    Exit TcpTransport RoundEnd
    → (TcpTransport → Fetched TcpTransport (List TransportEvent))
    → Fetched TcpTransport (List TransportEvent)
fetch_next (returned (done events) t) again = fetched (returned events t)
fetch_next (returned go_on t) again = again t
fetch_next (raised e t) again = fetched (raised e t)
fetch_next (panicked p) again = fetched (panicked p)

-- while dispatch_events.is_empty()
unfoldable pub fetch_events : TcpTransport → List Round → Fetched TcpTransport (List TransportEvent)
unfolding fetch_next fetch_round
fetch_events t [] = waiting t
fetch_events t (r ∷ rest) = fetch_next (fetch_round t r) λ t'. fetch_events t' rest
