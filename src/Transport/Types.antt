-- ===== src/Transport/Types.antt =====
-- The events of transport/mod.rs, the requests of transport/interface.rs, and the library types
-- that they carry. A response channel is a number; what is sent on it is a `Response`.
use rustcomm.Prelude.{ℕ, Bool, true, false, List}
use rustcomm.Error.{Error, ErrorKind, Result}

-- std::net::SocketAddr
pub record SocketAddr : Type 0 where
  pub ip : ℕ
  pub port : ℕ

-- std::net::Shutdown
pub data Shutdown : Type 0 where
  shut_read shut_write shut_both : Shutdown

-- The values of mio::Interest that the program uses: READABLE, WRITABLE and their union.
pub data Interest : Type 0 where
  readable writable read_write : Interest

abbrev pub interest_eq : Interest → Interest → Bool
interest_eq readable readable = true
interest_eq writable writable = true
interest_eq read_write read_write = true
interest_eq _ _ = false

abbrev pub wants_read : Interest → Bool
wants_read writable = false
wants_read _ = true

abbrev pub wants_write : Interest → Bool
wants_write readable = false
wants_write _ = true

pub data TransportEvent : Type 0 where
  inactive : TransportEvent
  connected connection_failed disconnected : ℕ → TransportEvent
  received : ℕ → List ℕ → TransportEvent

pub data SendRequest : Type 0 where
  connect_request listen_request : SocketAddr → ℕ → SendRequest
  get_listener_addresses_request : ℕ → SendRequest
  close_connection_request : ℕ → SendRequest
  close_all_connections_request : SendRequest
  shutdown_connection_request : ℕ → Shutdown → SendRequest
  shutdown_all_connections_request : Shutdown → SendRequest
  close_listener_request : ℕ → SendRequest
  close_all_listeners_request close_all_request : SendRequest
  send_to_request : ℕ → List ℕ → SendRequest
  send_to_many_request : List ℕ → List ℕ → SendRequest
  broadcast_request : List ℕ → SendRequest
  broadcast_except_request : List ℕ → ℕ → SendRequest
  broadcast_except_many_request : List ℕ → List ℕ → SendRequest

pub data Response : Type 0 where
  id_response : ℕ → Result Error (ℕ × SocketAddr) → Response
  addresses_response : ℕ → List SocketAddr → Response

-- The answers of the operating system to the calls that open a socket.
pub record SocketAnswers : Type 0 where
  pub opened : Result ErrorKind (Unit {0})
  pub nodelay : Result ErrorKind (Unit {0})
  pub local_addr : SocketAddr
