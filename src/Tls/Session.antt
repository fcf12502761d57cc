-- ===== src/Tls/Session.antt =====
-- transport/tls.rs: the enum TlsConnection and what the transport calls of rustls. A call that reads
-- from the socket or writes to it takes the socket's answer; it gives its own answer and the session
-- that it leaves.
use rustcomm.Prelude.{ℕ, Bool, Option, List}
use rustcomm.Error.{ErrorKind, Result}

-- A rustls::ServerConnection or rustls::ClientConnection. `false` of process_new_packets is an Err.
pub record Session (S : Type 0) : Type 0 where
  pub read_tls : S → Result ErrorKind (List ℕ) → Result ErrorKind ℕ × S
  pub process_new_packets : S → Bool × S
  -- reader().read(slice), with the length of the slice: the bytes that are put into it
  pub read_plain : S → ℕ → Result ErrorKind (List ℕ) × S
  -- writer().write(bytes): how many of them are taken
  pub write_plain : S → List ℕ → Result ErrorKind ℕ × S
  pub write_tls : S → Result ErrorKind ℕ → Result ErrorKind ℕ × S
  pub wants_write : S → Bool
  pub is_handshaking : S → Bool

pub data TlsConnection (A B : Type 0) : Type 0 where
  server : A → TlsConnection A B
  client : B → TlsConnection A B

-- The constructors, with the configurations `X` of a server and `Y` of a client; `none` is an Err.
pub record Rustls (S X Y : Type 0) : Type 0 where
  pub session : Session S
  pub new_server : X → Option S
  pub new_client : Y → Option S
  -- ServerName::try_from("localhost")
  pub localhost_is_valid : Bool

module _ {A B : Type 0} (a : Session A) (b : Session B) where
  abbrev pub as_server : {R : Type 0} → R × A → R × TlsConnection A B
  as_server (r, s) = (r, server s)

  abbrev pub as_client : {R : Type 0} → R × B → R × TlsConnection A B
  as_client (r, s) = (r, client s)

  unfoldable pub read_tls :
      TlsConnection A B → Result ErrorKind (List ℕ) → Result ErrorKind ℕ × TlsConnection A B
  read_tls (server s) answer = as_server (a.read_tls s answer)
  read_tls (client s) answer = as_client (b.read_tls s answer)

  unfoldable pub write_tls :
      TlsConnection A B → Result ErrorKind ℕ → Result ErrorKind ℕ × TlsConnection A B
  write_tls (server s) answer = as_server (a.write_tls s answer)
  write_tls (client s) answer = as_client (b.write_tls s answer)

  unfoldable pub process_new_packets : TlsConnection A B → Bool × TlsConnection A B
  process_new_packets (server s) = as_server (a.process_new_packets s)
  process_new_packets (client s) = as_client (b.process_new_packets s)

  unfoldable pub wants_write : TlsConnection A B → Bool
  wants_write (server s) = a.wants_write s
  wants_write (client s) = b.wants_write s

  unfoldable pub writer : TlsConnection A B → List ℕ → Result ErrorKind ℕ × TlsConnection A B
  writer (server s) bytes = as_server (a.write_plain s bytes)
  writer (client s) bytes = as_client (b.write_plain s bytes)

  unfoldable pub reader : TlsConnection A B → ℕ → Result ErrorKind (List ℕ) × TlsConnection A B
  reader (server s) n = as_server (a.read_plain s n)
  reader (client s) n = as_client (b.read_plain s n)

  unfoldable pub is_handshaking : TlsConnection A B → Bool
  is_handshaking (server s) = a.is_handshaking s
  is_handshaking (client s) = b.is_handshaking s

  -- The two kinds of connection as one.
  abbrev pub tls_connection_session : Session (TlsConnection A B)
  tls_connection_session = record {
    read_tls = read_tls;
    process_new_packets = process_new_packets;
    read_plain = reader;
    write_plain = writer;
    write_tls = write_tls;
    wants_write = wants_write;
    is_handshaking = is_handshaking;
  }
