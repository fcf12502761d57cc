-- ===== src/Tcp/Read.antt =====
-- transport/tcp.rs: read_connection. The answers of the socket to the successive calls of `read`
-- come as an argument, up to the one that ends the loop.
use rustcomm.Prelude.{
  ℕ, ◌+◌, Bool, true, false, Option, none, some, List, [], length, take, overwrite, resize, is_nil,
  ◌==◌, if◌then◌else◌,
}
use rustcomm.Error.{ErrorKind}
use rustcomm.Table.{lookup}
use rustcomm.Transport.Exit.{Exit, returned, panicked, connection_missing, not_connected}
use rustcomm.Tcp.State.{Connection, TcpTransport, drop_connection, track_spurious_wakeup}

pub data Reads : Type 0 where
  -- Ok(sz), with the sz bytes that the socket has put into the slice
  got : List ℕ → Reads → Reads
  -- Err(WouldBlock)
  drained : Reads
  -- any other Err
  read_error : ErrorKind → Reads

pub data ReadConnectionResult : Type 0 where
  read_ok : List ℕ → ReadConnectionResult
  read_disconnected : List ℕ → ReadConnectionResult

-- The loop's variables when it ends.
pub record ReadLoop : Type 0 where
  pub recv_buf : List ℕ
  pub recv_pos : ℕ
  pub disconnect : Bool

unfoldable pub read_loop : ℕ → Reads → List ℕ → ℕ → ReadLoop
read_loop max_read_size (got bytes rest) recv_buf recv_pos =
    let buf = overwrite recv_pos bytes (resize (recv_pos + max_read_size) 0 recv_buf) in
    let next = read_loop max_read_size rest buf (recv_pos + length bytes) in
    if length bytes == 0
    then record { recv_buf = buf; recv_pos = recv_pos; disconnect = true }
    else next
read_loop max_read_size drained recv_buf recv_pos = record {
  recv_buf = resize (recv_pos + max_read_size) 0 recv_buf;
  recv_pos = recv_pos;
  disconnect = false;
}
read_loop max_read_size (read_error kind) recv_buf recv_pos = record {
  recv_buf = resize (recv_pos + max_read_size) 0 recv_buf;
  recv_pos = recv_pos;
  disconnect = true;
}

-- After the loop: truncate(recv_pos), then remove the connection or count the wakeup.
unfoldable pub read_end : TcpTransport → ℕ → ReadLoop → Exit TcpTransport ReadConnectionResult
read_end t id l =
    let recv_buf = take l.recv_pos l.recv_buf in
    if l.disconnect
    then returned (read_disconnected recv_buf) (drop_connection t id)
    else track_spurious_wakeup t (is_nil recv_buf) (read_ok recv_buf)

unfoldable pub read_found :
    TcpTransport → ℕ → Reads → Option Connection → Exit TcpTransport ReadConnectionResult
unfolding read_end
read_found t id reads none = panicked connection_missing
read_found t id reads (some conn) =
    if conn.connected
    then read_end t id (read_loop t.max_read_size reads [] 0)
    else panicked not_connected

unfoldable pub read_connection : TcpTransport → ℕ → Reads → Exit TcpTransport ReadConnectionResult
unfolding read_found
read_connection t id reads = read_found t id reads (lookup id t.connections)
