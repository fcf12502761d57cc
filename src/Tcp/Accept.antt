-- ===== src/Tcp/Accept.antt =====
-- transport/tcp.rs: accept_connections. The answers of the listener to the successive calls of
-- `accept` come as an argument, up to the one that ends the loop.
use rustcomm.Prelude.{ℕ, true, Option, none, some, List, [], ◌∷◌, ◌++◌, is_nil}
use rustcomm.Error.{ErrorKind, io, Result, ok, err}
use rustcomm.Table.{lookup}
use rustcomm.Transport.Types.{SocketAddr, readable}
use rustcomm.Transport.Exit.{Exit, returned, after, raised, panicked, listener_missing}
use rustcomm.Tcp.State.{
  Connection, TcpTransport, add_connection, advance_connection_id, track_spurious_wakeup,
}
use rustcomm.Tcp.Manage.{drop_listener}

-- The two addresses of an accepted stream.
pub record Stream : Type 0 where
  pub local_addr : SocketAddr
  pub peer_addr : SocketAddr

pub data Accepts : Type 0 where
  -- Ok(stream), and the answer of stream.set_nodelay(true)
  accepted : Stream → Result ErrorKind (Unit {0}) → Accepts → Accepts
  -- Err(WouldBlock)
  none_left : Accepts
  -- any other Err
  accept_error : ErrorKind → Accepts

-- How the first loop ends; an early end drops the streams that it has collected.
pub data Collected : Type 0 where
  streams : List Stream → Collected
  nodelay_error : ErrorKind → Collected
  listener_error : ErrorKind → Collected

unfoldable pub collect : Accepts → List Stream → Collected
collect (accepted stream (ok _) rest) new_streams = collect rest (new_streams ++ stream ∷ [])
collect (accepted stream (err kind) rest) new_streams = nodelay_error kind
collect none_left new_streams = streams new_streams
collect (accept_error kind) new_streams = listener_error kind

-- A connection from accept() is fully connected.
abbrev pub accepted_connection : Stream → Connection
accepted_connection stream = record {
  connected = true;
  interest = readable;
  local_addr = stream.local_addr;
  peer_addr = stream.peer_addr;
  send_buf = [];
}

unfoldable pub add_accepted : TcpTransport → List Stream → List ℕ → Exit TcpTransport (List ℕ)
add_accepted t [] new_conn_ids = returned new_conn_ids t
add_accepted t (stream ∷ rest) new_conn_ids =
    after
      (advance_connection_id (add_connection t t.next_id (accepted_connection stream))
        (new_conn_ids ++ t.next_id ∷ []))
      λ ids t'. add_accepted t' rest ids

unfoldable pub accept_end : TcpTransport → ℕ → Collected → Exit TcpTransport (List ℕ)
unfolding add_accepted
accept_end t id (streams new_streams) =
    after (add_accepted t new_streams [])
      λ new_conn_ids t'. track_spurious_wakeup t' (is_nil new_streams) new_conn_ids
accept_end t id (nodelay_error kind) = raised (io kind) t
accept_end t id (listener_error kind) = raised (io kind) (drop_listener t id)

unfoldable pub accept_found :
    TcpTransport → ℕ → Accepts → Option SocketAddr → Exit TcpTransport (List ℕ)
unfolding accept_end collect
accept_found t id accepts none = panicked listener_missing
accept_found t id accepts (some addr) = accept_end t id (collect accepts [])

unfoldable pub accept_connections : TcpTransport → ℕ → Accepts → Exit TcpTransport (List ℕ)
unfolding accept_found
accept_connections t id accepts = accept_found t id accepts (lookup id t.listeners)
