-- ===== src/Tcp/Manage.antt =====
-- transport/tcp.rs: connect, listen, close and shutdown.
use rustcomm.Prelude.{ℕ, false, Option, none, some, List, [], ◌∷◌}
use rustcomm.Error.{ErrorKind, Result}
use rustcomm.Table.{Table, lookup, insert, remove, keys}
use rustcomm.Transport.Types.{SocketAddr, SocketAnswers, Shutdown, readable, writable}
use rustcomm.Transport.Exit.{Exit, panicked, question, empty_resolution}
use rustcomm.Tcp.State.{
  Connection, TcpTransport, Call, register, deregister, shutdown, add_connection, drop_connection,
  advance_connection_id,
}

-- A connection that connect() has started.
abbrev pub connecting : SocketAddr → SocketAddr → Connection
connecting local_addr peer_addr = record {
  connected = false;
  interest = writable;
  local_addr = local_addr;
  peer_addr = peer_addr;
  send_buf = [];
}

unfoldable pub connect_first :
    TcpTransport → SocketAnswers → List SocketAddr → Exit TcpTransport (ℕ × SocketAddr)
connect_first t a [] = panicked empty_resolution
connect_first t a (peer_addr ∷ _) = question a.opened t λ _. question a.nodelay t λ _.
    advance_connection_id (add_connection t t.next_id (connecting a.local_addr peer_addr))
      (t.next_id, peer_addr)

-- The second argument is what addr.to_socket_addrs() returned.
unfoldable pub connect :
    TcpTransport
    → Result ErrorKind (List SocketAddr)
    → SocketAnswers
    → Exit TcpTransport (ℕ × SocketAddr)
unfolding connect_first
connect t resolved a = question resolved t (connect_first t a)

-- Register a listener's socket and store it.
unfoldable pub add_listener : TcpTransport → ℕ → SocketAddr → TcpTransport
add_listener t id local_addr = record t {
  listeners = insert id local_addr t.listeners;
  calls = register id readable ∷ t.calls;
}

unfoldable pub listen_first :
    TcpTransport → SocketAnswers → List SocketAddr → Exit TcpTransport (ℕ × SocketAddr)
listen_first t a [] = panicked empty_resolution
listen_first t a (requested_addr ∷ _) =
    question a.opened t
      λ _. advance_connection_id (add_listener t t.next_id a.local_addr) (t.next_id, a.local_addr)

unfoldable pub listen :
    TcpTransport
    → Result ErrorKind (List SocketAddr)
    → SocketAnswers
    → Exit TcpTransport (ℕ × SocketAddr)
unfolding listen_first
listen t resolved a = question resolved t (listen_first t a)

unfoldable pub values : Table SocketAddr → List SocketAddr
values [] = []
values ((id, addr) ∷ m) = addr ∷ values m

unfoldable pub get_listener_addresses : TcpTransport → List SocketAddr
unfolding values
get_listener_addresses t = values t.listeners

close_found : TcpTransport → ℕ → Option Connection → TcpTransport
close_found t id none = t
close_found t id (some conn) = drop_connection t id

unfoldable pub close_connection : TcpTransport → ℕ → TcpTransport
unfolding close_found drop_connection
close_connection t id = close_found t id (lookup id t.connections)

-- The loop of a drain(): every entry is deregistered.
unfoldable pub deregister_all : List ℕ → List Call → List Call
deregister_all [] calls = calls
deregister_all (id ∷ ids) calls = deregister_all ids (deregister id ∷ calls)

unfoldable pub close_all_connections : TcpTransport → TcpTransport
close_all_connections t = record t {
  connections = [];
  calls = deregister_all (keys t.connections) t.calls;
}

-- Whether the socket's shutdown succeeds is only logged.
shutdown_found : TcpTransport → ℕ → Shutdown → Option Connection → TcpTransport
shutdown_found t id how none = t
shutdown_found t id how (some conn) = record t { calls = shutdown id how ∷ t.calls }

unfoldable pub shutdown_connection : TcpTransport → ℕ → Shutdown → TcpTransport
unfolding shutdown_found
shutdown_connection t id how = shutdown_found t id how (lookup id t.connections)

unfoldable pub shutdown_all : List ℕ → Shutdown → List Call → List Call
shutdown_all [] how calls = calls
shutdown_all (id ∷ ids) how calls = shutdown_all ids how (shutdown id how ∷ calls)

unfoldable pub shutdown_all_connections : TcpTransport → Shutdown → TcpTransport
unfolding shutdown_all
shutdown_all_connections t how = record t { calls = shutdown_all (keys t.connections) how t.calls }

unfoldable pub drop_listener : TcpTransport → ℕ → TcpTransport
drop_listener t id = record t { listeners = remove id t.listeners; calls = deregister id ∷ t.calls }

close_listener_found : TcpTransport → ℕ → Option SocketAddr → TcpTransport
close_listener_found t id none = t
close_listener_found t id (some addr) = drop_listener t id

unfoldable pub close_listener : TcpTransport → ℕ → TcpTransport
unfolding close_listener_found drop_listener
close_listener t id = close_listener_found t id (lookup id t.listeners)

unfoldable pub close_all_listeners : TcpTransport → TcpTransport
close_all_listeners t = record t {
  listeners = [];
  calls = deregister_all (keys t.listeners) t.calls;
}

unfoldable pub close_all : TcpTransport → TcpTransport
unfolding close_all_listeners close_all_connections
close_all t = close_all_connections (close_all_listeners t)
