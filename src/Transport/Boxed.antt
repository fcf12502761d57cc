-- ===== src/Transport/Boxed.antt =====
-- transport/mod.rs: the struct Transport with one of two implementations in its box; each method is
-- that of the implementation which is there. A call of fetch_events takes what the operating system
-- and the other threads do in either case.
use rustcomm.Prelude.{ℕ, List}
use rustcomm.Transport.Types.{SocketAddr, SocketAnswers, Shutdown, TransportEvent}
use rustcomm.Transport.Exit.{Exit, Fetched, fetched, waiting, on_state}
use rustcomm.Transport.Impl.{TransportImpl}

pub data Boxed (A B : Type 0) : Type 0 where
  tcp : A → Boxed A B
  tls : B → Boxed A B

-- What fetch_events leaves, put back into the box.
abbrev pub fetched_in : {S T E : Type 0} → (S → T) → Fetched S E → Fetched T E
fetched_in box (fetched m) = fetched (on_state box m)
fetched_in box (waiting t) = waiting (box t)

module _ {A B V W : Type 0} (first : TransportImpl A V) (second : TransportImpl B W) where
  unfoldable pub connect_impl :
      Boxed A B → SocketAddr → SocketAnswers → Exit (Boxed A B) (ℕ × SocketAddr)
  connect_impl (tcp t) addr a = on_state tcp (first.connect_impl t addr a)
  connect_impl (tls t) addr a = on_state tls (second.connect_impl t addr a)

  unfoldable pub listen_impl :
      Boxed A B → SocketAddr → SocketAnswers → Exit (Boxed A B) (ℕ × SocketAddr)
  listen_impl (tcp t) addr a = on_state tcp (first.listen_impl t addr a)
  listen_impl (tls t) addr a = on_state tls (second.listen_impl t addr a)

  unfoldable pub get_listener_addresses : Boxed A B → List SocketAddr
  get_listener_addresses (tcp t) = first.get_listener_addresses t
  get_listener_addresses (tls t) = second.get_listener_addresses t

  unfoldable pub close_connection : Boxed A B → ℕ → Boxed A B
  close_connection (tcp t) id = tcp (first.close_connection t id)
  close_connection (tls t) id = tls (second.close_connection t id)

  unfoldable pub close_all_connections : Boxed A B → Boxed A B
  close_all_connections (tcp t) = tcp (first.close_all_connections t)
  close_all_connections (tls t) = tls (second.close_all_connections t)

  unfoldable pub shutdown_connection : Boxed A B → ℕ → Shutdown → Boxed A B
  shutdown_connection (tcp t) id how = tcp (first.shutdown_connection t id how)
  shutdown_connection (tls t) id how = tls (second.shutdown_connection t id how)

  unfoldable pub shutdown_all_connections : Boxed A B → Shutdown → Boxed A B
  shutdown_all_connections (tcp t) how = tcp (first.shutdown_all_connections t how)
  shutdown_all_connections (tls t) how = tls (second.shutdown_all_connections t how)

  unfoldable pub close_listener : Boxed A B → ℕ → Boxed A B
  close_listener (tcp t) id = tcp (first.close_listener t id)
  close_listener (tls t) id = tls (second.close_listener t id)

  unfoldable pub close_all_listeners : Boxed A B → Boxed A B
  close_all_listeners (tcp t) = tcp (first.close_all_listeners t)
  close_all_listeners (tls t) = tls (second.close_all_listeners t)

  unfoldable pub close_all : Boxed A B → Boxed A B
  close_all (tcp t) = tcp (first.close_all t)
  close_all (tls t) = tls (second.close_all t)

  unfoldable pub send_to : Boxed A B → ℕ → List ℕ → Boxed A B
  send_to (tcp t) id buf = tcp (first.send_to t id buf)
  send_to (tls t) id buf = tls (second.send_to t id buf)

  unfoldable pub send_to_many : Boxed A B → List ℕ → List ℕ → Boxed A B
  send_to_many (tcp t) ids buf = tcp (first.send_to_many t ids buf)
  send_to_many (tls t) ids buf = tls (second.send_to_many t ids buf)

  unfoldable pub broadcast : Boxed A B → List ℕ → Boxed A B
  broadcast (tcp t) buf = tcp (first.broadcast t buf)
  broadcast (tls t) buf = tls (second.broadcast t buf)

  unfoldable pub broadcast_except : Boxed A B → List ℕ → ℕ → Boxed A B
  broadcast_except (tcp t) buf except_id = tcp (first.broadcast_except t buf except_id)
  broadcast_except (tls t) buf except_id = tls (second.broadcast_except t buf except_id)

  unfoldable pub broadcast_except_many : Boxed A B → List ℕ → List ℕ → Boxed A B
  broadcast_except_many (tcp t) buf except_ids = tcp (first.broadcast_except_many t buf except_ids)
  broadcast_except_many (tls t) buf except_ids = tls (second.broadcast_except_many t buf except_ids)

  unfoldable pub fetch_events : Boxed A B → V × W → Fetched (Boxed A B) (List TransportEvent)
  fetch_events (tcp t) (rounds, _) = fetched_in tcp (first.fetch_events t rounds)
  fetch_events (tls t) (_, rounds) = fetched_in tls (second.fetch_events t rounds)

  abbrev pub boxed_impl : TransportImpl (Boxed A B) (V × W)
  boxed_impl = record {
    connect_impl = connect_impl;
    listen_impl = listen_impl;
    get_listener_addresses = get_listener_addresses;
    close_connection = close_connection;
    close_all_connections = close_all_connections;
    shutdown_connection = shutdown_connection;
    shutdown_all_connections = shutdown_all_connections;
    close_listener = close_listener;
    close_all_listeners = close_all_listeners;
    close_all = close_all;
    send_to = send_to;
    send_to_many = send_to_many;
    broadcast = broadcast;
    broadcast_except = broadcast_except;
    broadcast_except_many = broadcast_except_many;
    fetch_events = fetch_events;
  }
