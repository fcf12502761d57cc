-- ===== src/Tcp/Impl.antt =====
-- transport/tcp.rs: impl TransportImpl for TcpTransport. A SocketAddr resolves to itself.
use rustcomm.Prelude.{List, [], ◌∷◌}
use rustcomm.Error.{ok}
use rustcomm.Transport.Impl.{TransportImpl}
use rustcomm.Tcp.State.{TcpTransport}
use rustcomm.Tcp.Manage
use rustcomm.Tcp.Send
use rustcomm.Tcp.Events
use rustcomm.Tcp.Events.{Round}

abbrev pub tcp_transport_impl : TransportImpl TcpTransport (List Round)
tcp_transport_impl = record {
  connect_impl = λ t addr. Manage.connect t (ok (addr ∷ []));
  listen_impl = λ t addr. Manage.listen t (ok (addr ∷ []));
  get_listener_addresses = Manage.get_listener_addresses;
  close_connection = Manage.close_connection;
  close_all_connections = Manage.close_all_connections;
  shutdown_connection = Manage.shutdown_connection;
  shutdown_all_connections = Manage.shutdown_all_connections;
  close_listener = Manage.close_listener;
  close_all_listeners = Manage.close_all_listeners;
  close_all = Manage.close_all;
  send_to = Send.send_to;
  send_to_many = Send.send_to_many;
  broadcast = Send.broadcast;
  broadcast_except = Send.broadcast_except;
  broadcast_except_many = Send.broadcast_except_many;
  fetch_events = Events.fetch_events;
}
