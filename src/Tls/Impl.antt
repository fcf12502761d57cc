-- ===== src/Tls/Impl.antt =====
-- transport/tls.rs: impl TransportImpl for TlsTransport. A SocketAddr resolves to itself.
use rustcomm.Prelude.{List, [], ◌∷◌}
use rustcomm.Error.{ok}
use rustcomm.Transport.Impl.{TransportImpl}
use rustcomm.Tls.Session.{Rustls}
use rustcomm.Tls.State.{TlsTransport}
use rustcomm.Tls.Manage
use rustcomm.Tls.Send
use rustcomm.Tls.Events
use rustcomm.Tls.Events.{Round}

abbrev pub tls_transport_impl :
    {S X Y : Type 0} → Rustls S X Y → TransportImpl (TlsTransport S X Y) (List Round)
tls_transport_impl rustls = record {
  connect_impl = λ t addr. Manage.connect rustls t (ok (addr ∷ []));
  listen_impl = λ t addr. Manage.listen t (ok (addr ∷ []));
  get_listener_addresses = Manage.get_listener_addresses;
  close_connection = Manage.close_connection;
  close_all_connections = Manage.close_all_connections;
  shutdown_connection = Manage.shutdown_connection;
  shutdown_all_connections = Manage.shutdown_all_connections;
  close_listener = Manage.close_listener;
  close_all_listeners = Manage.close_all_listeners;
  close_all = Manage.close_all;
  send_to = Send.send_to;
  send_to_many = Send.send_to_many;
  broadcast = Send.broadcast;
  broadcast_except = Send.broadcast_except;
  broadcast_except_many = Send.broadcast_except_many;
  fetch_events = Events.fetch_events rustls;
}
