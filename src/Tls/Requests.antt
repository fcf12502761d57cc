-- ===== src/Tls/Requests.antt =====
-- transport/tls.rs: process_interface_requests. Each request comes with the answers of the
-- operating system that serving it takes.
use rustcomm.Prelude.{ℕ, List, [], ◌∷◌, ◌++◌}
use rustcomm.Error.{ok, err}
use rustcomm.Transport.Types.{
  SocketAddr, SocketAnswers, Response, id_response, addresses_response, SendRequest,
  connect_request, listen_request, get_listener_addresses_request, close_connection_request,
  close_all_connections_request, shutdown_connection_request, shutdown_all_connections_request,
  close_listener_request, close_all_listeners_request, close_all_request, send_to_request,
  send_to_many_request, broadcast_request, broadcast_except_request, broadcast_except_many_request,
}
use rustcomm.Transport.Exit.{Exit, returned, raised, panicked, after}
use rustcomm.Tls.Session.{Rustls}
use rustcomm.Tls.State.{TlsTransport}
use rustcomm.Tls.Manage.{
  connect, listen, get_listener_addresses, close_connection, close_all_connections,
  shutdown_connection, shutdown_all_connections, close_listener, close_all_listeners, close_all,
}
use rustcomm.Tls.Send.{send_to, send_to_many, broadcast, broadcast_except, broadcast_except_many}

module _ {S X Y : Type 0} where
  unfoldable pub respond : TlsTransport S X Y → Response → TlsTransport S X Y
  respond t r = record t { responses = t.responses ++ r ∷ [] }

  -- response.send(result): the error goes to the caller and not out of the loop.
  unfoldable pub respond_result :
      ℕ → Exit (TlsTransport S X Y) (ℕ × SocketAddr) → Exit (TlsTransport S X Y) (Unit {0})
  unfolding respond
  respond_result response (returned r t) = returned tt (respond t (id_response response (ok r)))
  respond_result response (raised e t) = returned tt (respond t (id_response response (err e)))
  respond_result response (panicked p) = panicked p

module _ {S X Y : Type 0} (rustls : Rustls S X Y) where
  unfoldable pub process_request :
      TlsTransport S X Y → SendRequest → SocketAnswers → Exit (TlsTransport S X Y) (Unit {0})
  unfolding respond_result respond
  process_request t (connect_request addr response) a =
      respond_result response (connect rustls t (ok (addr ∷ [])) a)
  process_request t (listen_request addr response) a =
      respond_result response (listen t (ok (addr ∷ [])) a)
  process_request t (get_listener_addresses_request response) a =
      returned tt (respond t (addresses_response response (get_listener_addresses t)))
  process_request t (close_connection_request id) a = returned tt (close_connection t id)
  process_request t close_all_connections_request a = returned tt (close_all_connections t)
  process_request t (shutdown_connection_request id how) a =
      returned tt (shutdown_connection t id how)
  process_request t (shutdown_all_connections_request how) a =
      returned tt (shutdown_all_connections t how)
  process_request t (close_listener_request id) a = returned tt (close_listener t id)
  process_request t close_all_listeners_request a = returned tt (close_all_listeners t)
  process_request t close_all_request a = returned tt (close_all t)
  process_request t (send_to_request id bytes) a = returned tt (send_to t id bytes)
  process_request t (send_to_many_request ids bytes) a = returned tt (send_to_many t ids bytes)
  process_request t (broadcast_request bytes) a = returned tt (broadcast t bytes)
  process_request t (broadcast_except_request bytes except_id) a =
      returned tt (broadcast_except t bytes except_id)
  process_request t (broadcast_except_many_request bytes except_ids) a =
      returned tt (broadcast_except_many t bytes except_ids)

  unfoldable pub process_interface_requests :
      TlsTransport S X Y → List (SendRequest × SocketAnswers) → Exit (TlsTransport S X Y) (Unit {0})
  process_interface_requests t [] = returned tt t
  process_interface_requests t ((request, answers) ∷ rest) =
      after (process_request t request answers) λ _ t'. process_interface_requests t' rest
