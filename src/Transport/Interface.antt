-- ===== src/Transport/Interface.antt =====
-- transport/interface.rs: TransportInterface. The channel to the event loop is the list of the
-- requests that wait in it, the oldest first; `wakes` counts the calls of waker.wake(), and
-- `next_response` names the next channel for a response. The `expect`s on the channel and the waker
-- are taken to succeed: the event loop is alive.
use rustcomm.Prelude.{ℕ, ◌+◌, List, [], ◌∷◌, ◌++◌}
use rustcomm.Error.{ErrorKind, Result}
use rustcomm.Transport.Types.{SocketAddr, Shutdown, SendRequest}
use rustcomm.Transport.Exit.{Exit, returned, panicked, question, empty_resolution}

pub record Channel : Type 0 where
  pub requests : List SendRequest
  pub wakes : ℕ
  pub next_response : ℕ

-- sender.send(request), waker.wake()
unfoldable pub submit : Channel → SendRequest → Channel
submit c request = record c { requests = c.requests ++ request ∷ []; wakes = c.wakes + 1 }

-- A request that carries a response channel; the caller waits for what is sent on it.
unfoldable pub submit_waiting : Channel → (ℕ → SendRequest) → Exit Channel ℕ
unfolding submit
submit_waiting c request =
    returned c.next_response
      (record (submit c (request c.next_response)) { next_response = c.next_response + 1 })

-- addr.to_socket_addrs()?.next().expect(..)
unfoldable pub submit_first :
    Channel → (SocketAddr → ℕ → SendRequest) → List SocketAddr → Exit Channel ℕ
unfolding submit_waiting
submit_first c request [] = panicked empty_resolution
submit_first c request (addr ∷ _) = submit_waiting c (request addr)

unfoldable pub connect : Channel → Result ErrorKind (List SocketAddr) → Exit Channel ℕ
unfolding submit_first
connect c resolved = question resolved c λ addrs. submit_first c SendRequest.connect_request addrs

unfoldable pub listen : Channel → Result ErrorKind (List SocketAddr) → Exit Channel ℕ
unfolding submit_first
listen c resolved = question resolved c λ addrs. submit_first c SendRequest.listen_request addrs

unfoldable pub get_listener_addresses : Channel → Exit Channel ℕ
unfolding submit_waiting
get_listener_addresses c = submit_waiting c SendRequest.get_listener_addresses_request

unfoldable pub close_connection : Channel → ℕ → Channel
unfolding submit
close_connection c id = submit c (SendRequest.close_connection_request id)

unfoldable pub close_all_connections : Channel → Channel
unfolding submit
close_all_connections c = submit c (SendRequest.close_all_connections_request)

unfoldable pub shutdown_connection : Channel → ℕ → Shutdown → Channel
unfolding submit
shutdown_connection c id how = submit c (SendRequest.shutdown_connection_request id how)

unfoldable pub shutdown_all_connections : Channel → Shutdown → Channel
unfolding submit
shutdown_all_connections c how = submit c (SendRequest.shutdown_all_connections_request how)

unfoldable pub close_listener : Channel → ℕ → Channel
unfolding submit
close_listener c id = submit c (SendRequest.close_listener_request id)

unfoldable pub close_all_listeners : Channel → Channel
unfolding submit
close_all_listeners c = submit c (SendRequest.close_all_listeners_request)

unfoldable pub close_all : Channel → Channel
unfolding submit
close_all c = submit c (SendRequest.close_all_request)

unfoldable pub send_to : Channel → ℕ → List ℕ → Channel
unfolding submit
send_to c id bytes = submit c (SendRequest.send_to_request id bytes)

unfoldable pub send_to_many : Channel → List ℕ → List ℕ → Channel
unfolding submit
send_to_many c ids bytes = submit c (SendRequest.send_to_many_request ids bytes)

unfoldable pub broadcast : Channel → List ℕ → Channel
unfolding submit
broadcast c bytes = submit c (SendRequest.broadcast_request bytes)

unfoldable pub broadcast_except : Channel → List ℕ → ℕ → Channel
unfolding submit
broadcast_except c bytes except_id = submit c (SendRequest.broadcast_except_request bytes except_id)

unfoldable pub broadcast_except_many : Channel → List ℕ → List ℕ → Channel
unfolding submit
broadcast_except_many c bytes except_ids =
    submit c (SendRequest.broadcast_except_many_request bytes except_ids)
