-- ===== src/Examples/Sockets.antt =====
-- One connection, from connect() to an exchange of bytes: transport/tcp.rs at concrete inputs.
use rustcomm.Prelude.{
  ℕ, ◌≡◌, refl, arith, ◌==◌, true, false, not, some, none, List, [], ◌∷◌, ◌++◌, contains,
  if◌then◌else◌,
}
use rustcomm.Error.{ok}
use rustcomm.Table.{lookup, insert, contains_key, is_some, is_empty}
use rustcomm.Transport.Types.{
  SocketAddr, SocketAnswers, readable, writable, read_write, connected, id_response,
  connect_request, close_all_request,
}
use rustcomm.Transport.Exit.{returned, panicked, not_connected, FetchLeaves}
use rustcomm.Tcp.State.{
  Connection, TcpTransport, register, reregister, Settings, fresh, new_named, in_use, next,
  advance_connection_id, track_spurious_wakeup, reregister_if_changed, add_connection,
}
use rustcomm.Tcp.Manage.{connecting, connect}
use rustcomm.Tcp.Send.{send_to, send_to_many, broadcast, broadcast_except, broadcast_except_many}
use rustcomm.Tcp.Accept.{none_left}
use rustcomm.Tcp.Read.{got, drained, read_ok, read_connection}
use rustcomm.Tcp.Write.{took, full, write_loop, write_connection, write_finish}
use rustcomm.Tcp.Requests.{process_request, process_interface_requests}
use rustcomm.Tcp.Events.{
  PollEvent, Progress, Round, handle_event, handle_connection, handle_events, fetch_events,
}
use rustcomm.Tcp.Registered.{registered}
use rustcomm.Tcp.Ids.Cycle.{InRange}
use rustcomm.Tcp.Ids.Free.{advance_connection_id-returns}
use rustcomm.Tcp.Invariant.Defs.{IsConsistent}
use rustcomm.Tcp.Invariant.Run.{fetch_events-IsConsistent}
use rustcomm.Tcp.Reachable.{Step, call, fetch, Reachable, created, stepped, Reachable-IsConsistent}
use rustcomm.Tcp.ReadBuffer.{read_connection-arrived}
use rustcomm.Tcp.Stream.{stream}
use rustcomm.Tcp.Stream.Sending.{queued_if, send_to_many-stream, broadcast-reaches}
use rustcomm.Tcp.Stream.Writing.{Delivers, write_connection-Delivers}
use rustcomm.Tcp.Early.{send_to-before_established}
use rustcomm.Tcp.Safety.{Returns, handle_event-Returns}
use rustcomm.Transport.Types.{shut_both}
use rustcomm.Transport.Interface
use rustcomm.Transport.Interface.{Channel}
use rustcomm.Tcp.Manage
use rustcomm.Tcp.Send
use rustcomm.Tcp.Stream.Sending.{queued}
use rustcomm.Tcp.Spurious.{quiet, send_to-empty}
use rustcomm.Tcp.Served.{Serves, Answers, interface-Serves, interface-Answers}
use rustcomm.Error.{err, io, other_kind}
use rustcomm.Transport.Exit.{raised}
use rustcomm.Tcp.Manage.{listen}
use rustcomm.Tcp.Opened.{sockets_open}
use rustcomm.Tcp.Batch.{FetchGives, fetch_events-Gives}
use rustcomm.Transport.Types.{listen_request}
use rustcomm.Tcp.Manage.{add_listener, drop_listener}
use rustcomm.Tcp.Accept.{accept_error}
use rustcomm.Tcp.Events.{poll_round}
use rustcomm.Tcp.Lost.{poll_round-loses}

abbrev defaults : Settings
defaults = record {
  name_is_empty = true;
  named_max_read_size = none;
  max_read_size = none;
  named_poll_capacity = none;
  poll_capacity = none;
}

abbrev local : SocketAddr
local = record { ip = 2130706433; port = 50000 }

abbrev server : SocketAddr
server = record { ip = 2130706433; port = 8080 }

abbrev answers : SocketAnswers
answers = record { opened = ok tt; nodelay = ok tt; local_addr = local }

-- After connect().
abbrev connecting_transport : TcpTransport
connecting_transport = record {
  connections = (1000, connecting local server) ∷ [];
  listeners = [];
  next_id = 1001;
  spurious_wakeups = 0;
  max_read_size = 1048576;
  max_spurious_wakeups = 10;
  poll_capacity = 256;
  calls = register 1000 writable ∷ [];
  responses = id_response 7 (ok (1000, server)) ∷ [];
}

connect-Step : Step (fresh defaults) connecting_transport
unfolding process_request new_named connect advance_connection_id in_use next insert lookup
    add_connection
connect-Step = call (connect_request server 7) answers refl

-- The socket is ready for writing: the connection is established.
abbrev ready : PollEvent
ready = record {
  token = 1000;
  is_readable = false;
  is_writable = true;
  accepts = none_left;
  reads = drained;
  take_error = none;
  writes = full;
}

abbrev rounds : List Round
rounds = record { requests = []; polled = ok (ready ∷ []) } ∷ []

abbrev peer : Connection
peer = record {
  connected = true;
  interest = readable;
  local_addr = local;
  peer_addr = server;
  send_buf = [];
}

abbrev connected_transport : TcpTransport
connected_transport = record connecting_transport {
  connections = (1000, peer) ∷ [];
  calls = reregister 1000 readable ∷ register 1000 writable ∷ [];
}

fetch-Step : Step connecting_transport connected_transport
unfolding fetch_events process_interface_requests handle_events handle_event handle_connection
    write_connection write_loop write_finish lookup insert contains_key contains is_empty
    reregister_if_changed
fetch-Step = fetch rounds (connected 1000 ∷ []) refl

connecting_reached : Reachable defaults connecting_transport
unfolding new_named
connecting_reached = stepped (created (ok tt) (ok tt) refl) connect-Step

Reachable-IsConsistent_example : IsConsistent connected_transport
Reachable-IsConsistent_example = Reachable-IsConsistent (stepped connecting_reached fetch-Step)

fetch_events-IsConsistent_example :
    FetchLeaves IsConsistent (fetch_events connecting_transport rounds)
fetch_events-IsConsistent_example =
    fetch_events-IsConsistent connecting_transport rounds
      (Reachable-IsConsistent connecting_reached)

-- With three bytes to send.
abbrev sender : Connection
sender = record peer { interest = read_write; send_buf = 1 ∷ 2 ∷ 3 ∷ [] }

abbrev sending_transport : TcpTransport
sending_transport = record connected_transport { connections = (1000, sender) ∷ [] }

sending_at : lookup 1000 sending_transport.connections ≡ some sender
unfolding lookup
sending_at = refl

connected_at : lookup 1000 connected_transport.connections ≡ some peer
unfolding lookup
connected_at = refl

connecting_at : lookup 1000 connecting_transport.connections ≡ some (connecting local server)
unfolding lookup
connecting_at = refl

write_connection-Delivers_example :
    Delivers sending_transport 1000 (write_connection sending_transport 1000 none (took 2 full))
write_connection-Delivers_example =
    write_connection-Delivers sending_transport 1000 none (took 2 full) sender sending_at
      (omega arith, tt)

read_connection-arrived_example :
    read_connection connected_transport 1000 (got (5 ∷ []) drained)
    ≡ track_spurious_wakeup connected_transport false (read_ok (5 ∷ []))
read_connection-arrived_example =
    read_connection-arrived connected_transport 1000 (got (5 ∷ []) drained) peer connected_at refl
      (omega arith, tt)

abbrev idle : Progress
idle = record { dispatch_events = []; disconnected_ids = [] }

abbrev both : PollEvent
both = record ready { is_readable = true; reads = got (5 ∷ []) drained }

handle_event-Returns_example : Returns (handle_event connected_transport both idle)
handle_event-Returns_example =
    handle_event-Returns connected_transport both idle peer
      (Reachable-IsConsistent (stepped connecting_reached fetch-Step)) connected_at refl refl tt
      (omega arith)

nothing_gone : contains idle.disconnected_ids 1000 ≡ false
unfolding contains
nothing_gone = refl

send_to-before_established_example :
    (registered (send_to connecting_transport 1000 (5 ∷ [])).calls 1000 ≡ some read_write)
    × (handle_event (send_to connecting_transport 1000 (5 ∷ [])) both idle ≡ panicked not_connected)
send_to-before_established_example =
    send_to-before_established connecting_transport 1000 (connecting local server) (5 ∷ []) both
      idle (Reachable-IsConsistent connecting_reached) connecting_at refl refl refl nothing_gone

advance_connection_id-returns_example :
    (id : ℕ) × (advance_connection_id connected_transport tt
      ≡ returned tt (record connected_transport { next_id = id }))
    × (in_use connected_transport id ≡ false)
    × InRange id
advance_connection_id-returns_example =
    advance_connection_id-returns connected_transport tt (omega arith, omega arith) (omega arith)

broadcast-reaches_example :
    (lookup 1000 (broadcast connected_transport (5 ∷ [])).connections
      ≡ queued_if true (5 ∷ []) (lookup 1000 connected_transport.connections))
    × (lookup 1000 (broadcast_except connected_transport (5 ∷ []) 1000).connections
        ≡ queued_if (not (1000 == 1000)) (5 ∷ []) (lookup 1000 connected_transport.connections))
    × (lookup 1000 (broadcast_except_many connected_transport (5 ∷ []) (1001 ∷ [])).connections
        ≡ queued_if
            (not (contains (1001 ∷ []) 1000))
            (5 ∷ [])
            (lookup 1000 connected_transport.connections))
broadcast-reaches_example =
    broadcast-reaches connected_transport (5 ∷ []) 1000 (1001 ∷ []) 1000
      (Reachable-IsConsistent (stepped connecting_reached fetch-Step))

known : is_some (lookup 1000 connected_transport.connections) ≡ true
unfolding lookup
known = refl

send_to_many-stream_example :
    stream (send_to_many connected_transport (1000 ∷ 1000 ∷ []) (5 ∷ [])) 1000
    ≡ stream connected_transport 1000 ++ 5 ∷ 5 ∷ []
send_to_many-stream_example =
    send_to_many-stream connected_transport (1000 ∷ 1000 ∷ []) 1000 (5 ∷ []) known

send_to-empty_example :
    handle_event (send_to connected_transport 1000 []) ready idle
    ≡ returned idle (record (quiet (send_to connected_transport 1000 []) 1000 (queued [] peer)) {
      spurious_wakeups = 1;
    })
send_to-empty_example =
    send_to-empty connected_transport 1000 peer ready idle
      (Reachable-IsConsistent (stepped connecting_reached fetch-Step)) connected_at refl refl refl
      refl refl nothing_gone

-- A request to close all waits already.
abbrev busy_channel : Channel
busy_channel = record { requests = close_all_request ∷ []; wakes = 1; next_response = 3 }

interface-Answers_example :
    Answers busy_channel
      (Interface.connect busy_channel (ok (server ∷ [])))
      (λ t. Manage.connect t (ok (server ∷ [])))
    × Answers busy_channel
        (Interface.listen busy_channel (ok (server ∷ [])))
        (λ t. Manage.listen t (ok (server ∷ [])))
interface-Answers_example = interface-Answers busy_channel server []

interface-Serves_example :
    Serves busy_channel
      (Interface.close_connection busy_channel 1000)
      (λ t. Manage.close_connection t 1000)
    × Serves busy_channel
        (Interface.close_all_connections busy_channel)
        (λ t. Manage.close_all_connections t)
    × Serves busy_channel
        (Interface.shutdown_connection busy_channel 1000 shut_both)
        (λ t. Manage.shutdown_connection t 1000 shut_both)
    × Serves busy_channel
        (Interface.shutdown_all_connections busy_channel shut_both)
        (λ t. Manage.shutdown_all_connections t shut_both)
    × Serves busy_channel
        (Interface.close_listener busy_channel 1000)
        (λ t. Manage.close_listener t 1000)
    × Serves busy_channel
        (Interface.close_all_listeners busy_channel)
        (λ t. Manage.close_all_listeners t)
    × Serves busy_channel (Interface.close_all busy_channel) (λ t. Manage.close_all t)
    × Serves busy_channel
        (Interface.send_to busy_channel 1000 (5 ∷ []))
        (λ t. Send.send_to t 1000 (5 ∷ []))
    × Serves busy_channel
        (Interface.send_to_many busy_channel (1000 ∷ []) (5 ∷ []))
        (λ t. Send.send_to_many t (1000 ∷ []) (5 ∷ []))
    × Serves busy_channel
        (Interface.broadcast busy_channel (5 ∷ []))
        (λ t. Send.broadcast t (5 ∷ []))
    × Serves busy_channel
        (Interface.broadcast_except busy_channel (5 ∷ []) 1000)
        (λ t. Send.broadcast_except t (5 ∷ []) 1000)
    × Serves busy_channel
        (Interface.broadcast_except_many busy_channel (5 ∷ []) (1000 ∷ []))
        (λ t. Send.broadcast_except_many t (5 ∷ []) (1000 ∷ []))
interface-Serves_example = interface-Serves busy_channel 1000 (1000 ∷ []) (5 ∷ []) shut_both

sockets_open_example :
    (((t' : TcpTransport) × (connect connected_transport (ok (server ∷ [])) answers
          ≡ returned (1001, server) t')
        × (in_use connected_transport 1001 ≡ false)
        × ((j : ℕ)
            → lookup j t'.connections ≡ (
                if 1001 == j
                then some (connecting local server)
                else lookup j connected_transport.connections))
        × (t'.listeners ≡ connected_transport.listeners))
      × (connect connected_transport (ok (server ∷ [])) (record answers { opened = err other_kind })
          ≡ raised (io other_kind) connected_transport))
    × (((t' : TcpTransport) × (listen connected_transport (ok (server ∷ [])) answers
            ≡ returned (1001, local) t')
          × (in_use connected_transport 1001 ≡ false)
          × ((j : ℕ)
              → lookup j t'.listeners
                ≡ (if 1001 == j then some local else lookup j connected_transport.listeners))
          × (t'.connections ≡ connected_transport.connections))
        × (listen connected_transport
              (ok (server ∷ []))
              (record answers { opened = err other_kind })
            ≡ raised (io other_kind) connected_transport))
sockets_open_example =
    sockets_open connected_transport server [] local other_kind (ok tt)
      (Reachable-IsConsistent (stepped connecting_reached fetch-Step)) (omega arith)

fetch_events-Gives_example : FetchGives (fetch_events connecting_transport rounds)
fetch_events-Gives_example = fetch_events-Gives connecting_transport rounds

-- After listen() too.
abbrev listening_transport : TcpTransport
listening_transport = record connected_transport {
  listeners = (1001, local) ∷ [];
  next_id = 1002;
  calls = register 1001 readable ∷ reregister 1000 readable ∷ register 1000 writable ∷ [];
  responses = id_response 7 (ok (1000, server)) ∷ id_response 8 (ok (1001, local)) ∷ [];
}

listen-Step : Step connected_transport listening_transport
unfolding process_request listen add_listener advance_connection_id in_use next insert lookup
listen-Step = call (listen_request local 8) answers refl

listening_at : lookup 1001 listening_transport.listeners ≡ some local
unfolding lookup
listening_at = refl

abbrev data_event : PollEvent
data_event = record both { is_writable = false }

abbrev failing_accept : PollEvent
failing_accept = record data_event { token = 1001; accepts = accept_error other_kind }

poll_round-loses_example :
    poll_round listening_transport (ok (data_event ∷ failing_accept ∷ []))
    ≡ raised
        (io other_kind)
        (drop_listener (record listening_transport { spurious_wakeups = 0 }) 1001)
poll_round-loses_example =
    poll_round-loses listening_transport peer local data_event failing_accept other_kind
      (Reachable-IsConsistent (stepped (stepped connecting_reached fetch-Step) listen-Step))
      connected_at refl refl (omega arith, tt) refl refl listening_at refl
