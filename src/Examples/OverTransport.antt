-- ===== src/Examples/OverTransport.antt =====
-- Two messages that are sent over a Transport that holds the TLS transport of Examples/Tls.
use rustcomm.Prelude.{ℕ, ◌≡◌, refl, true, some, List, [], ◌∷◌, ◌++◌, map}
use mathlib.Core.List.{flatten}
use rustcomm.Table.{lookup, insert}
use rustcomm.Transport.Types.{TransportEvent, read_write}
use rustcomm.Transport.Exit.{returned}
use rustcomm.Message.Registry.{get}
use rustcomm.Message.Word.{to_le_bytes}
use rustcomm.Message.Frame.{empty_context, empty_context_impl, serialize_message, fill}
use rustcomm.Messenger.State.{Messenger, message}
use rustcomm.Messenger.Manage.{send_to_with_context}
use rustcomm.Messenger.Fetch.{buffer, dispatch}
use rustcomm.Messenger.Streaming.{send_over}
use rustcomm.Messenger.OverTransport.{transport_streaming, over_transport-delivered}
use rustcomm.Tcp.State.{TcpTransport}
use rustcomm.Tcp.Impl.{tcp_transport_impl}
use rustcomm.Tcp.Stream.{sent}
use rustcomm.Tls.Impl.{tls_transport_impl}
use rustcomm.Tls.State.{queue_data}
use rustcomm.Tls.Send.{send_to}
use rustcomm.Transport.Boxed.{Boxed, tls, boxed_impl, send_to as boxed_send_to}
use rustcomm.Examples.Messages.{
  raw_message, raw_registry, hello, hello_bytes, fresh_messenger, parcels, pieces, hello-Travels,
  fresh_buffer,
}
use rustcomm.Examples.Tls.{toy, client, accepted_transport, Transport}

abbrev sender_with : List ℕ → Messenger (List ℕ) (Boxed TcpTransport Transport)
sender_with bytes = record {
  transport = tls (record accepted_transport {
    connections = (1001, record client { interest = read_write; send_buf = bytes }) ∷ [];
  });
  registry = raw_registry;
  recv_buffers = [];
}

known_receiver : (transport_streaming toy).knows (sender_with []).transport 1001 ≡ true
unfolding lookup
known_receiver = refl

nothing_sent : (transport_streaming toy).stream (sender_with []).transport 1001 ≡ []
unfolding lookup sent
nothing_sent = refl

sends_both :
    send_over raw_message empty_context_impl
      (boxed_impl tcp_transport_impl (tls_transport_impl toy))
      (sender_with [])
      1001
      parcels
    ≡ some (sender_with (hello_bytes ++ hello_bytes))
unfolding send_to_with_context serialize_message fill get to_le_bytes boxed_send_to send_to
    queue_data lookup insert
sends_both = refl

sent_pieces :
    (transport_streaming toy).stream (sender_with (hello_bytes ++ hello_bytes)).transport 1001
    ≡ flatten pieces
unfolding lookup sent flatten
sent_pieces = refl

over_transport-delivered_example :
    (received : Messenger (List ℕ) TcpTransport) × (dispatch tcp_transport_impl empty_context_impl
        fresh_messenger
        (map (TransportEvent.received 1000) pieces)
      ≡ returned
          (message 1000 hello empty_context ∷ message 1000 hello empty_context ∷ [])
          received)
    × (buffer (lookup 1000 received.recv_buffers) ≡ [])
    × (received.transport ≡ fresh_messenger.transport)
over_transport-delivered_example =
    over_transport-delivered raw_message empty_context_impl toy tcp_transport_impl (sender_with [])
      fresh_messenger 1001 1000 parcels (sender_with (hello_bytes ++ hello_bytes)) pieces
      known_receiver nothing_sent (hello-Travels, (hello-Travels, tt))
      (hello-Travels, (hello-Travels, tt)) fresh_buffer sends_both sent_pieces
