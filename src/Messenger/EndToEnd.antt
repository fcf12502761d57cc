-- ===== src/Messenger/EndToEnd.antt =====
-- From a messenger over TCP to another messenger: what the one sends comes out of the other.
use rustcomm.Prelude.{ℕ, ◌≡◌, refl, ◌∙◌, true, Option, some, List, [], ◌++◌, map, arith, ==_refl}
use mathlib.Core.List.{flatten}
use rustcomm.Table.{lookup, is_some}
use rustcomm.Transport.Types.{TransportEvent}
use rustcomm.Transport.Exit.{returned}
use rustcomm.Transport.Impl.{TransportImpl}
use rustcomm.Tcp.State.{TcpTransport}
use rustcomm.Tcp.Send
use rustcomm.Tcp.Impl.{tcp_transport_impl}
use rustcomm.Tcp.Stream.{stream}
use rustcomm.Tcp.Stream.Sending.{lookup-queue_data, send_to-stream}
use rustcomm.Message.Registry.{Message}
use rustcomm.Message.Frame.{Context}
use rustcomm.Messenger.State.{Messenger}
use rustcomm.Messenger.Fetch.{buffer, messages, dispatch}
use rustcomm.Messenger.Streaming.{Streaming, send_over, send_over-stream, send_over-delivered}
use rustcomm.Messenger.Reassembly.{Parcel, TravelAll, frames, contents}

pub send_to-known :
    (t : TcpTransport) (id : ℕ) (bytes : List ℕ)
    → is_some (lookup id t.connections) ≡ true
    → is_some (lookup id (Send.send_to t id bytes).connections) ≡ true
unfolding Send.send_to
send_to-known t id bytes known = rw (lookup-queue_data t id id bytes) (ground arith)

-- The streams of the TCP transport.
abbrev pub tcp_streaming : Streaming tcp_transport_impl
tcp_streaming = record {
  stream = stream;
  knows = λ t id. is_some (lookup id t.connections);
  appends = λ t id buf known. send_to-stream t id id buf ∙ rw (==_refl id, known) refl;
  keeps = send_to-known;
}

module _ {M C : Type 0} (message : Message M) (context : Context C) where
  abbrev pub send_all :
      Messenger M TcpTransport
      → ℕ
      → List (Parcel message context)
      → Option (Messenger M TcpTransport)
  send_all = send_over message context tcp_transport_impl

  -- Messages that travel, sent one after another to a known connection over TCP, are all accepted:
  -- none stops the program. Their frames are appended to the stream of the connection in order, and
  -- the receive buffers of the sender stay.
  pub send_all-stream :
      (m : Messenger M TcpTransport) (id : ℕ) (ms : List (Parcel message context))
      → is_some (lookup id m.transport.connections) ≡ true
      → TravelAll message context m.registry ms
      → (m' : Messenger M TcpTransport) × (send_all m id ms ≡ some m')
        × (stream m'.transport id ≡ stream m.transport id ++ frames message context ms)
        × (m'.recv_buffers ≡ m.recv_buffers)
  send_all-stream = send_over-stream message context tcp_transport_impl tcp_streaming

  -- Messages that travel by the registries of both sides are sent one after another by a messenger
  -- over TCP, to a connection of which nothing was sent before. When the bytes of its stream, sent
  -- and still to be sent, come to another messenger, with an empty buffer for its connection, in
  -- any pieces, then the messages with their contexts come out of it, exactly and in order; its
  -- buffer is empty again and its transport has not been touched.
  pub send_all-delivered :
      {T W : Type 0} (impl : TransportImpl T W) (sender : Messenger M TcpTransport)
      (receiver : Messenger M T) (to_id from_id : ℕ) (ms : List (Parcel message context))
      (sent : Messenger M TcpTransport) (pieces : List (List ℕ))
      → is_some (lookup to_id sender.transport.connections) ≡ true
      → stream sender.transport to_id ≡ []
      → TravelAll message context sender.registry ms
      → TravelAll message context receiver.registry ms
      → buffer (lookup from_id receiver.recv_buffers) ≡ []
      → send_all sender to_id ms ≡ some sent
      → stream sent.transport to_id ≡ flatten pieces
      → (received : Messenger M T) × (dispatch impl context receiver
            (map (TransportEvent.received from_id) pieces)
          ≡ returned (messages impl context from_id (contents message context ms)) received)
        × (buffer (lookup from_id received.recv_buffers) ≡ [])
        × (received.transport ≡ receiver.transport)
  send_all-delivered = send_over-delivered message context tcp_transport_impl tcp_streaming
