-- ===== src/Messenger/OverTransport.antt =====
-- From a messenger over a Transport, be it TCP or TLS, to another messenger, as in
-- Messenger/EndToEnd. Over TLS the stream of a connection is its plaintext; that the session at the
-- other end gives out what this one took is the promise of TLS, and a hypothesis here.
use rustcomm.Prelude.{ℕ, ◌≡◌, Bool, true, some, List, [], ◌++◌, map}
use mathlib.Core.List.{flatten}
use rustcomm.Table.{lookup, is_some}
use rustcomm.Transport.Types.{TransportEvent}
use rustcomm.Transport.Exit.{returned}
use rustcomm.Transport.Impl.{TransportImpl}
use rustcomm.Message.Registry.{Message}
use rustcomm.Message.Frame.{Context}
use rustcomm.Messenger.State.{Messenger}
use rustcomm.Messenger.Fetch.{buffer, messages, dispatch}
use rustcomm.Messenger.Streaming.{Streaming, send_over, send_over-delivered}
use rustcomm.Messenger.Reassembly.{Parcel, TravelAll, contents}
use rustcomm.Tls.Session.{Rustls}
use rustcomm.Tls.State.{TlsTransport}
use rustcomm.Tls.Impl.{tls_transport_impl}
use rustcomm.Tls.Stream.{stream}
use rustcomm.Tls.Sending.{send_to-stream, send_to-known}
use rustcomm.Tcp.State.{TcpTransport}
use rustcomm.Tcp.Impl.{tcp_transport_impl}
use rustcomm.Messenger.EndToEnd.{tcp_streaming}
use rustcomm.Transport.Boxed.{Boxed, tcp, tls, boxed_impl, send_to}

-- The streams of the TLS transport.
abbrev pub tls_streaming :
    {S X Y : Type 0} (rustls : Rustls S X Y) → Streaming (tls_transport_impl rustls)
tls_streaming rustls = record {
  stream = stream;
  knows = λ t id. is_some (lookup id t.connections);
  appends = send_to-stream;
  keeps = send_to-known;
}

module _ {A B V W : Type 0} (first : TransportImpl A V) (second : TransportImpl B W)
    (one : Streaming first) (two : Streaming second) where
  abbrev pub boxed_stream : Boxed A B → ℕ → List ℕ
  boxed_stream (tcp t) = one.stream t
  boxed_stream (tls t) = two.stream t

  abbrev pub boxed_knows : Boxed A B → ℕ → Bool
  boxed_knows (tcp t) = one.knows t
  boxed_knows (tls t) = two.knows t

  pub boxed-appends :
      (t : Boxed A B) (id : ℕ) (buf : List ℕ)
      → boxed_knows t id ≡ true
      → boxed_stream (send_to first second t id buf) id ≡ boxed_stream t id ++ buf
  unfolding send_to
  boxed-appends (tcp t) id buf known = one.appends t id buf known
  boxed-appends (tls t) id buf known = two.appends t id buf known

  pub boxed-keeps :
      (t : Boxed A B) (id : ℕ) (buf : List ℕ)
      → boxed_knows t id ≡ true
      → boxed_knows (send_to first second t id buf) id ≡ true
  unfolding send_to
  boxed-keeps (tcp t) id buf known = one.keeps t id buf known
  boxed-keeps (tls t) id buf known = two.keeps t id buf known

  abbrev pub boxed_streaming : Streaming (boxed_impl first second)
  boxed_streaming = record {
    stream = boxed_stream;
    knows = boxed_knows;
    appends = boxed-appends;
    keeps = boxed-keeps;
  }

-- The streams of the box of a program that is built with the feature `tls`.
abbrev pub transport_streaming :
    {S X Y : Type 0} (rustls : Rustls S X Y)
    → Streaming (boxed_impl tcp_transport_impl (tls_transport_impl rustls))
transport_streaming rustls =
    boxed_streaming tcp_transport_impl (tls_transport_impl rustls) tcp_streaming
      (tls_streaming rustls)

-- Messages that travel by the registries of both sides are sent one after another by a messenger
-- over a Transport that holds the TCP or the TLS transport, to a connection that the transport has,
-- and of whose stream nothing was sent or waits before. The stream is, over TCP, the bytes that the
-- socket took and those still waiting, and over TLS the same of the plaintext and the session. When
-- this stream comes to another messenger, with an empty buffer for its connection, in any pieces,
-- then the messages with their contexts come out of it, exactly and in order; its buffer is empty
-- again and its transport has not been touched.
pub over_transport-delivered :
    {M C S X Y T W : Type 0} (message : Message M) (context : Context C) (rustls : Rustls S X Y)
    (impl : TransportImpl T W) (sender : Messenger M (Boxed TcpTransport (TlsTransport S X Y)))
    (receiver : Messenger M T) (to_id from_id : ℕ) (ms : List (Parcel message context))
    (sent : Messenger M (Boxed TcpTransport (TlsTransport S X Y))) (pieces : List (List ℕ))
    → (transport_streaming rustls).knows sender.transport to_id ≡ true
    → (transport_streaming rustls).stream sender.transport to_id ≡ []
    → TravelAll message context sender.registry ms
    → TravelAll message context receiver.registry ms
    → buffer (lookup from_id receiver.recv_buffers) ≡ []
    → send_over message context
        (boxed_impl tcp_transport_impl (tls_transport_impl rustls))
        sender
        to_id
        ms
      ≡ some sent
    → (transport_streaming rustls).stream sent.transport to_id ≡ flatten pieces
    → (received : Messenger M T) × (dispatch impl context receiver
          (map (TransportEvent.received from_id) pieces)
        ≡ returned (messages impl context from_id (contents message context ms)) received)
      × (buffer (lookup from_id received.recv_buffers) ≡ [])
      × (received.transport ≡ receiver.transport)
over_transport-delivered message context rustls =
    send_over-delivered message context (boxed_impl tcp_transport_impl (tls_transport_impl rustls))
      (transport_streaming rustls)
