-- ===== src/Examples/Messages.antt =====
-- Raw byte messages over a TCP transport: messenger/message.rs, registry.rs and mod.rs at concrete
-- inputs.
use rustcomm.Prelude.{
  ℕ, ◌+◌, ◌≤◌, ◌<◌, ◌≡◌, refl, sym, append-nil, arith, some, none, true, List, [], ◌∷◌, ◌++◌, map,
  length, take, drop,
}
use mathlib.Core.List.{flatten}
use rustcomm.Error.{Error, Result, ok}
use rustcomm.Table.{lookup}
use rustcomm.Transport.Types.{TransportEvent}
use rustcomm.Transport.Exit.{returned}
use rustcomm.Tcp.State.{TcpTransport, Settings, fresh}
use rustcomm.Tcp.Impl.{tcp_transport_impl}
use rustcomm.Message.Word.{to_le_bytes, from_le_bytes}
use rustcomm.Message.Utf8.{valid_utf8}
use rustcomm.Message.Registry.{Message, CodecPair, MessageRegistry, get}
use rustcomm.Message.Frame.{
  EmptyContext, empty_context, empty_context_impl, serialize_message, deserialize_message,
  read_payload, read_message, decoded, incomplete, fill,
}
use rustcomm.Message.FrameShape.{Travels}
use rustcomm.Message.RoundTrip.{deserialize-serialize}
use rustcomm.Message.Incomplete.{
  deserialize_message_bounds, deserialize_message-append, deserialize_message-take,
}
use rustcomm.Messenger.State.{Messenger, message}
use rustcomm.Messenger.Fetch.{buffer, dispatch}
use rustcomm.Messenger.Reassembly.{Parcel}
use rustcomm.Messenger.Delivery.{serialize_all, dispatch-reassembles}
use rustcomm.Messenger.Stalled.{dispatch-stalled}
use rustcomm.Error.{unknown_message_id}
use rustcomm.Table.{remove}
use rustcomm.Transport.Interface.{Channel}
use rustcomm.Tcp.Manage.{close_connection}
use rustcomm.Message.Frame.{failed}
use rustcomm.Messenger.Manage
use rustcomm.Messenger.Interface
use rustcomm.Messenger.Interface.{MessengerInterface}
use rustcomm.Messenger.Receive.{parse}
use rustcomm.Messenger.Fetch.{on_data}
use rustcomm.Messenger.Reassembly.{frames}
use rustcomm.Messenger.Loop.{Messages, Gives, Stops, parse-ends}
use rustcomm.Messenger.Malformed.{on_data-malformed}
use rustcomm.Prelude.{true}
use rustcomm.Table.{is_some, insert}
use rustcomm.Transport.Types.{read_write}
use rustcomm.Tcp.Stream.{sent, stream}
use rustcomm.Tcp.State.{queue_data}
use rustcomm.Tcp.Send.{send_to}
use rustcomm.Messenger.Manage.{send_to_with_context}
use rustcomm.Messenger.EndToEnd.{send_all, send_all-stream, send_all-delivered}

-- Every message has the id "Raw", and its body is its bytes.
abbrev pub raw_id : List ℕ
raw_id = 82 ∷ 97 ∷ 119 ∷ []

abbrev pub raw_message : Message (List ℕ)
raw_message = record { message_id = λ msg. raw_id }

abbrev pub raw_serializer : List ℕ → List ℕ → List ℕ
raw_serializer msg buf = buf ++ msg

abbrev pub raw_deserializer : List ℕ → Result Error (List ℕ)
raw_deserializer bytes = ok bytes

abbrev pub raw_codec : CodecPair (List ℕ)
raw_codec = record { serializer = raw_serializer; deserializer = raw_deserializer }

abbrev pub raw_registry : MessageRegistry (List ℕ)
raw_registry = record { codecs = (raw_id, raw_codec) ∷ [] }

abbrev pub hello : List ℕ
hello = 1 ∷ 2 ∷ []

abbrev pub hello_bytes : List ℕ
hello_bytes = 9 ∷ 0 ∷ 0 ∷ 0 ∷ 3 ∷ 0 ∷ 0 ∷ 0 ∷ 82 ∷ 97 ∷ 119 ∷ 1 ∷ 2 ∷ []

pub hello-Travels :
    Travels raw_message empty_context_impl raw_registry hello empty_context raw_codec
unfolding get valid_utf8 to_le_bytes
hello-Travels = record {
  registered = refl;
  context_appends = λ buf. sym (append-nil buf);
  context_reads = λ rest. refl;
  body_appends = λ buf. refl;
  body_reads = refl;
  id_is_str = refl;
  fits_u32 = omega arith;
}

deserialize-serialize_example :
    (bytes : List ℕ) × (serialize_message raw_message empty_context_impl hello empty_context
        raw_registry
      ≡ some bytes)
    × ((rest : List ℕ)
        → deserialize_message empty_context_impl (bytes ++ rest) raw_registry
          ≡ decoded hello empty_context (length bytes))
deserialize-serialize_example = deserialize-serialize raw_message empty_context_impl hello-Travels

hello-decoded :
    deserialize_message empty_context_impl hello_bytes raw_registry ≡ decoded hello empty_context 13
unfolding deserialize_message read_payload read_message get valid_utf8 from_le_bytes
hello-decoded = refl

deserialize_message_bounds_example : (4 ≤ 13) × (13 ≤ length hello_bytes)
deserialize_message_bounds_example =
    deserialize_message_bounds empty_context_impl raw_registry hello_bytes hello empty_context 13
      hello-decoded

hello_whole : from_le_bytes (take 4 hello_bytes) + 4 ≤ length hello_bytes
unfolding from_le_bytes
hello_whole = omega arith

deserialize_message-append_example :
    deserialize_message empty_context_impl (hello_bytes ++ 7 ∷ []) raw_registry
    ≡ deserialize_message empty_context_impl hello_bytes raw_registry
deserialize_message-append_example =
    deserialize_message-append empty_context_impl raw_registry hello_bytes (7 ∷ []) (omega arith)
      hello_whole

deserialize_message-take_example :
    deserialize_message empty_context_impl
      (take 5 (to_le_bytes (length hello) ++ hello))
      raw_registry
    ≡ incomplete
deserialize_message-take_example =
    deserialize_message-take empty_context_impl raw_registry hello 5 (omega arith) (omega arith)

abbrev defaults : Settings
defaults = record {
  name_is_empty = true;
  named_max_read_size = none;
  max_read_size = none;
  named_poll_capacity = none;
  poll_capacity = none;
}

abbrev pub fresh_messenger : Messenger (List ℕ) TcpTransport
fresh_messenger = record { transport = fresh defaults; registry = raw_registry; recv_buffers = [] }

-- Two messages in three pieces: the second piece has the end of one and the beginning of the other.
abbrev pub parcels : List (Parcel raw_message empty_context_impl)
parcels = (hello, empty_context, raw_codec) ∷ (hello, empty_context, raw_codec) ∷ []

abbrev pub pieces : List (List ℕ)
pieces = take 3 hello_bytes ∷ (drop 3 hello_bytes ++ take 6 hello_bytes) ∷ drop 6 hello_bytes ∷ []

pub fresh_buffer : buffer (lookup 1000 fresh_messenger.recv_buffers) ≡ []
unfolding lookup
fresh_buffer = refl

pieces_serialized :
    serialize_all raw_message empty_context_impl raw_registry parcels ≡ some (flatten pieces)
unfolding serialize_message fill get to_le_bytes flatten
pieces_serialized = refl

dispatch-reassembles_example :
    (m' : Messenger (List ℕ) TcpTransport) × (dispatch tcp_transport_impl empty_context_impl
        fresh_messenger
        (map (TransportEvent.received 1000) pieces)
      ≡ returned (message 1000 hello empty_context ∷ message 1000 hello empty_context ∷ []) m')
    × (buffer (lookup 1000 m'.recv_buffers) ≡ [])
    × (m'.transport ≡ fresh_messenger.transport)
dispatch-reassembles_example =
    dispatch-reassembles raw_message empty_context_impl tcp_transport_impl fresh_messenger 1000
      parcels pieces fresh_buffer (hello-Travels, (hello-Travels, tt)) pieces_serialized

-- A frame of four bytes of payload, which say that an id of 200 bytes follows.
abbrev overlong : List ℕ
overlong = 200 ∷ 0 ∷ 0 ∷ 0 ∷ []

abbrev stalled_messenger : Messenger (List ℕ) TcpTransport
stalled_messenger = record {
  transport = fresh defaults;
  registry = raw_registry;
  recv_buffers = (1000, to_le_bytes (length overlong) ++ (overlong ++ [])) ∷ [];
}

overlong_id : length (drop 0 overlong) < 4 + from_le_bytes (take 4 (drop 0 overlong))
unfolding from_le_bytes
overlong_id = omega arith

stalled_buffer :
    buffer (lookup 1000 stalled_messenger.recv_buffers)
    ≡ to_le_bytes (length overlong) ++ (overlong ++ [])
unfolding lookup
stalled_buffer = refl

dispatch-stalled_example :
    (m' : Messenger (List ℕ) TcpTransport) × (dispatch tcp_transport_impl empty_context_impl
        stalled_messenger
        (map (TransportEvent.received 1000) (hello_bytes ∷ hello_bytes ∷ []))
      ≡ returned [] m')
    × (buffer (lookup 1000 m'.recv_buffers)
        ≡ to_le_bytes (length overlong)
          ++ (overlong ++ ([] ++ flatten (hello_bytes ∷ hello_bytes ∷ []))))
    × (m'.transport ≡ stalled_messenger.transport)
dispatch-stalled_example =
    dispatch-stalled empty_context_impl tcp_transport_impl stalled_messenger 1000 overlong []
      empty_context 0 (hello_bytes ∷ hello_bytes ∷ []) (omega arith) refl (omega arith) overlong_id
      stalled_buffer

-- A message of an id that is not registered.
abbrev unknown_bytes : List ℕ
unknown_bytes = 5 ∷ 0 ∷ 0 ∷ 0 ∷ 1 ∷ 0 ∷ 0 ∷ 0 ∷ 65 ∷ []

unknown_fails :
    deserialize_message {M = List ℕ} empty_context_impl unknown_bytes raw_registry
    ≡ failed (unknown_message_id (65 ∷ []))
unfolding deserialize_message read_payload read_message get valid_utf8 from_le_bytes
unknown_fails = refl

hello_and_unknown :
    buffer (lookup 1000 fresh_messenger.recv_buffers) ++ (hello_bytes ++ unknown_bytes)
    ≡ frames raw_message empty_context_impl ((hello, empty_context, raw_codec) ∷ [])
      ++ unknown_bytes
unfolding lookup to_le_bytes
hello_and_unknown = refl

on_data-malformed_example :
    on_data tcp_transport_impl empty_context_impl fresh_messenger 1000
      (hello_bytes ++ unknown_bytes)
    ≡ returned (message 1000 hello empty_context ∷ []) (record fresh_messenger {
      transport = close_connection fresh_messenger.transport 1000;
      recv_buffers = remove 1000 [];
    })
on_data-malformed_example =
    on_data-malformed raw_message empty_context_impl tcp_transport_impl fresh_messenger 1000
      (hello_bytes ++ unknown_bytes) ((hello, empty_context, raw_codec) ∷ []) unknown_bytes
      (unknown_message_id (65 ∷ [])) (hello-Travels, tt) (omega arith) unknown_fails
      hello_and_unknown

parse-ends_example :
    (ms : List (List ℕ × EmptyContext)) × (end : ℕ) × Messages empty_context_impl raw_registry
      (hello_bytes ++ 9 ∷ [])
      0
      ms
      end
    × Gives empty_context_impl raw_registry
        (hello_bytes ++ 9 ∷ [])
        ms
        (parse empty_context_impl raw_registry (hello_bytes ++ 9 ∷ []))
    × Stops empty_context_impl raw_registry
        (hello_bytes ++ 9 ∷ [])
        end
        (parse empty_context_impl raw_registry (hello_bytes ++ 9 ∷ []))
parse-ends_example = parse-ends empty_context_impl raw_registry (hello_bytes ++ 9 ∷ [])

abbrev idle_channel : Channel
idle_channel = record { requests = []; wakes = 0; next_response = 0 }

abbrev hello_interface : MessengerInterface (List ℕ)
hello_interface = record { transport_interface = idle_channel; registry = raw_registry }

-- An established connection of the sender, before and after it sends two messages.
abbrev sender_with : List ℕ → Messenger (List ℕ) TcpTransport
sender_with bytes = record {
  transport = record {
    connections =
        (
          1000,
          record {
            connected = true;
            interest = read_write;
            local_addr = record { ip = 1; port = 50000 };
            peer_addr = record { ip = 2; port = 8080 };
            send_buf = bytes;
          },
        )
        ∷ [];
    listeners = [];
    next_id = 1001;
    spurious_wakeups = 0;
    max_read_size = 1048576;
    max_spurious_wakeups = 10;
    poll_capacity = 256;
    calls = [];
    responses = [];
  };
  registry = raw_registry;
  recv_buffers = [];
}

known_receiver : is_some (lookup 1000 (sender_with []).transport.connections) ≡ true
unfolding lookup
known_receiver = refl

nothing_sent : stream (sender_with []).transport 1000 ≡ []
unfolding lookup sent
nothing_sent = refl

sends_both :
    send_all raw_message empty_context_impl (sender_with []) 1000 parcels
    ≡ some (sender_with (hello_bytes ++ hello_bytes))
unfolding send_to_with_context serialize_message fill get to_le_bytes send_to queue_data lookup
    insert
sends_both = refl

sent_pieces : stream (sender_with (hello_bytes ++ hello_bytes)).transport 1000 ≡ flatten pieces
unfolding lookup sent flatten
sent_pieces = refl

send_all-delivered_example :
    (received : Messenger (List ℕ) TcpTransport) × (dispatch tcp_transport_impl empty_context_impl
        fresh_messenger
        (map (TransportEvent.received 1000) pieces)
      ≡ returned
          (message 1000 hello empty_context ∷ message 1000 hello empty_context ∷ [])
          received)
    × (buffer (lookup 1000 received.recv_buffers) ≡ [])
    × (received.transport ≡ fresh_messenger.transport)
send_all-delivered_example =
    send_all-delivered raw_message empty_context_impl tcp_transport_impl (sender_with [])
      fresh_messenger 1000 1000 parcels (sender_with (hello_bytes ++ hello_bytes)) pieces
      known_receiver nothing_sent (hello-Travels, (hello-Travels, tt))
      (hello-Travels, (hello-Travels, tt)) fresh_buffer sends_both sent_pieces

known_busy : is_some (lookup 1000 (sender_with (5 ∷ [])).transport.connections) ≡ true
unfolding lookup
known_busy = refl

send_all-stream_example :
    (m' : Messenger (List ℕ) TcpTransport) × (send_all raw_message empty_context_impl
        (sender_with (5 ∷ []))
        1000
        parcels
      ≡ some m')
    × (stream m'.transport 1000
        ≡ stream (sender_with (5 ∷ [])).transport 1000
          ++ frames raw_message empty_context_impl parcels)
    × (m'.recv_buffers ≡ [])
send_all-stream_example =
    send_all-stream raw_message empty_context_impl (sender_with (5 ∷ [])) 1000 parcels known_busy
      (hello-Travels, (hello-Travels, tt))
