-- ===== src/Lib.antt =====
-- rustcomm: a messaging library over TCP and TLS, with an event loop on mio. A Messenger frames typed messages
-- into bytes and cuts the received bytes into messages again; a Transport moves the bytes of the
-- connections; other threads reach both through interfaces that put requests into a channel.
--
-- The program's parts and the files that model them:
--
--   src/error.rs                 Error
--   src/messenger/registry.rs    Message/Registry: register, get
--   src/messenger/message.rs     Message/Word (the u32 fields), Message/Utf8 (str::from_utf8),
--                                Message/Frame (serialize_message, deserialize_message);
--                                Message/{FrameShape, RoundTrip, Incomplete} are proofs
--   src/transport/mod.rs         Transport/Types (TransportEvent), Transport/Impl (the trait
--                                TransportImpl), Transport/Dynamic (Transport::new_named, connect,
--                                listen), Transport/Boxed (the box of one of the two transports
--                                and the methods that call it)
--   src/transport/interface.rs   Transport/Types (SendRequest), Transport/Interface
--   src/transport/tcp.rs         Tcp/State (Connection, TcpTransport, new_named, queue_data,
--                                advance_connection_id, track_spurious_wakeup), Tcp/Manage (connect,
--                                listen, close, shutdown), Tcp/Send, Tcp/Read, Tcp/Write, Tcp/Accept,
--                                Tcp/Requests (process_interface_requests), Tcp/Events (fetch_events),
--                                Tcp/Impl (impl TransportImpl); the others under Tcp/ are proofs
--   src/transport/tls.rs         Tls/Session (TlsConnection and the calls of rustls), Tls/Config
--                                (load_tls_server_config, load_tls_client_config), and Tls/State,
--                                Tls/Manage, Tls/Send, Tls/Read, Tls/Write, Tls/Accept, Tls/Requests,
--                                Tls/Events and Tls/Impl as for TCP; the others under Tls/ are proofs,
--                                and Tls/Plain is the view of a TLS transport as a TCP transport
--   src/messenger/mod.rs         Messenger/State, Messenger/Manage, Messenger/Receive (the parsing
--                                loop), Messenger/Fetch (fetch_events); the others are proofs
--                                (Messenger/Streaming is what the messenger needs of a transport, and
--                                Messenger/EndToEnd and Messenger/OverTransport fill it)
--   src/messenger/interface.rs   Messenger/Interface
--
-- How the state corresponds: a HashMap is the association list of Table; a Vec<u8> and a str are lists
-- of bytes; a method takes the state and gives an Exit: the value with the new state, an error with the
-- state it leaves, or a panic. Each call to mio or to a socket that changes something is recorded in
-- TcpTransport.calls, and Tcp/Registered says what these calls add up to and which of them mio accepts.
-- What the operating system answers comes as an argument (Reads, Writes, Accepts, SocketAnswers, and
-- the rounds of the poll), so that a theorem holds for all answers; where it relies on the contract of
-- read and write (no more bytes than the slice has room for or holds) it has FitReads or FitWrites as a
-- hypothesis. A message type, its codecs and a context are parameters; Message.FrameShape.Travels says
-- what the framing asks of them. The messenger is over any TransportImpl. The library rustls is a
-- parameter of the TLS transport: a session is of any type with the calls of Tls.Session.Session, which
-- give the answer and the session that they leave, and what a theorem needs of them is a hypothesis
-- (WaitsForClient, HoldsBytes, TellsBlocked, TakesPlain). In the TLS transport a `wrote` among the calls
-- is plaintext that the session took.
--
-- Bounds and fuel: a usize is 64 bits wide, and the lengths on the wire are u32 and wrap. The search of
-- advance_connection_id is given one round more than there are ids in use, and the parsing loop as many
-- rounds as the buffer has bytes; Tcp/Ids/Free and Messenger/Loop show that this is enough. A loop over
-- the answers of a socket recurses on the answers; the loops of the TLS transport end with the panic
-- `answers_over`, which is none, when they want another answer after the last.
--
-- Not modelled: src/messenger/bincode.rs (calls of the crate bincode), src/lib.rs (documentation and
-- names passed on), the examples and the tests, the texts of errors, the logging, the capacity hints of
-- buffers, the macro impl_message! and the downcasting of messages. An `expect` on mio, on an address of
-- a socket or on the channel is taken to succeed. A response is recorded in the field responses of the
-- transport.
pub mod Prelude
pub mod Error
pub mod Table
pub mod Message
pub mod Transport
pub mod Tcp
pub mod Tls
pub mod Messenger
pub mod Examples
