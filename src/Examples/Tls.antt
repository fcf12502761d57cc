-- ===== src/Examples/Tls.antt =====
-- A TLS server with a small stand-in for rustls: the byte 0 ends the handshake, what follows is
-- plaintext as it is.
use rustcomm.Prelude.{
  ℕ, zero, suc, subst, ap, Bool-cases, inl, inr, ◌+◌, ◌≡◌, ◌≤◌, ◌<◌, refl, Bool, true, false, not,
  none, some, List, [], ◌∷◌, ◌++◌, ◌==◌, is_nil, length, min, drop, take, sym, ◌∙◌, replicate,
  arith, contains, if◌then◌else◌, length-append,
}
use rustcomm.Error.{ErrorKind, would_block, other_kind, io, Result, ok, err}
use rustcomm.Table.{lookup, insert, contains_key, is_empty}
use rustcomm.Transport.Types.{
  SocketAddr, SocketAnswers, readable, read_write, listen_request, id_response, received, connected,
}
use rustcomm.Transport.Exit.{returned, panicked, handshake_data, connection_missing, Ends}
use rustcomm.Tcp.State.{register, next}
use rustcomm.Tcp.Manage
use rustcomm.Tcp.Accept
use rustcomm.Tcp.Accept.{Stream, Accepts, accepted, none_left, collect}
use rustcomm.Tcp.Events.{Progress}
use rustcomm.Tls.Session.{Session, Rustls}
use rustcomm.Tls.Config.{Loader}
use rustcomm.Tls.State.{
  Connection, TlsTransport, TlsSettings, tcp_connected, tls_connected, new_named, in_use,
  track_spurious_wakeup, advance_connection_id, add_connection, drop_connection,
}
use rustcomm.Tls.Manage.{listen, add_listener}
use rustcomm.Tls.Read.{read_connected, read_connection, read_loop, ended, proceeds}
use rustcomm.Tls.Write.{write_connection}
use rustcomm.Tls.Accept.{accepted_connection, accept_connections}
use rustcomm.Tls.Requests.{process_request, process_interface_requests}
use rustcomm.Tls.Events.{PollEvent, Round, handle_event, fetch_events}
use rustcomm.Tls.Invariant.Defs.{IsSound, WaitsForClient}
use rustcomm.Tls.Reachable.{Step, call, fetch_error, Reachable, created, stepped, Reachable-IsSound}
use rustcomm.Tls.Handshake.{Read, Written, is_read_panic, is_write_panic}
use rustcomm.Tls.Handshake.Reading.{read_connection-Follows}
use rustcomm.Tls.Handshake.Writing.{write_connection-Follows}
use rustcomm.Tls.Crash.{early_close-stops, failed_handshake-removes, completed_handshake-order}
use rustcomm.Tls.Send.{send_to, broadcast, broadcast_except, broadcast_except_many}
use rustcomm.Tls.Sending.{queued, queued_if, sending-reaches}
use rustcomm.Tls.Spurious.{parked, send_to-in_handshake}
use rustcomm.Prelude.{leb}
use rustcomm.Transport.Exit.{too_many_spurious_wakeups}
use rustcomm.Tls.Configured.{Configures, new_named-Configures}
use rustcomm.Tls.Taken.{TakesPlain, Took}
use rustcomm.Tls.Stream.{Delivered, write_connection-Delivered}
use rustcomm.Tls.Progress.{is_unanswered}
use rustcomm.Tls.Progress.Reading.{HoldsBytes}
use rustcomm.Tls.Progress.Writing.{is_blocked, TellsBlocked}
use rustcomm.Tls.Progress.Ends.{loops_end}

pub record Toy : Type 0 where
  pub raw : List ℕ
  pub plaintext : List ℕ
  pub out : List ℕ
  pub handshaking : Bool
  pub took : List ℕ

abbrev pub toy_read_tls : Toy → Result ErrorKind (List ℕ) → Result ErrorKind ℕ × Toy
toy_read_tls s (ok bytes) = (ok (length bytes), record s { raw = s.raw ++ bytes })
toy_read_tls s (err kind) = (err kind, s)

abbrev pub toy_process : Bool → List ℕ → Toy → Bool × Toy
toy_process true [] s = (true, s)
toy_process true (zero ∷ raw) s =
    (true, record s { raw = []; plaintext = s.plaintext ++ raw; handshaking = false })
toy_process true (suc n ∷ raw) s = (false, s)
toy_process false raw s = (true, record s { raw = []; plaintext = s.plaintext ++ raw })

-- One byte at a time.
abbrev pub toy_read_plain : List ℕ → Toy → ℕ → Result ErrorKind (List ℕ) × Toy
toy_read_plain [] s n = (err would_block, s)
toy_read_plain (b ∷ rest) s n =
    if n == 0 then (ok [], s) else (ok (b ∷ []), record s { plaintext = rest })

abbrev pub toy_write_tls : List ℕ → Toy → Result ErrorKind ℕ → Result ErrorKind ℕ × Toy
toy_write_tls [] s answer = (ok 0, s)
toy_write_tls (b ∷ out) s (ok n) =
    (ok (min n (length (b ∷ out))), record s { out = drop n (b ∷ out) })
toy_write_tls (b ∷ out) s (err kind) = (err kind, s)

-- Two bytes at most.
abbrev pub toy_write_plain : Toy → List ℕ → Result ErrorKind ℕ × Toy
toy_write_plain s bytes =
    let n = min 2 (length bytes) in
    (ok n, record s { out = s.out ++ take n bytes; took = s.took ++ take n bytes })

abbrev pub toy_session : Session Toy
toy_session = record {
  read_tls = toy_read_tls;
  process_new_packets = λ s. toy_process s.handshaking s.raw s;
  read_plain = λ s n. toy_read_plain s.plaintext s n;
  write_plain = toy_write_plain;
  write_tls = λ s answer. toy_write_tls s.out s answer;
  wants_write = λ s. not (is_nil s.out);
  is_handshaking = λ s. s.handshaking;
}

abbrev pub new_toy : List ℕ → Toy
new_toy hello = record { raw = []; plaintext = []; out = hello; handshaking = true; took = [] }

abbrev pub toy : Rustls Toy (Unit {0}) (Unit {0})
toy = record {
  session = toy_session;
  new_server = λ _. some (new_toy []);
  new_client = λ _. some (new_toy (22 ∷ []));
  localhost_is_valid = true;
}

toy-WaitsForClient : WaitsForClient toy
toy-WaitsForClient config s e =
    let same : new_toy [] ≡ s = cc in subst (λ x. not (is_nil x.out) ≡ false) same refl

toy_held : Toy → ℕ
toy_held s = length s.raw + length s.plaintext

toy-processed :
    (mode : Bool) (raw : List ℕ) (s : Toy)
    → s.raw ≡ raw
    → toy_held (toy_process mode raw s).1 ≤ toy_held s
unfolding toy_held
toy-processed true [] s e = omega arith
toy-processed true (zero ∷ raw) s e = rw e (omega (arith, length-append s.plaintext raw))
toy-processed true (suc n ∷ raw) s e = omega arith
toy-processed false raw s e = rw e (omega (arith, length-append s.plaintext raw))

toy-taken :
    (rest : List ℕ) (s s' : Toy) (n b : ℕ) (bytes : List ℕ)
    → s.plaintext ≡ rest
    → toy_read_plain rest s n ≡ (ok (b ∷ bytes), s')
    → toy_held s' < toy_held s
unfolding toy_held
toy-taken [] s s' n b bytes e h = cc
toy-taken (x ∷ rest) s s' n b bytes e h = elim (Bool-cases (n == 0)) [
  | inl z ↦ cc (rw z at h)
  | inr z ↦
      let same : record s { plaintext = rest } ≡ s' = cc (rw z at h) in
      omega (arith, ap (λ x. length x.raw) same, ap (λ x. length x.plaintext) same, ap length e)
]

toy-HoldsBytes : HoldsBytes toy_session
unfolding toy_held
toy-HoldsBytes = record {
  held = toy_held;
  blocked = λ s. omega arith;
  processed = λ s. toy-processed s.handshaking s.raw s refl;
  taken = λ s s' n b bytes e. toy-taken s.plaintext s s' n b bytes refl e;
}

toy-TellsBlocked : TellsBlocked toy_session
toy-TellsBlocked s = blocked_writing s.out s
  where
    blocked_writing :
        (out : List ℕ) (s : Toy) → is_blocked (toy_write_tls out s (err would_block)).0 ≡ true
    blocked_writing [] s = refl
    blocked_writing (b ∷ out) s = refl

toy_took-flushed :
    (out : List ℕ) (s : Toy) (answer : Result ErrorKind ℕ)
    → (toy_write_tls out s answer).1.took ≡ s.took
toy_took-flushed [] s answer = refl
toy_took-flushed (b ∷ out) s (ok n) = refl
toy_took-flushed (b ∷ out) s (err kind) = refl

toy-TakesPlain : TakesPlain toy_session (λ s. s.took)
toy-TakesPlain = record {
  takes = λ s s' bytes n e.
      let count : min 2 (length bytes) ≡ n = cc in
      let after = (toy_write_plain s bytes).1 in
      let same : after ≡ s' = cc in
      sym (ap (λ x. x.took) same) ∙ ap (λ k. s.took ++ take k bytes) count;
  blocked = λ s s' bytes e. cc;
  flushed = λ s answer. toy_took-flushed s.out s answer;
}

abbrev loader : Loader (List ℕ) ℕ ℕ (List ℕ) (Unit {0}) (Unit {0})
loader = record {
  open_file = λ path. ok path;
  certs = λ file. some (7 ∷ []);
  private_key = λ file. some (some 9);
  with_single_cert = λ certs key. some tt;
  empty_store = [];
  add_cert = λ store cert. some (cert ∷ store);
  with_root_certificates = λ store. tt;
}

abbrev settings : TlsSettings
settings = record {
  settings = record {
    name_is_empty = true;
    named_max_read_size = none;
    max_read_size = some 4;
    named_poll_capacity = none;
    poll_capacity = none;
  };
  named_tls_server_cert = none;
  tls_server_cert = some (1 ∷ []);
  named_tls_server_key = none;
  tls_server_key = some (2 ∷ []);
  named_tls_ca_cert = none;
  tls_ca_cert = some (3 ∷ []);
}

abbrev pub local : SocketAddr
local = record { ip = 2130706433; port = 50000 }

abbrev pub remote : SocketAddr
remote = record { ip = 2130706433; port = 40000 }

abbrev answers : SocketAnswers
answers = record { opened = ok tt; nodelay = ok tt; local_addr = local }

abbrev pub Transport : Type 0
Transport = TlsTransport Toy (Unit {0}) (Unit {0})

abbrev pub listening_transport : Transport
listening_transport = record {
  connections = [];
  listeners = (1000, local) ∷ [];
  next_id = 1001;
  spurious_wakeups = 0;
  max_read_size = 4;
  max_spurious_wakeups = 10;
  poll_capacity = 256;
  tls_server_config = some tt;
  tls_client_config = some tt;
  calls = register 1000 readable ∷ [];
  responses = id_response 7 (ok (1000, local)) ∷ [];
}

abbrev new_transport : Transport
new_transport = record listening_transport {
  listeners = [];
  next_id = 1000;
  calls = [];
  responses = [];
}

listen-Step : Step toy new_transport listening_transport
unfolding process_request listen advance_connection_id in_use next insert lookup add_listener
listen-Step = call (listen_request local 7) answers refl

abbrev pub stream : Stream
stream = record { local_addr = local; peer_addr = remote }

abbrev quiet_event : PollEvent
quiet_event = record {
  token = 1000;
  is_readable = true;
  is_writable = false;
  accepts = accepted stream (ok tt) none_left;
  reads = [];
  take_error = none;
  writes = [];
}

-- A client is accepted, and then the poll fails.
abbrev rounds : List Round
rounds =
    record { requests = []; polled = ok (quiet_event ∷ []) }
    ∷ record { requests = []; polled = err other_kind }
    ∷ []

abbrev pub client : Connection Toy
client = accepted_connection (new_toy []) stream

abbrev pub accepted_transport : Transport
accepted_transport = record listening_transport {
  connections = (1001, client) ∷ [];
  next_id = 1002;
  calls = register 1001 readable ∷ register 1000 readable ∷ [];
}

accept-Step : Step toy listening_transport accepted_transport
unfolding fetch_events process_interface_requests handle_event accept_connections collect
    advance_connection_id in_use next insert lookup contains_key contains is_empty add_connection
    track_spurious_wakeup
accept-Step = fetch_error rounds (io other_kind) refl

accepted_reached : Reachable toy loader settings accepted_transport
unfolding new_named
accepted_reached = stepped (stepped (created (ok tt) (ok tt) refl) listen-Step) accept-Step

Reachable-IsSound_example : IsSound toy_session accepted_transport
Reachable-IsSound_example = Reachable-IsSound toy toy-WaitsForClient accepted_reached

client_at : lookup 1001 accepted_transport.connections ≡ some client
unfolding lookup
client_at = refl

abbrev finished_reads : List (Result ErrorKind (List ℕ))
finished_reads = ok (0 ∷ 7 ∷ []) ∷ err would_block ∷ []

abbrev writes : List (Result ErrorKind ℕ)
writes = ok 3 ∷ err would_block ∷ []

read_connection-Follows_example :
    Ends
      (Read accepted_transport 1001 tcp_connected)
      (λ p. is_read_panic p ≡ true)
      (read_connection toy_session accepted_transport 1001 finished_reads)
read_connection-Follows_example =
    read_connection-Follows toy_session accepted_transport 1001 finished_reads client client_at

write_connection-Follows_example :
    Ends
      (Written accepted_transport 1001 tcp_connected)
      (λ p. is_write_panic p ≡ true)
      (write_connection toy_session accepted_transport 1001 none writes)
write_connection-Follows_example =
    write_connection-Follows toy_session accepted_transport 1001 none writes client client_at

-- With three bytes to send.
abbrev sender : Connection Toy
sender = record client {
  tls_conn = record (new_toy []) { handshaking = false };
  connected = tls_connected;
  interest = read_write;
  send_buf = 1 ∷ 2 ∷ 3 ∷ [];
}

abbrev sending_transport : Transport
sending_transport = record accepted_transport { connections = (1001, sender) ∷ [] }

sender_at : lookup 1001 sending_transport.connections ≡ some sender
unfolding lookup
sender_at = refl

write_connection-Delivered_example :
    Ends
      (λ r t'.
        Delivered sending_transport 1001 true t'
        × Took (λ s. s.took) sender true (lookup 1001 t'.connections))
      (λ p. is_write_panic p ≡ true)
      (write_connection toy_session sending_transport 1001 none writes)
write_connection-Delivered_example =
    write_connection-Delivered toy_session (λ s. s.took) toy-TakesPlain sending_transport 1001 none
      writes sender sender_at

loops_end_example :
    ((n : ℕ) × (is_unanswered (
          read_connection toy_session sending_transport 1001
            ((ok (5 ∷ 6 ∷ []) ∷ []) ++ replicate n (err would_block)))
        ≡ false))
    × (is_unanswered (
          write_connection toy_session sending_transport 1001 none
            ((ok 2 ∷ []) ++ err would_block ∷ []))
        ≡ false)
loops_end_example =
    loops_end toy_session sending_transport 1001 (ok (5 ∷ 6 ∷ []) ∷ []) none (ok 2 ∷ [])
      toy-HoldsBytes toy-TellsBlocked

abbrev idle : Progress
idle = record { dispatch_events = []; disconnected_ids = [] }

nothing_gone : contains idle.disconnected_ids 1001 ≡ false
unfolding contains
nothing_gone = refl

-- The client ends the handshake, sends a byte and closes.
abbrev early_close : PollEvent
early_close = record quiet_event { token = 1001; reads = ok (0 ∷ 7 ∷ []) ∷ ok [] ∷ [] }

abbrev finished_toy : List ℕ → Toy
finished_toy plaintext = record (new_toy []) { plaintext = plaintext; handshaking = false }

early_close-stops_example :
    handle_event toy accepted_transport early_close idle ≡ panicked handshake_data
early_close-stops_example =
    early_close-stops toy accepted_transport early_close idle client
      (Reachable-IsSound toy toy-WaitsForClient accepted_reached) client_at nothing_gone refl refl
      (ok (0 ∷ 7 ∷ [])) (ok []) [] 7 [] 1 (record (new_toy []) { raw = 0 ∷ 7 ∷ [] })
      (finished_toy (7 ∷ [])) (finished_toy []) (finished_toy []) refl refl refl refl refl

-- The client closes in the handshake; the socket is writable too.
abbrev both : PollEvent
both = record quiet_event { token = 1001; is_writable = true; reads = ok [] ∷ [] }

proceeds_no : proceeds (ok 0) true ≡ none
unfolding proceeds
proceeds_no = refl

failed_handshake-removes_example : handle_event toy accepted_transport both idle ≡ (
    if true
    then panicked connection_missing
    else returned idle (drop_connection accepted_transport 1001))
failed_handshake-removes_example =
    failed_handshake-removes toy accepted_transport both idle client
      (Reachable-IsSound toy toy-WaitsForClient accepted_reached) client_at nothing_gone refl refl
      (ok []) [] (ok 0) (new_toy []) refl refl proceeds_no

abbrev finishing : PollEvent
finishing = record quiet_event { token = 1001; reads = finished_reads }

finishing_reads :
    read_loop toy_session 4 finished_reads (new_toy []) [] 0 true
    ≡ ended (finished_toy []) (7 ∷ 0 ∷ 0 ∷ 0 ∷ 0 ∷ []) 1 false false
unfolding read_loop proceeds
finishing_reads = refl

completed_handshake-order_example :
    (t' : Transport) × (read_connection toy_session accepted_transport 1001 finished_reads
      ≡ returned (read_connected (7 ∷ [])) t')
    × (handle_event toy accepted_transport finishing idle
        ≡ returned
            (record idle { dispatch_events = [] ++ received 1001 (7 ∷ []) ∷ connected 1001 ∷ [] })
            t')
completed_handshake-order_example =
    completed_handshake-order toy accepted_transport finishing idle client
      (Reachable-IsSound toy toy-WaitsForClient accepted_reached) client_at nothing_gone refl refl
      (finished_toy []) (7 ∷ 0 ∷ 0 ∷ 0 ∷ 0 ∷ []) 1 7 [] finishing_reads refl refl

new_named-Configures_example :
    Configures loader toy settings (ok tt) (ok tt) (new_named loader settings (ok tt) (ok tt))
new_named-Configures_example = new_named-Configures loader toy settings (ok tt) (ok tt)

sending-reaches_example :
    (lookup 1001 (send_to accepted_transport 1001 (5 ∷ [])).connections
      ≡ queued_if (1001 == 1001) (5 ∷ []) (lookup 1001 accepted_transport.connections))
    × (lookup 1001 (broadcast accepted_transport (5 ∷ [])).connections
        ≡ queued_if true (5 ∷ []) (lookup 1001 accepted_transport.connections))
    × (lookup 1001 (broadcast_except accepted_transport (5 ∷ []) 1002).connections
        ≡ queued_if (not (1001 == 1002)) (5 ∷ []) (lookup 1001 accepted_transport.connections))
    × (lookup 1001 (broadcast_except_many accepted_transport (5 ∷ []) (1001 ∷ [])).connections
        ≡ queued_if
            (not (contains (1001 ∷ []) 1001))
            (5 ∷ [])
            (lookup 1001 accepted_transport.connections))
sending-reaches_example =
    sending-reaches toy_session accepted_transport (5 ∷ []) 1001 1002 (1001 ∷ []) 1001
      (Reachable-IsSound toy toy-WaitsForClient accepted_reached)

abbrev writing : PollEvent
writing = record quiet_event {
  token = 1001;
  is_readable = false;
  is_writable = true;
  writes = ok 5 ∷ [];
}

send_to-in_handshake_example :
    handle_event toy (send_to accepted_transport 1001 (5 ∷ [])) writing idle ≡ (
      if leb (0 + 1) 10
      then returned idle
          (record (parked toy
            (send_to accepted_transport 1001 (5 ∷ []))
            1001
            (queued (5 ∷ []) client)
            (new_toy [])) { spurious_wakeups = 0 + 1 })
      else panicked too_many_spurious_wakeups)
send_to-in_handshake_example =
    send_to-in_handshake toy accepted_transport writing idle client (5 ∷ []) (new_toy []) (ok 5) []
      (Reachable-IsSound toy toy-WaitsForClient accepted_reached) client_at refl refl refl
      nothing_gone refl refl refl refl
