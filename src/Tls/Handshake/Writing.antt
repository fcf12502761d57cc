-- ===== src/Tls/Handshake/Writing.antt =====
-- A writable event takes an edge of the state machine.
use rustcomm.Prelude.{
  ℕ, ◌≡◌, refl, sym, inl, inr, true, false, Option, none, some, List, arith, drop, length, ltb,
  Bool-cases, if◌then◌else◌,
}
use rustcomm.Error.{ErrorKind, Result}
use rustcomm.Table.{lookup}
use rustcomm.Transport.Exit.{Ends}
use rustcomm.Tcp.Write.{
  WriteConnectionResult, write_ok, write_connected, write_disconnected, connection_failed,
}
use rustcomm.Tls.Session.{Session}
use rustcomm.Tls.State.{
  Connection, TlsTransport, ConnectionStatus, tcp_connected, tls_connected, is_not_connected,
  is_tcp_connected, is_tls_connected, put_connection, drop_connection, track_spurious_wakeup,
}
use rustcomm.Tls.State
use rustcomm.Tls.Read.{settle, completes}
use rustcomm.Tls.Write.{
  WriteLoop, stopped, broken, unanswered, establish, write_end, write_established, write_found,
  write_connection,
}
use rustcomm.Tls.Handshake.{
  handshakes, completes_handshake, fails_handshake, closes, WriteEdge, establishes,
  establishes_both, fails_connect, sends, is_write_panic, Written, track-Ends, drop-Others,
  drop-gone, put-Others, kept_edge,
}

-- The status once a TCP connection is known to be there.
abbrev forward : ConnectionStatus → ConnectionStatus
forward State.not_connected = tcp_connected
forward before = before

forward_established :
    (before : ConnectionStatus) → is_not_connected before ≡ false → before ≡ forward before
forward_established State.not_connected h = cc
forward_established tcp_connected h = refl
forward_established tls_connected h = refl

not_connected_cases :
    (before : ConnectionStatus) → is_not_connected before ≡ true → tcp_connected ≡ forward before
not_connected_cases State.not_connected h = refl
not_connected_cases tcp_connected h = cc
not_connected_cases tls_connected h = cc

refused_edge :
    (before : ConnectionStatus)
    → is_not_connected before ≡ true
    → WriteEdge before connection_failed none
refused_edge State.not_connected h = fails_connect
refused_edge tcp_connected h = cc
refused_edge tls_connected h = cc

complete_edge :
    (before : ConnectionStatus)
    → is_tcp_connected (forward before) ≡ true
    → WriteEdge before write_connected (some tls_connected)
complete_edge State.not_connected h = establishes_both
complete_edge tcp_connected h = completes_handshake
complete_edge tls_connected h = cc

quiet_edge : (before : ConnectionStatus) → WriteEdge before write_ok (some (forward before))
quiet_edge State.not_connected = establishes
quiet_edge tcp_connected = handshakes
quiet_edge tls_connected = sends

broken_edge :
    (before : ConnectionStatus)
    → WriteEdge before
        (if is_tcp_connected (forward before) then connection_failed else write_disconnected)
        none
broken_edge State.not_connected = fails_connect
broken_edge tcp_connected = fails_handshake
broken_edge tls_connected = closes

module _ {S X Y : Type 0} (session : Session S) (t : TlsTransport S X Y) (id : ℕ) where
  write_end-Follows :
      (old conn : Connection S) (before : ConnectionStatus) (l : WriteLoop S)
      → conn.connected ≡ forward before
      → Ends
          (Written t id before)
          (λ p. is_write_panic p ≡ true)
          (write_end session t id old conn l)
  unfolding write_end completes
  write_end-Follows old conn before unanswered b = refl
  write_end-Follows old conn before (broken calls) b = (
    rw (b, drop-gone (record t { calls = calls }) id) (broken_edge before),
    drop-Others (record t { calls = calls }) id,
  )
  write_end-Follows old conn before (stopped s pos spurious calls) b =
      let now = record conn { tls_conn = s; send_buf = drop pos conn.send_buf } in
      let u = record t { calls = calls } in
      let kept : (r : WriteConnectionResult) (after : ConnectionStatus)
          → (if completes session now then tls_connected else now.connected) ≡ after
          → WriteEdge before r (some after)
          → Ends (Written t id before) (λ p. is_write_panic p ≡ true)
              (track_spurious_wakeup (put_connection u id old (settle session now)) spurious r) =
        λ r after e edge.
          track-Ends (Written t id before) _ _ spurious r
            (λ m. (
              kept_edge session t id (WriteEdge before r) u old now after e edge,
              put-Others u id old (settle session now),
            ))
            refl in
      elim (Bool-cases (ltb (length conn.send_buf) pos)) [
        | inl o ↦ simp o refl
        | inr o ↦ elim (Bool-cases (completes session now)) [
          | inl c ↦
              simp (o, c)
                (kept write_connected tls_connected (rw c refl)
                  (complete_edge before (rw (sym b) (ground (arith, c)))))
          | inr c ↦
              simp (o, c) (kept write_ok (forward before) (rw (c, b) refl) (quiet_edge before))
        ]
      ]

  write_established-Follows :
      (old : Connection S) (writes : List (Result ErrorKind ℕ)) (take_error : Option ErrorKind)
      → Ends
          (Written t id old.connected)
          (λ p. is_write_panic p ≡ true)
          (write_established session t id old writes (establish session old take_error))
  unfolding write_established establish
  write_established-Follows old writes take_error =
      elim (Bool-cases (is_not_connected old.connected)) [
        | inl c ↦ rw c (asked take_error c)
        | inr c ↦
            rw c (write_end-Follows old old old.connected _ (forward_established old.connected c))
      ]
    where
      asked :
          (answer : Option ErrorKind)
          → is_not_connected old.connected ≡ true
          → Ends
              (Written t id old.connected)
              (λ p. is_write_panic p ≡ true)
              (write_established session t id old writes (elim answer [
                | none ↦ some (record old { connected = tcp_connected }, false)
                | some kind ↦ none
              ]))
      asked none c =
          write_end-Follows old (record old { connected = tcp_connected }) old.connected _
            (not_connected_cases old.connected c)
      asked (some kind) c = (rw (drop-gone t id) (refused_edge old.connected c), drop-Others t id)

  -- A writable event takes the connection along an edge of WriteEdge: the TCP connection is
  -- established or fails, the handshake goes on, is completed and reported as Connected, or fails
  -- and is reported as ConnectionFailed, and an established connection sends, or breaks and is
  -- reported as Disconnected. Other connections stay as they are; the call returns no error, and
  -- panics only when the answers of the socket are over, when the session takes more than it is
  -- given, or after too many wakeups for nothing.
  pub write_connection-Follows :
      (take_error : Option ErrorKind) (writes : List (Result ErrorKind ℕ)) (conn : Connection S)
      → lookup id t.connections ≡ some conn
      → Ends
          (Written t id conn.connected)
          (λ p. is_write_panic p ≡ true)
          (write_connection session t id take_error writes)
  unfolding write_connection write_found
  write_connection-Follows take_error writes conn e =
      simp e (write_established-Follows conn writes take_error)
