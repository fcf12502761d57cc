-- ===== src/Tls/Write.antt =====
-- transport/tls.rs: write_connection. The answers of the socket come as arguments: that of
-- `take_error`, and those of the successive calls of write_tls, as in Tls/Read.
use rustcomm.Prelude.{
  ℕ, ◌+◌, Bool, true, false, ◌&&◌, Option, none, some, List, [], ◌∷◌, length, take, drop, ◌==◌, ltb,
  if◌then◌else◌,
}
use rustcomm.Error.{ErrorKind, would_block, broken_pipe, Result, ok, err}
use rustcomm.Table.{lookup}
use rustcomm.Transport.Exit.{
  Exit, returned, panicked, connection_missing, slice_out_of_range, answers_over,
}
use rustcomm.Tcp.State.{Call, wrote}
use rustcomm.Tcp.Write.{
  WriteConnectionResult, write_ok, write_connected, write_disconnected, connection_failed,
}
use rustcomm.Tls.Session.{Session}
use rustcomm.Tls.State.{
  Connection, TlsTransport, tcp_connected, is_not_connected, is_tcp_connected, is_tls_connected,
  drop_connection, put_connection, track_spurious_wakeup,
}
use rustcomm.Tls.Read.{settle, completes}

-- The loop's variables when it ends: the session, send_pos and spurious, with the calls made; or a
-- failure, after which the connection is removed.
pub data WriteLoop (S : Type 0) : Type 0 where
  stopped : S → ℕ → Bool → List Call → WriteLoop S
  broken : List Call → WriteLoop S
  unanswered : WriteLoop S

module _ {S : Type 0} (session : Session S) where
  -- What write_tls answered; `again` is the next round.
  unfoldable pub after_tls :
      Result ErrorKind ℕ × S
      → ℕ
      → Bool
      → List Call
      → (S → ℕ → Bool → List Call → WriteLoop S)
      → WriteLoop S
  after_tls (ok sz, s) send_pos spurious calls again =
      if sz == 0 then stopped s send_pos spurious calls else again s send_pos false calls
  after_tls (err would_block, s) send_pos spurious calls again = stopped s send_pos spurious calls
  after_tls (err broken_pipe, s) send_pos spurious calls again = stopped s send_pos spurious calls
  after_tls (err _, s) send_pos spurious calls again = broken calls

  -- What the writer answered to send_buf[send_pos..], and the write to the socket.
  unfoldable pub after_plain :
      ℕ
      → List ℕ
      → Result ErrorKind ℕ × S
      → Result ErrorKind ℕ
      → ℕ
      → Bool
      → List Call
      → (S → ℕ → Bool → List Call → WriteLoop S)
      → WriteLoop S
  unfolding after_tls
  after_plain id send_buf (ok sz, s) answer send_pos spurious calls again =
      if sz == 0
      then after_tls (session.write_tls s answer) send_pos spurious calls again
      else after_tls (session.write_tls s answer) (send_pos + sz) false
          (wrote id (take sz (drop send_pos send_buf)) ∷ calls) again
  after_plain id send_buf (err would_block, s) answer send_pos spurious calls again =
      after_tls (session.write_tls s answer) send_pos spurious calls again
  after_plain id send_buf (err _, s) answer send_pos spurious calls again = broken calls

  -- `encrypts`: the handshake is complete, so that plaintext can be written.
  unfoldable pub write_loop :
      ℕ → Bool → List ℕ → List (Result ErrorKind ℕ) → S → ℕ → Bool → List Call → WriteLoop S
  unfolding after_plain
  write_loop id encrypts send_buf [] s send_pos spurious calls = unanswered
  write_loop id encrypts send_buf (answer ∷ rest) s send_pos spurious calls =
      let again = write_loop id encrypts send_buf rest in
      if ltb send_pos (length send_buf) && encrypts
      then after_plain id send_buf (session.write_plain s (drop send_pos send_buf)) answer send_pos
          spurious calls again
      else after_tls (session.write_tls s answer) send_pos spurious calls again

  -- A connection in progress is asked for its error: `none` is a connection that failed. With
  -- `spurious`.
  unfoldable pub establish : Connection S → Option ErrorKind → Option (Connection S × Bool)
  establish conn take_error =
      if is_not_connected conn.connected
      then (elim take_error [
        | none ↦ some (record conn { connected = tcp_connected }, false)
        | some kind ↦ none
      ])
      else some (conn, true)

  module _ {X Y : Type 0} where
    -- After the loop: drain(..send_pos), the new status and interest.
    unfoldable pub write_end :
        TlsTransport S X Y
        → ℕ
        → Connection S
        → Connection S
        → WriteLoop S
        → Exit (TlsTransport S X Y) WriteConnectionResult
    unfolding settle completes
    write_end t id old conn (stopped s send_pos spurious calls) =
        let now = record conn { tls_conn = s; send_buf = drop send_pos conn.send_buf } in
        let t' = put_connection (record t { calls = calls }) id old (settle session now) in
        if ltb (length conn.send_buf) send_pos
        then panicked slice_out_of_range
        else track_spurious_wakeup t' spurious
            (if completes session now then write_connected else write_ok)
    write_end t id old conn (broken calls) =
        returned (if is_tcp_connected conn.connected then connection_failed else write_disconnected)
          (drop_connection (record t { calls = calls }) id)
    write_end t id old conn unanswered = panicked answers_over

    unfoldable pub write_established :
        TlsTransport S X Y
        → ℕ
        → Connection S
        → List (Result ErrorKind ℕ)
        → Option (Connection S × Bool)
        → Exit (TlsTransport S X Y) WriteConnectionResult
    unfolding write_end write_loop
    write_established t id old writes none = returned connection_failed (drop_connection t id)
    write_established t id old writes (some (conn, spurious)) = write_end t id old conn (
        write_loop id (is_tls_connected conn.connected) conn.send_buf writes conn.tls_conn 0
          spurious t.calls)

    unfoldable pub write_found :
        TlsTransport S X Y
        → ℕ
        → Option ErrorKind
        → List (Result ErrorKind ℕ)
        → Option (Connection S)
        → Exit (TlsTransport S X Y) WriteConnectionResult
    unfolding write_established establish
    write_found t id take_error writes none = panicked connection_missing
    write_found t id take_error writes (some conn) =
        write_established t id conn writes (establish conn take_error)

    unfoldable pub write_connection :
        TlsTransport S X Y
        → ℕ
        → Option ErrorKind
        → List (Result ErrorKind ℕ)
        → Exit (TlsTransport S X Y) WriteConnectionResult
    unfolding write_found
    write_connection t id take_error writes =
        write_found t id take_error writes (lookup id t.connections)
