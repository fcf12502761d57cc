-- ===== src/Tls/Read.antt =====
-- transport/tls.rs: read_connection. The answers of the socket to the successive calls of read_tls
-- come as an argument. When they are over, the loop is still waiting for one (`answers_over`).
use rustcomm.Prelude.{
  ℕ, ◌+◌, Bool, true, false, not, ◌&&◌, ◌||◌, Option, none, some, List, [], ◌∷◌, length, take,
  overwrite, resize, is_nil, ◌==◌, if◌then◌else◌,
}
use rustcomm.Error.{ErrorKind, would_block, other, Result, ok, err}
use rustcomm.Table.{lookup}
use rustcomm.Transport.Types.{Interest, readable, read_write}
use rustcomm.Transport.Exit.{
  Exit, returned, panicked, connection_missing, not_connected, handshake_data, answers_over,
}
use rustcomm.Tls.Session.{Session}
use rustcomm.Tls.State.{
  Connection, TlsTransport, tls_connected, is_not_connected, is_tcp_connected, drop_connection,
  put_connection, track_spurious_wakeup,
}

pub data ReadConnectionResult : Type 0 where
  read_ok read_connected read_disconnected : List ℕ → ReadConnectionResult

-- The loop's variables when it ends: the session, recv_buf, recv_pos, disconnect and spurious.
pub data ReadLoop (S : Type 0) : Type 0 where
  ended : S → List ℕ → ℕ → Bool → Bool → ReadLoop S
  unanswered : ReadLoop S

-- What read_tls answered: `none` disconnects, otherwise the packets are processed; with the new
-- value of `spurious`.
unfoldable pub proceeds : Result ErrorKind ℕ → Bool → Option Bool
proceeds (ok sz) spurious = if sz == 0 then none else some false
proceeds (err other) spurious = some spurious
proceeds (err would_block) spurious = some spurious
proceeds (err _) spurious = none

-- READABLE, and WRITABLE if `b`
abbrev pub readable_and : Bool → Interest
readable_and b = if b then read_write else readable

module _ {S : Type 0} (session : Session S) where
  -- What the reader answered; `again` is the next round.
  unfoldable pub after_plain :
      Result ErrorKind (List ℕ) × S
      → List ℕ
      → ℕ
      → Bool
      → (S → List ℕ → ℕ → Bool → ReadLoop S)
      → ReadLoop S
  after_plain (ok [], s) recv_buf recv_pos spurious again = ended s recv_buf recv_pos false spurious
  after_plain (ok (b ∷ bytes), s) recv_buf recv_pos spurious again =
      again s (overwrite recv_pos (b ∷ bytes) recv_buf) (recv_pos + length (b ∷ bytes)) false
  after_plain (err would_block, s) recv_buf recv_pos spurious again =
      ended s recv_buf recv_pos false spurious
  after_plain (err _, s) recv_buf recv_pos spurious again = ended s recv_buf recv_pos true spurious

  -- What process_new_packets answered, and the read of plaintext.
  unfoldable pub after_packets :
      ℕ → Bool × S → List ℕ → ℕ → Bool → (S → List ℕ → ℕ → Bool → ReadLoop S) → ReadLoop S
  unfolding after_plain
  after_packets max_read_size (false, s) recv_buf recv_pos spurious again =
      ended s recv_buf recv_pos true spurious
  after_packets max_read_size (true, s) recv_buf recv_pos spurious again =
      after_plain (session.read_plain s max_read_size)
        (resize (recv_pos + max_read_size) 0 recv_buf) recv_pos spurious again

  unfoldable pub after_tls :
      ℕ → Option Bool → S → List ℕ → ℕ → (S → List ℕ → ℕ → Bool → ReadLoop S) → Bool → ReadLoop S
  unfolding after_packets
  after_tls max_read_size none s recv_buf recv_pos again old = ended s recv_buf recv_pos true old
  after_tls max_read_size (some spurious) s recv_buf recv_pos again old =
      after_packets max_read_size (session.process_new_packets s) recv_buf recv_pos spurious again

  unfoldable pub read_loop :
      ℕ → List (Result ErrorKind (List ℕ)) → S → List ℕ → ℕ → Bool → ReadLoop S
  unfolding after_tls proceeds
  read_loop max_read_size [] s recv_buf recv_pos spurious = unanswered
  read_loop max_read_size (answer ∷ rest) s recv_buf recv_pos spurious =
      let (read, s') = session.read_tls s answer in
      after_tls max_read_size (proceeds read spurious) s' recv_buf recv_pos
        (read_loop max_read_size rest) spurious

  -- The connection after reading or writing: the status, and the interest.
  unfoldable pub settle : Connection S → Connection S
  settle conn =
      let wants = session.wants_write conn.tls_conn in
      let both = readable_and (wants || not (is_nil conn.send_buf)) in
      if is_tcp_connected conn.connected
      then if session.is_handshaking conn.tls_conn
        then record conn { interest = readable_and wants }
        else record conn { connected = tls_connected; interest = both }
      else record conn { interest = both }

  -- Does the connection complete the handshake now?
  unfoldable pub completes : Connection S → Bool
  completes conn = is_tcp_connected conn.connected && not (session.is_handshaking conn.tls_conn)

  module _ {X Y : Type 0} where
    -- After the loop. Data before the end of the handshake fails an assert!.
    unfoldable pub read_end :
        TlsTransport S X Y
        → ℕ
        → Connection S
        → ReadLoop S
        → Exit (TlsTransport S X Y) ReadConnectionResult
    unfolding settle completes
    read_end t id conn unanswered = panicked answers_over
    read_end t id conn (ended s recv_buf recv_pos true spurious) =
        let bytes = take recv_pos recv_buf in
        if is_tcp_connected conn.connected
        then if is_nil bytes
          then returned (read_ok bytes) (drop_connection t id)
          else panicked handshake_data
        else returned (read_disconnected bytes) (drop_connection t id)
    read_end t id conn (ended s recv_buf recv_pos false spurious) =
        let bytes = take recv_pos recv_buf in
        let now = record conn { tls_conn = s } in
        let t' = put_connection t id conn (settle now) in
        if completes now
        then track_spurious_wakeup t' spurious (read_connected bytes)
        else if is_tcp_connected conn.connected && not (is_nil bytes)
        then panicked handshake_data
        else track_spurious_wakeup t' spurious (read_ok bytes)

    unfoldable pub read_found :
        TlsTransport S X Y
        → ℕ
        → List (Result ErrorKind (List ℕ))
        → Option (Connection S)
        → Exit (TlsTransport S X Y) ReadConnectionResult
    unfolding read_end read_loop
    read_found t id reads none = panicked connection_missing
    read_found t id reads (some conn) =
        if is_not_connected conn.connected
        then panicked not_connected
        else read_end t id conn (read_loop t.max_read_size reads conn.tls_conn [] 0 true)

    unfoldable pub read_connection :
        TlsTransport S X Y
        → ℕ
        → List (Result ErrorKind (List ℕ))
        → Exit (TlsTransport S X Y) ReadConnectionResult
    unfolding read_found
    read_connection t id reads = read_found t id reads (lookup id t.connections)
