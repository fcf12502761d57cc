-- ===== src/Tls/Spurious.antt =====
-- transport/tls.rs: bytes that are sent while the handshake goes on.
use rustcomm.Prelude.{
  ℕ, ◌+◌, ◌≡◌, ◌∙◌, refl, inl, inr, true, false, some, List, ◌∷◌, arith, contains, leb, ltb, length,
  ==_refl, ◌&&◌, if◌then◌else◌, Bool-cases, Option-cases,
}
use rustcomm.Error.{ErrorKind, Result, ok}
use rustcomm.Table.{lookup}
use rustcomm.Transport.Types.{readable}
use rustcomm.Transport.Exit.{returned, panicked, too_many_spurious_wakeups}
use rustcomm.Tcp.Events.{Progress}
use rustcomm.Tcp.Write.{write_ok}
use rustcomm.Tls.Session.{Rustls}
use rustcomm.Tls.State.{
  Connection, TlsTransport, tcp_connected, queue_data, put_connection, track_spurious_wakeup,
}
use rustcomm.Tls.Send.{send_to}
use rustcomm.Tls.Read.{settle, completes}
use rustcomm.Tls.Write.{
  write_loop, write_end, establish, write_established, write_found, write_connection,
}
use rustcomm.Tls.Events.{PollEvent, handle_writable, handle_connection, handle_event}
use rustcomm.Tls.Sending.{queued, lookup-queue_data}
use rustcomm.Tls.Crash.{handle_event-connection}
use rustcomm.Tls.Invariant.Defs.{IsSound}
use rustcomm.Tls.Invariant.Closing.{queue_data-IsSound}

module _ {S X Y : Type 0} (rustls : Rustls S X Y) where
  -- The connection listens for data only, with its session in the state `s`.
  abbrev pub parked : TlsTransport S X Y → ℕ → Connection S → S → TlsTransport S X Y
  parked t id conn s = put_connection t id conn (record conn { tls_conn = s; interest = readable })

  -- While the handshake goes on and its session has nothing to write, nothing is written.
  write_connection-waits :
      (t : TlsTransport S X Y) (e : PollEvent) (conn : Connection S) (s : S)
      (answer : Result ErrorKind ℕ) (rest : List (Result ErrorKind ℕ))
      → lookup e.token t.connections ≡ some conn
      → conn.connected ≡ tcp_connected
      → e.writes ≡ answer ∷ rest
      → rustls.session.write_tls conn.tls_conn answer ≡ (ok 0, s)
      → rustls.session.is_handshaking s ≡ true
      → rustls.session.wants_write s ≡ false
      → write_connection rustls.session t e.token e.take_error e.writes
        ≡ track_spurious_wakeup (parked t e.token conn s) true write_ok
  unfolding write_connection write_found write_established establish write_loop write_end settle
      completes
  write_connection-waits t e conn s answer rest at c writes w hs ww =
      let none_taken : (ltb 0 (length conn.send_buf) && false) ≡ false = ground arith in
      let in_bounds : ltb (length conn.send_buf) 0 ≡ false = ground arith in
      simp (at, c, writes, none_taken, w, in_bounds, hs, ww) refl

  queue_data-wakeups :
      (t : TlsTransport S X Y) (id : ℕ) (buf : List ℕ)
      → ((queue_data t id buf).spurious_wakeups ≡ t.spurious_wakeups)
        × ((queue_data t id buf).max_spurious_wakeups ≡ t.max_spurious_wakeups)
  unfolding queue_data put_connection
  queue_data-wakeups t id buf = elim (Option-cases (lookup id t.connections)) [
    | inl e ↦ simp e (refl, refl)
    | inr (conn, e) ↦ simp e (refl, refl)
  ]

  -- On a sound transport, bytes are sent to a connection in the handshake whose session has nothing
  -- to write: then an event that calls the socket writable and not readable, in a poll that has not
  -- dropped the connection, writes nothing and counts as a spurious wakeup, and it stops the
  -- program when as many as are allowed came before it.
  pub send_to-in_handshake :
      (t : TlsTransport S X Y) (e : PollEvent) (p : Progress) (conn : Connection S) (buf : List ℕ)
      (s : S) (answer : Result ErrorKind ℕ) (rest : List (Result ErrorKind ℕ))
      → IsSound rustls.session t
      → lookup e.token t.connections ≡ some conn
      → conn.connected ≡ tcp_connected
      → e.is_readable ≡ false
      → e.is_writable ≡ true
      → contains p.disconnected_ids e.token ≡ false
      → e.writes ≡ answer ∷ rest
      → rustls.session.write_tls conn.tls_conn answer ≡ (ok 0, s)
      → rustls.session.is_handshaking s ≡ true
      → rustls.session.wants_write s ≡ false
      → handle_event rustls (send_to t e.token buf) e p ≡ (
          if leb (t.spurious_wakeups + 1) t.max_spurious_wakeups
          then returned p (record (parked (send_to t e.token buf) e.token (queued buf conn) s) {
            spurious_wakeups = t.spurious_wakeups + 1;
          })
          else panicked too_many_spurious_wakeups)
  unfolding send_to handle_connection handle_writable put_connection track_spurious_wakeup
  send_to-in_handshake t e p conn buf s answer rest h at c r w fresh writes ok_zero hs ww =
      let u = queue_data t e.token buf in
      let k = queue_data-IsSound rustls.session t h e.token buf in
      let at' : lookup e.token u.connections ≡ some (queued buf conn) =
        lookup-queue_data t e.token e.token buf ∙ simp (==_refl e.token, at) refl in
      let waits =
        write_connection-waits u e (queued buf conn) s answer rest at' c writes ok_zero hs ww in
      let same = queue_data-wakeups t e.token buf in
      handle_event-connection rustls u e p (queued buf conn) k at' fresh (rw (r, w) refl)
      ∙ (elim (Bool-cases (leb (t.spurious_wakeups + 1) t.max_spurious_wakeups)) [
        | inl enough ↦ simp (r, w, waits, same.0, same.1, enough) refl
        | inr enough ↦ simp (r, w, waits, same.0, same.1, enough) refl
      ])
