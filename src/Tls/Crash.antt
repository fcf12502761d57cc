-- ===== src/Tls/Crash.antt =====
-- transport/tls.rs: handshakes that end badly, and one that ends with data.
use rustcomm.Prelude.{
  append_assoc, ℕ, suc, ◌≡◌, ◌∙◌, refl, ap, Bool, true, false, none, some, List, [], ◌∷◌, arith,
  contains, ◌==◌, ◌||◌, take, length, ◌+◌, ◌++◌, drop, resize, if◌then◌else◌,
}
use rustcomm.Error.{ErrorKind, Result, ok}
use rustcomm.Table.{lookup, contains_key, is_some}
use rustcomm.Transport.Exit.{after, returned, panicked, connection_missing, handshake_data}
use rustcomm.Transport.Types.{received, connected}
use rustcomm.Tcp.State.{wake_id}
use rustcomm.Tcp.State
use rustcomm.Tcp.Events.{Progress, after_write}
use rustcomm.Tls.Session.{Rustls}
use rustcomm.Tls.State.{
  Connection, TlsTransport, tcp_connected, drop_connection, put_connection, track_spurious_wakeup,
}
use rustcomm.Tls.Read.{
  ReadLoop, ended, proceeds, read_loop, read_end, read_found, read_connection, read_ok,
  read_connected, settle, completes,
}
use rustcomm.Tls.Write.{write_connection, write_found}
use rustcomm.Tls.Events.{PollEvent, handle_writable, after_read, handle_connection, handle_event}
use rustcomm.Tls.Invariant.Defs.{IsSound}
use rustcomm.Tls.Invariant.Steps.{lookup-plain}
use rustcomm.Tls.Handshake.{drop-gone}

module _ {S X Y : Type 0} (rustls : Rustls S X Y) (t : TlsTransport S X Y) (e : PollEvent)
    (p : Progress) (conn : Connection S) (h : IsSound rustls.session t)
    (at : lookup e.token t.connections ≡ some conn)
    (fresh : contains p.disconnected_ids e.token ≡ false) where
  -- The event of a connection gets to handle_connection.
  pub handle_event-connection :
      e.is_readable || e.is_writable ≡ true
      → handle_event rustls t e p ≡ handle_connection rustls t e p
  unfolding handle_event contains_key State.in_use
  handle_event-connection ready =
      let there = lookup-plain rustls.session t e.token at in
      let no_wake : (e.token == wake_id) ≡ false =
        ground (arith, there, h.consistent.in_range e.token) in
      let no_listener : is_some (lookup e.token t.listeners) ≡ false =
        ground (arith, there, h.consistent.disjoint e.token) in
      simp (no_wake, no_listener, fresh, at, ready) refl

  module _ (early : conn.connected ≡ tcp_connected) (r : e.is_readable ≡ true) where
    read_connection-ended :
        (l : ReadLoop S)
        → read_loop rustls.session t.max_read_size e.reads conn.tls_conn [] 0 true ≡ l
        → read_connection rustls.session t e.token e.reads
          ≡ read_end rustls.session t e.token conn l
    unfolding read_connection read_found
    read_connection-ended l same = simp (at, early, same) refl

    data_stops :
        (s : S) (b : ℕ) (bytes rest : List ℕ) (spurious : Bool)
        → read_end rustls.session t e.token conn
            (ended s (b ∷ bytes ++ rest) (0 + length (b ∷ bytes)) true spurious)
          ≡ panicked handshake_data
    unfolding read_end
    data_stops s b bytes rest spurious =
        let count : 0 + length (b ∷ bytes) ≡ suc (length bytes) = omega arith in
        simp (early, count) refl

    -- On a sound transport, a readable event of a connection in the handshake, in a poll that has
    -- not dropped it, stops the program at assert!(recv_buf.is_empty()), if the first read
    -- completes with plaintext for the reader and the second finds the stream closed.
    pub early_close-stops :
        (first second : Result ErrorKind (List ℕ)) (rest : List (Result ErrorKind (List ℕ))) (b : ℕ)
        (bytes : List ℕ) (n : ℕ) (s₁ s₂ s₃ s₄ : S)
        → e.reads ≡ first ∷ second ∷ rest
        → rustls.session.read_tls conn.tls_conn first ≡ (ok (suc n), s₁)
        → rustls.session.process_new_packets s₁ ≡ (true, s₂)
        → rustls.session.read_plain s₂ t.max_read_size ≡ (ok (b ∷ bytes), s₃)
        → rustls.session.read_tls s₃ second ≡ (ok 0, s₄)
        → handle_event rustls t e p ≡ panicked handshake_data
    unfolding handle_connection read_loop proceeds
    early_close-stops first second rest b bytes n s₁ s₂ s₃ s₄ reads e₁ e₂ e₃ e₄ =
        let some_bytes : (suc n == 0) ≡ false = ground arith in
        let slots = resize (0 + t.max_read_size) 0 [] in
        let got = 0 + length (b ∷ bytes) in
        let loop : read_loop rustls.session t.max_read_size e.reads conn.tls_conn [] 0 true
            ≡ ended s₄ (b ∷ bytes ++ drop got slots) got true false =
          simp (reads, e₁, some_bytes, e₂, e₃, e₄) refl in
        handle_event-connection (rw r refl)
        ∙ simp (r, read_connection-ended _ loop, data_stops s₄ b bytes (drop got slots) false) refl

    -- On a sound transport, a readable event of a connection in the handshake, in a poll that has
    -- not dropped it, whose first read finds the stream closed or fails: the connection is removed
    -- and no event is reported; but when the event is writable as well, the program stops because
    -- write_connection does not find the connection.
    pub failed_handshake-removes :
        (first : Result ErrorKind (List ℕ)) (rest : List (Result ErrorKind (List ℕ)))
        (n : Result ErrorKind ℕ) (s : S)
        → e.reads ≡ first ∷ rest
        → rustls.session.read_tls conn.tls_conn first ≡ (n, s)
        → proceeds n true ≡ none
        → handle_event rustls t e p ≡ (
            if e.is_writable
            then panicked connection_missing
            else returned p (drop_connection t e.token))
    unfolding handle_connection read_loop read_end after_read handle_writable write_connection
        write_found
    failed_handshake-removes first rest n s reads e₁ e₂ =
        let loop : read_loop rustls.session t.max_read_size e.reads conn.tls_conn [] 0 true
            ≡ ended s [] 0 true true =
          simp (reads, e₁, e₂) refl in
        let removed : read_end rustls.session t e.token conn (ended s [] 0 true true)
            ≡ returned (read_ok []) (drop_connection t e.token) =
          simp early refl in
        handle_event-connection (rw r refl)
        ∙ simp (r, read_connection-ended _ loop, removed, drop-gone t e.token) refl

    completed_handshake :
        (s : S) (recv_buf : List ℕ) (recv_pos : ℕ)
        → rustls.session.is_handshaking s ≡ false
        → (t' : TlsTransport S X Y) × (read_end rustls.session t e.token conn
              (ended s recv_buf recv_pos false false)
            ≡ returned (read_connected (take recv_pos recv_buf)) t')
    unfolding read_end completes track_spurious_wakeup
    completed_handshake s recv_buf recv_pos done =
        let now = record conn { tls_conn = s } in
        (
          record (put_connection t e.token conn (settle rustls.session now)) {
            spurious_wakeups = 0;
          },
          simp (early, done) refl,
        )

    -- On a sound transport, a readable event of a connection in the handshake, in a poll that has
    -- not dropped it, whose reads complete the handshake and give plaintext without ending the
    -- stream: read_connection gives the plaintext and Connected, and the plaintext is reported as
    -- Data before the connection is reported as Connected. When the event is writable as well,
    -- write_connection runs after both reports, and what it reports comes after them.
    pub completed_handshake-order :
        (s : S) (recv_buf : List ℕ) (recv_pos : ℕ) (b : ℕ) (bytes : List ℕ)
        → read_loop rustls.session t.max_read_size e.reads conn.tls_conn [] 0 true
          ≡ ended s recv_buf recv_pos false false
        → take recv_pos recv_buf ≡ b ∷ bytes
        → rustls.session.is_handshaking s ≡ false
        → let reported : Progress = record p {
          dispatch_events =
              p.dispatch_events ++ received e.token (b ∷ bytes) ∷ connected e.token ∷ [];
        } in
          (t' : TlsTransport S X Y) × (read_connection rustls.session t e.token e.reads
            ≡ returned (read_connected (b ∷ bytes)) t')
          × (handle_event rustls t e p ≡ (
              if e.is_writable
              then after
                  (write_connection rustls.session t' e.token e.take_error e.writes)
                  (λ r t''. returned (after_write reported e.token r) t'')
              else returned reported t'))
    unfolding handle_connection after_read handle_writable
    completed_handshake-order s recv_buf recv_pos b bytes loop got done =
        let (t', read) = completed_handshake s recv_buf recv_pos done in
        let order : (p.dispatch_events ++ received e.token (b ∷ bytes) ∷ [])
              ++ connected e.token ∷ []
            ≡ p.dispatch_events ++ received e.token (b ∷ bytes) ∷ connected e.token ∷ [] =
          append_assoc p.dispatch_events _ _ in
        (
          t',
          read_connection-ended _ loop ∙ read ∙ ap (λ x. returned (read_connected x) t') got,
          handle_event-connection (rw r refl)
              ∙ simp (r, read_connection-ended _ loop, read, got, order) refl,
        )
