-- ===== src/Tls/Handshake/Reading.antt =====
-- A readable event takes an edge of the state machine.
use rustcomm.Prelude.{
  ℕ, ◌≡◌, ◌⊎◌, ◌&&◌, not, refl, subst, inl, inr, true, false, some, List, [], ◌∷◌, is_nil, arith,
  take, Bool-cases, if◌then◌else◌,
}
use rustcomm.Error.{ErrorKind, Result}
use rustcomm.Table.{lookup}
use rustcomm.Transport.Exit.{Ends}
use rustcomm.Tls.Session.{Session}
use rustcomm.Tls.State.{
  Connection, TlsTransport, ConnectionStatus, tcp_connected, tls_connected, is_not_connected,
  is_tcp_connected, is_tls_connected, put_connection, drop_connection, track_spurious_wakeup,
}
use rustcomm.Tls.State
use rustcomm.Tls.Read.{
  ReadConnectionResult, read_ok, read_connected, ReadLoop, ended, unanswered, settle, completes,
  read_end, read_found, read_connection,
}
use rustcomm.Tls.Handshake.{
  ReadEdge, handshakes, completes_handshake, fails_handshake, receives, closes, is_read_panic, Read,
  track-Ends, drop-Others, drop-gone, put-Others, kept_edge,
}

nil_cases : (xs : List ℕ) → (xs ≡ []) ⊎ (is_nil xs ≡ false)
nil_cases [] = inl refl
nil_cases (x ∷ xs) = inr refl

is_tcp_cases : (before : ConnectionStatus) → is_tcp_connected before ≡ true → tcp_connected ≡ before
is_tcp_cases State.not_connected h = cc
is_tcp_cases tcp_connected h = refl
is_tcp_cases tls_connected h = cc

quiet_edge :
    (before : ConnectionStatus) (bytes : List ℕ)
    → is_not_connected before ≡ false
    → is_tcp_connected before && not (is_nil bytes) ≡ false
    → ReadEdge before (read_ok bytes) (some before)
quiet_edge State.not_connected bytes n d = cc
quiet_edge tcp_connected [] n d = handshakes
quiet_edge tcp_connected (b ∷ bytes) n d = cc
quiet_edge tls_connected bytes n d = receives bytes

module _ {S X Y : Type 0} (session : Session S) (t : TlsTransport S X Y) (id : ℕ) where
  read_end-Follows :
      (conn : Connection S) (before : ConnectionStatus) (l : ReadLoop S)
      → conn.connected ≡ before
      → is_not_connected before ≡ false
      → Ends (Read t id before) (λ p. is_read_panic p ≡ true) (read_end session t id conn l)
  unfolding read_end completes
  read_end-Follows conn State.not_connected l b n = cc
  read_end-Follows conn before unanswered b n = refl
  read_end-Follows conn tcp_connected (ended s recv_buf recv_pos true spurious) b n =
      elim (nil_cases (take recv_pos recv_buf)) [
        | inl e ↦ rw (b, e) (rw (drop-gone t id) fails_handshake, drop-Others t id)
        | inr e ↦ rw (b, e) refl
      ]
  read_end-Follows conn tls_connected (ended s recv_buf recv_pos true spurious) b n =
      rw b (rw (drop-gone t id) (closes (take recv_pos recv_buf)), drop-Others t id)
  read_end-Follows conn before (ended s recv_buf recv_pos false spurious) b n =
      let now = record conn { tls_conn = s } in
      let bytes = take recv_pos recv_buf in
      let kept : (r : ReadConnectionResult) (after : ConnectionStatus)
          → (if completes session now then tls_connected else now.connected) ≡ after
          → ReadEdge before r (some after)
          → Ends (Read t id before) (λ p. is_read_panic p ≡ true)
              (track_spurious_wakeup (put_connection t id conn (settle session now)) spurious r) =
        λ r after e edge.
          track-Ends (Read t id before) _ _ spurious r
            (λ m. (
              kept_edge session t id (ReadEdge before r) t conn now after e edge,
              put-Others t id conn (settle session now),
            ))
            refl in
      elim (Bool-cases (completes session now)) [
        | inl c ↦ simp c (
            kept (read_connected bytes) tls_connected (rw c refl) (
              subst (λ x. ReadEdge x (read_connected bytes) (some tls_connected))
                (is_tcp_cases before (ground (arith, c, b))) (completes_handshake bytes)))
        | inr c ↦ elim (Bool-cases (is_tcp_connected conn.connected && not (is_nil bytes))) [
          | inl d ↦ simp (c, d) refl
          | inr d ↦
              simp (c, d)
                (kept (read_ok bytes) before (rw (c, b) refl)
                  (quiet_edge before bytes n (rw b at d)))
        ]
      ]

  -- A readable event takes the connection along an edge of ReadEdge: a handshake goes on, is
  -- completed and reported as Connected, or fails, which removes the connection without a report;
  -- an established connection receives, or is closed and reported as Disconnected. Other
  -- connections stay as they are; the call returns no error, and panics only when the answers of
  -- the socket are over, when data comes before the end of the handshake, when the connection is
  -- not established, or after too many wakeups for nothing.
  pub read_connection-Follows :
      (reads : List (Result ErrorKind (List ℕ))) (conn : Connection S)
      → lookup id t.connections ≡ some conn
      → Ends
          (Read t id conn.connected)
          (λ p. is_read_panic p ≡ true)
          (read_connection session t id reads)
  unfolding read_connection read_found
  read_connection-Follows reads conn e = elim (Bool-cases (is_not_connected conn.connected)) [
    | inl c ↦ simp (e, c) refl
    | inr c ↦ simp (e, c) (read_end-Follows conn conn.connected _ refl c)
  ]
