-- ===== src/Tls/Handshake.antt =====
-- transport/tls.rs: the states of a connection as a state machine, and the events that its edges
-- give.
pub mod Reading
pub mod Writing
use rustcomm.Prelude.{
  ℕ, ◌≡◌, ◌⊎◌, ◌&&◌, not, refl, sym, subst, inl, inr, Bool, true, false, Option, none, some, List,
  [], ◌∷◌, is_nil, arith, take, drop, length, ltb, ◌==◌, ◌+◌, leb, Option-cases, Bool-cases,
  if◌then◌else◌, ==_refl,
}
use rustcomm.Error.{ErrorKind, Result}
use rustcomm.Table.{lookup, lookup-insert, lookup-remove}
use rustcomm.Transport.Exit.{
  Panic, answers_over, handshake_data, not_connected, too_many_spurious_wakeups, slice_out_of_range,
  Exit, Ends,
}
use rustcomm.Tcp.State.{Call}
use rustcomm.Tcp.Write.{
  WriteConnectionResult, write_ok, write_connected, write_disconnected, connection_failed,
}
use rustcomm.Tls.Session.{Session}
use rustcomm.Tls.State.{
  Connection, TlsTransport, ConnectionStatus, tcp_connected, tls_connected, is_not_connected,
  is_tcp_connected, is_tls_connected, put_connection, drop_connection, track_spurious_wakeup,
}
use rustcomm.Tls.State
use rustcomm.Tls.Read.{
  ReadConnectionResult, read_ok, read_connected, read_disconnected, ReadLoop, ended, unanswered,
  settle, completes, read_loop, read_end, read_found, read_connection,
}
use rustcomm.Tls.Write.{
  WriteLoop, stopped, broken, write_loop, establish, write_end, write_established, write_found,
  write_connection,
}
use rustcomm.Tls.Write

-- What a readable event does to a connection, with what is reported.
pub data ReadEdge : ConnectionStatus → ReadConnectionResult → Option ConnectionStatus → Type 0 where
  handshakes : ReadEdge tcp_connected (read_ok []) (some tcp_connected)
  completes_handshake :
      (bytes : List ℕ) → ReadEdge tcp_connected (read_connected bytes) (some tls_connected)
  fails_handshake : ReadEdge tcp_connected (read_ok []) none
  receives : (bytes : List ℕ) → ReadEdge tls_connected (read_ok bytes) (some tls_connected)
  closes : (bytes : List ℕ) → ReadEdge tls_connected (read_disconnected bytes) none

-- What a writable event does to it.
pub data WriteEdge
    : ConnectionStatus → WriteConnectionResult → Option ConnectionStatus → Type 0 where
  establishes : WriteEdge State.not_connected write_ok (some tcp_connected)
  establishes_both : WriteEdge State.not_connected write_connected (some tls_connected)
  fails_connect : WriteEdge State.not_connected connection_failed none
  handshakes : WriteEdge tcp_connected write_ok (some tcp_connected)
  completes_handshake : WriteEdge tcp_connected write_connected (some tls_connected)
  fails_handshake : WriteEdge tcp_connected connection_failed none
  sends : WriteEdge tls_connected write_ok (some tls_connected)
  closes : WriteEdge tls_connected write_disconnected none

abbrev pub status : {S : Type 0} → Option (Connection S) → Option ConnectionStatus
status none = none
status (some conn) = some conn.connected

-- The others are left as they are.
abbrev pub Others : {S X Y : Type 0} → TlsTransport S X Y → ℕ → TlsTransport S X Y → Type 0
Others t id t' = (j : ℕ) → (j == id) ≡ false → lookup j t'.connections ≡ lookup j t.connections

abbrev pub is_read_panic : Panic → Bool
is_read_panic answers_over = true
is_read_panic handshake_data = true
is_read_panic not_connected = true
is_read_panic too_many_spurious_wakeups = true
is_read_panic _ = false

abbrev pub is_write_panic : Panic → Bool
is_write_panic answers_over = true
is_write_panic slice_out_of_range = true
is_write_panic too_many_spurious_wakeups = true
is_write_panic _ = false

module _ {S X Y : Type 0} (t : TlsTransport S X Y) (id : ℕ) where
  -- The end of a call that reports `r`.
  abbrev pub Read : ConnectionStatus → ReadConnectionResult → TlsTransport S X Y → Type 0
  Read before r t' = ReadEdge before r (status (lookup id t'.connections)) × Others t id t'

  abbrev pub Written : ConnectionStatus → WriteConnectionResult → TlsTransport S X Y → Type 0
  Written before r t' = WriteEdge before r (status (lookup id t'.connections)) × Others t id t'

pub track-Ends :
    {S X Y A : Type 0} (P : A → TlsTransport S X Y → Type 0) (Q : Panic → Type 0)
    (t : TlsTransport S X Y) (b : Bool) (a : A)
    → ((n : ℕ) → P a (record t { spurious_wakeups = n }))
    → Q too_many_spurious_wakeups
    → Ends P Q (track_spurious_wakeup t b a)
unfolding track_spurious_wakeup
track-Ends P Q t true a p q =
    elim (Bool-cases (leb (t.spurious_wakeups + 1) t.max_spurious_wakeups)) [
      | inl e ↦ rw e (p (t.spurious_wakeups + 1))
      | inr e ↦ rw e q
    ]
track-Ends P Q t false a p q = p 0

module _ {S X Y : Type 0} (t : TlsTransport S X Y) (id : ℕ) where
  pub drop-Others : Others t id (drop_connection t id)
  unfolding drop_connection
  drop-Others j n = ground (arith, lookup-remove id j t.connections)

  pub drop-gone : lookup id (drop_connection t id).connections ≡ none
  unfolding drop_connection
  drop-gone = rw (lookup-remove, ==_refl id) refl

  pub put-Others : (old conn : Connection S) → Others t id (put_connection t id old conn)
  unfolding put_connection
  put-Others old conn j n = ground (arith, lookup-insert id j conn t.connections)

  pub put-there :
      (old conn : Connection S) → lookup id (put_connection t id old conn).connections ≡ some conn
  unfolding put_connection
  put-there old conn = rw (lookup-insert, ==_refl id) refl

module _ {S : Type 0} (session : Session S) where
  -- The status after `settle`.
  pub settled :
      (conn : Connection S)
      → (settle session conn).connected
        ≡ (if completes session conn then tls_connected else conn.connected)
  unfolding settle completes
  settled conn = ground arith

module _ {S X Y : Type 0} (session : Session S) (t : TlsTransport S X Y) (id : ℕ) where
  -- The connection is put back settled.
  pub kept_edge :
      (P : Option ConnectionStatus → Type 0) (u : TlsTransport S X Y) (old now : Connection S)
      (after : ConnectionStatus)
      → (if completes session now then tls_connected else now.connected) ≡ after
      → P (some after)
      → P (status (lookup id (put_connection u id old (settle session now)).connections))
  kept_edge P u old now after e p =
      rw (put-there u id old (settle session now), settled session now, e) p
