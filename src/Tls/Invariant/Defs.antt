-- ===== src/Tls/Invariant/Defs.antt =====
-- The invariant: that of a TCP transport, and what the sessions and the configuration add to it.
use rustcomm.Prelude.{ℕ, ◌≡◌, Bool, true, false, not, ◌||◌, Option, none, some, is_nil}
use rustcomm.Table.{lookup, is_some}
use rustcomm.Transport.Types.{wants_write}
use rustcomm.Tcp.Invariant.Defs.{IsConsistent}
use rustcomm.Tls.Session.{Session, Rustls}
use rustcomm.Tls.State.{Connection, TlsTransport}
use rustcomm.Tls.Plain.{plain}

-- A connection whose session wants to write listens for room to write.
abbrev pub is_flushing : {S : Type 0} → Session S → Connection S → Bool
is_flushing session c = not (session.wants_write c.tls_conn) || wants_write c.interest

abbrev pub all_flushing : {S : Type 0} → Session S → Option (Connection S) → Bool
all_flushing session none = true
all_flushing session (some c) = is_flushing session c

pub record AreSessionsServed {S X Y : Type 0} (session : Session S) (t : TlsTransport S X Y)
    : Type 0 where
  pub flushing : (id : ℕ) → all_flushing session (lookup id t.connections) ≡ true
  -- There is a listener only if there is a configuration for the sessions of what it accepts.
  pub configured : is_nil t.listeners || is_some t.tls_server_config ≡ true

pub record IsSound {S X Y : Type 0} (session : Session S) (t : TlsTransport S X Y) : Type 0 where
  pub consistent : IsConsistent (plain t)
  pub sessions : AreSessionsServed session t
  pub open sessions use *

-- The server of a TLS connection waits for the first message of the client.
abbrev pub WaitsForClient : {S X Y : Type 0} → Rustls S X Y → Type 0
WaitsForClient {S} {X} rustls =
    (config : X) (s : S) → rustls.new_server config ≡ some s → rustls.session.wants_write s ≡ false
