-- ===== src/Transport/Impl.antt =====
-- transport/mod.rs: the trait TransportImpl, behind which a Transport holds its implementation.
-- `W` is what the operating system and the other threads do during one call of fetch_events.
use rustcomm.Prelude.{ℕ, List}
use rustcomm.Transport.Types.{SocketAddr, SocketAnswers, Shutdown, TransportEvent}
use rustcomm.Transport.Exit.{Exit, Fetched}

pub record TransportImpl (T W : Type 0) : Type 0 where
  pub connect_impl : T → SocketAddr → SocketAnswers → Exit T (ℕ × SocketAddr)
  pub listen_impl : T → SocketAddr → SocketAnswers → Exit T (ℕ × SocketAddr)
  pub get_listener_addresses : T → List SocketAddr
  pub close_connection : T → ℕ → T
  pub close_all_connections : T → T
  pub shutdown_connection : T → ℕ → Shutdown → T
  pub shutdown_all_connections : T → Shutdown → T
  pub close_listener : T → ℕ → T
  pub close_all_listeners : T → T
  pub close_all : T → T
  pub send_to : T → ℕ → List ℕ → T
  pub send_to_many : T → List ℕ → List ℕ → T
  pub broadcast : T → List ℕ → T
  pub broadcast_except : T → List ℕ → ℕ → T
  pub broadcast_except_many : T → List ℕ → List ℕ → T
  pub fetch_events : T → W → Fetched T (List TransportEvent)
