-- ===== src/Tls/Reachable.antt =====
-- The states of a TlsTransport, with the steps of Tcp/Reachable.
use rustcomm.Prelude.{◌≡◌, refl, Option, List, subst, arith}
use rustcomm.Error.{ErrorKind, Error, Result, ok, from_io}
use rustcomm.Transport.Types.{SendRequest, SocketAnswers, TransportEvent}
use rustcomm.Transport.Exit.{fetched, returned, raised, Leaves, FetchLeaves, Made, Made->>=}
use rustcomm.Table
use rustcomm.Table.Values.{map_values}
use rustcomm.Tcp.State
use rustcomm.Tcp.State.{Settings}
use rustcomm.Tcp.Registered.{registered}
use rustcomm.Tls.Session.{Session, Rustls}
use rustcomm.Tls.Config.{Loader}
use rustcomm.Tls.State.{
  TlsTransport, TlsSettings, cert_path, key_path, ca_cert_path, new_named, fresh, server_config,
  client_config,
}
use rustcomm.Tls.Requests.{process_request}
use rustcomm.Tls.Events.{Round, fetch_events}
use rustcomm.Tls.Invariant.Defs.{IsSound, WaitsForClient}
use rustcomm.Tls.Invariant.Run.{process_request-IsSound, fetch_events-IsSound}

module _ {S X Y : Type 0} (session : Session S) where
  fresh-IsSound :
      {F C K R : Type 0} (loader : Loader F C K R X Y) (c : Settings) (x : Option X) (y : Option Y)
      → IsSound session (fresh loader {S = S} c x y)
  unfolding State.in_use Table.contains_key Table.lookup registered Table.keys map_values
  fresh-IsSound loader c x y = record {
    consistent = record {
      sockets = record {
        in_step = λ j. refl;
        disjoint = λ j. refl;
        in_range = λ j l. refl;
        served = λ j. refl;
        one_connection = tt;
        one_listener = tt;
        accepted = tt;
      };
      next_in_range = omega arith;
      next_is_free = refl;
    };
    sessions = record { flushing = λ j. refl; configured = refl };
  }

  new_named-IsSound :
      {F C K R : Type 0} (loader : Loader F C K R X Y) (c : TlsSettings)
      (poll waker : Result ErrorKind (Unit {0}))
      → Made (IsSound session) (new_named loader {S = S} c poll waker)
  unfolding new_named
  new_named-IsSound loader c poll waker =
      Made->>= (IsSound session) (server_config loader (cert_path c) (key_path c)) _ λ server.
        Made->>= (IsSound session) (client_config loader (ca_cert_path c)) _ λ client.
          Made->>= (IsSound session) (from_io poll) _ λ _.
            Made->>= (IsSound session) (from_io waker) _
              λ _. fresh-IsSound loader c.settings server client

module _ {S X Y : Type 0} (rustls : Rustls S X Y) where
  pub data Step (t : TlsTransport S X Y) : TlsTransport S X Y → Type 0 where
    call :
        {t' : TlsTransport S X Y} (r : SendRequest) (a : SocketAnswers)
        → process_request rustls t r a ≡ returned tt t'
        → Step t t'
    fetch :
        {t' : TlsTransport S X Y} (rounds : List Round) (events : List TransportEvent)
        → fetch_events rustls t rounds ≡ fetched (returned events t')
        → Step t t'
    fetch_error :
        {t' : TlsTransport S X Y} (rounds : List Round) (e : Error)
        → fetch_events rustls t rounds ≡ fetched (raised e t')
        → Step t t'

  pub data Reachable {F C K R : Type 0} (loader : Loader F C K R X Y) (c : TlsSettings)
      : TlsTransport S X Y → Type 0 where
    created :
        (poll waker : Result ErrorKind (Unit {0})) {t : TlsTransport S X Y}
        → new_named loader c poll waker ≡ ok t
        → Reachable loader c t
    stepped : {t t' : TlsTransport S X Y} → Reachable loader c t → Step t t' → Reachable loader c t'

  module _ (waits : WaitsForClient rustls) where
    Step-IsSound :
        {t t' : TlsTransport S X Y}
        → Step t t'
        → IsSound rustls.session t
        → IsSound rustls.session t'
    Step-IsSound {t} (call r a e) h =
        subst (Leaves (IsSound rustls.session)) e (process_request-IsSound rustls waits t r a h)
    Step-IsSound {t} (fetch rounds events e) h =
        subst (FetchLeaves (IsSound rustls.session)) e
          (fetch_events-IsSound rustls waits t rounds h)
    Step-IsSound {t} (fetch_error rounds error e) h =
        subst (FetchLeaves (IsSound rustls.session)) e
          (fetch_events-IsSound rustls waits t rounds h)

    -- Every state that a TLS transport reaches is sound, if the session of a server waits for the
    -- first message of the client. That is: its view as a TCP transport is consistent, in which the
    -- sessions are forgotten, a connection is established from its TCP connection on, and the
    -- send_buf of a connection whose handshake is not complete counts as empty, so that nothing is
    -- said of the interest that such data needs; every connection whose session wants to write
    -- listens for room to write; and there is a listener only if there is a server configuration.
    pub Reachable-IsSound :
        {F C K R : Type 0} {loader : Loader F C K R X Y} {c : TlsSettings} {t : TlsTransport S X Y}
        → Reachable loader c t
        → IsSound rustls.session t
    Reachable-IsSound {loader = loader} {c = c} (created poll waker e) =
        subst (Made (IsSound rustls.session)) e
          (new_named-IsSound rustls.session loader c poll waker)
    Reachable-IsSound (stepped r s) = Step-IsSound s (Reachable-IsSound r)
