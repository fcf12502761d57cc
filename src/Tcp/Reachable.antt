-- ===== src/Tcp/Reachable.antt =====
-- The states of a TcpTransport: a step is a call of the owner or a fetch_events, which serves the
-- other threads; a call of the owner is the method that the request of another thread runs.
use rustcomm.Prelude.{◌≡◌, List, subst}
use rustcomm.Error.{ErrorKind, Error, Result, ok}
use rustcomm.Transport.Types.{SendRequest, SocketAnswers, TransportEvent}
use rustcomm.Transport.Exit.{fetched, returned, raised, Leaves, FetchLeaves, Made}
use rustcomm.Tcp.State.{TcpTransport, Settings, new_named}
use rustcomm.Tcp.Requests.{process_request}
use rustcomm.Tcp.Events.{Round, fetch_events}
use rustcomm.Tcp.Invariant.Defs.{IsConsistent}
use rustcomm.Tcp.Invariant.Run.{
  process_request-IsConsistent, fetch_events-IsConsistent, new_named-IsConsistent,
}

pub data Step (t : TcpTransport) : TcpTransport → Type 0 where
  call :
      {t' : TcpTransport} (r : SendRequest) (a : SocketAnswers)
      → process_request t r a ≡ returned tt t'
      → Step t t'
  fetch :
      {t' : TcpTransport} (rounds : List Round) (events : List TransportEvent)
      → fetch_events t rounds ≡ fetched (returned events t')
      → Step t t'
  fetch_error :
      {t' : TcpTransport} (rounds : List Round) (e : Error)
      → fetch_events t rounds ≡ fetched (raised e t')
      → Step t t'

pub data Reachable (c : Settings) : TcpTransport → Type 0 where
  created :
      (poll waker : Result ErrorKind (Unit {0})) {t : TcpTransport}
      → new_named c poll waker ≡ ok t
      → Reachable c t
  stepped : {t t' : TcpTransport} → Reachable c t → Step t t' → Reachable c t'

pub Step-IsConsistent : {t t' : TcpTransport} → Step t t' → IsConsistent t → IsConsistent t'
Step-IsConsistent {t} (call r a e) h =
    subst (Leaves IsConsistent) e (process_request-IsConsistent t r a h)
Step-IsConsistent {t} (fetch rounds events e) h =
    subst (FetchLeaves IsConsistent) e (fetch_events-IsConsistent t rounds h)
Step-IsConsistent {t} (fetch_error rounds error e) h =
    subst (FetchLeaves IsConsistent) e (fetch_events-IsConsistent t rounds h)

-- Every state that a TCP transport reaches is consistent: its sockets are registered with exactly
-- the interests that its tables have for them, no id is used twice or lies below the range, every
-- connection listens for what it waits for, the next id is free, and mio has never been asked for
-- something that it refuses.
pub Reachable-IsConsistent : {c : Settings} {t : TcpTransport} → Reachable c t → IsConsistent t
Reachable-IsConsistent {c} (created poll waker e) =
    subst (Made IsConsistent) e (new_named-IsConsistent c poll waker)
Reachable-IsConsistent (stepped r s) = Step-IsConsistent s (Reachable-IsConsistent r)
