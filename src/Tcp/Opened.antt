-- ===== src/Tcp/Opened.antt =====
-- connect and listen: which id they give, and what they change.
use rustcomm.Prelude.{
  ℕ, ◌+◌, ◌≤◌, ◌<◌, ◌≡◌, refl, false, some, List, [], ◌∷◌, arith, length, ◌==◌, if◌then◌else◌,
}
use rustcomm.Error.{ErrorKind, io, Result, ok, err}
use rustcomm.Table.{Table, lookup, insert, lookup-insert}
use rustcomm.Transport.Types.{SocketAddr}
use rustcomm.Transport.Exit.{returned, raised}
use rustcomm.Tcp.State.{TcpTransport, in_use, add_connection}
use rustcomm.Tcp.Manage.{connecting, connect, listen, add_listener}
use rustcomm.Tcp.Ids.Cycle.{id_count}
use rustcomm.Tcp.Ids.Free.{advance_connection_id-returns}
use rustcomm.Tcp.Invariant.Defs.{IsConsistent}

length-insert {ℓ} :
    {V : Type ℓ} (id : ℕ) (v : V) (m : Table V) → length (insert id v m) ≤ length m + 1
unfolding insert
length-insert id v [] = omega arith
length-insert id v ((other, w) ∷ m) = ground (arith, length-insert id v m)

-- The socket opens and takes TCP_NODELAY, or it does not open.
abbrev pub ConnectOpens :
    TcpTransport
    → SocketAddr
    → List SocketAddr
    → SocketAddr
    → ErrorKind
    → Result ErrorKind (Unit {0})
    → Type 0
ConnectOpens t addr others local_addr e nodelay =
    ((t' : TcpTransport) × (connect t (ok (addr ∷ others))
          (record { opened = ok tt; nodelay = ok tt; local_addr = local_addr })
        ≡ returned (t.next_id, addr) t')
      × (in_use t t.next_id ≡ false)
      × ((j : ℕ)
          → lookup j t'.connections ≡ (
              if t.next_id == j then some (connecting local_addr addr) else lookup j t.connections))
      × (t'.listeners ≡ t.listeners))
    × (connect t (ok (addr ∷ others))
          (record { opened = err e; nodelay = nodelay; local_addr = local_addr })
        ≡ raised (io e) t)

-- The socket opens, or it does not.
abbrev pub ListenOpens :
    TcpTransport
    → SocketAddr
    → List SocketAddr
    → SocketAddr
    → ErrorKind
    → Result ErrorKind (Unit {0})
    → Type 0
ListenOpens t addr others local_addr e nodelay =
    ((t' : TcpTransport) × (listen t (ok (addr ∷ others))
          (record { opened = ok tt; nodelay = nodelay; local_addr = local_addr })
        ≡ returned (t.next_id, local_addr) t')
      × (in_use t t.next_id ≡ false)
      × ((j : ℕ)
          → lookup j t'.listeners
            ≡ (if t.next_id == j then some local_addr else lookup j t.listeners))
      × (t'.connections ≡ t.connections))
    × (listen t (ok (addr ∷ others))
          (record { opened = err e; nodelay = nodelay; local_addr = local_addr })
        ≡ raised (io e) t)

connect-Opens :
    (t : TcpTransport) (addr : SocketAddr) (others : List SocketAddr) (local_addr : SocketAddr)
    (e : ErrorKind) (nodelay : Result ErrorKind (Unit {0}))
    → IsConsistent t
    → length t.listeners + length t.connections + 1 < id_count
    → ConnectOpens t addr others local_addr e nodelay
unfolding connect add_connection
connect-Opens t addr others local_addr e nodelay h room =
    let conn = connecting local_addr addr in
    let small = length-insert t.next_id conn t.connections in
    let (id, out, free, range) =
      advance_connection_id-returns (add_connection t t.next_id conn) (t.next_id, addr)
        h.next_in_range (omega arith) in
    ((_, out, h.next_is_free, λ j. lookup-insert t.next_id j conn t.connections, refl), refl)

listen-Opens :
    (t : TcpTransport) (addr : SocketAddr) (others : List SocketAddr) (local_addr : SocketAddr)
    (e : ErrorKind) (nodelay : Result ErrorKind (Unit {0}))
    → IsConsistent t
    → length t.listeners + length t.connections + 1 < id_count
    → ListenOpens t addr others local_addr e nodelay
unfolding listen add_listener
listen-Opens t addr others local_addr e nodelay h room =
    let small = length-insert t.next_id local_addr t.listeners in
    let (id, out, free, range) =
      advance_connection_id-returns (add_listener t t.next_id local_addr) (t.next_id, local_addr)
        h.next_in_range (omega arith) in
    ((_, out, h.next_is_free, λ j. lookup-insert t.next_id j local_addr t.listeners, refl), refl)

-- On a consistent transport with two ids free, connect to an address that resolves, when the socket
-- opens and takes TCP_NODELAY, returns the next id, which nothing has, and the first of the
-- resolved addresses; the connection in progress is stored under that id, and the other connections
-- and the listeners stay. Likewise listen, when the socket opens, returns the next id and the
-- address that the socket has got, and stores that; the connections and the other listeners stay.
-- When the socket does not open, its error is returned and nothing changes.
pub sockets_open :
    (t : TcpTransport) (addr : SocketAddr) (others : List SocketAddr) (local_addr : SocketAddr)
    (e : ErrorKind) (nodelay : Result ErrorKind (Unit {0}))
    → IsConsistent t
    → length t.listeners + length t.connections + 1 < id_count
    → ConnectOpens t addr others local_addr e nodelay
      × ListenOpens t addr others local_addr e nodelay
sockets_open t addr others local_addr e nodelay h room = (
  connect-Opens t addr others local_addr e nodelay h room,
  listen-Opens t addr others local_addr e nodelay h room,
)
