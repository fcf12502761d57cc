-- ===== src/Tcp/Invariant/Defs.antt =====
-- The invariant, fact by fact at each id.
use rustcomm.Prelude.{
  Distinct, ℕ, ◌<◌, ◌≡◌, Bool, true, false, ◌&&◌, ◌||◌, Option, none, some, is_nil, if◌then◌else◌,
}
use rustcomm.Table.{keys, lookup}
use rustcomm.Transport.Types.{SocketAddr, Interest, readable, wants_read, wants_write}
use rustcomm.Tcp.State.{Connection, TcpTransport, in_use, connection_id_range_start}
use rustcomm.Tcp.Ids.Cycle.{InRange}
use rustcomm.Tcp.Registered.{registered, AreAccepted}

-- An established connection listens for data, one in progress for its establishment, and one with
-- data to send for room to write.
abbrev pub is_served : Connection → Bool
is_served c =
    (if c.connected then wants_read c.interest else wants_write c.interest)
    && (is_nil c.send_buf || wants_write c.interest)

abbrev pub all_served : Option Connection → Bool
all_served none = true
all_served (some c) = is_served c

-- The interest with which the socket of an id should be registered.
abbrev pub expected : Option Connection → Option SocketAddr → Option Interest
expected (some c) a = some c.interest
expected none (some a) = some readable
expected none none = none

abbrev pub apart : Option Connection → Option SocketAddr → Bool
apart (some c) (some a) = false
apart _ _ = true

-- The sockets of a transport, its tables and its calls agree.
pub record IsInStep (t : TcpTransport) : Type 0 where
  -- Every socket that the transport has is registered, with the interest that it has for it, and
  -- nothing else is.
  pub in_step :
      (id : ℕ) → registered t.calls id ≡ expected (lookup id t.connections) (lookup id t.listeners)
  -- No id is a connection's and a listener's.
  pub disjoint : (id : ℕ) → apart (lookup id t.connections) (lookup id t.listeners) ≡ true
  -- No id is below the range, so none is that of the waker.
  pub in_range : (id : ℕ) → id < connection_id_range_start → in_use t id ≡ false
  pub served : (id : ℕ) → all_served (lookup id t.connections) ≡ true
  -- No table has a key twice.
  pub one_connection : Distinct (keys t.connections)
  pub one_listener : Distinct (keys t.listeners)
  -- Every call was one that mio accepts.
  pub accepted : AreAccepted t.calls

-- And the id for the next socket is in the range of ids, and free.
pub record IsConsistent (t : TcpTransport) : Type 0 where
  pub sockets : IsInStep t
  pub open sockets use *
  pub next_in_range : InRange t.next_id
  pub next_is_free : in_use t t.next_id ≡ false
