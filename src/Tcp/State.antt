-- ===== src/Tcp/State.antt =====
-- transport/tcp.rs: the state of a TcpTransport, its constructor and its internal helpers.
-- What the transport asks of the operating system is kept in `calls`, the newest first; a socket is
-- named by the id under which it is registered. The `expect` of such a call is taken to succeed.
use rustcomm.Prelude.{
  ℕ, zero, suc, ◌+◌, ◌-◌, ◌^◌, Bool, true, false, ◌||◌, Option, none, some, List, [], ◌∷◌, ◌++◌,
  length, ◌==◌, leb, if◌then◌else◌,
}
use rustcomm.Table.{Table, lookup, insert, remove, contains_key}
use rustcomm.Transport.Types.{SocketAddr, Shutdown, Interest, read_write, interest_eq, Response}
use rustcomm.Error.{ErrorKind, Error, Result, ok, ◌>>=◌, from_io}
use rustcomm.Transport.Exit.{Exit, returned, panicked, endless_id_search, too_many_spurious_wakeups}

abbrev pub wake_id : ℕ
wake_id = 2

abbrev pub connection_id_range_start : ℕ
connection_id_range_start = 1000

-- usize::MAX on a 64-bit target
abbrev pub usize_max : ℕ
usize_max = 2 ^ 64 - 1

pub record Connection : Type 0 where
  pub connected : Bool
  pub interest : Interest
  pub local_addr : SocketAddr
  pub peer_addr : SocketAddr
  pub send_buf : List ℕ

pub data Call : Type 0 where
  register reregister : ℕ → Interest → Call
  deregister : ℕ → Call
  shutdown : ℕ → Shutdown → Call
  -- the bytes that the socket took
  wrote : ℕ → List ℕ → Call

-- A listener is known by its local address.
pub record TcpTransport : Type 0 where
  pub connections : Table Connection
  pub listeners : Table SocketAddr
  pub next_id : ℕ
  pub spurious_wakeups : ℕ
  pub max_read_size : ℕ
  pub max_spurious_wakeups : ℕ
  pub poll_capacity : ℕ
  pub calls : List Call
  pub responses : List Response

-- config.get(..), under the name first: `none` is a missing or unreadable key.
abbrev pub first_of_keys : Bool → Option ℕ → Option ℕ → ℕ → ℕ
first_of_keys true named plain default = elim plain [ none ↦ default | some n ↦ n ]
first_of_keys false (some n) plain default = n
first_of_keys false none plain default = elim plain [ none ↦ default | some n ↦ n ]

-- What the configuration has for the two keys, under the name and without it.
pub record Settings : Type 0 where
  pub name_is_empty : Bool
  pub named_max_read_size : Option ℕ
  pub max_read_size : Option ℕ
  pub named_poll_capacity : Option ℕ
  pub poll_capacity : Option ℕ

abbrev pub fresh : Settings → TcpTransport
fresh c = record {
  connections = [];
  listeners = [];
  next_id = connection_id_range_start;
  spurious_wakeups = 0;
  max_read_size = first_of_keys c.name_is_empty c.named_max_read_size c.max_read_size 1048576;
  max_spurious_wakeups = 10;
  poll_capacity = first_of_keys c.name_is_empty c.named_poll_capacity c.poll_capacity 256;
  calls = [];
  responses = [];
}

-- With the answers of Poll::new and of Waker::new.
unfoldable pub new_named :
    Settings → Result ErrorKind (Unit {0}) → Result ErrorKind (Unit {0}) → Result Error TcpTransport
new_named c poll waker = from_io poll >>= λ _. from_io waker >>= λ _. ok (fresh c)

-- Is the id a listener's or a connection's?
unfoldable pub in_use : TcpTransport → ℕ → Bool
unfolding contains_key
in_use t id = contains_key id t.listeners || contains_key id t.connections

-- next_id.checked_add(1).unwrap_or(CONNECTION_ID_RANGE_START)
unfoldable pub next : ℕ → ℕ
next id = if id == usize_max then connection_id_range_start else id + 1

-- The loop of advance_connection_id, on fuel.
unfoldable pub advance : ℕ → TcpTransport → ℕ → Option ℕ
unfolding next
advance zero t id = none
advance (suc fuel) t id =
    let rest = advance fuel t (next id) in if in_use t (next id) then rest else some (next id)

unfoldable pub advance_end : {A : Type 0} → TcpTransport → A → Option ℕ → Exit TcpTransport A
advance_end t a none = panicked endless_id_search
advance_end t a (some id) = returned a (record t { next_id = id })

-- One more round than there are ids in use: one of the candidates is free. The value is what the
-- caller returns next.
unfoldable pub advance_connection_id : {A : Type 0} → TcpTransport → A → Exit TcpTransport A
unfolding advance advance_end
advance_connection_id t a =
    advance_end t a (advance (suc (length t.listeners + length t.connections)) t t.next_id)

unfoldable pub track_spurious_wakeup : {A : Type 0} → TcpTransport → Bool → A → Exit TcpTransport A
track_spurious_wakeup t true a =
    if leb (t.spurious_wakeups + 1) t.max_spurious_wakeups
    then returned a (record t { spurious_wakeups = t.spurious_wakeups + 1 })
    else panicked too_many_spurious_wakeups
track_spurious_wakeup t false a = returned a (record t { spurious_wakeups = 0 })

-- Register a socket and store its connection.
unfoldable pub add_connection : TcpTransport → ℕ → Connection → TcpTransport
add_connection t id conn = record t {
  connections = insert id conn t.connections;
  calls = register id conn.interest ∷ t.calls;
}

-- Deregister a connection's socket and forget the connection.
unfoldable pub drop_connection : TcpTransport → ℕ → TcpTransport
drop_connection t id = record t {
  connections = remove id t.connections;
  calls = deregister id ∷ t.calls;
}

-- if old_interest != conn.interest { reregister(..) }
unfoldable pub reregister_if_changed : ℕ → Interest → Interest → List Call → List Call
reregister_if_changed id old new calls =
    if interest_eq old new then calls else reregister id new ∷ calls

unfoldable pub queue_found : TcpTransport → ℕ → List ℕ → Option Connection → TcpTransport
unfolding reregister_if_changed
queue_found t id buf none = t
queue_found t id buf (some conn) = record t {
  connections =
      insert id
        (record conn {
          send_buf = elim conn.send_buf [ [] ↦ buf | x ∷ xs ↦ conn.send_buf ++ buf ];
          interest = read_write;
        })
        t.connections;
  calls = reregister_if_changed id conn.interest read_write t.calls;
}

unfoldable pub queue_data : TcpTransport → ℕ → List ℕ → TcpTransport
unfolding queue_found
queue_data t id buf = queue_found t id buf (lookup id t.connections)
