-- ===== src/Tls/State.antt =====
-- transport/tls.rs: the state of a TlsTransport, its constructor and its internal helpers, as in
-- Tcp/State. `wrote id bytes` in `calls` says that the session of the connection took these bytes.
use rustcomm.Prelude.{
  ℕ, zero, suc, ◌+◌, Bool, true, false, ◌||◌, Option, none, some, List, [], ◌∷◌, ◌++◌, length, leb,
  if◌then◌else◌,
}
use rustcomm.Error.{ErrorKind, Error, Result, ok, err, ◌>>=◌, from_io}
use rustcomm.Table.{Table, lookup, insert, remove, contains_key}
use rustcomm.Transport.Types.{SocketAddr, Interest, readable, writable, read_write, Response}
use rustcomm.Transport.Exit.{Exit, returned, panicked, endless_id_search, too_many_spurious_wakeups}
use rustcomm.Tcp.State.{
  Call, register, deregister, connection_id_range_start, first_of_keys, Settings, next,
  reregister_if_changed,
}
use rustcomm.Tls.Config.{Loader, load_tls_server_config, load_tls_client_config}

pub data ConnectionStatus : Type 0 where
  not_connected tcp_connected tls_connected : ConnectionStatus

abbrev pub is_not_connected : ConnectionStatus → Bool
is_not_connected not_connected = true
is_not_connected _ = false

abbrev pub is_tcp_connected : ConnectionStatus → Bool
is_tcp_connected tcp_connected = true
is_tcp_connected _ = false

abbrev pub is_tls_connected : ConnectionStatus → Bool
is_tls_connected tls_connected = true
is_tls_connected _ = false

pub record Connection (S : Type 0) : Type 0 where
  pub tls_conn : S
  pub connected : ConnectionStatus
  pub interest : Interest
  pub local_addr : SocketAddr
  pub peer_addr : SocketAddr
  pub send_buf : List ℕ

pub record TlsTransport (S X Y : Type 0) : Type 0 where
  pub connections : Table (Connection S)
  pub listeners : Table SocketAddr
  pub next_id : ℕ
  pub spurious_wakeups : ℕ
  pub max_read_size : ℕ
  pub max_spurious_wakeups : ℕ
  pub poll_capacity : ℕ
  pub tls_server_config : Option X
  pub tls_client_config : Option Y
  pub calls : List Call
  pub responses : List Response

-- interest |= Interest::WRITABLE
abbrev pub or_writable : Interest → Interest
or_writable readable = read_write
or_writable writable = writable
or_writable read_write = read_write

-- get_string: `none` is a missing or unreadable key.
abbrev pub get_string : Bool → Option (List ℕ) → Option (List ℕ) → Option (List ℕ)
get_string true named plain = plain
get_string false (some s) plain = some s
get_string false none plain = plain

-- What the configuration has for the keys of the files, under the name and without it.
pub record TlsSettings : Type 0 where
  pub settings : Settings
  pub named_tls_server_cert : Option (List ℕ)
  pub tls_server_cert : Option (List ℕ)
  pub named_tls_server_key : Option (List ℕ)
  pub tls_server_key : Option (List ℕ)
  pub named_tls_ca_cert : Option (List ℕ)
  pub tls_ca_cert : Option (List ℕ)

abbrev pub cert_path : TlsSettings → Option (List ℕ)
cert_path c = get_string c.settings.name_is_empty c.named_tls_server_cert c.tls_server_cert

abbrev pub key_path : TlsSettings → Option (List ℕ)
key_path c = get_string c.settings.name_is_empty c.named_tls_server_key c.tls_server_key

abbrev pub ca_cert_path : TlsSettings → Option (List ℕ)
ca_cert_path c = get_string c.settings.name_is_empty c.named_tls_ca_cert c.tls_ca_cert

module _ {F C K R X Y : Type 0} (loader : Loader F C K R X Y) where
  abbrev pub loaded : {A : Type 0} → Result Error A → Result Error (Option A)
  loaded (ok a) = ok (some a)
  loaded (err e) = err e

  unfoldable pub server_config : Option (List ℕ) → Option (List ℕ) → Result Error (Option X)
  unfolding load_tls_server_config
  server_config (some cert) (some key) = loaded (load_tls_server_config loader cert key)
  server_config (some cert) none = ok none
  server_config none key = ok none

  unfoldable pub client_config : Option (List ℕ) → Result Error (Option Y)
  unfolding load_tls_client_config
  client_config (some ca_cert) = loaded (load_tls_client_config loader ca_cert)
  client_config none = ok none

  abbrev pub fresh : {S : Type 0} → Settings → Option X → Option Y → TlsTransport S X Y
  fresh c server client = record {
    connections = [];
    listeners = [];
    next_id = connection_id_range_start;
    spurious_wakeups = 0;
    max_read_size = first_of_keys c.name_is_empty c.named_max_read_size c.max_read_size 1048576;
    max_spurious_wakeups = 10;
    poll_capacity = first_of_keys c.name_is_empty c.named_poll_capacity c.poll_capacity 256;
    tls_server_config = server;
    tls_client_config = client;
    calls = [];
    responses = [];
  }

  -- With the answers of Poll::new and of Waker::new.
  unfoldable pub new_named :
      {S : Type 0}
      → TlsSettings
      → Result ErrorKind (Unit {0})
      → Result ErrorKind (Unit {0})
      → Result Error (TlsTransport S X Y)
  unfolding server_config client_config
  new_named c poll waker = server_config (cert_path c) (key_path c) >>= λ server.
      client_config (ca_cert_path c) >>= λ client.
      from_io poll >>= λ _. from_io waker >>= λ _. ok (fresh c.settings server client)

module _ {S X Y : Type 0} where
  -- Is the id a listener's or a connection's?
  unfoldable pub in_use : TlsTransport S X Y → ℕ → Bool
  unfolding contains_key
  in_use t id = contains_key id t.listeners || contains_key id t.connections

  -- The loop of advance_connection_id, on fuel.
  unfoldable pub advance : ℕ → TlsTransport S X Y → ℕ → Option ℕ
  unfolding next
  advance zero t id = none
  advance (suc fuel) t id =
      let rest = advance fuel t (next id) in if in_use t (next id) then rest else some (next id)

  unfoldable pub advance_end :
      {A : Type 0} → TlsTransport S X Y → A → Option ℕ → Exit (TlsTransport S X Y) A
  advance_end t a none = panicked endless_id_search
  advance_end t a (some id) = returned a (record t { next_id = id })

  -- One more round than there are ids in use.
  unfoldable pub advance_connection_id :
      {A : Type 0} → TlsTransport S X Y → A → Exit (TlsTransport S X Y) A
  unfolding advance advance_end
  advance_connection_id t a =
      advance_end t a (advance (suc (length t.listeners + length t.connections)) t t.next_id)

  unfoldable pub track_spurious_wakeup :
      {A : Type 0} → TlsTransport S X Y → Bool → A → Exit (TlsTransport S X Y) A
  track_spurious_wakeup t true a =
      if leb (t.spurious_wakeups + 1) t.max_spurious_wakeups
      then returned a (record t { spurious_wakeups = t.spurious_wakeups + 1 })
      else panicked too_many_spurious_wakeups
  track_spurious_wakeup t false a = returned a (record t { spurious_wakeups = 0 })

  -- Register a socket and store its connection.
  unfoldable pub add_connection : TlsTransport S X Y → ℕ → Connection S → TlsTransport S X Y
  add_connection t id conn = record t {
    connections = insert id conn t.connections;
    calls = register id conn.interest ∷ t.calls;
  }

  -- Deregister a connection's socket and forget the connection.
  unfoldable pub drop_connection : TlsTransport S X Y → ℕ → TlsTransport S X Y
  drop_connection t id = record t {
    connections = remove id t.connections;
    calls = deregister id ∷ t.calls;
  }

  -- A connection is put back, and its socket reregistered if the interest has changed.
  unfoldable pub put_connection :
      TlsTransport S X Y → ℕ → Connection S → Connection S → TlsTransport S X Y
  unfolding reregister_if_changed
  put_connection t id old conn = record t {
    connections = insert id conn t.connections;
    calls = reregister_if_changed id old.interest conn.interest t.calls;
  }

  unfoldable pub queue_found :
      TlsTransport S X Y → ℕ → List ℕ → Option (Connection S) → TlsTransport S X Y
  unfolding put_connection
  queue_found t id buf none = t
  queue_found t id buf (some conn) = put_connection t id conn (record conn {
    send_buf = elim conn.send_buf [ [] ↦ buf | x ∷ xs ↦ conn.send_buf ++ buf ];
    interest = or_writable conn.interest;
  })

  unfoldable pub queue_data : TlsTransport S X Y → ℕ → List ℕ → TlsTransport S X Y
  unfolding queue_found
  queue_data t id buf = queue_found t id buf (lookup id t.connections)
