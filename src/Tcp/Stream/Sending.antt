-- ===== src/Tcp/Stream/Sending.antt =====
-- The data operations append to the streams of the connections that they are for.
use rustcomm.Prelude.{
  ℕ, ◌≡◌, refl, sym, ap, ◌∙◌, inl, inr, Bool, true, false, not, ◌&&◌, ◌||◌, Option, none, some,
  List, [], ◌∷◌, ◌++◌, arith, append-nil, append_assoc, ◌==◌, if◌then◌else◌, Option-cases, contains,
  Distinct,
}
use rustcomm.Table.{lookup, keys, is_some, lookup-insert}
use rustcomm.Table.Keys.{contains-keys}
use rustcomm.Transport.Types.{Interest, read_write}
use rustcomm.Tcp.State.{Connection, TcpTransport, Call, reregister_if_changed, queue_data}
use rustcomm.Tcp.Send.{
  send_to, split_last, queue_each, queue_split, queue_to, send_to_many, broadcast, broadcast_except,
  broadcast_except_many, keep_if,
}
use rustcomm.Tcp.Stream.{sent, stream}
use rustcomm.Tcp.Invariant.Defs.{IsConsistent}

-- What queue_data makes of a connection.
abbrev pub queued : List ℕ → Connection → Connection
queued buf conn = record conn { send_buf = conn.send_buf ++ buf; interest = read_write }

abbrev pub queued_if : Bool → List ℕ → Option Connection → Option Connection
queued_if b buf none = none
queued_if b buf (some conn) = some (if b then queued buf conn else conn)

pub sent-reregister_if_changed :
    (id j : ℕ) (old new : Interest) (calls : List Call)
    → sent (reregister_if_changed id old new calls) j ≡ sent calls j
unfolding sent reregister_if_changed
sent-reregister_if_changed id j old new calls = ground arith

pub queued_buf :
    (buf xs : List ℕ) → (elim xs as (λ _. List ℕ) [ [] ↦ buf | x ∷ ys ↦ xs ++ buf ]) ≡ xs ++ buf
queued_buf buf [] = refl
queued_buf buf (x ∷ xs) = refl

queued_if-absent :
    (b : Bool) (buf : List ℕ) (o : Option Connection)
    → (b ≡ true → o ≡ none)
    → queued_if b buf o ≡ o
queued_if-absent b buf none h = refl
queued_if-absent true buf (some c) h = cc (h refl)
queued_if-absent false buf (some c) h = refl

pub lookup-queue_data :
    (t : TcpTransport) (id j : ℕ) (buf : List ℕ)
    → lookup j (queue_data t id buf).connections ≡ queued_if (id == j) buf (lookup j t.connections)
unfolding queue_data
lookup-queue_data t id j buf = elim (Option-cases (lookup id t.connections)) [
  | inl e ↦ rw e (
      sym (
        queued_if-absent (id == j) buf (lookup j t.connections)
          λ same. let ij : id ≡ j = ground arith in rw ij at e))
  | inr (conn, e) ↦ rw (e, queued_buf buf conn.send_buf, lookup-insert) (ground (arith, e))
]

sent-queue_data :
    (t : TcpTransport) (id j : ℕ) (buf : List ℕ)
    → sent (queue_data t id buf).calls j ≡ sent t.calls j
unfolding queue_data
sent-queue_data t id j buf = elim (Option-cases (lookup id t.connections)) [
  | inl e ↦ rw e
  | inr (conn, e) ↦ rw e (sent-reregister_if_changed id j conn.interest read_write t.calls)
]

queue_data-stream :
    (t : TcpTransport) (id j : ℕ) (buf : List ℕ)
    → stream (queue_data t id buf) j
      ≡ (if id == j && is_some (lookup j t.connections) then stream t j ++ buf else stream t j)
queue_data-stream t id j buf =
    rw (lookup-queue_data t id j buf, sent-queue_data t id j buf)
      (elim (Option-cases (lookup j t.connections)) [
        | inl e ↦ rw e (ground arith)
        | inr (conn, e) ↦ rw e (ground (arith, append_assoc (sent t.calls j) conn.send_buf buf))
      ])

-- send_to appends the bytes to the stream of the connection with this id, if there is one, and
-- leaves every other stream as it is.
pub send_to-stream :
    (t : TcpTransport) (id j : ℕ) (buf : List ℕ)
    → stream (send_to t id buf) j
      ≡ (if id == j && is_some (lookup j t.connections) then stream t j ++ buf else stream t j)
unfolding send_to
send_to-stream t id j buf = queue_data-stream t id j buf

-- What the loop over the ids makes of the connection of `j`.
abbrev queued_each : List ℕ → ℕ → List ℕ → Option Connection → Option Connection
queued_each [] j buf o = o
queued_each (id ∷ ids) j buf o = queued_each ids j buf (queued_if (id == j) buf o)

lookup-queue_each :
    (t : TcpTransport) (ids : List ℕ) (j : ℕ) (buf : List ℕ)
    → lookup j (queue_each t ids buf).connections ≡ queued_each ids j buf (lookup j t.connections)
unfolding queue_each
lookup-queue_each t [] j buf = refl
lookup-queue_each t (id ∷ ids) j buf =
    lookup-queue_each (queue_data t id buf) ids j buf
    ∙ ap (queued_each ids j buf) (lookup-queue_data t id j buf)

queue_split-cons :
    (t : TcpTransport) (x : ℕ) (buf : List ℕ) (o : Option (List ℕ × ℕ))
    → queue_split t buf (elim o as (λ _. Option (List ℕ × ℕ)) [
      | none ↦ some ([], x)
      | some (rest, last) ↦ some (x ∷ rest, last)
    ])
      ≡ queue_split (queue_data t x buf) buf o
unfolding queue_split queue_each
queue_split-cons t x buf none = refl
queue_split-cons t x buf (some (rest, last)) = refl

-- The copy saved for the last id makes no difference: each id in turn gets the bytes.
pub queue_to-queue_each :
    (t : TcpTransport) (ids buf : List ℕ) → queue_to t ids buf ≡ queue_each t ids buf
unfolding queue_to queue_each split_last
queue_to-queue_each t [] buf = refl
queue_to-queue_each t (x ∷ xs) buf =
    queue_split-cons t x buf (split_last xs) ∙ queue_to-queue_each (queue_data t x buf) xs buf

queued_if_or :
    (a b : Bool) (buf : List ℕ) (o : Option Connection)
    → (a ≡ true → b ≡ false)
    → queued_if b buf (queued_if a buf o) ≡ queued_if (a || b) buf o
queued_if_or a b buf none h = refl
queued_if_or true true buf (some c) h = cc (h refl)
queued_if_or true false buf (some c) h = refl
queued_if_or false b buf (some c) h = refl

-- No id twice: the connection of `j` gets the bytes once, or not at all.
queued_each-Distinct :
    (ids : List ℕ) (j : ℕ) (buf : List ℕ) (o : Option Connection)
    → Distinct ids
    → queued_each ids j buf o ≡ queued_if (contains ids j) buf o
unfolding contains
queued_each-Distinct [] j buf none d = refl
queued_each-Distinct [] j buf (some c) d = refl
queued_each-Distinct (id ∷ ids) j buf o d =
    queued_each-Distinct ids j buf (queued_if (id == j) buf o) d.1
    ∙ queued_if_or (id == j) (contains ids j) buf o
        λ same. let ij : id ≡ j = ground arith in rw ij at d.0

lookup-queue_to :
    (t : TcpTransport) (ids : List ℕ) (j : ℕ) (buf : List ℕ)
    → Distinct ids
    → lookup j (queue_to t ids buf).connections
      ≡ queued_if (contains ids j) buf (lookup j t.connections)
lookup-queue_to t ids j buf d =
    rw (queue_to-queue_each t ids buf)
      (lookup-queue_each t ids j buf ∙ queued_each-Distinct ids j buf (lookup j t.connections) d)

pub contains-keep_if :
    (test : ℕ → Bool) (ids : List ℕ) (j : ℕ)
    → contains (keep_if test ids) j ≡ (test j && contains ids j)
unfolding contains keep_if
contains-keep_if test [] j = ground arith
contains-keep_if test (id ∷ ids) j = ground (arith, contains-keep_if test ids j)

pub keep_if-Distinct : (test : ℕ → Bool) (ids : List ℕ) → Distinct ids → Distinct (keep_if test ids)
unfolding keep_if
keep_if-Distinct test [] d = tt
keep_if-Distinct test (id ∷ ids) d =
    ground (arith, keep_if-Distinct test ids d.1, contains-keep_if test ids id)

queued_if-present :
    (b : Bool) (buf : List ℕ) (o : Option Connection)
    → queued_if (b && is_some o) buf o ≡ queued_if b buf o
queued_if-present b buf none = refl
queued_if-present b buf (some c) = ground arith

lookup-queue_kept :
    (t : TcpTransport) (test : ℕ → Bool) (j : ℕ) (buf : List ℕ)
    → IsConsistent t
    → lookup j (queue_to t (keep_if test (keys t.connections)) buf).connections
      ≡ queued_if (test j) buf (lookup j t.connections)
lookup-queue_kept t test j buf h =
    lookup-queue_to t (keep_if test (keys t.connections)) j buf
      (keep_if-Distinct test (keys t.connections) h.one_connection)
    ∙ rw (contains-keep_if, contains-keys) (queued_if-present (test j) buf (lookup j t.connections))

-- On a consistent transport the three broadcasts append the bytes once to the buffer of every
-- connection but the excepted ones, ask for READABLE and WRITABLE there, and change nothing else of
-- the connections.
pub broadcast-reaches :
    (t : TcpTransport) (buf : List ℕ) (except_id : ℕ) (except_ids : List ℕ) (j : ℕ)
    → IsConsistent t
    → (lookup j (broadcast t buf).connections ≡ queued_if true buf (lookup j t.connections))
      × (lookup j (broadcast_except t buf except_id).connections
          ≡ queued_if (not (j == except_id)) buf (lookup j t.connections))
      × (lookup j (broadcast_except_many t buf except_ids).connections
          ≡ queued_if (not (contains except_ids j)) buf (lookup j t.connections))
unfolding broadcast broadcast_except broadcast_except_many
broadcast-reaches t buf except_id except_ids j h = (
  lookup-queue_to t (keys t.connections) j buf h.one_connection
      ∙ rw contains-keys (queued_if-present true buf (lookup j t.connections)),
  lookup-queue_kept t (λ id. not (id == except_id)) j buf h,
  lookup-queue_kept t (λ id. not (contains except_ids id)) j buf h,
)

-- How often an id comes, and so many copies of the bytes.
abbrev pub copies : List ℕ → ℕ → List ℕ → List ℕ
copies [] j buf = []
copies (id ∷ ids) j buf = if id == j then buf ++ copies ids j buf else copies ids j buf

queue_each-stream :
    (t : TcpTransport) (ids : List ℕ) (j : ℕ) (buf : List ℕ)
    → is_some (lookup j t.connections) ≡ true
    → stream (queue_each t ids buf) j ≡ stream t j ++ copies ids j buf
unfolding queue_each
queue_each-stream t [] j buf e = sym (append-nil (stream t j))
queue_each-stream t (id ∷ ids) j buf e =
    let u = queue_data t id buf in
    let known : is_some (lookup j u.connections) ≡ true =
      rw (lookup-queue_data t id j buf) (ground arith) in
    queue_each-stream u ids j buf known
    ∙ rw (queue_data-stream t id j buf, e)
        (ground (arith, append_assoc (stream t j) buf (copies ids j buf)))

-- For a connection of the transport, send_to_many appends the bytes to its stream as often as its
-- id comes in the argument.
pub send_to_many-stream :
    (t : TcpTransport) (ids : List ℕ) (j : ℕ) (buf : List ℕ)
    → is_some (lookup j t.connections) ≡ true
    → stream (send_to_many t ids buf) j ≡ stream t j ++ copies ids j buf
unfolding send_to_many
send_to_many-stream t ids j buf e =
    rw (queue_to-queue_each t ids buf) (queue_each-stream t ids j buf e)
