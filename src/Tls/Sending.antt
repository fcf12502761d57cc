-- ===== src/Tls/Sending.antt =====
-- transport/tls.rs: the data operations queue the bytes on the connections that they are for.
use rustcomm.Prelude.{
  ℕ, ◌≡◌, ◌∙◌, refl, sym, ap, inl, inr, Bool, true, false, not, ◌&&◌, ◌||◌, Option, none, some,
  List, [], ◌∷◌, ◌++◌, arith, ◌==◌, ==_refl, append_assoc, contains, Distinct, Option-cases,
}
use rustcomm.Table.{lookup, keys, is_some, lookup-insert}
use rustcomm.Table.Keys.{contains-keys}
use rustcomm.Table.Values.{keys-map_values}
use rustcomm.Tcp.Send.{split_last, keep_if}
use rustcomm.Tcp.Stream.Sending.{
  contains-keep_if, keep_if-Distinct, queued_buf, sent-reregister_if_changed,
}
use rustcomm.Tcp.Stream.{sent}
use rustcomm.Tls.Stream.{stream}
use rustcomm.Tls.Session.{Session}
use rustcomm.Tls.State.{Connection, TlsTransport, or_writable, put_connection, queue_data}
use rustcomm.Tls.Send.{
  queue_each, queue_split, queue_to, send_to, broadcast, broadcast_except, broadcast_except_many,
}
use rustcomm.Tls.Invariant.Defs.{IsSound}

-- The bytes wait at the end of send_buf, and the connection listens for room to write.
abbrev pub queued : {S : Type 0} → List ℕ → Connection S → Connection S
queued buf conn = record conn {
  send_buf = conn.send_buf ++ buf;
  interest = or_writable conn.interest;
}

abbrev pub queued_if : {S : Type 0} → Bool → List ℕ → Option (Connection S) → Option (Connection S)
queued_if b buf none = none
queued_if true buf (some conn) = some (queued buf conn)
queued_if false buf (some conn) = some conn

module _ {S : Type 0} where
  queued_if-absent :
      (b : Bool) (buf : List ℕ) (o : Option (Connection S))
      → (b ≡ true → o ≡ none)
      → queued_if b buf o ≡ o
  queued_if-absent b buf none h = refl
  queued_if-absent true buf (some c) h = cc (h refl)
  queued_if-absent false buf (some c) h = refl

  queued_if-once :
      (a b : Bool) (buf : List ℕ) (o : Option (Connection S))
      → (a ≡ true → b ≡ false)
      → queued_if b buf (queued_if a buf o) ≡ queued_if (a || b) buf o
  queued_if-once a b buf none h = refl
  queued_if-once true true buf (some c) h = cc (h refl)
  queued_if-once true false buf (some c) h = refl
  queued_if-once false b buf (some c) h = refl

  queued_if-present :
      (b : Bool) (buf : List ℕ) (o : Option (Connection S))
      → queued_if (b && is_some o) buf o ≡ queued_if b buf o
  queued_if-present b buf none = refl
  queued_if-present true buf (some c) = refl
  queued_if-present false buf (some c) = refl

module _ {S X Y : Type 0} where
  pub lookup-queue_data :
      (t : TlsTransport S X Y) (id j : ℕ) (buf : List ℕ)
      → lookup j (queue_data t id buf).connections
        ≡ queued_if (id == j) buf (lookup j t.connections)
  unfolding queue_data put_connection
  lookup-queue_data t id j buf = elim (Option-cases (lookup id t.connections)) [
    | inl e ↦ simp e (
        sym (
          queued_if-absent (id == j) buf (lookup j t.connections)
            λ same. let ij : id ≡ j = ground arith in rw ij at e))
    | inr (conn, e) ↦ simp (e, queued_buf buf conn.send_buf, lookup-insert) (ground (arith, e))
  ]

  queue_split-cons :
      (t : TlsTransport S X Y) (x : ℕ) (buf : List ℕ) (o : Option (List ℕ × ℕ))
      → queue_split t buf (elim o as (λ _. Option (List ℕ × ℕ)) [
        | none ↦ some ([], x)
        | some (rest, last) ↦ some (x ∷ rest, last)
      ])
        ≡ queue_split (queue_data t x buf) buf o
  unfolding queue_split queue_each
  queue_split-cons t x buf none = refl
  queue_split-cons t x buf (some (rest, last)) = refl

  queue_to-queue_each :
      (t : TlsTransport S X Y) (ids buf : List ℕ) → queue_to t ids buf ≡ queue_each t ids buf
  unfolding queue_to queue_each split_last
  queue_to-queue_each t [] buf = refl
  queue_to-queue_each t (x ∷ xs) buf =
      queue_split-cons t x buf (split_last xs) ∙ queue_to-queue_each (queue_data t x buf) xs buf

  -- No id twice: the connection of `j` gets the bytes once, or not at all.
  lookup-queue_each :
      (t : TlsTransport S X Y) (ids : List ℕ) (j : ℕ) (buf : List ℕ)
      → Distinct ids
      → lookup j (queue_each t ids buf).connections
        ≡ queued_if (contains ids j) buf (lookup j t.connections)
  unfolding queue_each contains
  lookup-queue_each t [] j buf d = sym (queued_if-absent false buf (lookup j t.connections) λ h. cc)
  lookup-queue_each t (id ∷ ids) j buf d =
      lookup-queue_each (queue_data t id buf) ids j buf d.1
      ∙ ap (queued_if (contains ids j) buf) (lookup-queue_data t id j buf)
      ∙ queued_if-once (id == j) (contains ids j) buf (lookup j t.connections)
          λ same. let ij : id ≡ j = ground arith in rw ij at d.0

  module _ (session : Session S) (t : TlsTransport S X Y) (h : IsSound session t) where
    one_connection : Distinct (keys t.connections)
    one_connection = rw keys-map_values at h.consistent.one_connection

    lookup-queue_kept :
        (test : ℕ → Bool) (j : ℕ) (buf : List ℕ)
        → lookup j (queue_to t (keep_if test (keys t.connections)) buf).connections
          ≡ queued_if (test j) buf (lookup j t.connections)
    lookup-queue_kept test j buf =
        ap (λ u. lookup j u.connections)
          (queue_to-queue_each t (keep_if test (keys t.connections)) buf)
        ∙ lookup-queue_each t (keep_if test (keys t.connections)) j buf
            (keep_if-Distinct test (keys t.connections) one_connection)
        ∙ rw (contains-keep_if, contains-keys)
            (queued_if-present (test j) buf (lookup j t.connections))

    lookup-queue_all :
        (j : ℕ) (buf : List ℕ)
        → lookup j (queue_to t (keys t.connections) buf).connections
          ≡ queued_if true buf (lookup j t.connections)
    lookup-queue_all j buf =
        ap (λ u. lookup j u.connections) (queue_to-queue_each t (keys t.connections) buf)
        ∙ lookup-queue_each t (keys t.connections) j buf one_connection
        ∙ rw contains-keys (queued_if-present true buf (lookup j t.connections))

-- On a sound TLS transport, send_to and the three broadcasts append the bytes once to the buffer of
-- every connection that they are for, established or not, let it listen for room to write as well,
-- and change nothing else of the connections.
pub sending-reaches :
    {S X Y : Type 0} (session : Session S) (t : TlsTransport S X Y) (buf : List ℕ)
    (to_id except_id : ℕ) (except_ids : List ℕ) (j : ℕ)
    → IsSound session t
    → (lookup j (send_to t to_id buf).connections
        ≡ queued_if (to_id == j) buf (lookup j t.connections))
      × (lookup j (broadcast t buf).connections ≡ queued_if true buf (lookup j t.connections))
      × (lookup j (broadcast_except t buf except_id).connections
          ≡ queued_if (not (j == except_id)) buf (lookup j t.connections))
      × (lookup j (broadcast_except_many t buf except_ids).connections
          ≡ queued_if (not (contains except_ids j)) buf (lookup j t.connections))
unfolding send_to broadcast broadcast_except broadcast_except_many
sending-reaches session t buf to_id except_id except_ids j h = (
  lookup-queue_data t to_id j buf,
  lookup-queue_all session t h j buf,
  lookup-queue_kept session t h (λ id. not (id == except_id)) j buf,
  lookup-queue_kept session t h (λ id. not (contains except_ids id)) j buf,
)

module _ {S X Y : Type 0} (t : TlsTransport S X Y) (id : ℕ) (buf : List ℕ) where
  sent-queue_data : sent (queue_data t id buf).calls id ≡ sent t.calls id
  unfolding queue_data put_connection
  sent-queue_data = elim (Option-cases (lookup id t.connections)) [
    | inl e ↦ simp e refl
    | inr (conn, e) ↦
        simp e (sent-reregister_if_changed id id conn.interest (or_writable conn.interest) t.calls)
  ]

  -- send_to appends to the stream of a connection, and the connection stays.
  pub send_to-stream :
      is_some (lookup id t.connections) ≡ true → stream (send_to t id buf) id ≡ stream t id ++ buf
  unfolding send_to
  send_to-stream known = elim (Option-cases (lookup id t.connections)) [
    | inl e ↦ cc (rw e at known)
    | inr (conn, e) ↦
        rw (lookup-queue_data t id id buf, sent-queue_data, e, ==_refl id)
          (sym (append_assoc (sent t.calls id) conn.send_buf buf))
  ]

  pub send_to-known :
      is_some (lookup id t.connections) ≡ true
      → is_some (lookup id (send_to t id buf).connections) ≡ true
  unfolding send_to
  send_to-known known = elim (Option-cases (lookup id t.connections)) [
    | inl e ↦ cc (rw e at known)
    | inr (conn, e) ↦ rw (lookup-queue_data t id id buf, e, ==_refl id) refl
  ]
