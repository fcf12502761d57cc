-- ===== src/Tls/Plain.antt =====
-- What a TlsTransport and a TcpTransport have in common: a TLS transport without its sessions.
use rustcomm.Prelude.{
  ℕ, zero, suc, ◌≡◌, ◌∙◌, ap, refl, inl, inr, Bool, true, false, not, [], length, Bool-cases,
  Option-cases, if◌then◌else◌, leb, ◌+◌,
}
use rustcomm.Table.{insert, lookup, contains_key}
use rustcomm.Table.Values.{
  map_values, lookup-map_values, insert-map_values, remove-map_values, length-map_values,
  is_some-map_option,
}
use rustcomm.Transport.Exit.{on_state, Exit, returned, raised, panicked, Leaves, question, after}
use rustcomm.Error.{ErrorKind, Result, ok, err}
use rustcomm.Tcp.State.{TcpTransport, next}
use rustcomm.Tcp.State
use rustcomm.Tls.State.{
  Connection, TlsTransport, is_not_connected, is_tls_connected, in_use, advance, advance_end,
  advance_connection_id, track_spurious_wakeup, add_connection, drop_connection, put_connection,
}

-- A connection is established when its TCP connection is; its plaintext waits for room to write
-- once the handshake is complete.
abbrev pub plain_connection : {S : Type 0} → Connection S → State.Connection
plain_connection conn = record {
  connected = not (is_not_connected conn.connected);
  interest = conn.interest;
  local_addr = conn.local_addr;
  peer_addr = conn.peer_addr;
  send_buf = if is_tls_connected conn.connected then conn.send_buf else [];
}

pub Leaves-on_state :
    {S T A : Type 0} (f : S → T) (P : T → Type 0) (m : Exit S A)
    → Leaves P (on_state f m)
    → Leaves (λ s. P (f s)) m
Leaves-on_state f P (returned a s) h = h
Leaves-on_state f P (raised e s) h = h
Leaves-on_state f P (panicked p) h = tt

pub on_state-question :
    {S T A B : Type 0} (f : S → T) (r : Result ErrorKind A) (s : S) (m : A → Exit S B)
    (n : A → Exit T B)
    → ((a : A) → on_state f (m a) ≡ n a)
    → on_state f (question r s m) ≡ question r (f s) n
on_state-question f (ok a) s m n h = h a
on_state-question f (err e) s m n h = refl

pub on_state-after :
    {S T A B : Type 0} (f : S → T) (P : S → Type 0) (m : Exit S A) {m' : Exit T A}
    (k : A → S → Exit S B) (l : A → T → Exit T B)
    → on_state f m ≡ m'
    → Leaves P m
    → ((a : A) (s : S) → P s → on_state f (k a s) ≡ l a (f s))
    → on_state f (after m k) ≡ after m' l
on_state-after f P (returned a s) k l e p h = h a s p ∙ ap (λ x. after x l) e
on_state-after f P (raised error s) k l e p h = ap (λ x. after x l) e
on_state-after f P (panicked x) k l e p h = ap (λ x. after x l) e

module _ {S X Y : Type 0} where
  abbrev pub plain : TlsTransport S X Y → TcpTransport
  plain t = record {
    connections = map_values plain_connection t.connections;
    listeners = t.listeners;
    next_id = t.next_id;
    spurious_wakeups = t.spurious_wakeups;
    max_read_size = t.max_read_size;
    max_spurious_wakeups = t.max_spurious_wakeups;
    poll_capacity = t.poll_capacity;
    calls = t.calls;
    responses = t.responses;
  }

  pub in_use-plain : (t : TlsTransport S X Y) (id : ℕ) → State.in_use (plain t) id ≡ in_use t id
  unfolding in_use State.in_use contains_key
  in_use-plain t id =
      rw
        (
          lookup-map_values plain_connection id t.connections,
          is_some-map_option plain_connection (lookup id t.connections),
        )
        refl

  advance-plain :
      (fuel : ℕ) (t : TlsTransport S X Y) (id : ℕ)
      → State.advance fuel (plain t) id ≡ advance fuel t id
  unfolding advance State.advance
  advance-plain zero t id = refl
  advance-plain (suc fuel) t id = rw (in_use-plain t (next id), advance-plain fuel t (next id)) refl

  pub advance_connection_id-plain :
      {A : Type 0} (t : TlsTransport S X Y) (a : A)
      → on_state plain (advance_connection_id t a) ≡ State.advance_connection_id (plain t) a
  unfolding advance_connection_id State.advance_connection_id advance_end State.advance_end
  advance_connection_id-plain t a =
      let fuel = suc (length t.listeners + length t.connections) in
      elim (Option-cases (advance fuel t t.next_id)) [
        | inl e ↦
            rw (length-map_values plain_connection t.connections, advance-plain fuel t t.next_id, e)
              refl
        | inr (id, e) ↦
            rw (length-map_values plain_connection t.connections, advance-plain fuel t t.next_id, e)
              refl
      ]

  pub track_spurious_wakeup-plain :
      {A : Type 0} (t : TlsTransport S X Y) (b : Bool) (a : A)
      → on_state plain (track_spurious_wakeup t b a) ≡ State.track_spurious_wakeup (plain t) b a
  unfolding track_spurious_wakeup State.track_spurious_wakeup
  track_spurious_wakeup-plain t true a =
      elim (Bool-cases (leb (t.spurious_wakeups + 1) t.max_spurious_wakeups)) [
        | inl e ↦ rw e refl
        | inr e ↦ rw e refl
      ]
  track_spurious_wakeup-plain t false a = refl

  pub add_connection-plain :
      (t : TlsTransport S X Y) (id : ℕ) (conn : Connection S)
      → plain (add_connection t id conn) ≡ State.add_connection (plain t) id (plain_connection conn)
  unfolding add_connection State.add_connection
  add_connection-plain t id conn =
      rw (insert-map_values plain_connection id conn t.connections) refl

  pub drop_connection-plain :
      (t : TlsTransport S X Y) (id : ℕ)
      → plain (drop_connection t id) ≡ State.drop_connection (plain t) id
  unfolding drop_connection State.drop_connection
  drop_connection-plain t id = rw (remove-map_values plain_connection id t.connections) refl

  pub advance_connection_id-keeps :
      {A : Type 0} (P : TlsTransport S X Y → Type 0) (t : TlsTransport S X Y) (a : A)
      → ((id : ℕ) → P (record t { next_id = id }))
      → Leaves P (advance_connection_id t a)
  unfolding advance_connection_id advance_end
  advance_connection_id-keeps P t a p =
      elim (Option-cases (advance (suc (length t.listeners + length t.connections)) t t.next_id)) [
        | inl e ↦ rw e tt
        | inr (id, e) ↦ rw e (p id)
      ]

  pub track_spurious_wakeup-keeps :
      {A : Type 0} (P : TlsTransport S X Y → Type 0) (t : TlsTransport S X Y) (b : Bool) (a : A)
      → ((n : ℕ) → P (record t { spurious_wakeups = n }))
      → Leaves P (track_spurious_wakeup t b a)
  unfolding track_spurious_wakeup
  track_spurious_wakeup-keeps P t true a p =
      elim (Bool-cases (leb (t.spurious_wakeups + 1) t.max_spurious_wakeups)) [
        | inl e ↦ rw e (p (t.spurious_wakeups + 1))
        | inr e ↦ rw e tt
      ]
  track_spurious_wakeup-keeps P t false a p = p 0

  pub put_connection-plain :
      (t : TlsTransport S X Y) (id : ℕ) (old conn : Connection S)
      → plain (put_connection t id old conn) ≡ record (plain t) {
        connections = insert id (plain_connection conn) (plain t).connections;
        calls = State.reregister_if_changed id old.interest conn.interest t.calls;
      }
  unfolding put_connection
  put_connection-plain t id old conn =
      rw (insert-map_values plain_connection id conn t.connections) refl
