-- ===== src/Tcp/Ids/Free.antt =====
-- advance_connection_id returns, with an id that neither a listener nor a connection has.
use rustcomm.Prelude.{
  contains, ℕ, zero, suc, ◌+◌, ◌≤◌, ◌<◌, ◌≡◌, refl, ap, inl, inr, true, false, none, some, List, [],
  ◌∷◌, ◌++◌, arith, length, length-append, Bool-cases, Option-cases,
}
use rustcomm.Table.{Table, lookup, keys, contains_key}
use rustcomm.Transport.Exit.{returned}
use rustcomm.Tcp.State.{TcpTransport, in_use, next, advance, advance_connection_id}
use rustcomm.Tcp.Ids.Pigeonhole.{Within, length-Within, contains-append_left, contains-append_right}
use rustcomm.Tcp.Ids.Cycle.{
  InRange, id_count, next-InRange, candidates, length-candidates, candidates-Distinct,
}

-- There are fewer connections and listeners than ids.
abbrev pub HasRoom : TcpTransport → Type 0
HasRoom t = length t.listeners + length t.connections < id_count

length-keys {ℓ} : {V : Type ℓ} (m : Table V) → length (keys m) ≡ length m
unfolding keys
length-keys [] = refl
length-keys ((k, v) ∷ m) = ap suc (length-keys m)

contains-keys {ℓ} :
    {V : Type ℓ} (m : Table V) (k : ℕ) → contains_key k m ≡ true → contains (keys m) k ≡ true
unfolding contains_key lookup keys contains
contains-keys [] k h = cc
contains-keys ((j, v) ∷ m) k h = ground (arith, contains-keys m k)

ids : TcpTransport → List ℕ
ids t = keys t.listeners ++ keys t.connections

in_use-ids : (t : TcpTransport) (id : ℕ) → in_use t id ≡ true → contains (ids t) id ≡ true
unfolding in_use ids
in_use-ids t id h = elim (Bool-cases (contains_key id t.listeners)) [
  | inl e ↦ contains-append_left (keys t.listeners) _ id (contains-keys t.listeners id e)
  | inr e ↦
      contains-append_right (keys t.listeners) _ id (contains-keys t.connections id (ground arith))
]

-- When the loop is out of fuel, all its candidates are in use.
advance-none :
    (fuel : ℕ) (t : TcpTransport) (id : ℕ)
    → advance fuel t id ≡ none
    → Within (candidates fuel id) (ids t)
unfolding advance candidates
advance-none zero t id h = tt
advance-none (suc fuel) t id h = elim (Bool-cases (in_use t (next id))) [
  | inl e ↦ (in_use-ids t (next id) e, advance-none fuel t (next id) (rw e at h))
  | inr e ↦ cc (rw e at h)
]

pub advance_free :
    (fuel : ℕ) (t : TcpTransport) (id found : ℕ)
    → InRange id
    → advance fuel t id ≡ some found
    → (in_use t found ≡ false) × InRange found
unfolding advance
advance_free zero t id found r h = cc
advance_free (suc fuel) t id found r h = elim (Bool-cases (in_use t (next id))) [
  | inl e ↦ advance_free fuel t (next id) found (next-InRange id r) (rw e at h)
  | inr e ↦ let same : next id ≡ found = cc (rw e at h) in rw (← same) (e, next-InRange id r)
]

advance_total :
    (fuel : ℕ) (t : TcpTransport) (id : ℕ)
    → InRange id
    → length t.listeners + length t.connections < fuel
    → fuel ≤ id_count
    → (found : ℕ) × (advance fuel t id ≡ some found)
unfolding ids
advance_total fuel t id r enough small = elim (Option-cases (advance fuel t id)) [
  | inr e ↦ e
  | inl e ↦ absurd (
      omega (
        arith,
        length-Within (candidates fuel id) (ids t) (candidates-Distinct fuel id r small)
            (advance-none fuel t id e),
        length-candidates fuel id,
        length-append (keys t.listeners) (keys t.connections),
        length-keys t.listeners,
        length-keys t.connections,
      ))
]

-- While there are fewer connections and listeners than ids, and the next id is in the range of ids,
-- the search for the next id ends, and the id that it finds lies in the range and is neither a
-- listener's nor a connection's; nothing else of the state changes.
pub advance_connection_id-returns :
    {A : Type 0} (t : TcpTransport) (a : A)
    → InRange t.next_id
    → HasRoom t
    → (id : ℕ) × (advance_connection_id t a ≡ returned a (record t { next_id = id }))
      × (in_use t id ≡ false)
      × InRange id
unfolding advance_connection_id
advance_connection_id-returns t a r room =
    let fuel = suc (length t.listeners + length t.connections) in
    let (id, e) = advance_total fuel t t.next_id r (omega arith) (omega arith) in
    let free = advance_free fuel t t.next_id id r e in (id, rw e, free.0, free.1)
