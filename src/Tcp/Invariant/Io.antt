-- ===== src/Tcp/Invariant/Io.antt =====
-- read_connection, write_connection and accept_connections keep the invariant.
use rustcomm.Prelude.{
  drop_all, zero, suc, ℕ, ◌+◌, ◌≡◌, refl, inl, inr, true, not, ◌&&◌, Option, none, some, List, [],
  ◌∷◌, ◌++◌, arith, ◌==◌, length, take, drop, is_nil, Bool-cases, Option-cases,
}
use rustcomm.Error.{ErrorKind}
use rustcomm.Table.{lookup, is_some}
use rustcomm.Transport.Types.{SocketAddr, readable}
use rustcomm.Transport.Exit.{Leaves, Leaves-after}
use rustcomm.Tcp.State.{
  Connection, TcpTransport, Call, wrote, add_connection, advance_connection_id,
}
use rustcomm.Tcp.Read.{Reads, ReadLoop, read_end, read_found, read_connection}
use rustcomm.Tcp.Write.{
  Writes, took, full, write_error, WriteLoop, all_written, stopped, broken, out_of_range,
  write_loop, head_test_cases, establish, write_finish, write_end, write_established, write_found,
  write_connection,
}
use rustcomm.Tcp.Accept.{
  Stream, Accepts, Collected, streams, nodelay_error, listener_error, collect, accepted_connection,
  add_accepted, accept_end, accept_found, accept_connections,
}
use rustcomm.Tcp.Invariant.Defs.{all_served, is_served, IsConsistent}
use rustcomm.Tcp.Invariant.Primitives.{
  track_spurious_wakeup-IsConsistent, advance_connection_id-IsConsistent, replace-IsConsistent,
  drop_connection-IsConsistent, drop_listener-IsConsistent, add_connection-IsInStep,
}
use rustcomm.Tcp.Invariant.Opening.{wrote-IsConsistent}

read_end-IsConsistent :
    (t : TcpTransport) (id : ℕ) (conn : Connection) (l : ReadLoop)
    → IsConsistent t
    → lookup id t.connections ≡ some conn
    → Leaves IsConsistent (read_end t id l)
unfolding read_end
read_end-IsConsistent t id conn l h e = elim (Bool-cases l.disconnect) [
  | inl d ↦ rw d (drop_connection-IsConsistent t id h conn e)
  | inr d ↦ rw d (track_spurious_wakeup-IsConsistent t _ _ h)
]

pub read_connection-IsConsistent :
    (t : TcpTransport) (id : ℕ) (reads : Reads)
    → IsConsistent t
    → Leaves IsConsistent (read_connection t id reads)
unfolding read_connection read_found
read_connection-IsConsistent t id reads h = elim (Option-cases (lookup id t.connections)) [
  | inl e ↦ rw e tt
  | inr (conn, e) ↦ elim (Bool-cases conn.connected) [
    | inl c ↦ rw (e, c) (read_end-IsConsistent t id conn _ h e)
    | inr c ↦ rw (e, c) tt
  ]
]

-- How the loop of write_connection leaves the calls.
abbrev LoopKeeps : TcpTransport → List ℕ → WriteLoop → Type 0
LoopKeeps t buf (all_written pos calls) =
    (pos ≡ length buf) × IsConsistent (record t { calls = calls })
LoopKeeps t buf (stopped pos calls) = IsConsistent (record t { calls = calls })
LoopKeeps t buf (broken calls) = IsConsistent (record t { calls = calls })
LoopKeeps t buf out_of_range = Unit

write_loop-IsConsistent :
    (t : TcpTransport) (id : ℕ) (buf : List ℕ) (writes : Writes) (pos : ℕ) (calls : List Call)
    → IsConsistent (record t { calls = calls })
    → is_some (lookup id t.connections) ≡ true
    → LoopKeeps t buf (write_loop id buf writes pos calls)
unfolding write_loop
write_loop-IsConsistent t id buf full pos calls h e =
    head_test_cases (LoopKeeps t buf) buf pos calls _ (λ d. (d, h)) (λ _. tt) h
write_loop-IsConsistent t id buf (write_error kind) pos calls h e =
    head_test_cases (LoopKeeps t buf) buf pos calls _ (λ d. (d, h)) (λ _. tt) h
write_loop-IsConsistent t id buf (took sz rest) pos calls h e =
    let bytes = take sz (drop pos buf) in
    head_test_cases (LoopKeeps t buf) buf pos calls _ (λ d. (d, h)) (λ _. tt)
      (elim (Bool-cases (sz == 0)) [
        | inl z ↦ rw z h
        | inr z ↦ rw z (
            write_loop-IsConsistent t id buf rest (pos + sz) (wrote id bytes ∷ calls)
              (wrote-IsConsistent (record t { calls = calls }) id bytes h e) e)
      ])

write_finish-IsConsistent :
    (t : TcpTransport) (id : ℕ) (old conn : Connection) (pos : ℕ)
    → IsConsistent t
    → lookup id t.connections ≡ some old
    → is_served (record conn { send_buf = drop pos conn.send_buf }) ≡ true
    → Leaves IsConsistent (write_finish t id old conn pos)
unfolding write_finish
write_finish-IsConsistent t id old conn pos h e s =
    let kept =
      replace-IsConsistent t id h old (record conn { send_buf = drop pos conn.send_buf }) e s in
    elim (Bool-cases (not old.connected && conn.connected)) [
      | inl c ↦ rw c kept
      | inr c ↦ rw c (track_spurious_wakeup-IsConsistent _ _ _ kept)
    ]

is_nil-drop : (n : ℕ) (xs : List ℕ) → is_nil xs ≡ true → is_nil (drop n xs) ≡ true
is_nil-drop zero xs h = h
is_nil-drop (suc n) [] h = refl
is_nil-drop (suc n) (x ∷ xs) h = cc

write_end-IsConsistent :
    (t : TcpTransport) (id : ℕ) (old conn : Connection) (l : WriteLoop)
    → lookup id t.connections ≡ some old
    → conn.connected ≡ true
    → is_served conn ≡ true
    → LoopKeeps t conn.send_buf l
    → Leaves IsConsistent (write_end t id old conn l)
unfolding write_end
write_end-IsConsistent t id old conn (all_written pos calls) e c s h =
    write_finish-IsConsistent (record t { calls = calls }) id old
      (record conn { interest = readable }) pos h.1 e
      (rw (c, drop_all pos conn.send_buf (omega arith)))
write_end-IsConsistent t id old conn (stopped pos calls) e c s h =
    write_finish-IsConsistent (record t { calls = calls }) id old conn pos h e
      (ground (arith, is_nil-drop pos conn.send_buf))
write_end-IsConsistent t id old conn (broken calls) e c s h =
    drop_connection-IsConsistent (record t { calls = calls }) id h old e
write_end-IsConsistent t id old conn out_of_range e c s h = tt

write_established-IsConsistent :
    (t : TcpTransport) (id : ℕ) (old : Connection) (writes : Writes) (o : Option Connection)
    → IsConsistent t
    → lookup id t.connections ≡ some old
    → all_served o ≡ true
    → Leaves IsConsistent (write_established t id old writes o)
unfolding write_established
write_established-IsConsistent t id old writes none h e s =
    drop_connection-IsConsistent t id h old e
write_established-IsConsistent t id old writes (some conn) h e s =
    elim (Bool-cases conn.connected) [
      | inl c ↦ simp c (
          write_end-IsConsistent t id old conn _ e c s
            (write_loop-IsConsistent t id conn.send_buf writes 0 t.calls h (rw e)))
      | inr c ↦ rw c tt
    ]

establish_served :
    (conn : Connection) (e : Option ErrorKind)
    → is_served conn ≡ true
    → all_served (establish conn e) ≡ true
unfolding establish
establish_served conn e h = ground arith

pub write_connection-IsConsistent :
    (t : TcpTransport) (id : ℕ) (take_error : Option ErrorKind) (writes : Writes)
    → IsConsistent t
    → Leaves IsConsistent (write_connection t id take_error writes)
unfolding write_connection write_found
write_connection-IsConsistent t id take_error writes h =
    elim (Option-cases (lookup id t.connections)) [
      | inl e ↦ rw e tt
      | inr (conn, e) ↦ rw e (
          write_established-IsConsistent t id conn writes (establish conn take_error) h e
            (establish_served conn take_error (ground (arith, h.served id))))
    ]

pub add_accepted-IsConsistent :
    (t : TcpTransport) (new : List Stream) (ids : List ℕ)
    → IsConsistent t
    → Leaves IsConsistent (add_accepted t new ids)
unfolding add_accepted add_connection
add_accepted-IsConsistent t [] ids h = h
add_accepted-IsConsistent t (stream ∷ rest) ids h =
    Leaves-after IsConsistent
      (advance_connection_id (add_connection t t.next_id (accepted_connection stream))
        (ids ++ t.next_id ∷ []))
      _
      (advance_connection_id-IsConsistent _ _
        (add_connection-IsInStep t (accepted_connection stream) h refl) h.next_in_range)
      λ ids' t' h'. add_accepted-IsConsistent t' rest ids' h'

accept_end-IsConsistent :
    (t : TcpTransport) (id : ℕ) (addr : SocketAddr) (c : Collected)
    → IsConsistent t
    → lookup id t.listeners ≡ some addr
    → Leaves IsConsistent (accept_end t id c)
unfolding accept_end
accept_end-IsConsistent t id addr (streams new) h e =
    Leaves-after IsConsistent (add_accepted t new []) _ (add_accepted-IsConsistent t new [] h)
      λ ids t' h'. track_spurious_wakeup-IsConsistent t' _ ids h'
accept_end-IsConsistent t id addr (nodelay_error kind) h e = h
accept_end-IsConsistent t id addr (listener_error kind) h e =
    drop_listener-IsConsistent t id h addr e

pub accept_connections-IsConsistent :
    (t : TcpTransport) (id : ℕ) (accepts : Accepts)
    → IsConsistent t
    → Leaves IsConsistent (accept_connections t id accepts)
unfolding accept_connections accept_found
accept_connections-IsConsistent t id accepts h = elim (Option-cases (lookup id t.listeners)) [
  | inl e ↦ rw e tt
  | inr (addr, e) ↦ rw e (accept_end-IsConsistent t id addr (collect accepts []) h e)
]
