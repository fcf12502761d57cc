-- ===== src/Tcp/Stream/Writing.antt =====
-- write_connection moves bytes from the front of send_buf to the socket: none is lost, none is sent
-- twice, none changes places.
use rustcomm.Prelude.{
  ℕ, ◌+◌, ◌-◌, ◌≤◌, ◌≡◌, refl, ◌∙◌, ◌⊎◌, inl, inr, Bool, true, false, not, ◌&&◌, Option, none, some,
  List, ◌∷◌, ◌++◌, arith, length, take, drop, append_assoc, take-append-drop, drop-drop, leb, ◌==◌,
  ==_refl, Bool-cases,
}
use rustcomm.Error.{ErrorKind}
use rustcomm.Table.{lookup, insert, is_some, lookup-insert, lookup-remove}
use rustcomm.Transport.Types.{readable}
use rustcomm.Transport.Exit.{Exit, returned, raised, panicked, too_many_spurious_wakeups}
use rustcomm.Tcp.State.{
  Connection, TcpTransport, Call, wrote, drop_connection, reregister_if_changed,
  track_spurious_wakeup,
}
use rustcomm.Tcp.Write.{
  Writes, took, full, write_error, WriteConnectionResult, write_ok, write_connected,
  write_disconnected, connection_failed, WriteLoop, all_written, stopped, broken, out_of_range,
  write_loop, head_test_cases, establish, write_finish, write_end, write_established, write_found,
  write_connection,
}
use rustcomm.Tcp.Stream.{sent, stream}
use rustcomm.Tcp.Stream.Sending.{sent-reregister_if_changed}

-- A write takes at most the bytes that it is given.
abbrev pub FitWrites : ℕ → Writes → Type 0
FitWrites left (took sz rest) = (sz ≤ left) × FitWrites (left - sz) rest
FitWrites left full = Unit
FitWrites left (write_error kind) = Unit

-- The sockets of other ids took nothing.
abbrev pub OthersSent : ℕ → List Call → List Call → Type 0
OthersSent id before calls = (j : ℕ) → (id ≡ j) ⊎ (sent calls j ≡ sent before j)

-- What the loop has sent, and what the part of the buffer behind `pos` still is.
abbrev pub LoopSends : ℕ → List ℕ → ℕ → List Call → WriteLoop → Type 0
LoopSends id buf start before (all_written pos calls) =
    (sent calls id ++ drop pos buf ≡ sent before id ++ drop start buf) × OthersSent id before calls
LoopSends id buf start before (stopped pos calls) =
    (sent calls id ++ drop pos buf ≡ sent before id ++ drop start buf) × OthersSent id before calls
LoopSends id buf start before (broken calls) = OthersSent id before calls
LoopSends id buf start before out_of_range = ⊥

others_refl : (id : ℕ) (calls : List Call) → OthersSent id calls calls
others_refl id calls j = inr refl

others_wrote :
    (id : ℕ) (bytes : List ℕ) (before calls : List Call)
    → OthersSent id (wrote id bytes ∷ before) calls
    → OthersSent id before calls
unfolding sent
others_wrote id bytes before calls h j = ground (arith, h j)

pub sent_step :
    (id sz pos : ℕ) (buf : List ℕ) (calls : List Call)
    → sent (wrote id (take sz (drop pos buf)) ∷ calls) id ++ drop (pos + sz) buf
      ≡ sent calls id ++ drop pos buf
unfolding sent
sent_step id sz pos buf calls = rw (==_refl id, append_assoc, ← drop-drop) (rw take-append-drop)

-- A write of the next bytes, and then what the rest of the loop does.
LoopSends-wrote :
    (id : ℕ) (buf : List ℕ) (pos sz : ℕ) (calls : List Call) (l : WriteLoop)
    → LoopSends id buf (pos + sz) (wrote id (take sz (drop pos buf)) ∷ calls) l
    → LoopSends id buf pos calls l
LoopSends-wrote id buf pos sz calls (all_written p after) h =
    (h.0 ∙ sent_step id sz pos buf calls, others_wrote id _ calls after h.1)
LoopSends-wrote id buf pos sz calls (stopped p after) h =
    (h.0 ∙ sent_step id sz pos buf calls, others_wrote id _ calls after h.1)
LoopSends-wrote id buf pos sz calls (broken after) h = others_wrote id _ calls after h
LoopSends-wrote id buf pos sz calls out_of_range h = h

pub write_loop-Sends :
    (id : ℕ) (buf : List ℕ) (writes : Writes) (pos : ℕ) (calls : List Call)
    → pos ≤ length buf
    → FitWrites (length buf - pos) writes
    → LoopSends id buf pos calls (write_loop id buf writes pos calls)
unfolding write_loop
write_loop-Sends id buf full pos calls h fit =
    head_test_cases (LoopSends id buf pos calls) buf pos calls _ (λ _. (refl, others_refl id calls))
      (λ past. omega arith) (refl, others_refl id calls)
write_loop-Sends id buf (write_error kind) pos calls h fit =
    head_test_cases (LoopSends id buf pos calls) buf pos calls _ (λ _. (refl, others_refl id calls))
      (λ past. omega arith) (others_refl id calls)
write_loop-Sends id buf (took sz rest) pos calls h fit =
    let bytes = take sz (drop pos buf) in
    let left : length buf - pos - sz ≡ length buf - (pos + sz) = omega arith in
    let ih =
      write_loop-Sends id buf rest (pos + sz) (wrote id bytes ∷ calls) (omega arith)
        (rw left at fit.1) in
    head_test_cases (LoopSends id buf pos calls) buf pos calls _ (λ _. (refl, others_refl id calls))
      (λ past. omega arith)
      (elim (Bool-cases (sz == 0)) [
        | inl z ↦ rw z (refl, others_refl id calls)
        | inr z ↦ rw z (LoopSends-wrote id buf pos sz calls _ ih)
      ])

-- No other connection changes, and no other socket took a byte.
abbrev pub OthersKept : TcpTransport → ℕ → TcpTransport → Type 0
OthersKept t id t' =
    (j : ℕ)
    → (id ≡ j)
      ⊎ ((lookup j t'.connections ≡ lookup j t.connections) × (sent t'.calls j ≡ sent t.calls j))

-- The connection is still there, with the same stream; or it is gone.
abbrev pub Kept : TcpTransport → ℕ → TcpTransport → Type 0
Kept t id t' =
    (stream t' id ≡ stream t id) × (is_some (lookup id t'.connections) ≡ true) × OthersKept t id t'

abbrev pub Dropped : TcpTransport → ℕ → TcpTransport → Type 0
Dropped t id t' = (lookup id t'.connections ≡ none) × OthersKept t id t'

abbrev pub Delivers : TcpTransport → ℕ → Exit TcpTransport WriteConnectionResult → Type 0
Delivers t id (returned write_ok t') = Kept t id t'
Delivers t id (returned write_connected t') = Kept t id t'
Delivers t id (returned write_disconnected t') = Dropped t id t'
Delivers t id (returned connection_failed t') = Dropped t id t'
Delivers t id (raised e t') = ⊥
Delivers t id (panicked p) = p ≡ too_many_spurious_wakeups

track-Delivers :
    (t u : TcpTransport) (id : ℕ) (b : Bool)
    → Kept t id u
    → Delivers t id (track_spurious_wakeup u b write_ok)
unfolding track_spurious_wakeup
track-Delivers t u id true k =
    elim (Bool-cases (leb (u.spurious_wakeups + 1) u.max_spurious_wakeups)) [
      | inl e ↦ rw e k
      | inr e ↦ rw e refl
    ]
track-Delivers t u id false k = k

dropped :
    (t : TcpTransport) (id : ℕ) (calls : List Call)
    → OthersSent id t.calls calls
    → Dropped t id (drop_connection (record t { calls = calls }) id)
unfolding drop_connection sent
dropped t id calls o =
    (rw (lookup-remove, ==_refl id), λ j. ground (arith, o j, lookup-remove id j t.connections))

finished :
    (t : TcpTransport) (id pos : ℕ) (old conn : Connection) (calls : List Call)
    → sent calls id ++ drop pos conn.send_buf ≡ stream t id
    → OthersSent id t.calls calls
    → Delivers t id (write_finish (record t { calls = calls }) id old conn pos)
unfolding write_finish
finished t id pos old conn calls s o = elim (Bool-cases (not old.connected && conn.connected)) [
  | inl c ↦ rw c kept
  | inr c ↦ rw c (track-Delivers t _ id (pos == 0) kept)
]
  where
    new : Connection
    new = record conn { send_buf = drop pos conn.send_buf }

    t' : TcpTransport
    t' = record t {
      connections = insert id new t.connections;
      calls = reregister_if_changed id old.interest conn.interest calls;
    }

    kept : Kept t id t'
    kept = (
      rw (lookup-insert, ==_refl id, sent-reregister_if_changed) s,
      rw (lookup-insert, ==_refl id),
      λ j. ground (
        arith,
        o j,
        lookup-insert id j new t.connections,
        sent-reregister_if_changed id j old.interest conn.interest calls,
      ),
    )

write_end-Delivers :
    (t : TcpTransport) (id : ℕ) (old conn : Connection) (l : WriteLoop)
    → sent t.calls id ++ conn.send_buf ≡ stream t id
    → LoopSends id conn.send_buf 0 t.calls l
    → Delivers t id (write_end t id old conn l)
unfolding write_end
write_end-Delivers t id old conn (all_written pos calls) s h =
    finished t id pos old (record conn { interest = readable }) calls (h.0 ∙ s) h.1
write_end-Delivers t id old conn (stopped pos calls) s h =
    finished t id pos old conn calls (h.0 ∙ s) h.1
write_end-Delivers t id old conn (broken calls) s h = dropped t id calls h
write_end-Delivers t id old conn out_of_range s h = absurd h

abbrev pub SameBuf : List ℕ → Option Connection → Type 0
SameBuf buf none = Unit
SameBuf buf (some conn) = (conn.send_buf ≡ buf) × (conn.connected ≡ true)

pub establish-SameBuf :
    (conn : Connection) (e : Option ErrorKind) → SameBuf conn.send_buf (establish conn e)
unfolding establish
establish-SameBuf conn e = ground arith

write_established-Delivers :
    (t : TcpTransport) (id : ℕ) (old : Connection) (writes : Writes) (o : Option Connection)
    → lookup id t.connections ≡ some old
    → SameBuf old.send_buf o
    → FitWrites (length old.send_buf) writes
    → Delivers t id (write_established t id old writes o)
unfolding write_established
write_established-Delivers t id old writes none e b fit =
    dropped t id t.calls (others_refl id t.calls)
write_established-Delivers t id old writes (some conn) e b fit =
    let all : length old.send_buf - 0 ≡ length old.send_buf = omega arith in
    simp b.1 (
      write_end-Delivers t id old conn _ (rw (e, b.0))
        (write_loop-Sends id conn.send_buf writes 0 t.calls (omega arith) (rw (b.0, all) fit)))

-- For a connection of the transport, and if each write takes at most the bytes it is given, a
-- writable event moves bytes from the front of send_buf to the socket: while the connection is
-- kept, what the socket has taken and what waits are together the same bytes in the same order;
-- other connections do not change; the only panic is that of too many wakeups for nothing.
pub write_connection-Delivers :
    (t : TcpTransport) (id : ℕ) (take_error : Option ErrorKind) (writes : Writes)
    (conn : Connection)
    → lookup id t.connections ≡ some conn
    → FitWrites (length conn.send_buf) writes
    → Delivers t id (write_connection t id take_error writes)
unfolding write_connection write_found
write_connection-Delivers t id take_error writes conn e fit = rw e (
    write_established-Delivers t id conn writes (establish conn take_error) e
      (establish-SameBuf conn take_error) fit)
