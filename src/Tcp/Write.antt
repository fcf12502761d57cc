-- ===== src/Tcp/Write.antt =====
-- transport/tcp.rs: write_connection. The answers of the socket come as arguments: that of
-- `take_error`, and those of the successive calls of `write`.
use rustcomm.Prelude.{
  ◌≡◌, ◌<◌, Bool-cases, inl, inr, arith, ℕ, ◌+◌, true, not, ◌&&◌, Option, none, some, List, ◌∷◌,
  length, take, drop, ◌==◌, ltb, if◌then◌else◌,
}
use rustcomm.Error.{ErrorKind}
use rustcomm.Table.{lookup, insert}
use rustcomm.Transport.Types.{readable, read_write}
use rustcomm.Transport.Exit.{
  Exit, returned, panicked, connection_missing, not_connected, slice_out_of_range,
}
use rustcomm.Tcp.State.{
  Connection, TcpTransport, Call, wrote, drop_connection, reregister_if_changed,
  track_spurious_wakeup,
}

pub data Writes : Type 0 where
  -- Ok(sz)
  took : ℕ → Writes → Writes
  -- Err(WouldBlock)
  full : Writes
  -- any other Err
  write_error : ErrorKind → Writes

pub data WriteConnectionResult : Type 0 where
  write_ok write_connected write_disconnected connection_failed : WriteConnectionResult

-- How the loop ends: all is written (the interest is READABLE again), the socket takes no more, or
-- it has failed; or the slice send_buf[send_pos..] is out of range. The calls made come along.
pub data WriteLoop : Type 0 where
  all_written stopped : ℕ → List Call → WriteLoop
  broken : List Call → WriteLoop
  out_of_range : WriteLoop

-- The test at the head of the loop, and the slice that the write then takes.
unfoldable pub head_test : List ℕ → ℕ → List Call → WriteLoop → WriteLoop
head_test send_buf send_pos calls body =
    if send_pos == length send_buf
    then all_written send_pos calls
    else if ltb (length send_buf) send_pos
    then out_of_range
    else body

unfoldable pub write_loop : ℕ → List ℕ → Writes → ℕ → List Call → WriteLoop
unfolding head_test
write_loop id send_buf (took sz rest) send_pos calls =
    let bytes = take sz (drop send_pos send_buf) in
    let next = write_loop id send_buf rest (send_pos + sz) (wrote id bytes ∷ calls) in
    head_test send_buf send_pos calls (if sz == 0 then stopped send_pos calls else next)
write_loop id send_buf full send_pos calls =
    head_test send_buf send_pos calls (stopped send_pos calls)
write_loop id send_buf (write_error kind) send_pos calls =
    head_test send_buf send_pos calls (broken calls)

-- A property of the loop's outcome, by the ways through the test.
pub head_test_cases :
    (P : WriteLoop → Type 0) (send_buf : List ℕ) (send_pos : ℕ) (calls : List Call) (l : WriteLoop)
    → (send_pos ≡ length send_buf → P (all_written send_pos calls))
    → (length send_buf < send_pos → P out_of_range)
    → P l
    → P (head_test send_buf send_pos calls l)
unfolding head_test
head_test_cases P send_buf send_pos calls l whole past body =
    elim (Bool-cases (send_pos == length send_buf)) [
      | inl d ↦ rw d (whole (ground arith))
      | inr d ↦ elim (Bool-cases (ltb (length send_buf) send_pos)) [
        | inl o ↦ rw (d, o) (past (ground arith))
        | inr o ↦ rw (d, o) body
      ]
    ]

-- A connection in progress is asked for its error: `none` is a connection that failed.
unfoldable pub establish : Connection → Option ErrorKind → Option Connection
establish conn take_error = if conn.connected then some conn else (elim take_error [
  | none ↦ some (record conn { connected = true; interest = read_write })
  | some kind ↦ none
])

-- After the loop: drain(..send_pos), reregister, and tell whether the connection is new.
unfoldable pub write_finish :
    TcpTransport → ℕ → Connection → Connection → ℕ → Exit TcpTransport WriteConnectionResult
write_finish t id old conn send_pos =
    let t' = record t {
      connections =
          insert id (record conn { send_buf = drop send_pos conn.send_buf }) t.connections;
      calls = reregister_if_changed id old.interest conn.interest t.calls;
    } in
    if not old.connected && conn.connected
    then returned write_connected t'
    else track_spurious_wakeup t' (send_pos == 0) write_ok

unfoldable pub write_end :
    TcpTransport → ℕ → Connection → Connection → WriteLoop → Exit TcpTransport WriteConnectionResult
unfolding write_finish
write_end t id old conn (all_written send_pos calls) =
    write_finish (record t { calls = calls }) id old (record conn { interest = readable }) send_pos
write_end t id old conn (stopped send_pos calls) =
    write_finish (record t { calls = calls }) id old conn send_pos
write_end t id old conn (broken calls) =
    returned write_disconnected (drop_connection (record t { calls = calls }) id)
write_end t id old conn out_of_range = panicked slice_out_of_range

unfoldable pub write_established :
    TcpTransport
    → ℕ
    → Connection
    → Writes
    → Option Connection
    → Exit TcpTransport WriteConnectionResult
unfolding write_end
write_established t id old writes none = returned connection_failed (drop_connection t id)
write_established t id old writes (some conn) =
    if conn.connected
    then write_end t id old conn (write_loop id conn.send_buf writes 0 t.calls)
    else panicked not_connected

unfoldable pub write_found :
    TcpTransport
    → ℕ
    → Option ErrorKind
    → Writes
    → Option Connection
    → Exit TcpTransport WriteConnectionResult
unfolding write_established establish
write_found t id take_error writes none = panicked connection_missing
write_found t id take_error writes (some conn) =
    write_established t id conn writes (establish conn take_error)

unfoldable pub write_connection :
    TcpTransport → ℕ → Option ErrorKind → Writes → Exit TcpTransport WriteConnectionResult
unfolding write_found
write_connection t id take_error writes =
    write_found t id take_error writes (lookup id t.connections)
