-- ===== src/Tcp/ReadBuffer.antt =====
-- transport/tcp.rs, read_connection: the buffer that the loop grows and truncates holds what the
-- socket gave, in order.
use rustcomm.Prelude.{
  ℕ, zero, suc, ◌+◌, ◌-◌, ◌≤◌, ◌≡◌, refl, sym, ap, ◌∙◌, Bool, true, false, some, List, [], ◌∷◌,
  ◌++◌, arith, length, take, drop, replicate, resize, overwrite, is_nil, length-append, length-take,
  length-drop, length-replicate, take-append, take-append_le, append_assoc, append-nil, ◌==◌,
  if◌then◌else◌,
}
use rustcomm.Table.{lookup}
use rustcomm.Transport.Exit.{returned}
use rustcomm.Tcp.State.{Connection, TcpTransport, drop_connection, track_spurious_wakeup}
use rustcomm.Tcp.Read.{
  Reads, got, drained, read_error, ReadLoop, read_loop, read_end, read_connection, read_found,
  read_ok, read_disconnected,
}

-- The bytes that came before the answer that ends the loop.
abbrev pub arrived : Reads → List ℕ
arrived (got [] rest) = []
arrived (got (b ∷ bytes) rest) = (b ∷ bytes) ++ arrived rest
arrived drained = []
arrived (read_error kind) = []

-- Whether the loop ends by the end of the stream or an error.
abbrev pub ends : Reads → Bool
ends (got [] rest) = true
ends (got (b ∷ bytes) rest) = ends rest
ends drained = false
ends (read_error kind) = true

-- A read fills at most the slice that it is given.
abbrev pub FitReads : ℕ → Reads → Type 0
FitReads max (got bytes rest) = (length bytes ≤ max) × FitReads max rest
FitReads max drained = Unit
FitReads max (read_error kind) = Unit

length-resize : (n : ℕ) (buf : List ℕ) → length (resize n 0 buf) ≡ n
length-resize n buf = omega (
  arith,
  length-append (take n buf) (replicate (n - length buf) 0),
  length-take n buf,
  length-replicate {A = ℕ} (n - length buf) 0,
)

take-take : (n m : ℕ) (xs : List ℕ) → n ≤ m → take n (take m xs) ≡ take n xs
take-take zero m xs h = refl
take-take (suc n) zero xs h = absurd (omega arith)
take-take (suc n) (suc m) [] h = refl
take-take (suc n) (suc m) (x ∷ xs) h = ap (◌∷◌ x) (take-take n m xs (omega arith))

take-resize :
    (n m : ℕ) (buf : List ℕ) → n ≤ length buf → n ≤ m → take n (resize m 0 buf) ≡ take n buf
take-resize n m buf h k =
    take-append_le n (take m buf) (replicate (m - length buf) 0) (omega (arith, length-take m buf))
    ∙ take-take n m buf k

take-overwrite :
    (pos : ℕ) (bytes buf : List ℕ)
    → pos + length bytes ≤ length buf
    → take (pos + length bytes) (overwrite pos bytes buf) ≡ take pos buf ++ bytes
take-overwrite pos bytes buf h =
    let size : pos + length bytes ≡ length (take pos buf ++ bytes) =
      omega (arith, length-append (take pos buf) bytes, length-take pos buf) in
    rw (← append_assoc, size)
      (take-append (take pos buf ++ bytes) (drop (length (take pos buf ++ bytes)) buf))

length-overwrite :
    (pos : ℕ) (bytes buf : List ℕ)
    → pos + length bytes ≤ length buf
    → length (overwrite pos bytes buf) ≡ length buf
length-overwrite pos bytes buf h = omega (
  arith,
  length-append (take pos buf) (bytes ++ drop (pos + length bytes) buf),
  length-append bytes (drop (pos + length bytes) buf),
  length-take pos buf,
  length-drop (pos + length bytes) buf,
)

-- The loop's outcome, from what is in the buffer up to recv_pos.
Outcome : List ℕ → Reads → ReadLoop → Type 0
Outcome before reads l =
    (take l.recv_pos l.recv_buf ≡ before ++ arrived reads) × (l.disconnect ≡ ends reads)

read_loop-Outcome :
    (max : ℕ) (reads : Reads) (buf : List ℕ) (pos : ℕ)
    → FitReads max reads
    → pos ≤ length buf
    → Outcome (take pos buf) reads (read_loop max reads buf pos)
unfolding Outcome read_loop
read_loop-Outcome max drained buf pos fit h =
    (take-resize pos (pos + max) buf h (omega arith) ∙ sym (append-nil (take pos buf)), refl)
read_loop-Outcome max (read_error kind) buf pos fit h =
    (take-resize pos (pos + max) buf h (omega arith) ∙ sym (append-nil (take pos buf)), refl)
read_loop-Outcome max (got [] rest) buf pos fit h =
    let big = resize (pos + max) 0 buf in
    (
      take-append_le pos (take pos big) ([] ++ drop (pos + 0) big)
            (omega (arith, length-take pos big, length-resize (pos + max) buf))
          ∙ take-take pos pos big (omega arith)
          ∙ take-resize pos (pos + max) buf h (omega arith)
          ∙ sym (append-nil (take pos buf)),
      refl,
    )
read_loop-Outcome max (got (b ∷ bytes) rest) buf pos fit h =
    let big = resize (pos + max) 0 buf in
    let buf' = overwrite pos (b ∷ bytes) big in
    let ih =
      read_loop-Outcome max rest buf' (pos + length (b ∷ bytes)) fit.1
        (omega (arith, length-overwrite pos (b ∷ bytes) big, length-resize (pos + max) buf)) in
    let held : take (pos + length (b ∷ bytes)) buf' ≡ take pos buf ++ (b ∷ bytes) =
      take-overwrite pos (b ∷ bytes) big (omega (arith, length-resize (pos + max) buf))
      ∙ ap (λ (xs : List ℕ). xs ++ (b ∷ bytes)) (take-resize pos (pos + max) buf h (omega arith)) in
    let more : (length (b ∷ bytes) == 0) ≡ false = ground arith in
    rw more (
      ih.0
          ∙ ap (λ (xs : List ℕ). xs ++ arrived rest) held
          ∙ append_assoc (take pos buf) (b ∷ bytes) (arrived rest),
      ih.1,
    )

-- On an established connection, and if each read fits into its slice, read_connection gives exactly
-- the bytes that arrived, in order: with the connection dropped if the stream ended or failed, and
-- otherwise with the connection kept and a wakeup without data counted as spurious.
pub read_connection-arrived :
    (t : TcpTransport) (id : ℕ) (reads : Reads) (conn : Connection)
    → lookup id t.connections ≡ some conn
    → conn.connected ≡ true
    → FitReads t.max_read_size reads
    → read_connection t id reads ≡ (
        if ends reads
        then returned (read_disconnected (arrived reads)) (drop_connection t id)
        else track_spurious_wakeup t (is_nil (arrived reads)) (read_ok (arrived reads)))
unfolding read_connection read_found read_end Outcome
read_connection-arrived t id reads conn e c fit =
    let o = read_loop-Outcome t.max_read_size reads [] 0 fit (omega arith) in
    rw (e, c) (rw (o.1, o.0))
