-- ===== src/Tls/Progress/Writing.antt =====
-- The loop of write_connection ends.
use rustcomm.Prelude.{
  ℕ, ◌+◌, ◌≡◌, refl, inl, inr, Bool, true, false, Option, none, some, List, [], ◌∷◌, ◌++◌, ◌&&◌,
  ◌==◌, take, drop, ltb, length, Bool-cases,
}
use rustcomm.Error.{ErrorKind, would_block, broken_pipe, Result, ok, err}
use rustcomm.Table.{lookup}
use rustcomm.Tcp.State.{Call, wrote}
use rustcomm.Tls.Session.{Session}
use rustcomm.Tls.State.{Connection, TlsTransport, is_tls_connected}
use rustcomm.Tls.Write.{
  WriteLoop, stopped, broken, unanswered, after_tls, after_plain, write_loop, establish, write_end,
  write_established, write_found, write_connection,
}
use rustcomm.Tls.Progress.{is_unanswered}
use rustcomm.Tls.Progress.Reading.{track-answered}

-- What the documentation of rustls promises of writing: where the socket would block, write_tls says
-- so, or that it had nothing to write.
abbrev pub is_blocked : Result ErrorKind ℕ → Bool
is_blocked (ok sz) = sz == 0
is_blocked (err would_block) = true
is_blocked (err _) = false

abbrev pub TellsBlocked : {S : Type 0} → Session S → Type 0
TellsBlocked {S} session = (s : S) → is_blocked (session.write_tls s (err would_block)).0 ≡ true

abbrev HasEnded : {S : Type 0} → WriteLoop S → Type 0
HasEnded (stopped s send_pos spurious calls) = Unit
HasEnded (broken calls) = Unit
HasEnded unanswered = ⊥

module _ {S : Type 0} (session : Session S) (tells : TellsBlocked session) (id : ℕ)
    (encrypts : Bool) (buf : List ℕ) where
  after_tls-blocked :
      (r : Result ErrorKind ℕ × S) (pos : ℕ) (spurious : Bool) (calls : List Call)
      (again : S → ℕ → Bool → List Call → WriteLoop S)
      → is_blocked r.0 ≡ true
      → HasEnded (after_tls session r pos spurious calls again)
  unfolding after_tls
  after_tls-blocked (ok sz, s) pos spurious calls again h = rw h tt
  after_tls-blocked (err would_block, s) pos spurious calls again h = tt
  after_tls-blocked (err _, s) pos spurious calls again h = cc

  after_tls-ends :
      (r : Result ErrorKind ℕ × S) (pos : ℕ) (spurious : Bool) (calls : List Call)
      (again : S → ℕ → Bool → List Call → WriteLoop S)
      → ((s : S) → HasEnded (again s pos false calls))
      → HasEnded (after_tls session r pos spurious calls again)
  unfolding after_tls
  after_tls-ends (ok sz, s) pos spurious calls again k = elim (Bool-cases (sz == 0)) [
    | inl z ↦ rw z tt
    | inr z ↦ rw z (k s)
  ]
  after_tls-ends (err would_block, s) pos spurious calls again k = tt
  after_tls-ends (err broken_pipe, s) pos spurious calls again k = tt
  after_tls-ends (err _, s) pos spurious calls again k = tt

  -- Writing plaintext comes to the write to the socket, or fails.
  after_plain-ends :
      (r : Result ErrorKind ℕ × S) (answer : Result ErrorKind ℕ) (pos : ℕ) (spurious : Bool)
      (calls : List Call) (again : S → ℕ → Bool → List Call → WriteLoop S)
      → ((s : S) (pos' : ℕ) (b : Bool) (calls' : List Call)
          → HasEnded (after_tls session (session.write_tls s answer) pos' b calls' again))
      → HasEnded (after_plain session id buf r answer pos spurious calls again)
  unfolding after_plain
  after_plain-ends (ok sz, s) answer pos spurious calls again k = elim (Bool-cases (sz == 0)) [
    | inl z ↦ rw z (k s pos spurious calls)
    | inr z ↦ rw z (k s (pos + sz) false (wrote id (take sz (drop pos buf)) ∷ calls))
  ]
  after_plain-ends (err would_block, s) answer pos spurious calls again k = k s pos spurious calls
  after_plain-ends (err _, s) answer pos spurious calls again k = tt

  round-ends :
      (answer : Result ErrorKind ℕ) (rest : List (Result ErrorKind ℕ)) (s : S) (pos : ℕ)
      (spurious : Bool) (calls : List Call)
      → ((s : S) (pos : ℕ) (b : Bool) (calls : List Call)
          → HasEnded (
              after_tls session
                (session.write_tls s answer)
                pos
                b
                calls
                (write_loop session id encrypts buf rest)))
      → HasEnded (write_loop session id encrypts buf (answer ∷ rest) s pos spurious calls)
  unfolding write_loop
  round-ends answer rest s pos spurious calls k =
      elim (Bool-cases (ltb pos (length buf) && encrypts)) [
        | inl w ↦ rw w (
            after_plain-ends (session.write_plain s (drop pos buf)) answer pos spurious calls
              (write_loop session id encrypts buf rest) k)
        | inr w ↦ rw w (k s pos spurious calls)
      ]

  write_loop-ends :
      (answers : List (Result ErrorKind ℕ)) (s : S) (pos : ℕ) (spurious : Bool) (calls : List Call)
      → HasEnded (
          write_loop session id encrypts buf (answers ++ err would_block ∷ []) s pos spurious calls)
  write_loop-ends [] s pos spurious calls =
      round-ends (err would_block) [] s pos spurious calls λ s' pos' b calls'.
        after_tls-blocked (session.write_tls s' (err would_block)) pos' b calls' _ (tells s')
  write_loop-ends (answer ∷ rest) s pos spurious calls =
      round-ends answer (rest ++ err would_block ∷ []) s pos spurious calls λ s' pos' b calls'.
        after_tls-ends (session.write_tls s' answer) pos' b calls' _
          λ s''. write_loop-ends rest s'' pos' false calls'

module _ {S X Y : Type 0} (session : Session S) (t : TlsTransport S X Y) (id : ℕ) where
  write_end-answered :
      (old conn : Connection S) (l : WriteLoop S)
      → HasEnded l
      → is_unanswered (write_end session t id old conn l) ≡ false
  unfolding write_end
  write_end-answered old conn (stopped s pos spurious calls) h =
      elim (Bool-cases (ltb (length conn.send_buf) pos)) [
        | inl o ↦ rw o refl
        | inr o ↦ rw o (track-answered _ spurious _)
      ]
  write_end-answered old conn (broken calls) h = refl
  write_end-answered old conn unanswered h = absurd h

  write_established-answered :
      (old : Connection S) (answers : List (Result ErrorKind ℕ)) (o : Option (Connection S × Bool))
      → TellsBlocked session
      → is_unanswered (write_established session t id old (answers ++ err would_block ∷ []) o)
        ≡ false
  unfolding write_established
  write_established-answered old answers none tells = refl
  write_established-answered old answers (some (conn, spurious)) tells =
      write_end-answered old conn _ (
        write_loop-ends session tells id (is_tls_connected conn.connected) conn.send_buf answers
          conn.tls_conn 0 spurious t.calls)

  write_found-answered :
      (take_error : Option ErrorKind) (answers : List (Result ErrorKind ℕ))
      (o : Option (Connection S))
      → TellsBlocked session
      → is_unanswered (write_found session t id take_error (answers ++ err would_block ∷ []) o)
        ≡ false
  unfolding write_found
  write_found-answered take_error answers none tells = refl
  write_found-answered take_error answers (some conn) tells =
      write_established-answered conn answers (establish session conn take_error) tells

  pub write_connection-ends :
      TellsBlocked session
      → (take_error : Option ErrorKind) (answers : List (Result ErrorKind ℕ))
      → is_unanswered (write_connection session t id take_error (answers ++ err would_block ∷ []))
        ≡ false
  unfolding write_connection
  write_connection-ends tells take_error answers =
      write_found-answered take_error answers (lookup id t.connections) tells
