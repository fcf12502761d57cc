-- ===== src/Tls/WriteLoop.antt =====
-- transport/tls.rs: what the loop of write_connection keeps.
use rustcomm.Prelude.{
  ℕ, ◌+◌, ◌≡◌, refl, inl, inr, Bool, true, false, List, [], ◌∷◌, take, drop, length, ltb, ◌&&◌,
  ◌==◌, Bool-cases, arith,
}
use rustcomm.Error.{ErrorKind, Result, ok, err, would_block, broken_pipe}
use rustcomm.Tcp.State.{Call, wrote}
use rustcomm.Tls.Session.{Session}
use rustcomm.Tls.Write.{WriteLoop, stopped, broken, unanswered, after_tls, after_plain, write_loop}

-- A property of the session, of the position in the buffer and of the calls, when the loop ends.
abbrev pub LoopLeaves : {S : Type 0} → (S → ℕ → List Call → Type 0) → WriteLoop S → Type 0
LoopLeaves P (stopped s pos spurious calls) = P s pos calls
LoopLeaves {S} P (broken calls) = (s : S) × (pos : ℕ) × P s pos calls
LoopLeaves P unanswered = Unit

-- What a call of the loop keeps: when the writer took something, when it took nothing, and when
-- the session wrote to the socket.
pub record StepKeeps {S : Type 0} (session : Session S) (id : ℕ) (encrypts : Bool) (buf : List ℕ)
    (P : S → ℕ → List Call → Type 0) : Type 0 where
  pub wrote_some :
      (s s' : S) (pos sz : ℕ) (calls : List Call)
      → encrypts ≡ true
      → session.write_plain s (drop pos buf) ≡ (ok sz, s')
      → P s pos calls
      → P s' (pos + sz) (wrote id (take sz (drop pos buf)) ∷ calls)
  pub wrote_none :
      (s s' : S) (pos sz : ℕ) (calls : List Call)
      → session.write_plain s (drop pos buf) ≡ (ok sz, s')
      → (sz == 0) ≡ true
      → P s pos calls
      → P s' pos calls
  pub blocked :
      (s s' : S) (pos : ℕ) (calls : List Call)
      → session.write_plain s (drop pos buf) ≡ (err would_block, s')
      → P s pos calls
      → P s' pos calls
  pub flushed :
      (s : S) (answer : Result ErrorKind ℕ) (pos : ℕ) (calls : List Call)
      → P s pos calls
      → P (session.write_tls s answer).1 pos calls

module _ {S : Type 0} (session : Session S) (id : ℕ) (encrypts : Bool) (buf : List ℕ)
    (P : S → ℕ → List Call → Type 0) (keeps : StepKeeps session id encrypts buf P) where
  after_tls-leaves :
      (r : Result ErrorKind ℕ × S) (pos : ℕ) (spurious : Bool) (calls : List Call)
      (again : S → ℕ → Bool → List Call → WriteLoop S)
      → P r.1 pos calls
      → ((b : Bool) → LoopLeaves P (again r.1 pos b calls))
      → LoopLeaves P (after_tls session r pos spurious calls again)
  unfolding after_tls
  after_tls-leaves (ok sz, s) pos spurious calls again h k = elim (Bool-cases (sz == 0)) [
    | inl z ↦ rw z h
    | inr z ↦ rw z (k false)
  ]
  after_tls-leaves (err would_block, s) pos spurious calls again h k = h
  after_tls-leaves (err broken_pipe, s) pos spurious calls again h k = h
  after_tls-leaves (err _, s) pos spurious calls again h k = (s, pos, h)

  -- One write of the session to the socket, and the next round.
  flush-leaves :
      (s : S) (answer : Result ErrorKind ℕ) (pos : ℕ) (spurious : Bool) (calls : List Call)
      (again : S → ℕ → Bool → List Call → WriteLoop S)
      → P s pos calls
      → ((s' : S) (p : ℕ) (b : Bool) (cs : List Call) → P s' p cs → LoopLeaves P (again s' p b cs))
      → LoopLeaves P (after_tls session (session.write_tls s answer) pos spurious calls again)
  flush-leaves s answer pos spurious calls again h k =
      let h' = keeps.flushed s answer pos calls h in
      after_tls-leaves (session.write_tls s answer) pos spurious calls again h'
        λ b. k (session.write_tls s answer).1 pos b calls h'

  after_plain-leaves :
      (s₀ : S) (r : Result ErrorKind ℕ × S) (answer : Result ErrorKind ℕ) (pos : ℕ)
      (spurious : Bool) (calls : List Call) (again : S → ℕ → Bool → List Call → WriteLoop S)
      → encrypts ≡ true
      → session.write_plain s₀ (drop pos buf) ≡ r
      → P s₀ pos calls
      → ((s' : S) (p : ℕ) (b : Bool) (cs : List Call) → P s' p cs → LoopLeaves P (again s' p b cs))
      → LoopLeaves P (after_plain session id buf r answer pos spurious calls again)
  unfolding after_plain
  after_plain-leaves s₀ (ok sz, s) answer pos spurious calls again w e h k =
      elim (Bool-cases (sz == 0)) [
        | inl z ↦ rw z (
            flush-leaves s answer pos spurious calls again
              (keeps.wrote_none s₀ s pos sz calls e z h) k)
        | inr z ↦ rw z (
            flush-leaves s answer (pos + sz) false (wrote id (take sz (drop pos buf)) ∷ calls) again
              (keeps.wrote_some s₀ s pos sz calls w e h) k)
      ]
  after_plain-leaves s₀ (err would_block, s) answer pos spurious calls again w e h k =
      flush-leaves s answer pos spurious calls again (keeps.blocked s₀ s pos calls e h) k
  after_plain-leaves s₀ (err _, s) answer pos spurious calls again w e h k = (s₀, pos, h)

  pub write_loop-leaves :
      (writes : List (Result ErrorKind ℕ)) (s : S) (pos : ℕ) (spurious : Bool) (calls : List Call)
      → P s pos calls
      → LoopLeaves P (write_loop session id encrypts buf writes s pos spurious calls)
  unfolding write_loop
  write_loop-leaves [] s pos spurious calls h = tt
  write_loop-leaves (answer ∷ rest) s pos spurious calls h =
      let again = write_loop session id encrypts buf rest in
      elim (Bool-cases (ltb pos (length buf) && encrypts)) [
        | inl w ↦ rw w (
            after_plain-leaves s (session.write_plain s (drop pos buf)) answer pos spurious calls
              again (ground (arith, w)) refl h (write_loop-leaves rest))
        | inr w ↦ rw w (flush-leaves s answer pos spurious calls again h (write_loop-leaves rest))
      ]
