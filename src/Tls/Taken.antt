-- ===== src/Tls/Taken.antt =====
-- transport/tls.rs: the plaintext that a session has taken through writer().write, and what is left
-- of it and of send_buf after a call of write_connection.
use rustcomm.Prelude.{ℕ, ◌≡◌, Bool, false, Option, none, some, List, ◌++◌, take}
use rustcomm.Error.{ErrorKind, Result, ok, err, would_block}
use rustcomm.Tls.Session.{Session}
use rustcomm.Tls.State.{Connection}

-- `taken` is the plaintext that a session has taken in its life: the writer takes a front of what it
-- is given, as long as it says; when it would block it takes nothing, and write_tls takes nothing.
pub record TakesPlain {S : Type 0} (session : Session S) (taken : S → List ℕ) : Type 0 where
  pub takes :
      (s s' : S) (bytes : List ℕ) (n : ℕ)
      → session.write_plain s bytes ≡ (ok n, s')
      → taken s' ≡ taken s ++ take n bytes
  pub blocked :
      (s s' : S) (bytes : List ℕ)
      → session.write_plain s bytes ≡ (err would_block, s')
      → taken s' ≡ taken s
  pub flushed :
      (s : S) (answer : Result ErrorKind ℕ) → taken (session.write_tls s answer).1 ≡ taken s

-- Plaintext goes from the front of send_buf into the session, and only if it `encrypts`.
abbrev pub Took : {S : Type 0} → (S → List ℕ) → Connection S → Bool → Option (Connection S) → Type 0
Took taken old encrypts none = Unit
Took taken old encrypts (some conn) =
    (taken conn.tls_conn ++ conn.send_buf ≡ taken old.tls_conn ++ old.send_buf)
    × (encrypts ≡ false → taken conn.tls_conn ≡ taken old.tls_conn)
