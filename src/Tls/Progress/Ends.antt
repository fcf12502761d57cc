-- ===== src/Tls/Progress/Ends.antt =====
-- Both loops together.
use rustcomm.Prelude.{ℕ, ◌≡◌, false, Option, List, [], ◌∷◌, ◌++◌, replicate}
use rustcomm.Error.{ErrorKind, would_block, Result, err}
use rustcomm.Tls.Session.{Session}
use rustcomm.Tls.State.{TlsTransport}
use rustcomm.Tls.Read.{read_connection}
use rustcomm.Tls.Write.{write_connection}
use rustcomm.Tls.Progress.{is_unanswered}
use rustcomm.Tls.Progress.Reading.{HoldsBytes, read_connection-ends}
use rustcomm.Tls.Progress.Writing.{TellsBlocked, write_connection-ends}

-- Whatever the socket answers first, read_connection and write_connection do not go on for ever
-- once it would block: the first ends after finitely many such answers, if the session holds
-- finitely many bytes and whoever takes plaintext leaves fewer, and the second at the first such
-- answer, if write_tls tells that the socket would block or that it has nothing to write.
pub loops_end :
    {S X Y : Type 0} (session : Session S) (t : TlsTransport S X Y) (id : ℕ)
    (reads : List (Result ErrorKind (List ℕ))) (take_error : Option ErrorKind)
    (writes : List (Result ErrorKind ℕ))
    → HoldsBytes session
    → TellsBlocked session
    → ((n : ℕ) × (is_unanswered
            (read_connection session t id (reads ++ replicate n (err would_block)))
          ≡ false))
      × (is_unanswered (write_connection session t id take_error (writes ++ err would_block ∷ []))
          ≡ false)
loops_end session t id reads take_error writes holds tells = (
  read_connection-ends session t id holds reads,
  write_connection-ends session t id tells take_error writes,
)
