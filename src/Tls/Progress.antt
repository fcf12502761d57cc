-- ===== src/Tls/Progress.antt =====
-- transport/tls.rs: the loops of read_connection and write_connection end once the socket would
-- block.
pub mod Reading
pub mod Writing
pub mod Ends
use rustcomm.Prelude.{Bool, true, false}
use rustcomm.Transport.Exit.{Exit, returned, raised, panicked, answers_over}

-- The call still waits for an answer of the socket.
abbrev pub is_unanswered : {S A : Type 0} → Exit S A → Bool
is_unanswered (panicked answers_over) = true
is_unanswered _ = false
