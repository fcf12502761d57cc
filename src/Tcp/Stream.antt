-- ===== src/Tcp/Stream.antt =====
-- transport/tcp.rs: the byte stream of a connection: what its socket took since it was registered,
-- and what waits in send_buf.
pub mod Sending
pub mod Writing
use rustcomm.Prelude.{ℕ, ◌≡◌, refl, Option, none, some, List, [], ◌∷◌, ◌++◌, ◌==◌, if◌then◌else◌}
use rustcomm.Table.{lookup}
use rustcomm.Transport.Types.{Interest}
use rustcomm.Tcp.State.{
  Connection, TcpTransport, Call, register, reregister, deregister, shutdown, wrote,
  reregister_if_changed,
}

unfoldable pub sent : List Call → ℕ → List ℕ
sent [] id = []
sent (register j i ∷ calls) id = if j == id then [] else sent calls id
sent (wrote j bytes ∷ calls) id =
    let before = sent calls id in if j == id then before ++ bytes else before
sent (reregister j i ∷ calls) id = sent calls id
sent (deregister j ∷ calls) id = sent calls id
sent (shutdown j how ∷ calls) id = sent calls id

abbrev pub pending : Option Connection → List ℕ
pending none = []
pending (some conn) = conn.send_buf

abbrev pub stream : TcpTransport → ℕ → List ℕ
stream t id = sent t.calls id ++ pending (lookup id t.connections)
