-- ===== src/Tls/Invariant/Writing.antt =====
-- write_connection keeps the invariant.
use rustcomm.Prelude.{
  ℕ, ◌≡◌, refl, inl, inr, Bool, true, false, Option, none, some, List, ◌∷◌, take, drop, length, ltb,
  Option-cases, Bool-cases,
}
use rustcomm.Error.{ErrorKind, Result}
use rustcomm.Table.{lookup}
use rustcomm.Transport.Exit.{Leaves}
use rustcomm.Tcp.State.{wrote}
use rustcomm.Tcp.Invariant.Opening.{wrote-IsConsistent}
use rustcomm.Tls.Session.{Session}
use rustcomm.Tls.State.{Connection, TlsTransport, tcp_connected, is_not_connected, is_tls_connected}
use rustcomm.Tls.Plain.{plain}
use rustcomm.Tls.Write.{
  WriteLoop, stopped, broken, unanswered, write_loop, establish, write_end, write_established,
  write_found, write_connection,
}
use rustcomm.Tls.Invariant.Reading.{settled-IsSound}
use rustcomm.Tls.WriteLoop.{LoopLeaves, write_loop-leaves}
use rustcomm.Tls.Invariant.Defs.{IsSound}
use rustcomm.Tls.Invariant.Steps.{
  lookup-plain, drop_connection-IsSound, track_spurious_wakeup-IsSound,
}

module _ {S X Y : Type 0} (session : Session S) where
  wrote-IsSound :
      (t : TlsTransport S X Y) (id : ℕ) (bytes : List ℕ) (conn : Connection S)
      → IsSound session t
      → lookup id t.connections ≡ some conn
      → IsSound session (record t { calls = wrote id bytes ∷ t.calls })
  wrote-IsSound t id bytes conn h e = record {
    consistent =
        wrote-IsConsistent (plain t) id bytes h.consistent (rw (lookup-plain session t id e) refl);
    sessions = record { flushing = h.flushing; configured = h.configured };
  }

  module _ (t : TlsTransport S X Y) (id : ℕ) (conn : Connection S)
      (e : lookup id t.connections ≡ some conn) where
    write_loop-IsSound :
        (encrypts : Bool) (buf : List ℕ) (writes : List (Result ErrorKind ℕ)) (s : S)
        (spurious : Bool)
        → IsSound session t
        → LoopLeaves
            (λ s pos calls. IsSound session (record t { calls = calls }))
            (write_loop session id encrypts buf writes s 0 spurious t.calls)
    write_loop-IsSound encrypts buf writes s spurious h =
        write_loop-leaves session id encrypts buf
          (λ s pos calls. IsSound session (record t { calls = calls }))
          (record {
            wrote_some = λ s s' pos sz calls w r k.
                wrote-IsSound (record t { calls = calls }) id (take sz (drop pos buf)) conn k e;
            wrote_none = λ s s' pos sz calls r z k. k;
            blocked = λ s s' pos calls r k. k;
            flushed = λ s answer pos calls k. k;
          })
          writes s 0 spurious t.calls h

    write_end-IsSound :
        (now : Connection S) (l : WriteLoop S)
        → is_not_connected now.connected ≡ false
        → LoopLeaves (λ s pos calls. IsSound session (record t { calls = calls })) l
        → Leaves (IsSound session) (write_end session t id conn now l)
    unfolding write_end
    write_end-IsSound now (stopped s pos spurious calls) c h =
        elim (Bool-cases (ltb (length now.send_buf) pos)) [
          | inl o ↦ rw o tt
          | inr o ↦ rw o (
              track_spurious_wakeup-IsSound session _ spurious _ (
                settled-IsSound session (record t { calls = calls }) id conn
                  (record now { tls_conn = s; send_buf = drop pos now.send_buf }) h e c))
        ]
    write_end-IsSound now (broken calls) c h =
        drop_connection-IsSound session (record t { calls = calls }) id conn h.2 e
    write_end-IsSound now unanswered c h = tt

    establish-IsSound :
        (writes : List (Result ErrorKind ℕ)) (take_error : Option ErrorKind)
        → IsSound session t
        → is_not_connected conn.connected ≡ true
        → Leaves
            (IsSound session)
            (write_established session t id conn writes (establish session conn take_error))
    unfolding write_established establish
    establish-IsSound writes none h c = rw c (
        write_end-IsSound (record conn { connected = tcp_connected }) _ refl
          (write_loop-IsSound false conn.send_buf writes conn.tls_conn false h))
    establish-IsSound writes (some kind) h c = rw c (drop_connection-IsSound session t id conn h e)

    write_established-IsSound :
        (writes : List (Result ErrorKind ℕ)) (take_error : Option ErrorKind)
        → IsSound session t
        → Leaves
            (IsSound session)
            (write_established session t id conn writes (establish session conn take_error))
    unfolding write_established establish
    write_established-IsSound writes take_error h =
        elim (Bool-cases (is_not_connected conn.connected)) [
          | inl c ↦ establish-IsSound writes take_error h c
          | inr c ↦ rw c (
              write_end-IsSound conn _ c (
                write_loop-IsSound (is_tls_connected conn.connected) conn.send_buf writes
                  conn.tls_conn true h))
        ]

  pub write_connection-IsSound :
      (t : TlsTransport S X Y) (id : ℕ) (take_error : Option ErrorKind)
      (writes : List (Result ErrorKind ℕ))
      → IsSound session t
      → Leaves (IsSound session) (write_connection session t id take_error writes)
  unfolding write_connection write_found
  write_connection-IsSound t id take_error writes h =
      elim (Option-cases (lookup id t.connections)) [
        | inl e ↦ simp e tt
        | inr (conn, e) ↦ simp e (write_established-IsSound t id conn e writes take_error h)
      ]
