-- ===== src/Tls/Invariant/Reading.antt =====
-- read_connection keeps the invariant.
use rustcomm.Prelude.{
  ℕ, ◌≡◌, ◌&&◌, not, inl, inr, true, false, some, List, is_nil, arith, take, Option-cases,
  Bool-cases,
}
use rustcomm.Error.{ErrorKind, Result}
use rustcomm.Table.{lookup}
use rustcomm.Transport.Exit.{Leaves}
use rustcomm.Tcp.Invariant.Defs.{is_served}
use rustcomm.Tls.Session.{Session}
use rustcomm.Tls.State.{
  Connection, TlsTransport, is_not_connected, is_tcp_connected, put_connection,
}
use rustcomm.Tls.Plain.{plain_connection}
use rustcomm.Tls.Read.{
  ReadLoop, ended, unanswered, settle, completes, read_end, read_found, read_connection,
}
use rustcomm.Tls.Invariant.Defs.{is_flushing, IsSound}
use rustcomm.Tls.Invariant.Steps.{
  drop_connection-IsSound, put_connection-IsSound, track_spurious_wakeup-IsSound,
}

module _ {S : Type 0} (session : Session S) where
  pub settle_served :
      (conn : Connection S)
      → is_not_connected conn.connected ≡ false
      → is_served (plain_connection (settle session conn)) ≡ true
  unfolding settle
  settle_served conn c = ground arith

  pub settle_flushing : (conn : Connection S) → is_flushing session (settle session conn) ≡ true
  unfolding settle
  settle_flushing conn = ground arith

  module _ {X Y : Type 0} (t : TlsTransport S X Y) (id : ℕ) where
    pub settled-IsSound :
        (old conn : Connection S)
        → IsSound session t
        → lookup id t.connections ≡ some old
        → is_not_connected conn.connected ≡ false
        → IsSound session (put_connection t id old (settle session conn))
    settled-IsSound old conn h e c =
        put_connection-IsSound session t id old (settle session conn) h e (settle_served conn c)
          (settle_flushing conn)

    read_end-IsSound :
        (conn : Connection S) (l : ReadLoop S)
        → IsSound session t
        → lookup id t.connections ≡ some conn
        → is_not_connected conn.connected ≡ false
        → Leaves (IsSound session) (read_end session t id conn l)
    unfolding read_end
    read_end-IsSound conn unanswered h e c = tt
    read_end-IsSound conn (ended s recv_buf recv_pos true spurious) h e c =
        let dropped = drop_connection-IsSound session t id conn h e in
        elim (Bool-cases (is_tcp_connected conn.connected)) [
          | inl p ↦ elim (Bool-cases (is_nil (take recv_pos recv_buf))) [
            | inl q ↦ rw (p, q) dropped
            | inr q ↦ rw (p, q) tt
          ]
          | inr p ↦ rw p dropped
        ]
    read_end-IsSound conn (ended s recv_buf recv_pos false spurious) h e c =
        let now = record conn { tls_conn = s } in
        let kept = settled-IsSound conn now h e c in
        elim (Bool-cases (completes session now)) [
          | inl p ↦ rw p (track_spurious_wakeup-IsSound session _ spurious _ kept)
          | inr p ↦
              elim (Bool-cases
                (is_tcp_connected conn.connected && not (is_nil (take recv_pos recv_buf)))) [
                  | inl q ↦ rw (p, q) tt
                  | inr q ↦ rw (p, q) (track_spurious_wakeup-IsSound session _ spurious _ kept)
                ]
        ]

    pub read_connection-IsSound :
        (reads : List (Result ErrorKind (List ℕ)))
        → IsSound session t
        → Leaves (IsSound session) (read_connection session t id reads)
    unfolding read_connection read_found
    read_connection-IsSound reads h = elim (Option-cases (lookup id t.connections)) [
      | inl e ↦ simp e tt
      | inr (conn, e) ↦ elim (Bool-cases (is_not_connected conn.connected)) [
        | inl c ↦ simp (e, c) tt
        | inr c ↦ simp (e, c) (read_end-IsSound conn _ h e c)
      ]
    ]
