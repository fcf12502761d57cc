-- ===== src/Tls/Stream.antt =====
-- transport/tls.rs: the plaintext of a connection: what its session took, and what waits in send_buf.
use rustcomm.Prelude.{
  ℕ, ◌≡◌, ◌∙◌, refl, ap, inl, inr, Bool, true, false, Option, none, some, List, [], ◌++◌, drop,
  length, ltb, ◌==◌, ==_refl, Bool-cases, arith, ◌+◌, append_assoc, append-nil, drop-drop,
  take-append-drop,
}
use rustcomm.Error.{ErrorKind, Result, ok}
use rustcomm.Table.{lookup, is_some, lookup-insert}
use rustcomm.Transport.Exit.{Ends}
use rustcomm.Tcp.State.{Call, reregister_if_changed}
use rustcomm.Tcp.Stream.{sent}
use rustcomm.Tcp.Stream.Sending.{sent-reregister_if_changed}
use rustcomm.Tcp.Stream.Writing.{sent_step}
use rustcomm.Tls.Session.{Session}
use rustcomm.Tls.State.{
  Connection, TlsTransport, tcp_connected, is_not_connected, is_tls_connected, put_connection,
  drop_connection,
}
use rustcomm.Tls.Read.{settle}
use rustcomm.Tls.Write.{
  WriteLoop, stopped, broken, unanswered, write_loop, establish, write_end, write_established,
  write_found, write_connection,
}
use rustcomm.Tls.Taken.{TakesPlain, Took}
use rustcomm.Tls.WriteLoop.{LoopLeaves, write_loop-leaves}
use rustcomm.Tls.Handshake.{is_write_panic, track-Ends, drop-gone}

abbrev pub pending : {S : Type 0} → Option (Connection S) → List ℕ
pending none = []
pending (some conn) = conn.send_buf

abbrev pub stream : {S X Y : Type 0} → TlsTransport S X Y → ℕ → List ℕ
stream t id = sent t.calls id ++ pending (lookup id t.connections)

-- The sessions of other ids took nothing.
abbrev pub OthersSent : ℕ → List Call → List Call → Type 0
OthersSent id before calls = (j : ℕ) → (j == id) ≡ false → sent calls j ≡ sent before j

-- A call that has `buf` to send, to the session only if it `encrypts`.
abbrev pub Delivered :
    {S X Y : Type 0} → TlsTransport S X Y → ℕ → Bool → TlsTransport S X Y → Type 0
Delivered t id encrypts t' =
    (is_some (lookup id t'.connections) ≡ true → stream t' id ≡ stream t id)
    × OthersSent id t.calls t'.calls
    × (encrypts ≡ false → sent t'.calls id ≡ sent t.calls id)

-- What the loop keeps of a session that began with the plaintext `had`.
abbrev Sends :
    {S : Type 0}
    → (S → List ℕ)
    → ℕ
    → Bool
    → List ℕ
    → List Call
    → List ℕ
    → S
    → ℕ
    → List Call
    → Type 0
Sends taken id encrypts buf before had s pos calls =
    (sent calls id ++ drop pos buf ≡ sent before id ++ buf)
    × OthersSent id before calls
    × (encrypts ≡ false → sent calls id ≡ sent before id)
    × (taken s ++ drop pos buf ≡ had ++ buf)
    × (encrypts ≡ false → taken s ≡ had)

module _ {S : Type 0} (session : Session S) (taken : S → List ℕ)
    (takes : TakesPlain session taken) where
  taken_step :
      (s s' : S) (pos sz : ℕ) (buf : List ℕ)
      → session.write_plain s (drop pos buf) ≡ (ok sz, s')
      → taken s' ++ drop (pos + sz) buf ≡ taken s ++ drop pos buf
  taken_step s s' pos sz buf e =
      rw (takes.takes s s' (drop pos buf) sz e, append_assoc, ← drop-drop) (rw take-append-drop)

  taken_none :
      (s s' : S) (buf : List ℕ) (sz : ℕ)
      → session.write_plain s buf ≡ (ok sz, s')
      → (sz == 0) ≡ true
      → taken s' ≡ taken s
  taken_none s s' buf sz e z =
      let zero : sz ≡ 0 = ground (arith, z) in
      takes.takes s s' buf sz e ∙ rw zero (append-nil (taken s))

  write_loop-Sends :
      (id : ℕ) (encrypts : Bool) (buf : List ℕ) (writes : List (Result ErrorKind ℕ)) (s : S)
      (spurious : Bool) (before : List Call)
      → LoopLeaves
          (Sends taken id encrypts buf before (taken s))
          (write_loop session id encrypts buf writes s 0 spurious before)
  unfolding sent
  write_loop-Sends id encrypts buf writes s spurious before =
      write_loop-leaves session id encrypts buf (Sends taken id encrypts buf before (taken s))
        (record {
          wrote_some = λ s₁ s₂ pos sz calls w r (a, o, f, g, k). (
            sent_step id sz pos buf calls ∙ a,
            λ j n. ground (arith, o j n),
            λ q. cc,
            taken_step s₁ s₂ pos sz buf r ∙ g,
            λ q. cc,
          );
          wrote_none = λ s₁ s₂ pos sz calls r z (a, o, f, g, k).
              let same = taken_none s₁ s₂ (drop pos buf) sz r z in
              (a, o, f, ap (λ x. x ++ drop pos buf) same ∙ g, λ q. same ∙ k q);
          blocked = λ s₁ s₂ pos calls r (a, o, f, g, k).
              let same = takes.blocked s₁ s₂ (drop pos buf) r in
              (a, o, f, ap (λ x. x ++ drop pos buf) same ∙ g, λ q. same ∙ k q);
          flushed = λ s₁ answer pos calls (a, o, f, g, k).
              let same = takes.flushed s₁ answer in
              (a, o, f, ap (λ x. x ++ drop pos buf) same ∙ g, λ q. same ∙ k q);
        })
        writes s 0 spurious before (refl, λ j n. refl, λ f. refl, refl, λ f. refl)

settle-send_buf :
    {S : Type 0} (session : Session S) (conn : Connection S)
    → (settle session conn).send_buf ≡ conn.send_buf
unfolding settle
settle-send_buf session conn = ground arith

settle-tls_conn :
    {S : Type 0} (session : Session S) (conn : Connection S)
    → (settle session conn).tls_conn ≡ conn.tls_conn
unfolding settle
settle-tls_conn session conn = ground arith

module _ {S X Y : Type 0} (session : Session S) (taken : S → List ℕ)
    (takes : TakesPlain session taken) (t : TlsTransport S X Y) (id : ℕ) (old : Connection S)
    (e : lookup id t.connections ≡ some old) where
  -- What a writable event does to the plaintext, by the calls and by the session.
  abbrev Moves : Bool → TlsTransport S X Y → Type 0
  Moves encrypts t' =
      Delivered t id encrypts t' × Took taken old encrypts (lookup id t'.connections)

  dropped :
      (encrypts : Bool) (calls : List Call)
      → OthersSent id t.calls calls
      → (encrypts ≡ false → sent calls id ≡ sent t.calls id)
      → Moves encrypts (drop_connection (record t { calls = calls }) id)
  unfolding drop_connection sent
  dropped encrypts calls o f =
      let gone = drop-gone (record t { calls = calls }) id in ((λ h. cc gone, o, f), rw gone tt)

  kept :
      (encrypts : Bool) (now : Connection S) (pos : ℕ) (calls : List Call) (n : ℕ)
      → now.send_buf ≡ drop pos old.send_buf
      → Sends taken id encrypts old.send_buf t.calls (taken old.tls_conn) now.tls_conn pos calls
      → Moves encrypts
          (record (put_connection (record t { calls = calls }) id old (settle session now)) {
            spurious_wakeups = n;
          })
  unfolding put_connection
  kept encrypts now pos calls n b (a, o, f, g, k) =
      let same : (j : ℕ)
          → sent (reregister_if_changed id old.interest (settle session now).interest calls) j
            ≡ sent calls j =
        λ j. sent-reregister_if_changed id j old.interest (settle session now).interest calls in
      (
        (
          λ _. rw (lookup-insert, ==_refl id, same id, settle-send_buf session now, b, e) a,
          λ j d. same j ∙ o j d,
          λ q. same id ∙ f q,
        ),
        rw (lookup-insert, ==_refl id)
            (
              rw (settle-tls_conn session now, settle-send_buf session now, b) g,
              λ q. rw (settle-tls_conn session now) (k q),
            ),
      )

  write_end-Moves :
      (encrypts : Bool) (conn : Connection S) (l : WriteLoop S)
      → conn.send_buf ≡ old.send_buf
      → LoopLeaves (Sends taken id encrypts old.send_buf t.calls (taken old.tls_conn)) l
      → Ends
          (λ r t'. Moves encrypts t')
          (λ p. is_write_panic p ≡ true)
          (write_end session t id old conn l)
  unfolding write_end
  write_end-Moves encrypts conn unanswered b h = refl
  write_end-Moves encrypts conn (broken calls) b (s, pos, (a, o, f, g, k)) =
      dropped encrypts calls o f
  write_end-Moves encrypts conn (stopped s pos spurious calls) b h =
      let now = record conn { tls_conn = s; send_buf = drop pos conn.send_buf } in
      elim (Bool-cases (ltb (length conn.send_buf) pos)) [
        | inl o ↦ rw o refl
        | inr o ↦ rw o (
            track-Ends (λ r t'. Moves encrypts t') (λ p. is_write_panic p ≡ true) _ spurious _
              (λ n. kept encrypts now pos calls n (ap (drop pos) b) h) refl)
      ]

  established-Moves :
      (writes : List (Result ErrorKind ℕ)) (take_error : Option ErrorKind)
      → is_not_connected old.connected ≡ true
      → Ends
          (λ r t'. Moves (is_tls_connected old.connected) t')
          (λ p. is_write_panic p ≡ true)
          (write_established session t id old writes (establish session old take_error))
  unfolding write_established establish
  established-Moves writes none c =
      let early : is_tls_connected old.connected ≡ false = ground (arith, c) in
      rw (c, early)
        (write_end-Moves false (record old { connected = tcp_connected }) _ refl
          (write_loop-Sends session taken takes id false old.send_buf writes old.tls_conn false
            t.calls))
  established-Moves writes (some kind) c =
      rw c (dropped (is_tls_connected old.connected) t.calls (λ j d. refl) (λ f. refl))

  write_established-Moves :
      (writes : List (Result ErrorKind ℕ)) (take_error : Option ErrorKind)
      → Ends
          (λ r t'. Moves (is_tls_connected old.connected) t')
          (λ p. is_write_panic p ≡ true)
          (write_established session t id old writes (establish session old take_error))
  unfolding write_established establish
  write_established-Moves writes take_error = elim (Bool-cases (is_not_connected old.connected)) [
    | inl c ↦ established-Moves writes take_error c
    | inr c ↦ rw c (
        write_end-Moves (is_tls_connected old.connected) old _ refl (
          write_loop-Sends session taken takes id (is_tls_connected old.connected) old.send_buf
            writes old.tls_conn true t.calls))
  ]

-- A writable event moves plaintext from the front of a connection's send_buf into its session, for
-- any account of the plaintext that a session has taken which agrees with the calls of its writer
-- and of write_tls. While the connection is kept, what its session has taken and what waits in
-- send_buf are together the same bytes in the same order as before, and the calls record the same;
-- before the handshake is complete the session takes nothing; the calls record nothing for other
-- connections; and the call returns no error, and panics only when the answers of the socket are
-- over, when the session takes more than it is given, or after too many wakeups for nothing.
pub write_connection-Delivered :
    {S X Y : Type 0} (session : Session S) (taken : S → List ℕ) (takes : TakesPlain session taken)
    (t : TlsTransport S X Y) (id : ℕ) (take_error : Option ErrorKind)
    (writes : List (Result ErrorKind ℕ)) (conn : Connection S)
    → lookup id t.connections ≡ some conn
    → Ends
        (λ r t'.
          Delivered t id (is_tls_connected conn.connected) t'
          × Took taken conn (is_tls_connected conn.connected) (lookup id t'.connections))
        (λ p. is_write_panic p ≡ true)
        (write_connection session t id take_error writes)
unfolding write_connection write_found
write_connection-Delivered session taken takes t id take_error writes conn e =
    let served : write_connection session t id take_error writes
        ≡ write_established session t id conn writes (establish session conn take_error) =
      simp e refl in
    rw served (write_established-Moves session taken takes t id conn e writes take_error)
