-- ===== src/Tls/Progress/Reading.antt =====
-- The loop of read_connection ends.
use rustcomm.Prelude.{
  ℕ, zero, suc, ◌+◌, ◌≤◌, ◌<◌, ◌≡◌, refl, inl, inr, Bool, true, false, Option, none, some, List, [],
  ◌∷◌, ◌++◌, ◌&&◌, replicate, is_nil, not, take, leb, arith, Bool-cases,
}
use rustcomm.Error.{ErrorKind, would_block, Result, ok, err}
use rustcomm.Table.{lookup}
use rustcomm.Tls.Progress.{is_unanswered}
use rustcomm.Tls.Session.{Session}
use rustcomm.Tls.State.{
  Connection, TlsTransport, is_not_connected, is_tcp_connected, track_spurious_wakeup,
}
use rustcomm.Tls.Read.{
  ReadLoop, ended, unanswered, proceeds, after_plain, after_packets, after_tls, read_loop, read_end,
  read_found, read_connection, completes,
}

-- What the documentation of rustls promises of reading: a session holds finitely many bytes, and
-- neither processing packets nor a read for which the socket would block adds to them; whoever
-- takes plaintext leaves fewer.
pub record HoldsBytes {S : Type 0} (session : Session S) : Type 0 where
  pub held : S → ℕ
  pub blocked : (s : S) → held (session.read_tls s (err would_block)).1 ≤ held s
  pub processed : (s : S) → held (session.process_new_packets s).1 ≤ held s
  pub taken :
      (s s' : S) (n b : ℕ) (bytes : List ℕ)
      → session.read_plain s n ≡ (ok (b ∷ bytes), s')
      → held s' < held s

abbrev HasEnded : {S : Type 0} → ReadLoop S → Type 0
HasEnded (ended s recv_buf recv_pos disconnect spurious) = Unit
HasEnded unanswered = ⊥

-- The loop ends for some number of answers at the end.
abbrev Reaches : {S : Type 0} → (ℕ → ReadLoop S) → Type 0
Reaches f = (n : ℕ) × HasEnded (f n)

module _ {S : Type 0} (session : Session S) (max_read_size : ℕ) where
  after_plain-Reaches :
      (r : Result ErrorKind (List ℕ) × S) (buf : List ℕ) (pos : ℕ) (spurious : Bool)
      (again : ℕ → S → List ℕ → ℕ → Bool → ReadLoop S)
      → ((b : ℕ) (bytes : List ℕ) (s : S)
          → r ≡ (ok (b ∷ bytes), s)
          → (buf' : List ℕ) (pos' : ℕ) → Reaches (λ n. again n s buf' pos' false))
      → Reaches (λ n. after_plain session r buf pos spurious (again n))
  unfolding after_plain
  after_plain-Reaches (ok [], s) buf pos spurious again k = (0, tt)
  after_plain-Reaches (ok (b ∷ bytes), s) buf pos spurious again k = k b bytes s refl _ _
  after_plain-Reaches (err would_block, s) buf pos spurious again k = (0, tt)
  after_plain-Reaches (err _, s) buf pos spurious again k = (0, tt)

  after_packets-Reaches :
      (r : Bool × S) (buf : List ℕ) (pos : ℕ) (spurious : Bool)
      (again : ℕ → S → List ℕ → ℕ → Bool → ReadLoop S)
      → ((b : ℕ) (bytes : List ℕ) (s : S)
          → session.read_plain r.1 max_read_size ≡ (ok (b ∷ bytes), s)
          → (buf' : List ℕ) (pos' : ℕ) → Reaches (λ n. again n s buf' pos' false))
      → Reaches (λ n. after_packets session max_read_size r buf pos spurious (again n))
  unfolding after_packets
  after_packets-Reaches (false, s) buf pos spurious again k = (0, tt)
  after_packets-Reaches (true, s) buf pos spurious again k =
      after_plain-Reaches (session.read_plain s max_read_size) _ pos spurious again k

  after_tls-Reaches :
      (o : Option Bool) (s : S) (buf : List ℕ) (pos : ℕ) (old : Bool)
      (again : ℕ → S → List ℕ → ℕ → Bool → ReadLoop S)
      → ((b : ℕ) (bytes : List ℕ) (s' : S)
          → session.read_plain (session.process_new_packets s).1 max_read_size
            ≡ (ok (b ∷ bytes), s')
          → (buf' : List ℕ) (pos' : ℕ) → Reaches (λ n. again n s' buf' pos' false))
      → Reaches (λ n. after_tls session max_read_size o s buf pos (again n) old)
  unfolding after_tls
  after_tls-Reaches none s buf pos old again k = (0, tt)
  after_tls-Reaches (some spurious) s buf pos old again k =
      after_packets-Reaches (session.process_new_packets s) buf pos spurious again k

  module _ (holds : HoldsBytes session) where
    -- Once the socket would block, with more answers than bytes that the session holds.
    blocked-ends :
        (fuel : ℕ) (s : S) (buf : List ℕ) (pos : ℕ) (spurious : Bool)
        → holds.held s < fuel
        → HasEnded
            (read_loop session max_read_size (replicate fuel (err would_block)) s buf pos spurious)
    unfolding read_loop
    blocked-ends zero s buf pos spurious h = absurd (omega (arith, h))
    blocked-ends (suc fuel) s buf pos spurious h =
        let (r, s') = session.read_tls s (err would_block) in
        let next = session.process_new_packets s' in
        (after_tls-Reaches (proceeds r spurious) s' buf pos spurious
          (λ n. read_loop session max_read_size (replicate fuel (err would_block)))
          λ b bytes s'' e buf' pos'. (
            0,
            blocked-ends fuel s'' buf' pos' false (
                omega (
                  arith,
                  h,
                  holds.blocked s,
                  holds.processed s',
                  holds.taken next.1 s'' max_read_size b bytes e,
                )),
          )).1

    read_loop-ends :
        (answers : List (Result ErrorKind (List ℕ))) (s : S) (buf : List ℕ) (pos : ℕ)
        (spurious : Bool)
        → Reaches (λ n.
          read_loop session max_read_size
            (answers ++ replicate n (err would_block))
            s
            buf
            pos
            spurious)
    unfolding read_loop
    read_loop-ends [] s buf pos spurious =
        (suc (holds.held s), blocked-ends (suc (holds.held s)) s buf pos spurious (omega arith))
    read_loop-ends (answer ∷ rest) s buf pos spurious =
        let (r, s') = session.read_tls s answer in
        after_tls-Reaches (proceeds r spurious) s' buf pos spurious
          (λ n. read_loop session max_read_size (rest ++ replicate n (err would_block)))
          λ b bytes s'' e buf' pos'. read_loop-ends rest s'' buf' pos' false

pub track-answered :
    {S X Y A : Type 0} (t : TlsTransport S X Y) (b : Bool) (a : A)
    → is_unanswered (track_spurious_wakeup t b a) ≡ false
unfolding track_spurious_wakeup
track-answered t true a = elim (Bool-cases (leb (t.spurious_wakeups + 1) t.max_spurious_wakeups)) [
  | inl e ↦ rw e refl
  | inr e ↦ rw e refl
]
track-answered t false a = refl

module _ {S X Y : Type 0} (session : Session S) (t : TlsTransport S X Y) (id : ℕ) where
  read_end-answered :
      (conn : Connection S) (l : ReadLoop S)
      → HasEnded l
      → is_unanswered (read_end session t id conn l) ≡ false
  unfolding read_end
  read_end-answered conn unanswered h = absurd h
  read_end-answered conn (ended s recv_buf recv_pos true spurious) h = ground (arith)
  read_end-answered conn (ended s recv_buf recv_pos false spurious) h =
      let now = record conn { tls_conn = s } in
      elim (Bool-cases (completes session now)) [
        | inl c ↦ rw c (track-answered _ spurious _)
        | inr c ↦
            elim (Bool-cases
              (is_tcp_connected conn.connected && not (is_nil (take recv_pos recv_buf)))) [
                | inl d ↦ rw (c, d) refl
                | inr d ↦ rw (c, d) (track-answered _ spurious _)
              ]
      ]

  read_found-ends :
      HoldsBytes session
      → (answers : List (Result ErrorKind (List ℕ))) (o : Option (Connection S))
      → (n : ℕ) × (is_unanswered
            (read_found session t id (answers ++ replicate n (err would_block)) o)
          ≡ false)
  unfolding read_found
  read_found-ends holds answers none = (0, refl)
  read_found-ends holds answers (some conn) =
      let (n, e) = read_loop-ends session t.max_read_size holds answers conn.tls_conn [] 0 true in
      (
        n,
        elim (Bool-cases (is_not_connected conn.connected)) [
          | inl c ↦ rw c refl
          | inr c ↦ rw c (read_end-answered conn _ e)
        ],
      )

  pub read_connection-ends :
      HoldsBytes session
      → (answers : List (Result ErrorKind (List ℕ)))
      → (n : ℕ) × (is_unanswered
            (read_connection session t id (answers ++ replicate n (err would_block)))
          ≡ false)
  unfolding read_connection
  read_connection-ends holds answers = read_found-ends holds answers (lookup id t.connections)
