-- ===== src/Tcp/Batch.antt =====
-- What fetch_events returns: never nothing, and `Inactive` only when there is nothing to wait for.
use rustcomm.Prelude.{
  ℕ, ◌≡◌, refl, ◌⊎◌, inl, inr, Bool, true, false, ◌&&◌, ◌||◌, List, [], ◌∷◌, ◌++◌, map, arith,
  is_nil, contains, ◌==◌, Bool-cases,
}
use rustcomm.Error.{ErrorKind, Result, ok, err}
use rustcomm.Table.{Table, contains_key, is_empty}
use rustcomm.Transport.Types.{TransportEvent, inactive, connected}
use rustcomm.Transport.Exit.{Fetched, fetched, waiting, Exit, returned, raised, panicked, after}
use rustcomm.Tcp.State.{TcpTransport, wake_id}
use rustcomm.Tcp.Read.{ReadConnectionResult, read_ok, read_disconnected, read_connection}
use rustcomm.Tcp.Write.{
  WriteConnectionResult, write_ok, write_connected, write_disconnected, write_connection,
}
use rustcomm.Tcp.Write
use rustcomm.Tcp.Accept.{accept_connections}
use rustcomm.Tcp.Requests.{process_interface_requests}
use rustcomm.Tcp.Events.{
  PollEvent, Progress, push_data, after_write, handle_writable, after_read, handle_connection,
  handle_event, handle_events, Round, RoundEnd, done, go_on, poll_round, fetch_round, fetch_next,
  fetch_events,
}

abbrev pub is_inactive : TransportEvent → Bool
is_inactive inactive = true
is_inactive _ = false

abbrev pub has_inactive : List TransportEvent → Bool
has_inactive [] = false
has_inactive (e ∷ events) = is_inactive e || has_inactive events

-- A property of what a method returns.
abbrev Yields : {S A : Type 0} → (A → S → Type 0) → Exit S A → Type 0
Yields P (returned a s) = P a s
Yields P (raised e s) = Unit
Yields P (panicked p) = Unit

Yields-after :
    {S A B : Type 0} (P : B → S → Type 0) (Q : A → S → Type 0) (m : Exit S A)
    (next : A → S → Exit S B)
    → Yields Q m
    → ((a : A) (s : S) → Q a s → Yields P (next a s))
    → Yields P (after m next)
Yields-after P Q (returned a s) next q k = k a s q
Yields-after P Q (raised e s) next q k = tt
Yields-after P Q (panicked p) next q k = tt

anything : {S A : Type 0} (m : Exit S A) → Yields (λ _ _. Unit {0}) m
anything (returned a s) = tt
anything (raised e s) = tt
anything (panicked p) = tt

abbrev Calm : Progress → TcpTransport → Type 0
Calm p t = has_inactive p.dispatch_events ≡ false

has_inactive-append :
    (xs ys : List TransportEvent)
    → has_inactive xs ≡ false
    → has_inactive ys ≡ false
    → has_inactive (xs ++ ys) ≡ false
has_inactive-append [] ys h k = k
has_inactive-append (x ∷ xs) ys h k = ground (arith, has_inactive-append xs ys)

has_inactive-map : (ids : List ℕ) → has_inactive (map connected ids) ≡ false
has_inactive-map [] = refl
has_inactive-map (id ∷ ids) = has_inactive-map ids

after_write-Calm :
    (p : Progress) (id : ℕ) (r : WriteConnectionResult) (t : TcpTransport)
    → Calm p t
    → Calm (after_write p id r) t
unfolding after_write
after_write-Calm p id write_ok t h = h
after_write-Calm p id write_connected t h = has_inactive-append p.dispatch_events _ h refl
after_write-Calm p id write_disconnected t h = has_inactive-append p.dispatch_events _ h refl
after_write-Calm p id Write.connection_failed t h = has_inactive-append p.dispatch_events _ h refl

push_data-Calm :
    (p : Progress) (id : ℕ) (bytes : List ℕ) (t : TcpTransport)
    → Calm p t
    → Calm (push_data p id bytes) t
push_data-Calm p id [] t h = h
push_data-Calm p id (b ∷ bytes) t h = has_inactive-append p.dispatch_events _ h refl

handle_writable-Calm :
    (t : TcpTransport) (e : PollEvent) (p : Progress)
    → Calm p t
    → Yields Calm (handle_writable t e p)
unfolding handle_writable
handle_writable-Calm t e p h = elim (Bool-cases e.is_writable) [
  | inl w ↦ rw w (
      Yields-after Calm (λ _ _. Unit) (write_connection t e.token e.take_error e.writes) _
        (anything (write_connection t e.token e.take_error e.writes))
        λ r t' _. after_write-Calm p e.token r t' h)
  | inr w ↦ rw w h
]

after_read-Calm :
    (e : PollEvent) (p : Progress) (r : ReadConnectionResult) (t : TcpTransport)
    → Calm p t
    → Yields Calm (after_read e p r t)
unfolding after_read
after_read-Calm e p (read_ok bytes) t h =
    handle_writable-Calm t e (push_data p e.token bytes) (push_data-Calm p e.token bytes t h)
after_read-Calm e p (read_disconnected bytes) t h =
    has_inactive-append (push_data p e.token bytes).dispatch_events _
      (push_data-Calm p e.token bytes t h) refl

handle_connection-Calm :
    (t : TcpTransport) (e : PollEvent) (p : Progress)
    → Calm p t
    → Yields Calm (handle_connection t e p)
unfolding handle_connection
handle_connection-Calm t e p h = elim (Bool-cases e.is_readable) [
  | inl r ↦ rw r (
      Yields-after Calm (λ _ _. Unit) (read_connection t e.token e.reads) (after_read e p)
        (anything (read_connection t e.token e.reads))
        λ result t' _. after_read-Calm e p result t' h)
  | inr r ↦ rw r (handle_writable-Calm t e p h)
]

accepted-Calm :
    (t : TcpTransport) (e : PollEvent) (p : Progress)
    → Calm p t
    → Yields Calm (
        after (accept_connections t e.token e.accepts) (λ new_conn_ids t'.
          returned
            (record p { dispatch_events = p.dispatch_events ++ map connected new_conn_ids })
            t'))
accepted-Calm t e p h =
    Yields-after Calm (λ _ _. Unit) (accept_connections t e.token e.accepts) _
      (anything (accept_connections t e.token e.accepts))
      λ ids t' _. has_inactive-append p.dispatch_events _ h (has_inactive-map ids)

handle_event-Calm :
    (t : TcpTransport) (e : PollEvent) (p : Progress) → Calm p t → Yields Calm (handle_event t e p)
unfolding handle_event
handle_event-Calm t e p h = elim (Bool-cases (e.token == wake_id)) [
  | inl c ↦ rw c h
  | inr c ↦ rw c (elim (Bool-cases (contains_key e.token t.listeners)) [
    | inl l ↦ rw l (accepted-Calm t e p h)
    | inr l ↦ rw l (elim (Bool-cases (contains p.disconnected_ids e.token)) [
      | inl d ↦ rw d h
      | inr d ↦ rw d (elim (Bool-cases (contains_key e.token t.connections)) [
        | inr k ↦ rw k tt
        | inl k ↦ rw k (elim (Bool-cases (e.is_readable || e.is_writable)) [
          | inr r ↦ rw r tt
          | inl r ↦ rw r (handle_connection-Calm t e p h)
        ])
      ])
    ])
  ])
]

handle_events-Calm :
    (t : TcpTransport) (events : List PollEvent) (p : Progress)
    → Calm p t
    → Yields Calm (handle_events t events p)
unfolding handle_events
handle_events-Calm t [] p h = h
handle_events-Calm t (e ∷ rest) p h =
    Yields-after Calm Calm (handle_event t e p) _ (handle_event-Calm t e p h)
      λ p' t' h'. handle_events-Calm t' rest p' h'

-- Either `Inactive` alone, with no connections and no listeners; or some events, without `Inactive`.
abbrev pub Batch : List TransportEvent → TcpTransport → Type 0
Batch events t =
    ((events ≡ inactive ∷ []) × (t.connections ≡ []) × (t.listeners ≡ []))
    ⊎ ((is_nil events ≡ false) × (has_inactive events ≡ false))

abbrev RoundGives : RoundEnd → TcpTransport → Type 0
RoundGives (done events) t = Batch events t
RoundGives go_on t = Unit

is_empty-nil {ℓ} : {V : Type ℓ} (m : Table V) → is_empty m ≡ true → m ≡ []
unfolding is_empty
is_empty-nil [] h = refl
is_empty-nil (e ∷ m) h = cc

poll_round-Gives :
    (t : TcpTransport) (polled : Result ErrorKind (List PollEvent))
    → Yields RoundGives (poll_round t polled)
unfolding poll_round
poll_round-Gives t (err kind) = tt
poll_round-Gives t (ok events) =
    Yields-after RoundGives Calm
      (handle_events t events (record { dispatch_events = []; disconnected_ids = [] })) _
      (handle_events-Calm t events (record { dispatch_events = []; disconnected_ids = [] }) refl)
      λ p t' h. elim (Bool-cases (is_nil p.dispatch_events)) [
        | inl n ↦ rw n tt
        | inr n ↦ rw n (inr (n, h))
      ]

fetch_round-Gives : (t : TcpTransport) (r : Round) → Yields RoundGives (fetch_round t r)
unfolding fetch_round
fetch_round-Gives t r =
    Yields-after RoundGives (λ _ _. Unit) (process_interface_requests t r.requests) _
      (anything (process_interface_requests t r.requests))
      λ _ t' _. elim (Bool-cases (is_empty t'.connections && is_empty t'.listeners)) [
        | inl n ↦ rw n (
            inl (
              refl,
              is_empty-nil t'.connections (ground arith),
              is_empty-nil t'.listeners (ground arith),
            ))
        | inr n ↦ rw n (poll_round-Gives t' r.polled)
      ]

-- What a call that returns events returns.
abbrev pub FetchGives : Fetched TcpTransport (List TransportEvent) → Type 0
FetchGives (fetched (returned events t)) = Batch events t
FetchGives (fetched (raised e t)) = Unit
FetchGives (fetched (panicked p)) = Unit
FetchGives (waiting t) = Unit

fetch_next-Gives :
    (m : Exit TcpTransport RoundEnd)
    (again : TcpTransport → Fetched TcpTransport (List TransportEvent))
    → Yields RoundGives m
    → ((t : TcpTransport) → FetchGives (again t))
    → FetchGives (fetch_next m again)
unfolding fetch_next
fetch_next-Gives (returned (done events) t) again h k = h
fetch_next-Gives (returned go_on t) again h k = k t
fetch_next-Gives (raised e t) again h k = tt
fetch_next-Gives (panicked p) again h k = tt

-- When fetch_events returns events, these are either Inactive alone, and then the transport has no
-- connections and no listeners; or at least one event and no Inactive.
pub fetch_events-Gives :
    (t : TcpTransport) (rounds : List Round) → FetchGives (fetch_events t rounds)
unfolding fetch_events
fetch_events-Gives t [] = tt
fetch_events-Gives t (r ∷ rest) =
    fetch_next-Gives (fetch_round t r) _ (fetch_round-Gives t r) λ t'. fetch_events-Gives t' rest
