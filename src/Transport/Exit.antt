-- ===== src/Transport/Exit.antt =====
-- How a method of a transport ends: it returns, it returns an error, or it panics (which aborts
-- the program). Two of the panics are none: `endless_id_search` is a loop that never ends, and
-- `answers_over` a loop that still waits for an answer of a socket when those that are given to it
-- are over. The state that a method leaves comes with the first two.
use rustcomm.Error.{Error, ErrorKind, io, Result, ok, err, ◌>>=◌}

pub data Panic : Type 0 where
  connection_missing listener_missing not_connected no_readiness : Panic
  handshake_data config_missing answers_over : Panic
  too_many_spurious_wakeups empty_resolution slice_out_of_range endless_id_search : Panic

pub data Exit (S A : Type 0) : Type 0 where
  returned : A → S → Exit S A
  raised : Error → S → Exit S A
  panicked : Panic → Exit S A

-- How a call of fetch_events ends; `waiting` is a call that is still in poll() when the answers of
-- the operating system that are given to it are over.
pub data Fetched (S A : Type 0) : Type 0 where
  fetched : Exit S A → Fetched S A
  waiting : S → Fetched S A

module _ {S A B : Type 0} where
  -- `value?` for an io::Result: the error is returned in the state `s`.
  abbrev pub question : Result ErrorKind A → S → (A → Exit S B) → Exit S B
  question (ok a) s next = next a
  question (err e) s next = raised (io e) s

  -- `let a = method(..)?; next`
  abbrev pub after : Exit S A → (A → S → Exit S B) → Exit S B
  after (returned a s) next = next a s
  after (raised e s) next = raised e s
  after (panicked p) next = panicked p

-- A property of the state that a method leaves, however it ends.
abbrev pub Leaves : {S A : Type 0} → (S → Type 0) → Exit S A → Type 0
Leaves P (returned a s) = P s
Leaves P (raised e s) = P s
Leaves P (panicked p) = Unit

-- The state that fetch_events leaves, or in which it still waits.
abbrev pub FetchLeaves : {S A : Type 0} → (S → Type 0) → Fetched S A → Type 0
FetchLeaves P (fetched m) = Leaves P m
FetchLeaves P (waiting t) = P t

pub Leaves-all : {S A : Type 0} (m : Exit S A) → Leaves (λ _. Unit) m
Leaves-all (returned a s) = tt
Leaves-all (raised e s) = tt
Leaves-all (panicked p) = tt

-- Two properties of the state give a third.
pub Leaves-both :
    {S A : Type 0} (P Q R : S → Type 0) (m : Exit S A)
    → ((s : S) → P s → Q s → R s)
    → Leaves P m
    → Leaves Q m
    → Leaves R m
Leaves-both P Q R (returned a s) f p q = f s p q
Leaves-both P Q R (raised e s) f p q = f s p q
Leaves-both P Q R (panicked x) f p q = tt

module _ {S A B : Type 0} (P : S → Type 0) where
  pub Leaves-question :
      (r : Result ErrorKind A) {s : S} (next : A → Exit S B)
      → P s
      → ((a : A) → Leaves P (next a))
      → Leaves P (question r s next)
  Leaves-question (ok a) next h k = k a
  Leaves-question (err e) next h k = h

  pub Leaves-after :
      (m : Exit S A) (next : A → S → Exit S B)
      → Leaves P m
      → ((a : A) (s : S) → P s → Leaves P (next a s))
      → Leaves P (after m next)
  Leaves-after (returned a s) next h k = k a s h
  Leaves-after (raised e s) next h k = h
  Leaves-after (panicked p) next h k = tt

-- The method returns what `P` says, or panics with what `Q` says; it returns no error.
abbrev pub Ends : {S A : Type 0} → (A → S → Type 0) → (Panic → Type 0) → Exit S A → Type 0
Ends P Q (returned a s) = P a s
Ends P Q (raised e s) = ⊥
Ends P Q (panicked p) = Q p

-- The transport after a method, with another view of the state.
abbrev pub on_state : {S T A : Type 0} → (S → T) → Exit S A → Exit T A
on_state f (returned a s) = returned a (f s)
on_state f (raised e s) = raised e (f s)
on_state f (panicked p) = panicked p

-- What a constructor gives, if it succeeds.
abbrev pub Made : {A : Type 0} → (A → Type 0) → Result Error A → Type 0
Made P (ok a) = P a
Made P (err e) = Unit

pub Made->>= :
    {A B : Type 0} (P : B → Type 0) (r : Result Error A) (f : A → Result Error B)
    → ((a : A) → Made P (f a))
    → Made P (r >>= f)
Made->>= P (ok a) f h = h a
Made->>= P (err e) f h = tt
