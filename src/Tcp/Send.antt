-- ===== src/Tcp/Send.antt =====
-- transport/tcp.rs: the data operations.
use rustcomm.Prelude.{
  contains, ℕ, Bool, not, Option, none, some, List, [], ◌∷◌, ◌==◌, if◌then◌else◌,
}
use rustcomm.Table.{keys}
use rustcomm.Tcp.State.{TcpTransport, queue_data}

unfoldable pub send_to : TcpTransport → ℕ → List ℕ → TcpTransport
send_to t to_id buf = queue_data t to_id buf

-- slice::split_last, with the last element second
unfoldable pub split_last : List ℕ → Option (List ℕ × ℕ)
split_last [] = none
split_last (x ∷ xs) = elim (split_last xs) [
  | none ↦ some ([], x)
  | some (rest, last) ↦ some (x ∷ rest, last)
]

-- for &to_id in rest { self.queue_data(to_id, buf.clone()) }
unfoldable pub queue_each : TcpTransport → List ℕ → List ℕ → TcpTransport
queue_each t [] buf = t
queue_each t (id ∷ ids) buf = queue_each (queue_data t id buf) ids buf

unfoldable pub queue_split : TcpTransport → List ℕ → Option (List ℕ × ℕ) → TcpTransport
queue_split t buf none = t
queue_split t buf (some (rest, last_id)) = queue_data (queue_each t rest buf) last_id buf

-- The loop that the four operations below share: the last id takes the buffer itself.
unfoldable pub queue_to : TcpTransport → List ℕ → List ℕ → TcpTransport
unfolding queue_split split_last queue_each
queue_to t to_ids buf = queue_split t buf (split_last to_ids)

unfoldable pub send_to_many : TcpTransport → List ℕ → List ℕ → TcpTransport
send_to_many t to_ids buf = queue_to t to_ids buf

unfoldable pub broadcast : TcpTransport → List ℕ → TcpTransport
broadcast t buf = queue_to t (keys t.connections) buf

unfoldable pub keep_if : (ℕ → Bool) → List ℕ → List ℕ
keep_if test [] = []
keep_if test (id ∷ ids) = let rest = keep_if test ids in if test id then id ∷ rest else rest

unfoldable pub broadcast_except : TcpTransport → List ℕ → ℕ → TcpTransport
unfolding keep_if
broadcast_except t buf except_id =
    queue_to t (keep_if (λ id. not (id == except_id)) (keys t.connections)) buf

unfoldable pub broadcast_except_many : TcpTransport → List ℕ → List ℕ → TcpTransport
unfolding keep_if contains
broadcast_except_many t buf except_ids =
    queue_to t (keep_if (λ id. not (contains except_ids id)) (keys t.connections)) buf
