-- ===== src/Tls/Send.antt =====
-- transport/tls.rs: the data operations.
use rustcomm.Prelude.{contains, ℕ, not, Option, none, some, List, [], ◌∷◌, ◌==◌}
use rustcomm.Table.{keys}
use rustcomm.Tcp.Send.{split_last, keep_if}
use rustcomm.Tls.State.{TlsTransport, queue_data}

module _ {S X Y : Type 0} where
  unfoldable pub send_to : TlsTransport S X Y → ℕ → List ℕ → TlsTransport S X Y
  send_to t to_id buf = queue_data t to_id buf

  -- for &to_id in rest { self.queue_data(to_id, buf.clone()) }
  unfoldable pub queue_each : TlsTransport S X Y → List ℕ → List ℕ → TlsTransport S X Y
  queue_each t [] buf = t
  queue_each t (id ∷ ids) buf = queue_each (queue_data t id buf) ids buf

  unfoldable pub queue_split :
      TlsTransport S X Y → List ℕ → Option (List ℕ × ℕ) → TlsTransport S X Y
  queue_split t buf none = t
  queue_split t buf (some (rest, last_id)) = queue_data (queue_each t rest buf) last_id buf

  -- The loop that the four operations below share: the last id takes the buffer itself.
  unfoldable pub queue_to : TlsTransport S X Y → List ℕ → List ℕ → TlsTransport S X Y
  unfolding queue_split split_last queue_each
  queue_to t to_ids buf = queue_split t buf (split_last to_ids)

  unfoldable pub send_to_many : TlsTransport S X Y → List ℕ → List ℕ → TlsTransport S X Y
  send_to_many t to_ids buf = queue_to t to_ids buf

  unfoldable pub broadcast : TlsTransport S X Y → List ℕ → TlsTransport S X Y
  broadcast t buf = queue_to t (keys t.connections) buf

  unfoldable pub broadcast_except : TlsTransport S X Y → List ℕ → ℕ → TlsTransport S X Y
  unfolding keep_if
  broadcast_except t buf except_id =
      queue_to t (keep_if (λ id. not (id == except_id)) (keys t.connections)) buf

  unfoldable pub broadcast_except_many : TlsTransport S X Y → List ℕ → List ℕ → TlsTransport S X Y
  unfolding keep_if contains
  broadcast_except_many t buf except_ids =
      queue_to t (keep_if (λ id. not (contains except_ids id)) (keys t.connections)) buf
