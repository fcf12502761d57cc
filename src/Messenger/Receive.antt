-- ===== src/Messenger/Receive.antt =====
-- messenger/mod.rs, fetch_events: the loop that takes the messages out of a receive buffer.
use rustcomm.Prelude.{
  ℕ, zero, suc, ◌+◌, Bool, true, false, List, [], ◌∷◌, ◌++◌, length, drop, is_nil, ltb,
  if◌then◌else◌,
}
use rustcomm.Message.Registry.{MessageRegistry}
use rustcomm.Message.Frame.{
  Context, Decoded, decoded, incomplete, failed, out_of_range, deserialize_message,
}

-- The loop's outcome: the messages, recv_pos and had_error; or the panic of deserialize_message.
pub data Parsed (M C : Type 0) : Type 0 where
  parsed : List (M × C) → ℕ → Bool → Parsed M C
  parse_panic : Parsed M C

module _ {M C : Type 0} where
  unfoldable pub parse_one :
      Decoded M C → List (M × C) → ℕ → (List (M × C) → ℕ → Parsed M C) → Parsed M C
  parse_one (decoded msg ctx bytes_read) out recv_pos again =
      again (out ++ (msg, ctx) ∷ []) (recv_pos + bytes_read)
  parse_one incomplete out recv_pos again = parsed out recv_pos false
  parse_one (failed e) out recv_pos again = parsed out recv_pos true
  parse_one out_of_range out recv_pos again = parse_panic

  -- while recv_pos < recv_buf.len(), on fuel
  unfoldable pub parse_loop :
      Context C → MessageRegistry M → List ℕ → ℕ → List (M × C) → ℕ → Parsed M C
  unfolding parse_one
  parse_loop context registry recv_buf zero out recv_pos = parsed out recv_pos false
  parse_loop context registry recv_buf (suc fuel) out recv_pos =
      if ltb recv_pos (length recv_buf)
      then parse_one (deserialize_message context (drop recv_pos recv_buf) registry) out recv_pos
          (parse_loop context registry recv_buf fuel)
      else parsed out recv_pos false

  -- Each message takes a byte at least, so as many rounds as there are bytes are enough.
  unfoldable pub parse : Context C → MessageRegistry M → List ℕ → Parsed M C
  unfolding parse_loop
  parse context registry recv_buf = parse_loop context registry recv_buf (length recv_buf) [] 0

-- The buffer takes over the bytes if it is empty, and is extended by them otherwise.
unfoldable pub extended : List ℕ → List ℕ → List ℕ
extended recv_buf bytes = if is_nil recv_buf then bytes else recv_buf ++ bytes
