-- ===== src/Messenger/Stalled.antt =====
-- A frame whose id would end past its payload: the connection is read no more.
use rustcomm.Prelude.{
  ℕ, ◌+◌, ◌^◌, ◌≤◌, ◌<◌, ◌≡◌, refl, ap, ◌∙◌, false, List, [], ◌∷◌, ◌++◌, map, length, take, drop,
  append-nil, append_assoc, ==_refl,
}
use mathlib.Core.List.{flatten}
use rustcomm.Error.{ok}
use rustcomm.Table.{lookup, insert, lookup-insert}
use rustcomm.Transport.Types.{TransportEvent}
use rustcomm.Transport.Exit.{returned}
use rustcomm.Transport.Impl.{TransportImpl}
use rustcomm.Message.Word.{to_le_bytes, from_le_bytes}
use rustcomm.Message.Registry.{MessageRegistry}
use rustcomm.Message.Frame.{Context, deserialize_message, incomplete}
use rustcomm.Message.Incomplete.{deserialize_message-overlong_id}
use rustcomm.Messenger.Receive.{parsed, parse, extended}
use rustcomm.Messenger.Steps.{parse_loop-incomplete}
use rustcomm.Messenger.State.{Messenger}
use rustcomm.Messenger.Fetch.{buffer, data_end, on_data, prepend, and_then, dispatch}
use rustcomm.Messenger.Delivery.{extended-append}

module _ {M C T W : Type 0} (context : Context C) (impl : TransportImpl T W) where
  parse-incomplete :
      (registry : MessageRegistry M) (buf : List ℕ)
      → deserialize_message {M = M} context buf registry ≡ incomplete
      → parse context registry buf ≡ parsed [] 0 false
  unfolding parse
  parse-incomplete registry buf e = parse_loop-incomplete context registry [] buf (length buf) [] e

  -- A receive buffer that begins with a whole frame, whose payload the context reads, and whose id
  -- would end past the payload, gives no message and no error, whatever pieces follow: it only
  -- grows by them, and the transport is not touched.
  pub dispatch-stalled :
      (m : Messenger M T) (id : ℕ) (bytes more : List ℕ) (ctx : C) (k : ℕ) (pieces : List (List ℕ))
      → length bytes < 2 ^ 32
      → context.deserialize bytes ≡ ok (ctx, k)
      → k ≤ length bytes
      → length (drop k bytes) < 4 + from_le_bytes (take 4 (drop k bytes))
      → buffer (lookup id m.recv_buffers) ≡ to_le_bytes (length bytes) ++ (bytes ++ more)
      → (m' : Messenger M T) × (dispatch impl context m (map (TransportEvent.received id) pieces)
          ≡ returned [] m')
        × (buffer (lookup id m'.recv_buffers)
            ≡ to_le_bytes (length bytes) ++ (bytes ++ (more ++ flatten pieces)))
        × (m'.transport ≡ m.transport)
  unfolding dispatch flatten and_then prepend on_data data_end
  dispatch-stalled m id bytes more ctx k [] h e within over held =
      (m, refl, rw append-nil held, refl)
  dispatch-stalled m id bytes more ctx k (piece ∷ pieces) h e within over held =
      let whole = to_le_bytes (length bytes) ++ (bytes ++ (more ++ piece)) in
      let m₁ : Messenger M T = record m { recv_buffers = insert id whole m.recv_buffers } in
      let grown : extended (buffer (lookup id m.recv_buffers)) piece ≡ whole =
        extended-append (buffer (lookup id m.recv_buffers)) piece
        ∙ ap (λ (b : List ℕ). b ++ piece) held
        ∙ append_assoc (to_le_bytes (length bytes)) (bytes ++ more) piece
        ∙ ap (◌++◌ (to_le_bytes (length bytes))) (append_assoc bytes more piece) in
      let ih =
        dispatch-stalled m₁ id bytes (more ++ piece) ctx k pieces h e within over
          (rw (lookup-insert, ==_refl id)) in
      let stuck = parse-incomplete m.registry whole (
        deserialize_message-overlong_id context m.registry bytes (more ++ piece) ctx k h e within
          over) in
      (ih.0, rw (grown, stuck) (ap (prepend impl context []) ih.1), rw append_assoc at ih.2, ih.3)
