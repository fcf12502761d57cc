-- ===== src/Message/Incomplete.antt =====
-- When `deserialize_message` waits for more data, and what it reads of the buffer.
use rustcomm.Prelude.{
  ℕ, zero, suc, ◌+◌, ◌^◌, ◌≤◌, ◌<◌, ◌≡◌, refl, ◌∙◌, Option, none, some, List, [], ◌++◌, arith,
  length, take, drop, length-append, length-take, take-append_le,
}
use rustcomm.Error.{Result, ok, err, Error}
use rustcomm.Message.Word.{to_le_bytes, from_le_bytes, from_le_bytes-to_le_bytes}
use rustcomm.Message.Registry.{MessageRegistry, CodecPair, get}
use rustcomm.Message.Frame.{
  Context, read_codec, read_message, read_context, read_payload, deserialize_message, decoded,
  incomplete,
}
use rustcomm.Message.FrameShape.{deserialize_message-whole}

module _ {M C : Type 0} (registry : MessageRegistry M) {msg : M} {ctx : C} {n : ℕ} (size : ℕ) where
  read_codec-size :
      (c : C) (id bytes : List ℕ) (found : Option (CodecPair M))
      → read_codec c size id bytes found ≡ decoded msg ctx n
      → n ≡ size
  unfolding read_codec
  read_codec-size c id bytes none h = cc
  read_codec-size c id bytes (some codec_pair) h = ground arith

  read_message-size :
      (c : C) (rest : List ℕ) → read_message c size registry rest ≡ decoded msg ctx n → n ≡ size
  unfolding read_message
  read_message-size c rest h =
      let k = from_le_bytes (take 4 rest) in
      let id = take k (drop 4 rest) in
      ground (arith, read_codec-size c id (drop (4 + k) rest) (get registry id))

  -- `bytes_read` is always the size of the frame.
  read_context-size :
      (bytes : List ℕ) (r : Result Error (C × ℕ))
      → read_context size registry bytes r ≡ decoded msg ctx n
      → n ≡ size
  unfolding read_context
  read_context-size bytes (ok (c, k)) h = ground (arith, read_message-size c (drop k bytes))
  read_context-size bytes (err e) h = cc

module _ {M C : Type 0} (context : Context C) (registry : MessageRegistry M) where
  -- A message that is decoded takes at least the length prefix, and lies within the buffer.
  pub deserialize_message_bounds :
      (buf : List ℕ) (msg : M) (ctx : C) (n : ℕ)
      → deserialize_message context buf registry ≡ decoded msg ctx n
      → (4 ≤ n) × (n ≤ length buf)
  unfolding deserialize_message read_payload
  deserialize_message_bounds buf msg ctx n h =
      let size = from_le_bytes (take 4 buf) + 4 in
      let payload = drop 4 (take size buf) in
      ground (
        arith,
        read_context-size registry {msg = msg} {ctx = ctx} {n = n} size payload
            (context.deserialize payload),
      )

  -- A buffer that holds its first frame whole is read the same whatever follows.
  pub deserialize_message-append :
      (buf more : List ℕ)
      → 4 ≤ length buf
      → from_le_bytes (take 4 buf) + 4 ≤ length buf
      → deserialize_message context (buf ++ more) registry
        ≡ deserialize_message context buf registry
  unfolding deserialize_message
  deserialize_message-append buf more h k =
      let size = from_le_bytes (take 4 buf) + 4 in
      rw (take-append_le 4 buf more h)
        (rw (take-append_le size buf more k) (ground (arith, length-append buf more)))

  -- Of a frame whose payload has a length that is a u32, a part that lacks at least one byte is not
  -- read: the call asks for more data.
  pub deserialize_message-take :
      (bytes : List ℕ) (n : ℕ)
      → length bytes < 2 ^ 32
      → n < length bytes + 4
      → deserialize_message context (take n (to_le_bytes (length bytes) ++ bytes)) registry
        ≡ incomplete
  unfolding deserialize_message to_le_bytes
  deserialize_message-take bytes zero h k = refl
  deserialize_message-take bytes (suc zero) h k = refl
  deserialize_message-take bytes (suc (suc zero)) h k = refl
  deserialize_message-take bytes (suc (suc (suc zero))) h k = refl
  deserialize_message-take bytes (suc (suc (suc (suc n)))) h k =
      let len : from_le_bytes (take 4 (to_le_bytes (length bytes) ++ take n bytes)) ≡ length bytes =
        from_le_bytes-to_le_bytes (length bytes) [] h in
      rw len (ground (arith, length-take n bytes))

  -- A whole frame whose id would end past the payload is taken for a frame that is cut short, and
  -- no data that follows changes this.
  pub deserialize_message-overlong_id :
      (bytes more : List ℕ) (ctx : C) (k : ℕ)
      → length bytes < 2 ^ 32
      → context.deserialize bytes ≡ ok (ctx, k)
      → k ≤ length bytes
      → length (drop k bytes) < 4 + from_le_bytes (take 4 (drop k bytes))
      → deserialize_message context (to_le_bytes (length bytes) ++ (bytes ++ more)) registry
        ≡ incomplete
  unfolding read_payload read_context read_message
  deserialize_message-overlong_id bytes more ctx k h e within over =
      deserialize_message-whole context registry bytes more h ∙ rw e (ground arith)
