-- ===== src/Message/RoundTrip.antt =====
-- A frame that `serialize_message` writes is read back by `deserialize_message`.
use rustcomm.Prelude.{
  ℕ, ◌+◌, ◌≡◌, ◌∙◌, some, List, [], ◌++◌, arith, length, take, le→ltb, append_assoc, length-append,
  suc, take-append, drop-append,
}
use rustcomm.Message.Word.{to_le_bytes, from_le_bytes, from_le_bytes-to_le_bytes}
use rustcomm.Message.Registry.{Message, MessageRegistry, CodecPair}
use rustcomm.Message.Frame.{
  Context, serialize_message, read_message, read_payload, deserialize_message, decoded,
}
use rustcomm.Message.FrameShape.{
  payload, length-to_le_bytes, frame, Travels, id_fits, serialize_message-frame,
  deserialize_message-whole,
}

module _ {M C : Type 0} (message : Message M) (context : Context C) {registry : MessageRegistry M}
    {msg : M} {ctx : C} {codec_pair : CodecPair M}
    (t : Travels message context registry msg ctx codec_pair) where
  read_message-id :
      (size : ℕ)
      → read_message ctx size registry (
          to_le_bytes (length (message.message_id msg))
          ++ (message.message_id msg ++ codec_pair.serializer msg []))
        ≡ decoded msg ctx size
  unfolding read_message to_le_bytes
  read_message-id size =
      let id = message.message_id msg in
      let body = codec_pair.serializer msg [] in
      let len : from_le_bytes (take 4 (to_le_bytes (length id) ++ (id ++ body))) ≡ length id =
        from_le_bytes-to_le_bytes (length id) [] (id_fits message context t) in
      let four : 4 + length id ≡ suc (suc (suc (suc (length id)))) = omega arith in
      rw (len, four)
        (rw (
          le→ltb (length (to_le_bytes (length id) ++ (id ++ body))) 4 (omega arith),
          le→ltb (length (to_le_bytes (length id) ++ (id ++ body)))
              (suc (suc (suc (suc (length id))))) (omega (arith, length-append id body)),
          take-append id body,
          drop-append id body,
          t.id_is_str,
          t.registered,
          t.body_reads,
        ))

  read_payload-frame :
      (size : ℕ)
      → read_payload context size registry (payload message context msg ctx codec_pair)
        ≡ decoded msg ctx size
  unfolding read_payload
  read_payload-frame size =
      let head = context.serialize_into ctx [] in
      let tail =
        to_le_bytes (length (message.message_id msg))
        ++ (message.message_id msg ++ codec_pair.serializer msg []) in
      rw
        (
          t.context_reads tail,
          le→ltb (length (head ++ tail)) (length head) (omega (arith, length-append head tail)),
          drop-append head tail,
        )
        (read_message-id size)

  pub deserialize_message-frame :
      (rest : List ℕ)
      → deserialize_message context (frame message context msg ctx codec_pair ++ rest) registry
        ≡ decoded msg ctx (length (frame message context msg ctx codec_pair))
  deserialize_message-frame rest =
      let bytes = payload message context msg ctx codec_pair in
      let size : length (to_le_bytes (length bytes) ++ bytes) ≡ length bytes + 4 = omega (
        arith,
        length-append (to_le_bytes (length bytes)) bytes,
        length-to_le_bytes (length bytes),
      ) in
      rw (append_assoc, size)
        (deserialize_message-whole context registry bytes rest t.fits_u32
          ∙ read_payload-frame (length bytes + 4))

  -- A message that travels (its codec is registered, its serializers append, its deserializers undo
  -- them, its id is a str and its payload's length a u32) is serialized, and its bytes are read
  -- back from the front of any buffer that begins with them: the message, its context, and as
  -- bytes_read the number of the bytes.
  pub deserialize-serialize :
      (bytes : List ℕ) × (serialize_message message context msg ctx registry ≡ some bytes)
      × ((rest : List ℕ)
          → deserialize_message context (bytes ++ rest) registry ≡ decoded msg ctx (length bytes))
  deserialize-serialize = (
    frame message context msg ctx codec_pair,
    serialize_message-frame message context t,
    deserialize_message-frame,
  )
