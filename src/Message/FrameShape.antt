-- ===== src/Message/FrameShape.antt =====
-- The bytes of a frame: what `serialize_message` writes, and which part of a buffer
-- `deserialize_message` reads.
use rustcomm.Prelude.{
  ℕ, suc, ◌+◌, ◌%◌, ◌^◌, ◌<◌, ◌≡◌, refl, ap, some, true, false, ltb, List, [], ◌++◌, arith, length,
  take, replicate, le→ltb, append_assoc, length-append, take-append,
}
use rustcomm.Error.{ok}
use rustcomm.Message.Word.{to_le_bytes, from_le_bytes, from_le_bytes-to_le_bytes}
use rustcomm.Message.Utf8.{valid_utf8}
use rustcomm.Message.Registry.{Message, MessageRegistry, CodecPair, get}
use rustcomm.Message.Frame.{Context, fill, serialize_message, read_payload, deserialize_message}

pub length-to_le_bytes : (n : ℕ) → length (to_le_bytes n) ≡ 4
unfolding to_le_bytes
length-to_le_bytes n = refl

module _ {M C : Type 0} (message : Message M) (context : Context C) where
  -- The payload: context, length of the id, id, body.
  abbrev pub payload : M → C → CodecPair M → List ℕ
  payload msg ctx codec_pair =
      context.serialize_into ctx []
      ++ (to_le_bytes (length (message.message_id msg))
          ++ (message.message_id msg ++ codec_pair.serializer msg []))

  abbrev pub frame : M → C → CodecPair M → List ℕ
  frame msg ctx codec_pair =
      to_le_bytes (length (payload msg ctx codec_pair)) ++ payload msg ctx codec_pair

  -- What the layer asks of a message, its context and its codec: the codec is registered under the
  -- id, both serializers append to the buffer, both deserializers undo them, the id is a `str`, and
  -- the payload's length is a u32.
  pub record Travels (registry : MessageRegistry M) (msg : M) (ctx : C) (codec_pair : CodecPair M)
      : Type 0 where
    pub registered : get registry (message.message_id msg) ≡ some codec_pair
    pub context_appends :
        (buf : List ℕ) → context.serialize_into ctx buf ≡ buf ++ context.serialize_into ctx []
    pub context_reads :
        (rest : List ℕ)
        → context.deserialize (context.serialize_into ctx [] ++ rest)
          ≡ ok (ctx, length (context.serialize_into ctx []))
    pub body_appends :
        (buf : List ℕ) → codec_pair.serializer msg buf ≡ buf ++ codec_pair.serializer msg []
    pub body_reads : codec_pair.deserializer (codec_pair.serializer msg []) ≡ ok msg
    pub id_is_str : valid_utf8 (message.message_id msg) ≡ true
    pub fits_u32 : length (payload msg ctx codec_pair) < 2 ^ 32

  module _ {registry : MessageRegistry M} {msg : M} {ctx : C} {codec_pair : CodecPair M}
      (t : Travels registry msg ctx codec_pair) where
    pub id_fits : length (message.message_id msg) < 2 ^ 32
    id_fits = omega (
      arith,
      t.fits_u32,
      length-append (context.serialize_into ctx []) (
          to_le_bytes (length (message.message_id msg))
          ++ (message.message_id msg ++ codec_pair.serializer msg [])),
      length-append (to_le_bytes (length (message.message_id msg)))
          (message.message_id msg ++ codec_pair.serializer msg []),
      length-append (message.message_id msg) (codec_pair.serializer msg []),
    )

    written :
        codec_pair.serializer msg (
          context.serialize_into ctx (replicate 4 0)
          ++ to_le_bytes (length (message.message_id msg) % 2 ^ 32)
          ++ message.message_id msg)
        ≡ replicate 4 0 ++ payload msg ctx codec_pair
    written =
        let small : length (message.message_id msg) % 2 ^ 32 ≡ length (message.message_id msg) =
          omega (arith, id_fits) in
        rw (small, t.body_appends, t.context_appends) (simp append_assoc)

    -- The reserved length prefix is filled in with the payload's length.
    pub fill-frame : fill message context msg ctx codec_pair ≡ some (frame msg ctx codec_pair)
    unfolding fill
    fill-frame =
        let long : ltb (length (replicate 4 0 ++ payload msg ctx codec_pair)) 4 ≡ false =
          le→ltb _ 4 (omega (arith, length-append (replicate 4 0) (payload msg ctx codec_pair))) in
        rw (written, long)
          (ap (λ n. some (to_le_bytes n ++ payload msg ctx codec_pair)) (omega (arith, t.fits_u32)))

    pub serialize_message-frame :
        serialize_message message context msg ctx registry ≡ some (frame msg ctx codec_pair)
    unfolding serialize_message
    serialize_message-frame = rw (t.registered, serialize_message) fill-frame

module _ {M C : Type 0} (context : Context C) (registry : MessageRegistry M) where
  -- A buffer that begins with a whole frame is read up to the end of that frame, and no further.
  pub deserialize_message-whole :
      (bytes rest : List ℕ)
      → length bytes < 2 ^ 32
      → deserialize_message context (to_le_bytes (length bytes) ++ (bytes ++ rest)) registry
        ≡ read_payload context (length bytes + 4) registry bytes
  unfolding deserialize_message to_le_bytes
  deserialize_message-whole bytes rest h =
      let len : from_le_bytes (take 4 (to_le_bytes (length bytes) ++ (bytes ++ rest)))
          ≡ length bytes =
        from_le_bytes-to_le_bytes (length bytes) [] h in
      let size : length bytes + 4 ≡ suc (suc (suc (suc (length bytes)))) = omega arith in
      rw (len, size)
        (rw (
          le→ltb (length (to_le_bytes (length bytes) ++ (bytes ++ rest))) 4 (omega arith),
          le→ltb (length (to_le_bytes (length bytes) ++ (bytes ++ rest)))
              (suc (suc (suc (suc (length bytes))))) (omega (arith, length-append bytes rest)),
          take-append bytes rest,
        ))
