-- ===== src/Message/Frame.antt =====
-- messenger/message.rs: serialize_message and deserialize_message.
use rustcomm.Prelude.{
  ℕ, ◌+◌, ◌-◌, ◌%◌, ◌^◌, Option, none, some, List, ◌++◌, length, take, drop, replicate, overwrite,
  ltb, if◌then◌else◌,
}
use rustcomm.Error.{Error, malformed_data, unknown_message_id, Result, ok, err}
use rustcomm.Message.Word.{to_le_bytes, from_le_bytes}
use rustcomm.Message.Utf8.{valid_utf8}
use rustcomm.Message.Registry.{Message, MessageRegistry, CodecPair, get}

abbrev pub frame_size_bytes : ℕ
frame_size_bytes = 4

-- The trait Context: bytes that travel in front of the message id.
pub record Context (C : Type 0) : Type 0 where
  pub serialize_into : C → List ℕ → List ℕ
  pub deserialize : List ℕ → Result Error (C × ℕ)

pub data EmptyContext : Type 0 where
  empty_context : EmptyContext

-- impl Context for EmptyContext
abbrev pub empty_context_impl : Context EmptyContext
empty_context_impl = record {
  serialize_into = λ c buf. buf;
  deserialize = λ buf. ok (empty_context, 0);
}

-- DeserializeResult: `Ok(Some(..))`, `Ok(None)` and `Err(..)`; `out_of_range` is the panic of a slice.
pub data Decoded (M C : Type 0) : Type 0 where
  decoded : M → C → ℕ → Decoded M C
  incomplete : Decoded M C
  failed : Error → Decoded M C
  out_of_range : Decoded M C

module _ {M C : Type 0} (message : Message M) (context : Context C) where
  -- `none` is the panic of the subtraction or the slice, when a serializer has shortened the buffer.
  unfoldable pub fill : M → C → CodecPair M → Option (List ℕ)
  unfolding to_le_bytes
  fill msg ctx codec_pair =
      let msg_id = message.message_id msg in
      let buf = replicate frame_size_bytes 0 in
      let buf = context.serialize_into ctx buf in
      let buf = buf ++ to_le_bytes (length msg_id % 2 ^ 32) in
      let buf = buf ++ msg_id in
      let buf = codec_pair.serializer msg buf in
      let payload_len = (length buf - frame_size_bytes) % 2 ^ 32 in
      if ltb (length buf) frame_size_bytes
      then none
      else some (overwrite 0 (to_le_bytes payload_len) buf)

  -- `none` is the panic "Message not registered".
  fill_known : M → C → Option (CodecPair M) → Option (List ℕ)
  fill_known msg ctx none = none
  fill_known msg ctx (some codec_pair) = fill msg ctx codec_pair

  unfoldable pub serialize_message : M → C → MessageRegistry M → Option (List ℕ)
  unfolding fill_known
  serialize_message msg ctx registry = fill_known msg ctx (get registry (message.message_id msg))

module _ {M C : Type 0} where
  -- What the deserializer of the codec returned.
  read_body : C → ℕ → Result Error M → Decoded M C
  read_body ctx frame_size (ok msg) = decoded msg ctx frame_size
  read_body ctx frame_size (err e) = failed e

  -- What the registry has for the id.
  unfoldable pub read_codec : C → ℕ → List ℕ → List ℕ → Option (CodecPair M) → Decoded M C
  unfolding read_body
  read_codec ctx frame_size msg_id msg_data none = failed (unknown_message_id msg_id)
  read_codec ctx frame_size msg_id msg_data (some codec_pair) =
      read_body ctx frame_size (codec_pair.deserializer msg_data)

  unfoldable pub read_message : C → ℕ → MessageRegistry M → List ℕ → Decoded M C
  unfolding read_codec
  read_message ctx frame_size registry remaining_payload =
      let msg_id_len = from_le_bytes (take 4 remaining_payload) in
      let msg_id = take msg_id_len (drop 4 remaining_payload) in
      let msg_data = drop (4 + msg_id_len) remaining_payload in
      if ltb (length remaining_payload) 4
      then incomplete
      else if ltb (length remaining_payload) (4 + msg_id_len)
      then incomplete
      else if valid_utf8 msg_id
      then read_codec ctx frame_size msg_id msg_data (get registry msg_id)
      else failed malformed_data

  -- What the context's deserializer returned.
  unfoldable pub read_context : ℕ → MessageRegistry M → List ℕ → Result Error (C × ℕ) → Decoded M C
  read_context frame_size registry payload (err e) = failed e
  read_context frame_size registry payload (ok (ctx, ctx_bytes)) =
      if ltb (length payload) ctx_bytes
      then out_of_range
      else read_message ctx frame_size registry (drop ctx_bytes payload)

  unfoldable pub read_payload : Context C → ℕ → MessageRegistry M → List ℕ → Decoded M C
  unfolding read_context
  read_payload context frame_size registry payload =
      read_context frame_size registry payload (context.deserialize payload)

  unfoldable pub deserialize_message : Context C → List ℕ → MessageRegistry M → Decoded M C
  deserialize_message context buf registry =
      let payload_len = from_le_bytes (take frame_size_bytes buf) in
      let frame_size = payload_len + frame_size_bytes in
      if ltb (length buf) frame_size_bytes
      then incomplete
      else if ltb (length buf) frame_size
      then incomplete
      else read_payload context frame_size registry (drop frame_size_bytes (take frame_size buf))
