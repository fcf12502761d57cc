-- ===== src/Message/Registry.antt =====
-- messenger/registry.rs: codecs by message id. The HashMap is an association list.
use rustcomm.Prelude.{
  ℕ, ◌≡◌, refl, ◌↔◌, Bool, true, false, ◌&&◌, Option, none, some, List, [], ◌∷◌, arith, ◌==◌,
  if◌then◌else◌,
}
use rustcomm.Error.{Error, Result}

-- The trait Message: what the layer needs of a message is its id.
pub record Message (M : Type 0) : Type 0 where
  pub message_id : M → List ℕ

pub record CodecPair (M : Type 0) : Type 0 where
  -- fn(&dyn Message, &mut Vec<u8>): the new contents of the buffer
  pub serializer : M → List ℕ → List ℕ
  pub deserializer : List ℕ → Result Error M

pub record MessageRegistry (M : Type 0) : Type 0 where
  pub codecs : List (List ℕ × CodecPair M)

abbrev pub str_eq : List ℕ → List ℕ → Bool
str_eq [] [] = true
str_eq (a ∷ s) (b ∷ t) = a == b && str_eq s t
str_eq _ _ = false

pub str_eq_iff : (s t : List ℕ) → (str_eq s t ≡ true) ↔ (s ≡ t)
str_eq_iff [] [] = (λ _. refl, λ _. refl)
str_eq_iff [] (b ∷ t) = ground arith
str_eq_iff (a ∷ s) [] = ground arith
str_eq_iff (a ∷ s) (b ∷ t) = ground (arith, str_eq_iff s t)

module _ {M : Type 0} where
  unfoldable pub find : List ℕ → List (List ℕ × CodecPair M) → Option (CodecPair M)
  find msg_id [] = none
  find msg_id ((id, codec_pair) ∷ codecs) =
      let elsewhere = find msg_id codecs in if str_eq id msg_id then some codec_pair else elsewhere

  -- HashMap::insert: a second codec for an id takes the place of the first.
  unfoldable pub insert :
      List ℕ → CodecPair M → List (List ℕ × CodecPair M) → List (List ℕ × CodecPair M)
  insert msg_id new [] = (msg_id, new) ∷ []
  insert msg_id new ((id, old) ∷ codecs) =
      let behind = (id, old) ∷ insert msg_id new codecs in
      if str_eq id msg_id then (msg_id, new) ∷ codecs else behind

  unfoldable pub register :
      MessageRegistry M
      → List ℕ
      → (M → List ℕ → List ℕ)
      → (List ℕ → Result Error M)
      → MessageRegistry M
  unfolding insert
  register r msg_id serializer deserializer = record {
    codecs =
        insert msg_id (record { serializer = serializer; deserializer = deserializer }) r.codecs;
  }

  unfoldable pub get : MessageRegistry M → List ℕ → Option (CodecPair M)
  unfolding find
  get r msg_id = find msg_id r.codecs

unfoldable pub new_registry : {M : Type 0} → MessageRegistry M
new_registry = record { codecs = [] }

find-insert :
    {M : Type 0} (msg_id wanted : List ℕ) (new : CodecPair M) (codecs : List (List ℕ × CodecPair M))
    → find wanted (insert msg_id new codecs)
      ≡ (if str_eq msg_id wanted then some new else find wanted codecs)
unfolding find insert
find-insert msg_id wanted new [] = refl
find-insert msg_id wanted new ((id, old) ∷ codecs) = ground (
  arith,
  find-insert msg_id wanted new codecs,
  str_eq_iff id msg_id,
  str_eq_iff id wanted,
  str_eq_iff msg_id wanted,
)

-- After a registration the id has the given codec, and every other id the codec that it had.
pub get-register :
    {M : Type 0} (r : MessageRegistry M) (k j : List ℕ) (s : M → List ℕ → List ℕ)
    (d : List ℕ → Result Error M)
    → get (register r k s d) j
      ≡ (if str_eq k j then some (record { serializer = s; deserializer = d }) else get r j)
unfolding get register
get-register r k j s d = find-insert k j (record { serializer = s; deserializer = d }) r.codecs
