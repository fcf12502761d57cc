-- ===== src/Messenger/Delivery.antt =====
-- Through `dispatch`: the stream of one connection, piece by piece.
use rustcomm.Prelude.{
  ℕ, zero, suc, ◌+◌, ◌-◌, ◌≡◌, refl, sym, ap, ◌∙◌, Option, none, some, List, [], ◌∷◌, ◌++◌, map,
  arith, length, take, drop, length-append, length-drop, take-append, drop-append, drop-drop,
  take_all, ==_refl,
}
use mathlib.Core.List.{flatten}
use rustcomm.Table.{lookup, insert, lookup-insert}
use rustcomm.Transport.Types.{TransportEvent}
use rustcomm.Transport.Exit.{returned}
use rustcomm.Transport.Impl.{TransportImpl}
use rustcomm.Message.Registry.{Message, MessageRegistry}
use rustcomm.Message.Frame.{Context, serialize_message}
use rustcomm.Message.FrameShape.{serialize_message-frame}
use rustcomm.Messenger.Receive.{extended}
use rustcomm.Messenger.State.{message as message_event, Messenger}
use rustcomm.Messenger.Fetch.{buffer, messages, data_end, on_data, prepend, and_then, dispatch}
use rustcomm.Messenger.Reassembly.{
  Parcel, TravelAll, frames, frame_of, complete, used, left, contents, Short, used-le, drop-used,
  left-Short, complete-left, left-TravelAll, parse-frames, length-frame,
}

-- The next piece joins the bytes that came before it.
joint :
    (k : ℕ) (xs bytes rest : List ℕ)
    → drop k xs ≡ bytes ++ rest
    → (take k xs ++ bytes ≡ take (k + length bytes) xs) × (drop (k + length bytes) xs ≡ rest)
joint zero xs bytes rest e =
    let n : 0 + length bytes ≡ length bytes = omega arith in
    rw (n, e) (sym (take-append bytes rest), drop-append bytes rest)
joint (suc k) [] [] rest e = let n : suc k + 0 ≡ suc k = omega arith in rw n (refl, e)
joint (suc k) [] (b ∷ bytes) rest e = cc
joint (suc k) (x ∷ xs) bytes rest e =
    let n : suc k + length bytes ≡ suc (k + length bytes) = omega arith in
    let ih = joint k xs bytes rest e in rw n (ap (◌∷◌ x) ih.0, ih.1)

drop-take : (k n : ℕ) (xs : List ℕ) → drop k (take n xs) ≡ take (n - k) (drop k xs)
drop-take zero n xs = let e : n - 0 ≡ n = omega arith in rw e
drop-take (suc k) zero xs = let e : 0 - suc k ≡ 0 = omega arith in rw e
drop-take (suc k) (suc n) [] = sym (take_all (suc n - suc k) [] (omega arith))
drop-take (suc k) (suc n) (x ∷ xs) =
    let e : suc n - suc k ≡ n - k = omega arith in rw e (drop-take k n xs)

pub extended-append : (xs bytes : List ℕ) → extended xs bytes ≡ xs ++ bytes
unfolding extended
extended-append [] bytes = refl
extended-append (x ∷ xs) bytes = refl

module _ {M C T W : Type 0} (message : Message M) (context : Context C)
    (impl : TransportImpl T W) where
  messages-append :
      (id : ℕ) (xs ys : List (M × C))
      → messages impl context id xs ++ messages impl context id ys
        ≡ messages impl context id (xs ++ ys)
  messages-append id [] ys = refl
  messages-append id (x ∷ xs) ys = ap (◌∷◌ (message_event id x.0 x.1)) (messages-append id xs ys)

  -- One piece of the stream: the messages that it completes come out, and the rest stays.
  on_data-frames :
      (ms : List (Parcel message context)) (k : ℕ) (id : ℕ) (bytes : List ℕ) (m : Messenger M T)
      → TravelAll message context m.registry ms
      → buffer (lookup id m.recv_buffers) ++ bytes ≡ take k (frames message context ms)
      → on_data impl context m id bytes
        ≡ returned (messages impl context id (complete message context ms k)) (record m {
          recv_buffers =
              insert id
                (take
                  (k - used message context ms k)
                  (frames message context (left message context ms k)))
                m.recv_buffers;
        })
  unfolding on_data data_end
  on_data-frames ms k id bytes m t e = rw (
    extended-append (buffer (lookup id m.recv_buffers)) bytes,
    e,
    parse-frames message context m.registry ms k t,
    drop-take (used message context ms k) k (frames message context ms),
    drop-used message context ms k,
  )

  -- From a buffer that holds the first k bytes of the frames, with less than a frame in it, the
  -- pieces of the rest bring out all messages.
  pub dispatch-frames :
      (ms : List (Parcel message context)) (k id : ℕ) (pieces : List (List ℕ)) (m : Messenger M T)
      → TravelAll message context m.registry ms
      → Short message context ms k
      → buffer (lookup id m.recv_buffers) ≡ take k (frames message context ms)
      → drop k (frames message context ms) ≡ flatten pieces
      → (m' : Messenger M T) × (dispatch impl context m (map (TransportEvent.received id) pieces)
          ≡ returned (messages impl context id (contents message context ms)) m')
        × (buffer (lookup id m'.recv_buffers) ≡ [])
        × (m'.transport ≡ m.transport)
  unfolding dispatch flatten and_then prepend
  dispatch-frames [] k id [] m t short held rest =
      (m, refl, held ∙ take_all k [] (omega arith), refl)
  dispatch-frames (p ∷ ms) k id [] m t short held rest = absurd (
      omega (
        arith,
        ap length rest,
        length-drop k (frames message context (p ∷ ms)),
        length-append (frame_of message context p) (frames message context ms),
      ))
  dispatch-frames ms k id (bytes ∷ pieces) m t short held rest =
      let fs = frames message context ms in
      let n = k + length bytes in
      let j = joint k fs bytes (flatten pieces) rest in
      let ms' = left message context ms n in
      let k' = n - used message context ms n in
      let m₁ : Messenger M T = record m {
        recv_buffers = insert id (take k' (frames message context ms')) m.recv_buffers;
      } in
      let step = on_data-frames ms n id bytes m t (ap (λ (b : List ℕ). b ++ bytes) held ∙ j.0) in
      let now = messages impl context id (complete message context ms n) in
      let behind : used message context ms n + k' ≡ n =
        omega (arith, used-le message context ms n) in
      let ih =
        dispatch-frames ms' k' id pieces m₁ (left-TravelAll message context m.registry ms n t)
          (left-Short message context ms n) (rw (lookup-insert, ==_refl id))
          (rw (← drop-used message context ms n)
            (drop-drop (used message context ms n) k' fs ∙ rw behind j.1)) in
      (
        ih.0,
        rw step (
            ap (prepend impl context now) ih.1
            ∙ ap (λ es. returned es ih.0)
                (messages-append id (complete message context ms n) (contents message context ms')
                  ∙ ap (messages impl context id) (complete-left message context ms n))),
        ih.2,
        ih.3,
      )

module _ {M C : Type 0} (message : Message M) (context : Context C) where
  -- The messages serialized one after another.
  abbrev pub joined : Option (List ℕ) → Option (List ℕ) → Option (List ℕ)
  joined (some xs) (some ys) = some (xs ++ ys)
  joined _ _ = none

  abbrev pub serialize_all : MessageRegistry M → List (Parcel message context) → Option (List ℕ)
  serialize_all registry [] = some []
  serialize_all registry (p ∷ ms) =
      joined (serialize_message message context p.0 p.1 registry) (serialize_all registry ms)

  serialize_all-frames :
      (registry : MessageRegistry M) (ms : List (Parcel message context))
      → TravelAll message context registry ms
      → serialize_all registry ms ≡ some (frames message context ms)
  serialize_all-frames registry [] t = refl
  serialize_all-frames registry (p ∷ ms) t =
      rw (serialize_message-frame message context t.0, serialize_all-frames registry ms t.1)

  pub Short-start : (ms : List (Parcel message context)) → Short message context ms 0
  Short-start [] = tt
  Short-start (p ∷ ms) = omega (arith, length-frame message context p)

  -- However the bytes of a sequence of messages that travel are cut into pieces, a messenger with
  -- an empty buffer for the connection that gets the pieces one by one gives exactly these messages
  -- with their contexts, in order; then the buffer is empty, and the transport has not been
  -- touched.
  pub dispatch-reassembles :
      {T W : Type 0} (impl : TransportImpl T W) (m : Messenger M T) (id : ℕ)
      (ms : List (Parcel message context)) (pieces : List (List ℕ))
      → buffer (lookup id m.recv_buffers) ≡ []
      → TravelAll message context m.registry ms
      → serialize_all m.registry ms ≡ some (flatten pieces)
      → (m' : Messenger M T) × (dispatch impl context m (map (TransportEvent.received id) pieces)
          ≡ returned (messages impl context id (contents message context ms)) m')
        × (buffer (lookup id m'.recv_buffers) ≡ [])
        × (m'.transport ≡ m.transport)
  dispatch-reassembles impl m id ms pieces empty t e =
      dispatch-frames message context impl ms 0 id pieces m t (Short-start ms) empty
        (ap buffer (sym (serialize_all-frames m.registry ms t) ∙ e))
