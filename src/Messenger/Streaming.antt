-- ===== src/Messenger/Streaming.antt =====
-- What a messenger needs of its transport for its messages to arrive: a stream of bytes for each
-- connection, to whose end send_to appends; and what follows for any such transport.
use rustcomm.Prelude.{
  ℕ, ◌≡◌, refl, sym, ap, ◌∙◌, Bool, true, Option, none, some, List, [], ◌∷◌, ◌++◌, map, append-nil,
  append_assoc,
}
use mathlib.Core.List.{flatten}
use rustcomm.Table.{lookup}
use rustcomm.Transport.Types.{TransportEvent}
use rustcomm.Transport.Exit.{returned}
use rustcomm.Transport.Impl.{TransportImpl}
use rustcomm.Message.Registry.{Message}
use rustcomm.Message.Frame.{Context}
use rustcomm.Message.FrameShape.{serialize_message-frame}
use rustcomm.Messenger.State.{Messenger}
use rustcomm.Messenger.Manage.{send_bytes, send_to_with_context}
use rustcomm.Messenger.Fetch.{buffer, messages, dispatch}
use rustcomm.Messenger.Reassembly.{Parcel, TravelAll, frames, frame_of, contents}
use rustcomm.Messenger.Delivery.{dispatch-frames, Short-start}

pub record Streaming {T W : Type 0} (impl : TransportImpl T W) : Type 1 where
  pub stream : T → ℕ → List ℕ
  -- The connections that the transport has.
  pub knows : T → ℕ → Bool
  pub appends :
      (t : T) (id : ℕ) (buf : List ℕ)
      → knows t id ≡ true
      → stream (impl.send_to t id buf) id ≡ stream t id ++ buf
  pub keeps :
      (t : T) (id : ℕ) (buf : List ℕ) → knows t id ≡ true → knows (impl.send_to t id buf) id ≡ true

module _ {M C : Type 0} (message : Message M) (context : Context C) {U V : Type 0}
    (over : TransportImpl U V) where
  -- One message after another, to one connection.
  abbrev pub send_over : Messenger M U → ℕ → List (Parcel message context) → Option (Messenger M U)
  send_over m id [] = some m
  send_over m id (p ∷ ms) = elim (send_to_with_context over message context m id p.0 p.1) [
    | none ↦ none
    | some m' ↦ send_over m' id ms
  ]

  module _ (streaming : Streaming over) where
    pub send_over-stream :
        (m : Messenger M U) (id : ℕ) (ms : List (Parcel message context))
        → streaming.knows m.transport id ≡ true
        → TravelAll message context m.registry ms
        → (m' : Messenger M U) × (send_over m id ms ≡ some m')
          × (streaming.stream m'.transport id
              ≡ streaming.stream m.transport id ++ frames message context ms)
          × (m'.recv_buffers ≡ m.recv_buffers)
    unfolding send_to_with_context send_bytes
    send_over-stream m id [] known t =
        (m, refl, sym (append-nil (streaming.stream m.transport id)), refl)
    send_over-stream m id (p ∷ ms) known t =
        let f = frame_of message context p in
        let m₁ : Messenger M U = record m { transport = over.send_to m.transport id f } in
        let ih = send_over-stream m₁ id ms (streaming.keeps m.transport id f known) t.1 in
        (
          ih.0,
          rw (serialize_message-frame message context t.0, send_over) ih.1,
          ih.2
              ∙ ap (λ (b : List ℕ). b ++ frames message context ms)
                  (streaming.appends m.transport id f known)
              ∙ append_assoc (streaming.stream m.transport id) f (frames message context ms),
          ih.3,
        )

    pub send_over-delivered :
        {T W : Type 0} (impl : TransportImpl T W) (sender : Messenger M U)
        (receiver : Messenger M T) (to_id from_id : ℕ) (ms : List (Parcel message context))
        (sent : Messenger M U) (pieces : List (List ℕ))
        → streaming.knows sender.transport to_id ≡ true
        → streaming.stream sender.transport to_id ≡ []
        → TravelAll message context sender.registry ms
        → TravelAll message context receiver.registry ms
        → buffer (lookup from_id receiver.recv_buffers) ≡ []
        → send_over sender to_id ms ≡ some sent
        → streaming.stream sent.transport to_id ≡ flatten pieces
        → (received : Messenger M T) × (dispatch impl context receiver
              (map (TransportEvent.received from_id) pieces)
            ≡ returned (messages impl context from_id (contents message context ms)) received)
          × (buffer (lookup from_id received.recv_buffers) ≡ [])
          × (received.transport ≡ receiver.transport)
    send_over-delivered impl sender receiver to_id from_id ms sent pieces known fresh ts tr empty
          done arrived =
        let out = send_over-stream sender to_id ms known ts in
        let same : out.0 ≡ sent = cc (out.1, done) in
        let bytes : frames message context ms ≡ flatten pieces =
          sym (rw fresh at out.2)
          ∙ ap (λ (m : Messenger M U). streaming.stream m.transport to_id) same
          ∙ arrived in
        dispatch-frames message context impl ms 0 from_id pieces receiver tr
          (Short-start message context ms) empty bytes
