-- ===== src/Messenger/Malformed.antt =====
-- What a malformed message does to a connection.
use rustcomm.Prelude.{
  ℕ, zero, suc, ◌≤◌, ◌<◌, ◌≡◌, ◌∙◌, true, List, [], ◌∷◌, ◌++◌, arith, length, length-append,
  append-nil, append_assoc,
}
use rustcomm.Error.{Error}
use rustcomm.Table.{lookup, remove}
use rustcomm.Transport.Exit.{returned}
use rustcomm.Transport.Impl.{TransportImpl}
use rustcomm.Message.Registry.{Message, MessageRegistry}
use rustcomm.Message.Frame.{Context, deserialize_message, failed}
use rustcomm.Message.RoundTrip.{deserialize_message-frame}
use rustcomm.Messenger.Receive.{parsed, parse_loop, parse}
use rustcomm.Messenger.State.{Messenger}
use rustcomm.Messenger.Fetch.{buffer, messages, data_end, on_data}
use rustcomm.Messenger.Steps.{parse_loop-failed, parse_loop-decoded}
use rustcomm.Messenger.Reassembly.{Parcel, TravelAll, frames, frame_of, contents, length-frame}
use rustcomm.Messenger.Delivery.{extended-append}

module _ {M C : Type 0} (message : Message M) (context : Context C) where
  parse_loop-malformed :
      (registry : MessageRegistry M) (ms : List (Parcel message context)) (bad : List ℕ)
      (error : Error) (fuel : ℕ) (before : List ℕ) (out : List (M × C))
      → TravelAll message context registry ms
      → 0 < length bad
      → deserialize_message {M = M} context bad registry ≡ failed error
      → length (frames message context ms ++ bad) ≤ fuel
      → parse_loop context registry
          (before ++ (frames message context ms ++ bad))
          fuel
          out
          (length before)
        ≡ parsed
            (out ++ contents message context ms)
            (length (before ++ frames message context ms))
            true
  parse_loop-malformed registry ms bad error zero before out t some e enough =
      absurd (omega (arith, length-append (frames message context ms) bad))
  parse_loop-malformed registry [] bad error (suc fuel) before out t some e enough =
      rw (append-nil, append-nil)
        (parse_loop-failed context registry before bad fuel out error some e)
  parse_loop-malformed registry (p ∷ ms) bad error (suc fuel) before out t some e enough =
      let f = frame_of message context p in
      let fs = frames message context ms in
      rw append_assoc (
        parse_loop-decoded context registry before f (fs ++ bad) fuel out p.0 p.1
          (omega (arith, length-frame message context p))
          (deserialize_message-frame message context t.0 (fs ++ bad))
        ∙ parse_loop-malformed registry ms bad error fuel (before ++ f) (out ++ (p.0, p.1) ∷ []) t.1
            some e
            (omega (
              arith,
              length-frame message context p,
              length-append f (fs ++ bad),
              length-append (f ++ fs) bad,
              length-append f fs,
              length-append fs bad,
            ))
        ∙ rw (append_assoc, append_assoc))

  -- When the buffer of a connection and the bytes that come hold messages that travel and then one
  -- that deserialize_message refuses, the messages before it come out, in order; then the
  -- connection is closed, its buffer is removed, and nothing else of the messenger changes.
  pub on_data-malformed :
      {T W : Type 0} (impl : TransportImpl T W) (m : Messenger M T) (id : ℕ) (bytes : List ℕ)
      (ms : List (Parcel message context)) (bad : List ℕ) (error : Error)
      → TravelAll message context m.registry ms
      → 0 < length bad
      → deserialize_message {M = M} context bad m.registry ≡ failed error
      → buffer (lookup id m.recv_buffers) ++ bytes ≡ frames message context ms ++ bad
      → on_data impl context m id bytes
        ≡ returned (messages impl context id (contents message context ms)) (record m {
          transport = impl.close_connection m.transport id;
          recv_buffers = remove id m.recv_buffers;
        })
  unfolding on_data data_end parse
  on_data-malformed impl m id bytes ms bad error t some e held = rw (
    extended-append (buffer (lookup id m.recv_buffers)) bytes,
    held,
    parse_loop-malformed m.registry ms bad error (length (frames message context ms ++ bad)) [] [] t
        some e (omega arith),
  )
