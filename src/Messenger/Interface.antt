-- ===== src/Messenger/Interface.antt =====
-- messenger/interface.rs: MessengerInterface, which serializes messages and hands the bytes to a
-- TransportInterface. A message that is not registered stops the thread: the result is `none`.
use rustcomm.Prelude.{ℕ, Option, none, some, List}
use rustcomm.Error.{ErrorKind, Result}
use rustcomm.Transport.Types.{SocketAddr}
use rustcomm.Transport.Exit.{Exit, returned, raised, panicked}
use rustcomm.Transport.Interface
use rustcomm.Transport.Interface.{Channel}
use rustcomm.Message.Registry.{Message, MessageRegistry}
use rustcomm.Message.Frame.{Context, serialize_message}

pub record MessengerInterface (M : Type 0) : Type 0 where
  pub transport_interface : Channel
  pub registry : MessageRegistry M

module _ {M : Type 0} where
  unfoldable pub keep_registry :
      {A : Type 0} → MessengerInterface M → Exit Channel A → Exit (MessengerInterface M) A
  keep_registry i (returned a c) = returned a (record i { transport_interface = c })
  keep_registry i (raised e c) = raised e (record i { transport_interface = c })
  keep_registry i (panicked p) = panicked p

  unfoldable pub listen :
      MessengerInterface M → Result ErrorKind (List SocketAddr) → Exit (MessengerInterface M) ℕ
  unfolding keep_registry
  listen i resolved = keep_registry i (Interface.listen i.transport_interface resolved)

  unfoldable pub connect :
      MessengerInterface M → Result ErrorKind (List SocketAddr) → Exit (MessengerInterface M) ℕ
  unfolding keep_registry
  connect i resolved = keep_registry i (Interface.connect i.transport_interface resolved)

  unfoldable pub get_listener_addresses : MessengerInterface M → Exit (MessengerInterface M) ℕ
  unfolding keep_registry
  get_listener_addresses i =
      keep_registry i (Interface.get_listener_addresses i.transport_interface)

  unfoldable pub close_connection : MessengerInterface M → ℕ → MessengerInterface M
  close_connection i id = record i {
    transport_interface = Interface.close_connection i.transport_interface id;
  }

  unfoldable pub close_listener : MessengerInterface M → ℕ → MessengerInterface M
  close_listener i id = record i {
    transport_interface = Interface.close_listener i.transport_interface id;
  }

  unfoldable pub close_all : MessengerInterface M → MessengerInterface M
  close_all i = record i { transport_interface = Interface.close_all i.transport_interface }

  -- What is handed over, by the bytes that serialize_message gave.
  unfoldable pub hand_over :
      MessengerInterface M
      → (Channel → List ℕ → Channel)
      → Option (List ℕ)
      → Option (MessengerInterface M)
  hand_over i op none = none
  hand_over i op (some bytes) =
      some (record i { transport_interface = op i.transport_interface bytes })

  module _ {C : Type 0} (message : Message M) (context : Context C) where
    unfoldable pub send_to_with_context :
        MessengerInterface M → ℕ → M → C → Option (MessengerInterface M)
    unfolding hand_over
    send_to_with_context i id msg ctx =
        hand_over i (λ c bytes. Interface.send_to c id bytes)
          (serialize_message message context msg ctx i.registry)

    unfoldable pub send_to_many_with_context :
        MessengerInterface M → List ℕ → M → C → Option (MessengerInterface M)
    unfolding hand_over
    send_to_many_with_context i ids msg ctx =
        hand_over i (λ c bytes. Interface.send_to_many c ids bytes)
          (serialize_message message context msg ctx i.registry)

    unfoldable pub broadcast_with_context :
        MessengerInterface M → M → C → Option (MessengerInterface M)
    unfolding hand_over
    broadcast_with_context i msg ctx =
        hand_over i (Interface.broadcast) (serialize_message message context msg ctx i.registry)

    unfoldable pub broadcast_except_with_context :
        MessengerInterface M → M → ℕ → C → Option (MessengerInterface M)
    unfolding hand_over
    broadcast_except_with_context i msg except_id ctx =
        hand_over i (λ c bytes. Interface.broadcast_except c bytes except_id)
          (serialize_message message context msg ctx i.registry)

    unfoldable pub broadcast_except_many_with_context :
        MessengerInterface M → M → List ℕ → C → Option (MessengerInterface M)
    unfolding hand_over
    broadcast_except_many_with_context i msg except_ids ctx =
        hand_over i (λ c bytes. Interface.broadcast_except_many c bytes except_ids)
          (serialize_message message context msg ctx i.registry)
