-- ===== src/Messenger/Manage.antt =====
-- messenger/mod.rs: the connection management and the data operations, over any transport.
-- A message that is not registered stops the program: the result is `none`.
use rustcomm.Prelude.{ℕ, Option, none, some, List, []}
use rustcomm.Table.{remove}
use rustcomm.Transport.Types.{SocketAddr, SocketAnswers, Shutdown}
use rustcomm.Transport.Exit.{Exit, returned, raised, panicked}
use rustcomm.Error.{ErrorKind, Result}
use rustcomm.Transport.Impl.{TransportImpl}
use rustcomm.Transport.Dynamic
use rustcomm.Message.Registry.{Message}
use rustcomm.Message.Frame.{Context, serialize_message}
use rustcomm.Messenger.State.{Messenger}

module _ {M T W : Type 0} (impl : TransportImpl T W) where
  -- The transport's result, with the transport put back.
  unfoldable pub put_back : {A : Type 0} → Messenger M T → Exit T A → Exit (Messenger M T) A
  put_back m (returned a t) = returned a (record m { transport = t })
  put_back m (raised e t) = raised e (record m { transport = t })
  put_back m (panicked p) = panicked p

  unfoldable pub listen :
      Messenger M T
      → Result ErrorKind (List SocketAddr)
      → SocketAnswers
      → Exit (Messenger M T) (ℕ × SocketAddr)
  unfolding put_back
  listen m resolved a = put_back m (Dynamic.listen impl m.transport resolved a)

  unfoldable pub connect :
      Messenger M T
      → Result ErrorKind (List SocketAddr)
      → SocketAnswers
      → Exit (Messenger M T) (ℕ × SocketAddr)
  unfolding put_back
  connect m resolved a = put_back m (Dynamic.connect impl m.transport resolved a)

  unfoldable pub get_listener_addresses : Messenger M T → List SocketAddr
  get_listener_addresses m = impl.get_listener_addresses m.transport

  unfoldable pub close_connection : Messenger M T → ℕ → Messenger M T
  close_connection m id = record m {
    transport = impl.close_connection m.transport id;
    recv_buffers = remove id m.recv_buffers;
  }

  unfoldable pub close_listener : Messenger M T → ℕ → Messenger M T
  close_listener m id = record m { transport = impl.close_listener m.transport id }

  unfoldable pub close_all_connections : Messenger M T → Messenger M T
  close_all_connections m = record m {
    transport = impl.close_all_connections m.transport;
    recv_buffers = [];
  }

  unfoldable pub shutdown_connection : Messenger M T → ℕ → Shutdown → Messenger M T
  shutdown_connection m id how = record m {
    transport = impl.shutdown_connection m.transport id how;
  }

  unfoldable pub shutdown_all_connections : Messenger M T → Shutdown → Messenger M T
  shutdown_all_connections m how = record m {
    transport = impl.shutdown_all_connections m.transport how;
  }

  unfoldable pub close_all_listeners : Messenger M T → Messenger M T
  close_all_listeners m = record m { transport = impl.close_all_listeners m.transport }

  unfoldable pub close_all : Messenger M T → Messenger M T
  close_all m = record m { transport = impl.close_all m.transport; recv_buffers = [] }

  -- What is sent, by the bytes that serialize_message gave.
  unfoldable pub send_bytes :
      Messenger M T → (T → List ℕ → T) → Option (List ℕ) → Option (Messenger M T)
  send_bytes m op none = none
  send_bytes m op (some bytes) = some (record m { transport = op m.transport bytes })

  module _ {C : Type 0} (message : Message M) (context : Context C) where
    unfoldable pub send_to_with_context : Messenger M T → ℕ → M → C → Option (Messenger M T)
    unfolding send_bytes
    send_to_with_context m to_id msg ctx =
        send_bytes m (λ t bytes. impl.send_to t to_id bytes)
          (serialize_message message context msg ctx m.registry)

    unfoldable pub send_to_many_with_context :
        Messenger M T → List ℕ → M → C → Option (Messenger M T)
    unfolding send_bytes
    send_to_many_with_context m to_ids msg ctx =
        send_bytes m (λ t bytes. impl.send_to_many t to_ids bytes)
          (serialize_message message context msg ctx m.registry)

    unfoldable pub broadcast_with_context : Messenger M T → M → C → Option (Messenger M T)
    unfolding send_bytes
    broadcast_with_context m msg ctx =
        send_bytes m impl.broadcast (serialize_message message context msg ctx m.registry)

    unfoldable pub broadcast_except_with_context :
        Messenger M T → M → ℕ → C → Option (Messenger M T)
    unfolding send_bytes
    broadcast_except_with_context m msg except_id ctx =
        send_bytes m (λ t bytes. impl.broadcast_except t bytes except_id)
          (serialize_message message context msg ctx m.registry)

    unfoldable pub broadcast_except_many_with_context :
        Messenger M T → M → List ℕ → C → Option (Messenger M T)
    unfolding send_bytes
    broadcast_except_many_with_context m msg except_ids ctx =
        send_bytes m (λ t bytes. impl.broadcast_except_many t bytes except_ids)
          (serialize_message message context msg ctx m.registry)
