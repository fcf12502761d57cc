-- ===== src/Messenger/Served.antt =====
-- A message sent through the MessengerInterface, and the same message sent by the Messenger.
use rustcomm.Prelude.{ℕ, ◌≡◌, Option, none, some, List}
use rustcomm.Table.{Table}
use rustcomm.Message.Registry.{Message}
use rustcomm.Tcp.State.{TcpTransport}
use rustcomm.Tcp.Send
use rustcomm.Tcp.Served.{Serves}
use rustcomm.Messenger.State.{Messenger}
use rustcomm.Messenger.Manage
use rustcomm.Messenger.Interface
use rustcomm.Messenger.Interface.{MessengerInterface}

module _ {M : Type 0} where
  -- The messenger from which the interface was made, when its transport is `t`.
  abbrev pub owner : MessengerInterface M → Table (List ℕ) → TcpTransport → Messenger M TcpTransport
  owner i recv_buffers t = record {
    transport = t;
    registry = i.registry;
    recv_buffers = recv_buffers;
  }

  -- Both calls stop the program, or neither does; and then the event loop serves the call through
  -- the interface, after the requests that waited, by the change of the transport that the
  -- messenger's own call makes.
  abbrev pub SendsAlike :
      MessengerInterface M
      → Table (List ℕ)
      → Option (MessengerInterface M)
      → (TcpTransport → Option (Messenger M TcpTransport))
      → Type 0
  SendsAlike i recv_buffers none own = (t : TcpTransport) → own t ≡ none
  SendsAlike i recv_buffers (some i') own =
      (change : TcpTransport → TcpTransport) × Serves i.transport_interface i'.transport_interface
        change
      × ((t : TcpTransport) → own t ≡ some (owner i recv_buffers (change t)))
