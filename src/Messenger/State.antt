-- ===== src/Messenger/State.antt =====
-- messenger/mod.rs: the state of a Messenger and its events.
use rustcomm.Prelude.{ℕ, List, []}
use rustcomm.Table.{Table}
use rustcomm.Message.Registry.{MessageRegistry}

pub record Messenger (M T : Type 0) : Type 0 where
  pub transport : T
  pub registry : MessageRegistry M
  pub recv_buffers : Table (List ℕ)

pub data MessengerEvent (M C : Type 0) : Type 0 where
  inactive : MessengerEvent M C
  connected connection_failed disconnected : ℕ → MessengerEvent M C
  message : ℕ → M → C → MessengerEvent M C

unfoldable pub new_named_with_context : {M T : Type 0} → T → MessageRegistry M → Messenger M T
new_named_with_context transport registry = record {
  transport = transport;
  registry = registry;
  recv_buffers = [];
}
