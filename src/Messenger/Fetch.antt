-- ===== src/Messenger/Fetch.antt =====
-- messenger/mod.rs: fetch_events.
use rustcomm.Prelude.{ℕ, true, false, Option, none, some, List, [], ◌∷◌, ◌++◌, drop}
use rustcomm.Table.{lookup, insert, remove}
use rustcomm.Transport.Types.{TransportEvent}
use rustcomm.Transport.Exit.{
  Exit, returned, raised, panicked, Fetched, fetched, waiting, slice_out_of_range,
}
use rustcomm.Transport.Impl.{TransportImpl}
use rustcomm.Message.Frame.{Context}
use rustcomm.Messenger.Receive.{Parsed, parsed, parse_panic, parse, extended}
use rustcomm.Messenger.State.{
  Messenger, MessengerEvent, inactive, connected, connection_failed, disconnected, message,
}

abbrev pub buffer : Option (List ℕ) → List ℕ
buffer none = []
buffer (some recv_buf) = recv_buf

module _ {M C T W : Type 0} (impl : TransportImpl T W) (context : Context C) where
  -- The messages of one connection as events.
  abbrev pub messages : ℕ → List (M × C) → List (MessengerEvent M C)
  messages id [] = []
  messages id ((msg, ctx) ∷ rest) = message id msg ctx ∷ messages id rest

  -- After the loop: the bytes that were read are drained; after an error the buffer is removed and
  -- the connection closed.
  unfoldable pub data_end :
      Messenger M T → ℕ → List ℕ → Parsed M C → Exit (Messenger M T) (List (MessengerEvent M C))
  data_end m id recv_buf (parsed out recv_pos false) =
      returned (messages id out)
        (record m { recv_buffers = insert id (drop recv_pos recv_buf) m.recv_buffers })
  data_end m id recv_buf (parsed out recv_pos true) = returned (messages id out) (record m {
    transport = impl.close_connection m.transport id;
    recv_buffers = remove id m.recv_buffers;
  })
  data_end m id recv_buf parse_panic = panicked slice_out_of_range

  unfoldable pub on_data :
      Messenger M T → ℕ → List ℕ → Exit (Messenger M T) (List (MessengerEvent M C))
  unfolding data_end
  on_data m id bytes =
      let recv_buf = extended (buffer (lookup id m.recv_buffers)) bytes in
      data_end m id recv_buf (parse context m.registry recv_buf)

  unfoldable pub prepend :
      List (MessengerEvent M C)
      → Exit (Messenger M T) (List (MessengerEvent M C))
      → Exit (Messenger M T) (List (MessengerEvent M C))
  prepend events (returned more m) = returned (events ++ more) m
  prepend events (raised e m) = raised e m
  prepend events (panicked p) = panicked p

  -- The events of one event, and then the rest of the loop.
  unfoldable pub and_then :
      Exit (Messenger M T) (List (MessengerEvent M C))
      → (Messenger M T → Exit (Messenger M T) (List (MessengerEvent M C)))
      → Exit (Messenger M T) (List (MessengerEvent M C))
  unfolding prepend
  and_then (returned events m) next = prepend events (next m)
  and_then (raised e m) next = raised e m
  and_then (panicked p) next = panicked p

  -- for event in transport_events: `Inactive` breaks out of the loop.
  unfoldable pub dispatch :
      Messenger M T → List TransportEvent → Exit (Messenger M T) (List (MessengerEvent M C))
  unfolding and_then
  dispatch m [] = returned [] m
  dispatch m (TransportEvent.inactive ∷ rest) =
      returned (inactive ∷ []) (record m { recv_buffers = [] })
  dispatch m (TransportEvent.connected id ∷ rest) =
      and_then (returned (connected id ∷ []) m) λ m'. dispatch m' rest
  dispatch m (TransportEvent.connection_failed id ∷ rest) =
      and_then
        (returned (connection_failed id ∷ [])
          (record m { recv_buffers = remove id m.recv_buffers }))
        λ m'. dispatch m' rest
  dispatch m (TransportEvent.disconnected id ∷ rest) =
      and_then
        (returned (disconnected id ∷ []) (record m { recv_buffers = remove id m.recv_buffers }))
        λ m'. dispatch m' rest
  dispatch m (TransportEvent.received id bytes ∷ rest) =
      and_then (on_data m id bytes) λ m'. dispatch m' rest

  unfoldable pub fetch_next :
      Exit (Messenger M T) (List (MessengerEvent M C))
      → (Messenger M T → Fetched (Messenger M T) (List (MessengerEvent M C)))
      → Fetched (Messenger M T) (List (MessengerEvent M C))
  fetch_next (returned [] m) again = again m
  fetch_next (returned (e ∷ events) m) again = fetched (returned (e ∷ events) m)
  fetch_next (raised e m) again = fetched (raised e m)
  fetch_next (panicked p) again = fetched (panicked p)

  unfoldable pub fetch_transport :
      Messenger M T
      → Fetched T (List TransportEvent)
      → (Messenger M T → Fetched (Messenger M T) (List (MessengerEvent M C)))
      → Fetched (Messenger M T) (List (MessengerEvent M C))
  unfolding fetch_next
  fetch_transport m (waiting t) again = waiting (record m { transport = t })
  fetch_transport m (fetched (returned events t)) again =
      fetch_next (dispatch (record m { transport = t }) events) again
  fetch_transport m (fetched (raised e t)) again = fetched (raised e (record m { transport = t }))
  fetch_transport m (fetched (panicked p)) again = fetched (panicked p)

  -- while dispatch_events.is_empty()
  unfoldable pub fetch_events :
      Messenger M T → List W → Fetched (Messenger M T) (List (MessengerEvent M C))
  unfolding fetch_transport
  fetch_events m [] = waiting m
  fetch_events m (w ∷ ws) =
      fetch_transport m (impl.fetch_events m.transport w) λ m'. fetch_events m' ws
