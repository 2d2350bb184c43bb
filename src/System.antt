-- ===== src/System.antt =====
-- A chat server with no IO threads: the house of src/chat/ChatServer.cc and all its connections
-- (src/net/TcpConnection.cc), on one loop. A handler of a connection runs the chat's callback,
-- whose calls are carried out on the connections before the handler returns.
pub mod Healthy
pub mod Events
pub mod Opening
pub mod Reach
mod Tests
use reactor_chat_server.Common.{
  ℕ, ◌+◌, ◌≡◌, ◌≢◌, Bool, true, false, List, [], ◌∷◌, Option, none, some, Bytes, Byte, length, ◌<◌,
}
use reactor_chat_server.Buffer.{received, read_fd, offered}
use reactor_chat_server.Buffer.Contents.{contents}
use reactor_chat_server.Connection.{
  k_connecting, World, Connection, message_notice, arrived, read_failed, eagain, other_errno,
  handle_write, handle_close, handle_error, is_connected,
}
use reactor_chat_server.Connection.Life.{opened}
use reactor_chat_server.Rooms.{ConnectionId, House}
use reactor_chat_server.Chat.{Effect, on_message, on_connection, on_idle_timer}
use reactor_chat_server.Delivery.{Network, set_connection, carry_out}

pub record System : Type 0 where
  pub network : Network
  pub house : House

abbrev pub put : ConnectionId → Connection → System → System
put conn d x = record x { network = set_connection conn d x.network }

-- `connectEstablished`, which ends in the connection callback.
pub open_event : (ConnectionId → World) → ℕ → ConnectionId → ℕ → System → System
open_event w timeout conn now x =
    let (h, done) = on_connection conn true now timeout x.house in
    record {
      network = carry_out w done (set_connection conn (opened (x.network conn)) x.network);
      house = h;
    }

-- `handleClose`, of a connection as it is there.
pub close_event : (ConnectionId → World) → ℕ → ConnectionId → ℕ → Connection → System → System
close_event w timeout conn now c x =
    let (h, done) = on_connection conn false now timeout x.house in
    record {
      network = carry_out w done (set_connection conn (handle_close (w conn) c) x.network);
      house = h;
    }

-- The message callback, of a connection whose input buffer holds what has arrived.
pub message_event : (ConnectionId → World) → ConnectionId → ℕ → Connection → System → Option System
message_event w conn now c x = elim (on_message conn now c.input x.house) [
  | none ↦ none
  | some (h, done, left) ↦
      let told = record c { input = left; notices = message_notice ∷ c.notices } in
      some (record { network = carry_out w done (set_connection conn told x.network); house = h })
]

-- A round of `handleRead`. A null session that is dereferenced is `none`.
pub read_event : (ConnectionId → World) → ℕ → ConnectionId → ℕ → System → Option System
read_event w timeout conn now x =
    let c = x.network conn in
    let counted = record c { calls = c.calls + 1 } in
    elim ((w conn).readv c.calls (offered c.input)) [
      | arrived [] ↦ some (close_event w timeout conn now counted x)
      | arrived (b ∷ bs) ↦
          message_event w conn now (record counted { input = read_fd (received (b ∷ bs)) c.input })
            x
      | read_failed eagain ↦ some (put conn counted x)
      | read_failed other_errno ↦ some (put conn (handle_error counted) x)
    ]

-- The idle timer of a connection.
pub idle_event : (ConnectionId → World) → ℕ → ConnectionId → ℕ → System → Option System
idle_event w timeout conn now x =
    elim (on_idle_timer conn (is_connected (x.network conn).state) now timeout x.house) [
      | none ↦ none
      | some done ↦ some (record x { network = carry_out w done x.network })
    ]
