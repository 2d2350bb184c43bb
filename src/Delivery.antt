-- ===== src/Delivery.antt =====
-- The chat (src/chat/ChatServer.cc, src/chat/RoomManager.cc) on its connections
-- (src/net/TcpConnection.cc), all of them on one loop, as with no IO threads: the calls that a handler
-- makes are carried out in order, each on the connection that it names.
pub mod Carried
pub mod Lines
mod Tests
use reactor_chat_server.Common.{ℕ, List, [], ◌∷◌, Bytes, ◌==◌, if◌then◌else◌}
use reactor_chat_server.Connection.{World, Connection, Api, sends, shuts}
use reactor_chat_server.Connection
use reactor_chat_server.Rooms.{ConnectionId}
use reactor_chat_server.Chat.{Effect, send, shutdown, run_after}

-- The connections, by their identity.
abbrev pub Network : Type 0
Network = ConnectionId → Connection

abbrev pub set_connection : ConnectionId → Connection → Network → Network
set_connection c d n k = if k == c then d else n k

-- Each connection has its socket and its callbacks. Timers do nothing to a connection.
pub carry_out : (ConnectionId → World) → List Effect → Network → Network
carry_out w [] n = n
carry_out w (send c msg ∷ es) n =
    carry_out w es (set_connection c (Connection.send (w c) msg (n c)) n)
carry_out w (shutdown c ∷ es) n = carry_out w es (set_connection c (Connection.shutdown (n c)) n)
carry_out w (run_after c ticks ∷ es) n = carry_out w es n

-- The calls that name a connection.
abbrev pub calls_on : ConnectionId → List Effect → List Api
calls_on c [] = []
calls_on c (send d msg ∷ es) = if c == d then sends msg ∷ calls_on c es else calls_on c es
calls_on c (shutdown d ∷ es) = if c == d then shuts ∷ calls_on c es else calls_on c es
calls_on c (run_after d ticks ∷ es) = calls_on c es
