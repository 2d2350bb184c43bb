-- ===== src/Delivery/Tests.antt =====
-- src/chat/ChatServer.cc with one connection in one room, and its connection.
use reactor_chat_server.Common.{
  ◌≡◌, refl, [], ◌∷◌, ◌++◌, some, List, arith, length, starts_with, bytes_eq,
}
use reactor_chat_server.Buffer.{new_buffer}
use reactor_chat_server.Buffer.Invariant.{Fits}
use reactor_chat_server.Codec.{format_broadcast}
use reactor_chat_server.Codec.Split.{split}
use reactor_chat_server.Codec.Stream.{broadcast_line}
use reactor_chat_server.Connection.{World, new_connection}
use reactor_chat_server.Connection.Invariant.{stream}
use reactor_chat_server.Connection.Tests.Scene.{world, world-Posix, plain, plain-IsSound}
use reactor_chat_server.Rooms.{ConnectionId}
use reactor_chat_server.Rooms.Set.{contains}
use reactor_chat_server.Chat.{Effect, on_line}
use reactor_chat_server.Chat.Tests.{lobby, session, house, house-IsConsistent}
use reactor_chat_server.Delivery.{Network, carry_out}
use reactor_chat_server.Delivery.Lines.{Whole, text_delivered}

abbrev worlds : ConnectionId → World
worlds c = world

abbrev network : Network
network c = plain

plain-Whole : Whole (stream plain)
unfolding new_connection new_buffer split
plain-Whole = refl

text-Fits : Fits (length (format_broadcast lobby (b'a' ∷ []) (b'h' ∷ b'i' ∷ []))) plain.output
unfolding new_connection new_buffer format_broadcast
text-Fits = omega arith

text_delivered_example :
    (done : List Effect) × (on_line 1 session (b'h' ∷ b'i' ∷ []) house ≡ some (house, done))
    × ((split (stream (carry_out worlds done network 1))).0
        ≡ (split (stream plain)).0 ++ broadcast_line lobby (b'a' ∷ []) (b'h' ∷ b'i' ∷ []) ∷ [])
    × Whole (stream (carry_out worlds done network 1))
unfolding contains bytes_eq starts_with
text_delivered_example =
    text_delivered worlds network 1 session (b'h' ∷ b'i' ∷ []) house 1 house-IsConsistent
      (refl, refl, refl, refl) refl ((omega arith), (omega arith), (omega arith)) world-Posix
      plain-IsSound refl text-Fits plain-Whole
