-- ===== src/Chat.antt =====
-- src/chat/ChatServer.h and src/chat/ChatServer.cc: the commands of a line, the life of a session,
-- and the idle timer. Time is a number of clock ticks, and so are the durations, which the source
-- holds as seconds in a `double`.
pub mod Texts
pub mod Commands
pub mod Delivery
pub mod OneLine
pub mod Clean
pub mod Idle
pub mod Tests
use reactor_chat_server.Common.{
  ℕ, ◌+◌, ◌-◌, Bool, true, false, List, [], ◌∷◌, ◌++◌, map, Option, none, some, Bytes, bytes_eq,
  is_empty, starts_with, drop, leb, ltb, if◌then◌else◌,
}
use reactor_chat_server.Buffer.{Buffer}
use reactor_chat_server.Codec.{take_lines, format_broadcast}
use reactor_chat_server.Rooms.{
  ConnectionId, Session, House, set_session, set_nick, join, leave, broadcast, members,
}
use Texts.{
  welcome_text, nick_set_text, empty_room_text, system_text, joined_text, online_text,
  join_first_text, idle_text, nick_command, join_command, who_command, quit_command,
}

-- What the chat asks of the network library: calls of `TcpConnection` and of its loop, in order.
pub data Effect : Type 0 where
  send : ConnectionId → Bytes → Effect
  shutdown : ConnectionId → Effect
  run_after : ConnectionId → ℕ → Effect

-- A handler's result: the state and the calls made; `none` is a null session that is dereferenced.
abbrev pub Outcome : Type 0
Outcome = Option (House × List Effect)

abbrev pub send_all : List (ConnectionId × Bytes) → List Effect
send_all [] = []
send_all ((c, line) ∷ sends) = send c line ∷ send_all sends

-- `list += nick + " "` over the members.
pub joined_names : List Bytes → Bytes
joined_names [] = []
joined_names (nick ∷ nicks) = nick ++ (b' ' ∷ joined_names nicks)

-- The branches of `onMessage`, for a connection whose session is `s` when the line is read.
unfoldable pub on_nick : ConnectionId → Bytes → House → Outcome
on_nick conn nick h = elim (set_nick conn nick h) [
  | none ↦ none
  | some h' ↦ some (h', send conn (nick_set_text ++ (nick ++ b'\n' ∷ [])) ∷ [])
]

pub on_join : ConnectionId → Session → Bytes → House → Outcome
on_join conn s room h =
    if is_empty room then some (h, send conn empty_room_text ∷ []) else elim (join room conn h) [
      | none ↦ none
      | some h' ↦ some (
        h',
        send_all (broadcast room (format_broadcast room system_text (s.nick ++ joined_text)) h'),
      )
    ]

pub on_text : ConnectionId → Session → Bytes → House → Outcome
on_text conn s line h =
    if is_empty s.room
    then some (h, send conn join_first_text ∷ [])
    else some (h, send_all (broadcast s.room (format_broadcast s.room s.nick line) h))

-- The body of the loop over the lines.
unfoldable pub on_line : ConnectionId → Session → Bytes → House → Outcome
on_line conn s line h =
    if starts_with nick_command line
    then on_nick conn (drop 6 line) h
    else if starts_with join_command line
    then on_join conn s (drop 6 line) h
    else if bytes_eq line who_command
    then some (h, send conn (online_text ++ (joined_names (members s.room h) ++ b'\n' ∷ [])) ∷ [])
    else if bytes_eq line quit_command
    then some (h, shutdown conn ∷ [])
    else on_text conn s line h

unfoldable pub on_lines : ConnectionId → List Bytes → House → Outcome
on_lines conn [] h = some (h, [])
on_lines conn (line ∷ lines) h = elim (h.sessions conn) [
  | none ↦ none
  | some s ↦ elim (on_line conn s line h) [
    | none ↦ none
    | some (h', done) ↦ elim (on_lines conn lines h') [
      | none ↦ none
      | some (h'', later) ↦ some (h'', done ++ later)
    ]
  ]
]

-- The message callback at time `now`: the state, the calls, and the buffer that is left.
unfoldable pub on_message :
    ConnectionId → ℕ → Buffer → House → Option (House × List Effect × Buffer)
on_message conn now buf h = elim (h.sessions conn) [
  | none ↦ none
  | some s ↦
      let (lines, buf') = take_lines buf in
      elim (on_lines conn lines (set_session conn (record s { last_active = now }) h)) [
        | none ↦ none
        | some (h', done) ↦ some (h', done, buf')
      ]
]

-- The connection callback; `connected` is what the connection answers, `timeout` is `idleTimeout_`.
unfoldable pub on_connection : ConnectionId → Bool → ℕ → ℕ → House → House × List Effect
on_connection conn connected now timeout h =
    if connected
    then (
      set_session conn (record { nick = []; room = []; last_active = now }) h,
      send conn welcome_text ∷ (if ltb 0 timeout then run_after conn timeout ∷ [] else []),
    )
    else (leave conn h, [])

-- The idle timer's callback; `alive` says whether the connection is there and connected.
unfoldable pub on_idle_timer : ConnectionId → Bool → ℕ → ℕ → House → Option (List Effect)
on_idle_timer conn alive now timeout h =
    if alive
    then elim (h.sessions conn) [
      | none ↦ none
      | some s ↦
          let idle = now - s.last_active in
          if leb timeout idle
          then some (send conn idle_text ∷ shutdown conn ∷ [])
          else some (run_after conn (timeout - idle) ∷ [])
    ]
    else some []
