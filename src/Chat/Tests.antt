-- ===== src/Chat/Tests.antt =====
-- src/chat/ChatServer.cc with one connection in one room.
use reactor_chat_server.Common.{
  ℕ, ◌≡◌, refl, sym, subst, Bool, true, false, some, none, [], ◌∷◌, Bytes, ◌==◌, bytes_eq,
  starts_with, ◌++◌, bytes_eq→≡, if◌then◌else◌, arith, is_empty, inl, inr, Bool-cases, ltb,
}
use reactor_chat_server.Buffer.{
  Buffer, newline, find_eol, find_byte, readable_bytes, retrieve, retrieve_as_string, retrieve_all,
}
use reactor_chat_server.Chat.Texts.{nick_set_text, idle_text}
use reactor_chat_server.Buffer.Invariant.{IsValid}
use reactor_chat_server.Buffer.Search.{Free}
use reactor_chat_server.Codec.{take_lines, take_lines_loop}
use reactor_chat_server.Rooms.{
  ConnectionId, Session, House, broadcast, or_none, set_nick, with_session, nicked,
}
use reactor_chat_server.Rooms.Set.{contains, Ascending}
use reactor_chat_server.Rooms.Invariant.{in_room, IsConsistent, Seated}
use reactor_chat_server.Rooms.Effects.{sends_to}
use reactor_chat_server.Chat.{send, shutdown, on_nick, on_lines, on_message, on_line, on_connection}
use reactor_chat_server.Chat.Delivery.{on_connection-closed}
use reactor_chat_server.Chat.OneLine.{IsClean}
use reactor_chat_server.Chat.Idle.{closing_time, closing_time_lem}

abbrev pub lobby : Bytes
lobby = b'l' ∷ []

abbrev pub session : Session
session = record { nick = b'a' ∷ []; room = lobby; last_active = 3 }

abbrev pub house : House
house = record {
  rooms = λ room. if bytes_eq room lobby then some (1 ∷ []) else none;
  sessions = λ conn. if conn == 1 then some session else none;
}

guest : (conn : ConnectionId) → contains conn (1 ∷ []) ≡ true → house.sessions conn ≡ some session
unfolding contains
guest conn e = elim (Bool-cases (conn == 1)) [ inl hit ↦ rw hit | inr miss ↦ absurd (ground arith) ]

seat :
    (room : Bytes) (conn : ConnectionId) (open_room : Bool)
    → bytes_eq room lobby ≡ open_room
    → contains conn (or_none (if open_room then some (1 ∷ []) else none)) ≡ true
    → Seated house room conn
unfolding contains
seat room conn false e sits = cc
seat room conn true e sits =
    let here = bytes_eq→≡ room lobby e in
    (session, guest conn sits, sym here, subst (λ r. is_empty r ≡ false) (sym here) refl)

rows : (open_room : Bool) → Ascending (or_none (if open_room then some (1 ∷ []) else none))
rows false = tt
rows true = (tt, tt)

pub house-IsConsistent : IsConsistent house
house-IsConsistent = record {
  seated = λ room conn e. seat room conn (bytes_eq room lobby) refl e;
  ordered = λ room. rows (bytes_eq room lobby);
}

pub house-IsClean : IsClean house
house-IsClean c s e = elim (Bool-cases (c == 1)) [
  | inl hit ↦
      let own : some session ≡ some s =
        subst (λ t. (if t then some session else none) ≡ some s) hit e in
      let same : session ≡ s = cc in
      subst (λ (q : Session). Free newline q.nick × Free newline q.room) same
        (omega arith, omega arith)
  | inr miss ↦
      let other : none ≡ some s = subst (λ t. (if t then some session else none) ≡ some s) miss e in
      cc
]

-- "/nick b\n" is readable, and then "hi".
abbrev pub arrived_bytes : Buffer
arrived_bytes = record {
  buf =
      0 ∷ 0 ∷ 0 ∷ 0 ∷ 0 ∷ 0 ∷ 0 ∷ 0 ∷ b'/' ∷ b'n' ∷ b'i' ∷ b'c' ∷ b'k' ∷ b' ' ∷ b'b' ∷ newline
      ∷ b'h' ∷ b'i' ∷ [];
  reader_index = 8;
  writer_index = 18;
}

pub arrived_bytes-IsValid : IsValid arrived_bytes
arrived_bytes-IsValid = omega arith

pub arrived_bytes-send :
    (h' : House) × (on_message 1 9 arrived_bytes house
      ≡ some
          (h', send 1 (nick_set_text ++ (b'b' ∷ newline ∷ [])) ∷ [], (take_lines arrived_bytes).1))
unfolding on_message on_lines on_line on_nick set_nick with_session nicked take_lines
    take_lines_loop find_eol find_byte readable_bytes retrieve retrieve_as_string retrieve_all
    starts_with
arrived_bytes-send = (_, refl)

closed_example :
    IsConsistent (on_connection 1 false 9 60 house).0
    × ((on_connection 1 false 9 60 house).1 ≡ [])
    × ((room line : Bytes)
        → sends_to 1 (broadcast room line (on_connection 1 false 9 60 house).0) ≡ [])
    × ((room : Bytes) (c : ConnectionId)
        → (c == 1) ≡ false
        → in_room room c (on_connection 1 false 9 60 house).0 ≡ in_room room c house)
closed_example = on_connection-closed 1 9 60 house house-IsConsistent

-- Input at every tick until the third, and none after it.
abbrev seen : ℕ → ℕ
seen t = if ltb t 3 then t else 3

abbrev watched : ℕ → House
watched t = record house {
  sessions = λ conn. if conn == 1 then some (record session { last_active = seen t }) else none;
}

closing_example : closing_time 100 1 60 watched 60 ≡ some (63, send 1 idle_text ∷ shutdown 1 ∷ [])
closing_example =
    closing_time_lem 1 60 3 watched seen
      (λ t. (record session { last_active = seen t }, refl, refl)) (λ t. ground arith)
      (λ t h. ground arith) (λ t h. ground arith) 100 60 (omega arith) (omega arith)
