-- ===== src/Rooms.antt =====
-- src/chat/RoomManager.h and src/chat/RoomManager.cc: which connections are in which room. Each
-- operation holds the mutex throughout, so operations of different threads are run one after the
-- other.
pub mod Set
pub mod Invariant
pub mod Effects
pub mod View
pub mod Sight
mod Tests
use reactor_chat_server.Common.{
  ℕ, Bool, true, false, List, [], ◌∷◌, map, Option, none, some, Bytes, ◌==◌, bytes_eq, is_empty,
  if◌then◌else◌,
}
use Set.{insert, erase}

-- A connection's identity: the address of the object, by which `std::set` orders the pointers.
abbrev pub ConnectionId : Type 0
ConnectionId = ℕ

-- `struct Session`; the time is a number of clock ticks.
pub record Session : Type 0 where
  pub nick : Bytes
  pub room : Bytes
  pub last_active : ℕ

-- `rooms_`, and the session that hangs on each connection, if any.
pub record House : Type 0 where
  pub rooms : Bytes → Option (List ConnectionId)
  pub sessions : ConnectionId → Option Session

unfoldable pub empty_house : House
empty_house = record { rooms = λ _. none; sessions = λ _. none }

abbrev pub set_room : Bytes → List ConnectionId → House → House
set_room room conns h = record h { rooms = λ r. if bytes_eq r room then some conns else h.rooms r }

abbrev pub set_session : ConnectionId → Session → House → House
set_session conn s h = record h { sessions = λ c. if c == conn then some s else h.sessions c }

-- The connections of a room; `rooms_[room]` makes a missing one, which is empty.
abbrev pub or_none : Option (List ConnectionId) → List ConnectionId
or_none none = []
or_none (some conns) = conns

abbrev pub room_of : Bytes → House → List ConnectionId
room_of room h = or_none (h.rooms room)

-- `rooms_[room].erase(conn)` and `rooms_[room].insert(conn)`
pub remove_from : Bytes → ConnectionId → House → House
remove_from room conn h = set_room room (erase conn (room_of room h)) h

pub add_to : Bytes → ConnectionId → House → House
add_to room conn h = set_room room (insert conn (room_of room h)) h

-- The connection out of the room of its session, if it is in one.
pub left_house : Session → ConnectionId → House → House
left_house s conn h = if is_empty s.room then h else remove_from s.room conn h

-- `setNick` and `join`, on the session found. `none` is a null session that the code dereferences.
unfoldable pub nicked : Bytes → Session → ConnectionId → House → House
nicked nick s conn = set_session conn (record s { nick = nick })

pub joined : Bytes → Session → ConnectionId → House → House
joined room s conn h =
    add_to room conn (set_session conn (record s { room = room }) (left_house s conn h))

unfoldable pub with_session :
    ConnectionId → (Session → ConnectionId → House → House) → House → Option House
with_session conn f h = elim (h.sessions conn) [ none ↦ none | some s ↦ some (f s conn h) ]

unfoldable pub set_nick : ConnectionId → Bytes → House → Option House
set_nick conn nick = with_session conn (nicked nick)

pub join : Bytes → ConnectionId → House → Option House
join room conn = with_session conn (joined room)

pub leave : ConnectionId → House → House
leave conn h = elim (h.sessions conn) [ none ↦ h | some s ↦ left_house s conn h ]

-- The sends that a broadcast makes, in the order of the set.
pub broadcast : Bytes → Bytes → House → List (ConnectionId × Bytes)
broadcast room line h = elim (h.rooms room) [ none ↦ [] | some conns ↦ map (λ c. (c, line)) conns ]

-- The nicks of the connections that have a session.
unfoldable pub names_of : List ConnectionId → House → List Bytes
names_of [] h = []
names_of (c ∷ cs) h = elim (h.sessions c) [ none ↦ names_of cs h | some s ↦ s.nick ∷ names_of cs h ]

pub members : Bytes → House → List Bytes
unfolding names_of
members room h = elim (h.rooms room) [ none ↦ [] | some conns ↦ names_of conns h ]
