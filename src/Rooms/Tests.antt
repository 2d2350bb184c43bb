-- ===== src/Rooms/Tests.antt =====
-- src/chat/RoomManager.cc with two connections in one room.
use reactor_chat_server.Common.{
  List, ◌≡◌, refl, sym, subst, Bool, true, false, ◌||◌, some, none, [], ◌∷◌, Bytes, ◌==◌, bytes_eq,
  bytes_eq→≡, if◌then◌else◌, arith, is_empty, inl, inr, Bool-cases,
}
use reactor_chat_server.Rooms.{ConnectionId, Session, House, or_none}
use reactor_chat_server.Rooms.Set.{contains, Ascending}
use reactor_chat_server.Rooms.Invariant.{IsConsistent, Seated}
use reactor_chat_server.Rooms.View.{
  view, Operation, joining, nicking, leaving, viewed, operate_all, promised_all, operate_all-viewed,
}

abbrev lobby : Bytes
lobby = b'l' ∷ []

abbrev cellar : Bytes
cellar = b'c' ∷ []

abbrev session : Session
session = record { nick = b'a' ∷ []; room = lobby; last_active = 3 }

abbrev house : House
house = record {
  rooms = λ room. if bytes_eq room lobby then some (1 ∷ 2 ∷ []) else none;
  sessions = λ conn. if conn == 1 || conn == 2 then some session else none;
}

-- Who is among the two has a session.
guest :
    (conn : ConnectionId) → contains conn (1 ∷ 2 ∷ []) ≡ true → house.sessions conn ≡ some session
unfolding contains
guest conn e = elim (Bool-cases (conn == 1 || conn == 2)) [
  | inl hit ↦ rw hit
  | inr miss ↦ absurd (ground arith)
]

seat :
    (room : Bytes) (conn : ConnectionId) (open_room : Bool)
    → bytes_eq room lobby ≡ open_room
    → contains conn (or_none (if open_room then some (1 ∷ 2 ∷ []) else none)) ≡ true
    → Seated house room conn
unfolding contains
seat room conn false e sits = cc
seat room conn true e sits =
    let here = bytes_eq→≡ room lobby e in
    (session, guest conn sits, sym here, subst (λ r. is_empty r ≡ false) (sym here) refl)

rows : (open_room : Bool) → Ascending (or_none (if open_room then some (1 ∷ 2 ∷ []) else none))
rows false = tt
rows true = omega arith

house-IsConsistent : IsConsistent house
house-IsConsistent = record {
  seated = λ room conn e. seat room conn (bytes_eq room lobby) refl e;
  ordered = λ room. rows (bytes_eq room lobby);
}

-- Joins, a new nick and a leave.
abbrev calls : List Operation
calls = joining cellar 1 ∷ nicking 2 cellar ∷ leaving 1 ∷ []

operate_all_example : viewed (operate_all calls house) ≡ promised_all calls (view house)
operate_all_example = operate_all-viewed calls house house-IsConsistent (refl, (tt, (tt, tt)))
