-- ===== src/Rooms/Effects.antt =====
-- The operations of src/chat/RoomManager.cc, for every room and every connection.
use reactor_chat_server.Common.{
  ℕ, ◌≡◌, refl, sym, subst, false, not, ◌&&◌, List, [], ◌∷◌, map, none, some, Bytes, ◌==◌, bytes_eq,
  is_empty, arith, if◌then◌else◌, inl, inr, Bool-cases, Option-cases, ==_iff,
}
use reactor_chat_server.Rooms.{
  ConnectionId, Session, House, or_none, join, leave, joined, with_session, set_nick, nicked,
  broadcast, members, names_of,
}
use reactor_chat_server.Rooms.Set.{contains, Above, Ascending}
use reactor_chat_server.Rooms.Invariant.{
  in_room, IsConsistent, in_room-joined, joined-IsConsistent, in_room-left_house,
  left_house-IsConsistent, left_house-sessions, nicked-IsConsistent, joined-sessions,
}

-- join of a named room, by a connection that has a session in a consistent house, puts it into that
-- room and out of every other, notes it in the session, changes no other session and no other
-- connection's rooms, and keeps the house consistent.
pub join_lem :
    (room : Bytes) (conn : ConnectionId) (h : House) (s : Session)
    → IsConsistent h
    → h.sessions conn ≡ some s
    → is_empty room ≡ false
    → (h' : House) × (join room conn h ≡ some h')
      × IsConsistent h'
      × ((r : Bytes) (c : ConnectionId)
          → in_room r c h' ≡ (if c == conn then bytes_eq r room else in_room r c h))
      × ((c : ConnectionId)
          → h'.sessions c ≡ (if c == conn then some (record s { room = room }) else h.sessions c))
unfolding join with_session
join_lem room conn h s k e named = (
  joined room s conn h,
  rw (e, join, with_session),
  joined-IsConsistent h s conn k e room named,
  in_room-joined h s conn k e room,
  joined-sessions h s conn k e room,
)

-- Operations without a session.
module _ (conn : ConnectionId) (h : House) (e : h.sessions conn ≡ none) where
  pub join-none : (room : Bytes) → join room conn h ≡ none
  unfolding join with_session
  join-none room = rw (e, join, with_session)

  pub set_nick-none : (nick : Bytes) → set_nick conn nick h ≡ none
  unfolding set_nick with_session
  set_nick-none nick = rw (e, set_nick, with_session)

-- `setNick` by a connection that has a session changes its nick and nothing else.
pub set_nick_lem :
    (nick : Bytes) (conn : ConnectionId) (h : House) (s : Session)
    → IsConsistent h
    → h.sessions conn ≡ some s
    → (h' : House) × (set_nick conn nick h ≡ some h')
      × IsConsistent h'
      × ((r : Bytes) (c : ConnectionId) → in_room r c h' ≡ in_room r c h)
      × ((c : ConnectionId)
          → h'.sessions c ≡ (if c == conn then some (record s { nick = nick }) else h.sessions c))
unfolding set_nick with_session nicked
set_nick_lem nick conn h s k e = (
  nicked nick s conn h,
  rw (e, set_nick, with_session),
  nicked-IsConsistent h s conn k e nick,
  λ r c. refl,
  λ c. refl,
)

pub absent :
    (conn : ConnectionId) (h : House)
    → IsConsistent h
    → h.sessions conn ≡ none
    → (r : Bytes) → in_room r conn h ≡ false
absent conn h k e r = elim (Bool-cases (in_room r conn h)) [
  | inl sits ↦ let (s, found, _, _) = k.seated r conn sits in cc
  | inr stands ↦ stands
]

-- leave takes a connection, with or without a session, out of every room of a consistent house,
-- leaves all others in theirs, and keeps the house consistent.
pub leave_lem :
    (conn : ConnectionId) (h : House)
    → IsConsistent h
    → IsConsistent (leave conn h)
      × ((r : Bytes) (c : ConnectionId)
          → in_room r c (leave conn h) ≡ (not (c == conn) && in_room r c h))
unfolding leave
leave_lem conn h k = elim (Option-cases (h.sessions conn)) [
  | inl e ↦ rw (e, leave) (k, λ r c. no_session e r c)
  | inr (s, e) ↦
      rw (e, leave) (left_house-IsConsistent h s conn k e, in_room-left_house h s conn k e)
]
  where
    no_session :
        h.sessions conn ≡ none
        → (r : Bytes) (c : ConnectionId) → in_room r c h ≡ (not (c == conn) && in_room r c h)
    no_session e r c = elim (Bool-cases (c == conn)) [
      | inr other ↦ rw other
      | inl hit ↦ rw hit (
          subst (λ (i : ℕ). in_room r i h ≡ false) (sym ((==_iff c conn).0 hit))
            (absent conn h k e r))
    ]

pub leave-sessions : (conn : ConnectionId) (h : House) → (leave conn h).sessions ≡ h.sessions
unfolding leave
leave-sessions conn h = elim (Option-cases (h.sessions conn)) [
  | inl e ↦ rw (e, leave)
  | inr (s, e) ↦ rw (e, leave) (left_house-sessions s conn h)
]

-- The messages for one connection among the sends of a broadcast.
abbrev pub sends_to : ConnectionId → List (ConnectionId × Bytes) → List Bytes
sends_to c [] = []
sends_to c ((d, line) ∷ sends) = if c == d then line ∷ sends_to c sends else sends_to c sends

pub Above-not_contains : (a : ℕ) (xs : List ℕ) → Above a xs → contains a xs ≡ false
unfolding contains
Above-not_contains a [] t = refl
Above-not_contains a (x ∷ xs) t = ground (arith, Above-not_contains a xs t.1)

sends_to-map :
    (c : ConnectionId) (line : Bytes) (conns : List ConnectionId)
    → Ascending conns
    → sends_to c (map (λ d. (d, line)) conns) ≡ (if contains c conns then line ∷ [] else [])
unfolding contains
sends_to-map c line [] s = refl
sends_to-map c line (x ∷ xs) s = elim (Bool-cases (c == x)) [
  | inl hit ↦
      let alone : contains c xs ≡ false =
        subst (λ (i : ℕ). contains i xs ≡ false) (sym ((==_iff c x).0 hit))
          (Above-not_contains x xs s.0) in
      rw (hit, sends_to-map c line xs s.1, alone)
  | inr other ↦ rw (other, sends_to-map c line xs s.1)
]

-- In a consistent house a broadcast sends the line to every member of the room exactly once and to
-- nobody else.
pub broadcast_lem :
    (room line : Bytes) (h : House) (c : ConnectionId)
    → IsConsistent h
    → sends_to c (broadcast room line h) ≡ (if in_room room c h then line ∷ [] else [])
unfolding broadcast contains
broadcast_lem room line h c k = elim (Option-cases (h.rooms room)) [
  | inl e ↦ rw (e, broadcast)
  | inr (conns, e) ↦
      rw (e, broadcast)
        (sends_to-map c line conns (subst (λ o. Ascending (or_none o)) e (k.ordered room)))
]

-- `broadcast` and `members`, by whether the room is in the table.
module _ (room : Bytes) (h : House) where
  pub broadcast-none : (line : Bytes) → h.rooms room ≡ none → broadcast room line h ≡ []
  unfolding broadcast
  broadcast-none line e = rw (e, broadcast)

  pub broadcast-some :
      (line : Bytes) (conns : List ConnectionId)
      → h.rooms room ≡ some conns
      → broadcast room line h ≡ map (λ c. (c, line)) conns
  unfolding broadcast
  broadcast-some line conns e = rw (e, broadcast)

  pub members-none : h.rooms room ≡ none → members room h ≡ []
  unfolding members
  members-none e = rw (e, members)

  pub members-some :
      (conns : List ConnectionId) → h.rooms room ≡ some conns → members room h ≡ names_of conns h
  unfolding members
  members-some conns e = rw (e, members)
