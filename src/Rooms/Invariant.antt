-- ===== src/Rooms/Invariant.antt =====
-- The room table and the sessions of src/chat/RoomManager.h, held against each other.
use reactor_chat_server.Common.{
  ℕ, ◌≡◌, refl, sym, ap, ◌∙◌, subst, Bool, true, false, not, ◌&&◌, ◌||◌, some, Bytes, ◌==◌,
  bytes_eq, bytes_eq→≡, bytes_eq_refl, is_empty, arith, if◌then◌else◌, inl, inr, Bool-cases, ==_iff,
}
use reactor_chat_server.Rooms.{
  ConnectionId, Session, House, empty_house, set_session, room_of, remove_from, add_to, left_house,
  nicked, joined,
}
use reactor_chat_server.Rooms.Set.{
  contains, contains-insert, contains-erase, Ascending, insert-Ascending, erase-Ascending,
}

abbrev pub in_room : Bytes → ConnectionId → House → Bool
in_room room conn h = contains conn (room_of room h)

-- Where a connection sits, its session says so, and the room has a name.
abbrev pub Seated : House → Bytes → ConnectionId → Type 0
Seated h room conn =
    (s : Session) × (h.sessions conn ≡ some s) × (s.room ≡ room) × (is_empty room ≡ false)

pub record IsConsistent (h : House) : Type 0 where
  pub seated :
      (room : Bytes) (conn : ConnectionId) → in_room room conn h ≡ true → Seated h room conn
  pub ordered : (room : Bytes) → Ascending (room_of room h)

module _ (room r : Bytes) (conn c : ConnectionId) (h : House) where
  pub in_room-remove_from :
      in_room r c (remove_from room conn h) ≡ (not (bytes_eq r room && c == conn) && in_room r c h)
  unfolding remove_from
  in_room-remove_from = elim (Bool-cases (bytes_eq r room)) [
    | inl same ↦
        rw (same, contains-erase conn c (room_of room h))
          (ap (λ l. not (c == conn) && in_room l c h) (sym (bytes_eq→≡ r room same)))
    | inr other ↦ rw other
  ]

  pub in_room-add_to :
      in_room r c (add_to room conn h) ≡ ((bytes_eq r room && c == conn) || in_room r c h)
  unfolding add_to
  in_room-add_to = elim (Bool-cases (bytes_eq r room)) [
    | inl same ↦
        rw (same, contains-insert conn c (room_of room h))
          (ap (λ l. c == conn || in_room l c h) (sym (bytes_eq→≡ r room same)))
    | inr other ↦ rw other
  ]

  pub remove_from-Ascending :
      Ascending (room_of room h)
      → Ascending (room_of r h)
      → Ascending (room_of r (remove_from room conn h))
  unfolding remove_from
  remove_from-Ascending s t = elim (Bool-cases (bytes_eq r room)) [
    | inl same ↦ rw same (erase-Ascending conn (room_of room h) s)
    | inr other ↦ rw other t
  ]

  pub add_to-Ascending :
      Ascending (room_of room h)
      → Ascending (room_of r h)
      → Ascending (room_of r (add_to room conn h))
  unfolding add_to
  add_to-Ascending s t = elim (Bool-cases (bytes_eq r room)) [
    | inl same ↦ rw same (insert-Ascending conn (room_of room h) s)
    | inr other ↦ rw other t
  ]

pub empty_house-IsConsistent : IsConsistent empty_house
unfolding empty_house contains
empty_house-IsConsistent = record { seated = λ room conn e. cc; ordered = λ room. tt }

-- A connection sits in one room at most.
pub one_room :
    (h : House) (room room' : Bytes) (conn : ConnectionId)
    → IsConsistent h
    → in_room room conn h ≡ true
    → in_room room' conn h ≡ true
    → room ≡ room'
one_room h room room' conn k e e' =
    let (s, a, b, _) = k.seated room conn e in let (s', a', b', _) = k.seated room' conn e' in cc

pub left_house-sessions :
    (s : Session) (conn : ConnectionId) (h : House) → (left_house s conn h).sessions ≡ h.sessions
unfolding left_house remove_from
left_house-sessions s conn h = elim (Bool-cases (is_empty s.room)) [
  | inl homeless ↦ rw homeless
  | inr housed ↦ rw housed
]

module _ (h : House) (s : Session) (conn : ConnectionId) (k : IsConsistent h)
    (e : h.sessions conn ≡ some s) where
  -- A connection that sits somewhere sits in the room of its session.
  seat : (room : Bytes) → in_room room conn h ≡ true → (s.room ≡ room) × (is_empty room ≡ false)
  seat room sits =
      let (s', found, at, named) = k.seated room conn sits in
      let same : s' ≡ s = cc in (subst (λ (t : Session). t.room ≡ room) same at, named)

  sits_in_own_room :
      (room : Bytes)
      → in_room room conn h ≡ true
      → (bytes_eq room s.room ≡ true) × (is_empty s.room ≡ false)
  sits_in_own_room room sits =
      let (at, named) = seat room sits in
      (
        subst (λ (r : Bytes). bytes_eq room r ≡ true) (sym at) (bytes_eq_refl room),
        subst (λ (r : Bytes). is_empty r ≡ false) (sym at) named,
      )

  -- Leaving takes the connection out of every room, and no other out of any.
  pub in_room-left_house :
      (r : Bytes) (c : ConnectionId)
      → in_room r c (left_house s conn h) ≡ (not (c == conn) && in_room r c h)
  unfolding left_house
  in_room-left_house r c =
      let removed = in_room-remove_from s.room r conn c h in
      elim (Bool-cases (c == conn)) [
        | inr other ↦ elim (Bool-cases (is_empty s.room)) [
          | inl homeless ↦ rw (homeless, other)
          | inr housed ↦ rw (housed, removed, other) (ground arith)
        ]
        | inl hit ↦ elim (Bool-cases (in_room r c h)) [
          | inr stands ↦ elim (Bool-cases (is_empty s.room)) [
            | inl homeless ↦ rw (homeless, hit, stands)
            | inr housed ↦ rw (housed, removed, stands) (ground arith)
          ]
          | inl sits ↦
              let own =
                sits_in_own_room r
                  (subst (λ (i : ℕ). in_room r i h ≡ true) ((==_iff c conn).0 hit) sits) in
              rw (own.1, removed, own.0, hit)
        ]
      ]

  pub left_house-IsConsistent : IsConsistent (left_house s conn h)
  unfolding left_house
  left_house-IsConsistent = record {
    seated = λ room c sits.
        let was : in_room room c h ≡ true = ground (arith, in_room-left_house room c, sits) in
        let (t, found, at, named) = k.seated room c was in
        (t, ap (λ f. f c) (left_house-sessions s conn h) ∙ found, at, named);
    ordered = ordered_left;
  }
    where
      ordered_left : (room : Bytes) → Ascending (room_of room (left_house s conn h))
      ordered_left room = elim (Bool-cases (is_empty s.room)) [
        | inl homeless ↦ rw homeless (k.ordered room)
        | inr housed ↦
            rw housed
              (remove_from-Ascending s.room room conn conn h (k.ordered s.room) (k.ordered room))
      ]

  -- Joining puts the connection into the room, and out of every other; the others stay.
  pub in_room-joined :
      (room r : Bytes) (c : ConnectionId)
      → in_room r c (joined room s conn h) ≡ (if c == conn then bytes_eq r room else in_room r c h)
  unfolding joined
  in_room-joined room r c =
      let added =
        in_room-add_to room r conn c
          (set_session conn (record s { room = room }) (left_house s conn h)) in
      let left = in_room-left_house r c in
      elim (Bool-cases (c == conn)) [
        | inl hit ↦ rw (added, hit) (ground (arith, left, hit))
        | inr other ↦ rw (added, other) (ground (arith, left, other))
      ]

  pub joined-sessions :
      (room : Bytes) (c : ConnectionId)
      → (joined room s conn h).sessions c
        ≡ (if c == conn then some (record s { room = room }) else h.sessions c)
  unfolding joined add_to
  joined-sessions room c =
      ap (λ f. if c == conn then some (record s { room = room }) else f c)
        (left_house-sessions s conn h)

  joined_seat :
      (room r : Bytes) (c : ConnectionId)
      → is_empty room ≡ false
      → in_room r c (joined room s conn h) ≡ true
      → Seated (joined room s conn h) r c
  joined_seat room r c named sits = elim (Bool-cases (c == conn)) [
    | inl hit ↦
        let here : bytes_eq r room ≡ true = ground (arith, in_room-joined room r c, hit, sits) in
        let same = sym (bytes_eq→≡ r room here) in
        (
          record s { room = room },
          joined-sessions room c
              ∙ ap (λ t. if t then some (record s { room = room }) else h.sessions c) hit,
          same,
          subst (λ l. is_empty l ≡ false) same named,
        )
    | inr other ↦
        let was : in_room r c h ≡ true = ground (arith, in_room-joined room r c, other, sits) in
        let (t, found, at, at_named) = k.seated r c was in
        (
          t,
          joined-sessions room c
              ∙ ap (λ b. if b then some (record s { room = room }) else h.sessions c) other
              ∙ found,
          at,
          at_named,
        )
  ]

  pub joined-IsConsistent :
      (room : Bytes) → is_empty room ≡ false → IsConsistent (joined room s conn h)
  unfolding joined
  joined-IsConsistent room named = record {
    seated = λ r c. joined_seat room r c named;
    ordered = λ r.
        add_to-Ascending room r conn conn _ (left_house-IsConsistent.ordered room)
          (left_house-IsConsistent.ordered r);
  }

  -- A session of the same room in place of the old one.
  pub set_session-IsConsistent :
      (s' : Session) → s'.room ≡ s.room → IsConsistent (set_session conn s' h)
  set_session-IsConsistent s' same = record { seated = resettled; ordered = k.ordered }
    where
      resettled :
          (r : Bytes) (c : ConnectionId) → in_room r c h ≡ true → Seated (set_session conn s' h) r c
      resettled r c sits = elim (Bool-cases (c == conn)) [
        | inl hit ↦
            let at =
              seat r (subst (λ (i : ℕ). in_room r i h ≡ true) ((==_iff c conn).0 hit) sits) in
            (s', rw hit, same ∙ at.0, at.1)
        | inr other ↦
            let (t, found, at, named) = k.seated r c sits in (t, rw other found, at, named)
      ]

  pub nicked-IsConsistent : (nick : Bytes) → IsConsistent (nicked nick s conn h)
  unfolding nicked
  nicked-IsConsistent nick = set_session-IsConsistent (record s { nick = nick }) refl
