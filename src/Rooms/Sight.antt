-- ===== src/Rooms/Sight.antt =====
-- Houses of src/chat/RoomManager.h that nobody can tell apart: the same connections in the same
-- rooms, under the same sessions.
use reactor_chat_server.Common.{
  ℕ, ◌≡◌, refl, sym, ap, ap₂, subst, ◌∙◌, Bool, false, not, ◌&&◌, List, [], ◌∷◌, map, none, some,
  Bytes, ◌==◌, arith, inl, inr, Option, Option-cases, Bool-cases, ==_iff, ◌<◌,
}
use mathlib.Core.Path.{fun_ext}
use mathlib.Core.Quot
use mathlib.Core.Quot.{Quot, Quot-set}
use native.Mathlib.Nat.{ℕ_set}
use reactor_chat_server.Rooms.{
  ConnectionId, Session, House, leave, broadcast, members, names_of, room_of,
}
use reactor_chat_server.Rooms.Set.{contains, Above-trans, Ascending}
use reactor_chat_server.Rooms.Invariant.{IsConsistent}
use reactor_chat_server.Rooms.Effects.{
  leave_lem, broadcast-none, broadcast-some, members-none, members-some, Above-not_contains,
}
use reactor_chat_server.Rooms.View.{View, view, dismiss, view-leave}

-- A set has one ascending list.
below : (a y : ℕ) (ys : List ℕ) → Ascending (y ∷ ys) → a < y → contains a (y ∷ ys) ≡ false
below a y ys t h = Above-not_contains a (y ∷ ys) (h, Above-trans a y ys h t.0)

same_head :
    (x y : ℕ) (xs ys : List ℕ)
    → Ascending (x ∷ xs)
    → Ascending (y ∷ ys)
    → ((c : ℕ) → contains c (x ∷ xs) ≡ contains c (y ∷ ys))
    → x ≡ y
unfolding contains
same_head x y xs ys s t e = ground (arith, e x, e y, below x y ys t, below y x xs s)

same_tail :
    (x c : ℕ) (xs ys : List ℕ)
    → Ascending (x ∷ xs)
    → Ascending (x ∷ ys)
    → contains c (x ∷ xs) ≡ contains c (x ∷ ys)
    → contains c xs ≡ contains c ys
unfolding contains
same_tail x c xs ys s t e = elim (Bool-cases (c == x)) [
  | inl hit ↦
      let lone = λ (l : List ℕ) (f : Ascending (x ∷ l)).
        subst (λ (k : ℕ). contains k l ≡ false) (sym ((==_iff c x).0 hit))
          (Above-not_contains x l f.0) in
      lone xs s ∙ sym (lone ys t)
  | inr other ↦ ground (arith, other, e)
]

Ascending-unique :
    (xs ys : List ℕ)
    → Ascending xs
    → Ascending ys
    → ((c : ℕ) → contains c xs ≡ contains c ys)
    → xs ≡ ys
unfolding contains
Ascending-unique [] [] s t e = refl
Ascending-unique [] (y ∷ ys) s t e = absurd (ground (arith, e y))
Ascending-unique (x ∷ xs) [] s t e = absurd (ground (arith, e x))
Ascending-unique (x ∷ xs) (y ∷ ys) s t e =
    let head = same_head x y xs ys s t e in
    let t' = subst (λ (k : ℕ). Ascending (k ∷ ys)) (sym head) t in
    let e' = subst (λ (k : ℕ). (c : ℕ) → contains c (x ∷ xs) ≡ contains c (k ∷ ys)) (sym head) e in
    ap₂ ◌∷◌ head (Ascending-unique xs ys s.1 t.1 (λ c. same_tail x c xs ys s t' (e' c)))

-- What is said and seen, by the list of the room.
broadcast-room_of :
    (room line : Bytes) (h : House) → broadcast room line h ≡ map (λ c. (c, line)) (room_of room h)
broadcast-room_of room line h = elim (Option-cases (h.rooms room)) [
  | inl e ↦ rw e (broadcast-none room h line e)
  | inr (conns, e) ↦ rw e (broadcast-some room h line conns e)
]

members-room_of : (room : Bytes) (h : House) → members room h ≡ names_of (room_of room h) h
unfolding names_of
members-room_of room h = elim (Option-cases (h.rooms room)) [
  | inl e ↦ rw e (members-none room h e)
  | inr (conns, e) ↦ rw e (members-some room h conns e)
]

names_of-sessions :
    (conns : List ConnectionId) (h g : House)
    → h.sessions ≡ g.sessions
    → names_of conns h ≡ names_of conns g
unfolding names_of
names_of-sessions [] h g e = refl
names_of-sessions (c ∷ cs) h g e = ap₂ named (ap (λ f. f c) e) (names_of-sessions cs h g e)
  where
    named : Option Session → List Bytes → List Bytes
    named o rest = elim o [ none ↦ rest | some s ↦ s.nick ∷ rest ]

module _ (h g : House) (k : IsConsistent h) (m : IsConsistent g) (e : view h ≡ view g) where
  room_of-view : (room : Bytes) → room_of room h ≡ room_of room g
  room_of-view room =
      Ascending-unique (room_of room h) (room_of room g) (k.ordered room) (m.ordered room)
        (λ c. ap (λ (v : View). v.members room c) e)

  told_alike :
      (room line : Bytes)
      → (broadcast room line h ≡ broadcast room line g) × (members room h ≡ members room g)
  told_alike room line = (
    broadcast-room_of room line h
        ∙ ap (map (λ c. (c, line))) (room_of-view room)
        ∙ sym (broadcast-room_of room line g),
    members-room_of room h
        ∙ ap (λ l. names_of l h) (room_of-view room)
        ∙ names_of-sessions (room_of room g) h g (ap (λ (v : View). v.sessions) e)
        ∙ sym (members-room_of room g),
  )

-- A house as the others see it.
abbrev pub ConsistentHouse : Type 0
ConsistentHouse = (h : House) × IsConsistent h

abbrev pub SameView : ConsistentHouse → ConsistentHouse → Type 0
SameView a b = view a.0 ≡ view b.0

abbrev pub SeenHouse : Type 0
SeenHouse = Quot SameView

-- Both are questions to what is seen.
pub seen_broadcast : Bytes → Bytes → SeenHouse → List (ConnectionId × Bytes)
seen_broadcast room line =
    Quot.lift (hlevel ℕ_set) (λ a. broadcast room line a.0)
      (λ a b e. (told_alike a.0 b.0 a.1 b.1 e room line).0)

leave_view :
    (conn : ConnectionId) (h g : House)
    → IsConsistent h
    → IsConsistent g
    → view h ≡ view g
    → view (leave conn h) ≡ view (leave conn g)
leave_view conn h g k m e = view-leave conn h k ∙ ap (dismiss conn) e ∙ sym (view-leave conn g m)

-- `leave`, on what is seen.
pub seen_leave : ConnectionId → SeenHouse → SeenHouse
seen_leave conn =
    Quot.lift Quot-set (λ a. Quot.mk (leave conn a.0, (leave_lem conn a.0 a.1).0))
      (λ a b e. Quot.sound (leave_view conn a.0 b.0 a.1 b.1 e))

dismiss_comm : (a b : ConnectionId) (v : View) → dismiss a (dismiss b v) ≡ dismiss b (dismiss a v)
dismiss_comm a b v =
    ap (λ (m : Bytes → ConnectionId → Bool). record { members = m; sessions = v.sessions })
      (fun_ext (λ r. fun_ext (λ c. swap (not (c == a)) (not (c == b)) (v.members r c))))
  where
    swap : (x y z : Bool) → (x && (y && z)) ≡ (y && (x && z))
    swap x y z = ground arith

-- Two connections may leave in either order: what is seen of the house is the same.
pub seen_leave_comm :
    (a b : ConnectionId) (x : SeenHouse)
    → seen_leave a (seen_leave b x) ≡ seen_leave b (seen_leave a x)
unfolding seen_leave
seen_leave_comm a b =
    Quot.ind (λ x. Quot-set _ _)
      (λ h.
        Quot.sound
          (view_twice a b h.0 h.1 ∙ dismiss_comm a b (view h.0) ∙ sym (view_twice b a h.0 h.1)))
  where
    view_twice :
        (a b : ConnectionId) (h : House)
        → IsConsistent h
        → view (leave a (leave b h)) ≡ dismiss a (dismiss b (view h))
    view_twice a b h k =
        view-leave a (leave b h) (leave_lem b h k).0 ∙ ap (dismiss a) (view-leave b h k)
