-- ===== src/Rooms/View.antt =====
-- The promise of src/chat/RoomManager.h: who is in which room, with no word of how the table is
-- kept.
use reactor_chat_server.Common.{
  ◌≡◌, refl, sym, ap, ap₂, subst, ◌∙◌, Bool, false, not, ◌&&◌, List, [], ◌∷◌, Option, none, some,
  Bytes, ◌==◌, bytes_eq, is_empty, if◌then◌else◌, inl, inr, Option-cases, All,
}
use mathlib.Core.Path.{fun_ext}
use reactor_chat_server.Rooms.{ConnectionId, Session, House, set_nick, join, leave}
use reactor_chat_server.Rooms.Invariant.{in_room, IsConsistent}
use reactor_chat_server.Rooms.Effects.{
  join_lem, set_nick_lem, leave_lem, join-none, set_nick-none, leave-sessions,
}

-- Membership, and the sessions.
pub record View : Type 0 where
  pub members : Bytes → ConnectionId → Bool
  pub sessions : ConnectionId → Option Session

abbrev pub view : House → View
view h = record { members = λ r c. in_room r c h; sessions = h.sessions }

-- The operations of the promise.
abbrev pub seat : Bytes → ConnectionId → Session → View → View
seat room conn s v = record {
  members = λ r c. if c == conn then bytes_eq r room else v.members r c;
  sessions = λ c. if c == conn then some (record s { room = room }) else v.sessions c;
}

abbrev pub rename : Bytes → ConnectionId → Session → View → View
rename nick conn s v = record v {
  sessions = λ c. if c == conn then some (record s { nick = nick }) else v.sessions c;
}

abbrev pub dismiss : ConnectionId → View → View
dismiss conn v = record v { members = λ r c. not (c == conn) && v.members r c }

-- The calls of the interface that change something.
pub data Operation : Type 0 where
  joining : Bytes → ConnectionId → Operation
  nicking : ConnectionId → Bytes → Operation
  leaving : ConnectionId → Operation

abbrev pub operate : Operation → House → Option House
operate (joining room conn) h = join room conn h
operate (nicking conn nick) h = set_nick conn nick h
operate (leaving conn) h = some (leave conn h)

abbrev on_session : Option Session → (Session → View) → Option View
on_session none f = none
on_session (some s) f = some (f s)

abbrev pub promised : Operation → View → Option View
promised (joining room conn) v = on_session (v.sessions conn) (λ s. seat room conn s v)
promised (nicking conn nick) v = on_session (v.sessions conn) (λ s. rename nick conn s v)
promised (leaving conn) v = some (dismiss conn v)

abbrev chain : {A B : Type 0} → Option A → (A → Option B) → Option B
chain none f = none
chain (some a) f = f a

-- A sequence of calls; `none` is a session that is null.
abbrev pub operate_all : List Operation → House → Option House
operate_all [] h = some h
operate_all (op ∷ ops) h = chain (operate op h) (operate_all ops)

abbrev pub promised_all : List Operation → View → Option View
promised_all [] v = some v
promised_all (op ∷ ops) v = chain (promised op v) (promised_all ops)

abbrev pub viewed : Option House → Option View
viewed none = none
viewed (some h) = some (view h)

-- The chat server joins rooms that have a name.
abbrev pub Named : Operation → Type 0
Named (joining room conn) = is_empty room ≡ false
Named (nicking conn nick) = Unit {0}
Named (leaving conn) = Unit {0}

pub View-ext :
    (h : House) (v : View)
    → ((r : Bytes) (c : ConnectionId) → in_room r c h ≡ v.members r c)
    → ((c : ConnectionId) → h.sessions c ≡ v.sessions c)
    → view h ≡ v
View-ext h v f g =
    ap₂
      (λ (m : Bytes → ConnectionId → Bool) (s : ConnectionId → Option Session). record {
        members = m;
        sessions = s;
      })
      (fun_ext (λ r. fun_ext (λ c. f r c))) (fun_ext g)

pub view-leave :
    (conn : ConnectionId) (h : House) → IsConsistent h → view (leave conn h) ≡ dismiss conn (view h)
view-leave conn h k =
    View-ext (leave conn h) (dismiss conn (view h)) (leave_lem conn h k).1
      (λ c. ap (λ g. g c) (leave-sessions conn h))

-- What one call does to the view of a consistent house.
record Refined (op : Operation) (h : House) : Type 0 where
  pub same : viewed (operate op h) ≡ promised op (view h)
  pub kept : (h' : House) → operate op h ≡ some h' → IsConsistent h'

operate-Refined : (op : Operation) (h : House) → IsConsistent h → Named op → Refined op h
operate-Refined (joining room conn) h k named =
    let sat = λ (o : Option Session). on_session o (λ s. seat room conn s (view h)) in
    elim (Option-cases (h.sessions conn)) [
      | inl e ↦
          let missing = join-none conn h e room in
          record {
            same = ap viewed missing ∙ ap sat (sym e);
            kept = λ h' f. let never = sym missing ∙ f in cc;
          }
      | inr (s, e) ↦
          let (h', done, kept, f, g) = join_lem room conn h s k e named in
          record {
            same =
                ap viewed done
                ∙ ap some (View-ext h' (seat room conn s (view h)) f g)
                ∙ ap sat (sym e);
            kept =
                λ h'' e'. let same : h' ≡ h'' = cc (sym done ∙ e') in subst IsConsistent same kept;
          }
    ]
operate-Refined (nicking conn nick) h k named =
    let renamed = λ (o : Option Session). on_session o (λ s. rename nick conn s (view h)) in
    elim (Option-cases (h.sessions conn)) [
      | inl e ↦
          let missing = set_nick-none conn h e nick in
          record {
            same = ap viewed missing ∙ ap renamed (sym e);
            kept = λ h' f. let never = sym missing ∙ f in cc;
          }
      | inr (s, e) ↦
          let (h', done, kept, f, g) = set_nick_lem nick conn h s k e in
          record {
            same =
                ap viewed done
                ∙ ap some (View-ext h' (rename nick conn s (view h)) f g)
                ∙ ap renamed (sym e);
            kept =
                λ h'' e'. let same : h' ≡ h'' = cc (sym done ∙ e') in subst IsConsistent same kept;
          }
    ]
operate-Refined (leaving conn) h k named = record {
  same = ap some (view-leave conn h k);
  kept =
      λ h' e. let same : leave conn h ≡ h' = cc in subst IsConsistent same (leave_lem conn h k).0;
}

-- Any sequence of join, setNick and leave on a consistent house, with a name for each room that is
-- joined, does to who is in which room, and to the sessions, exactly what the abstract operations
-- do, and stops at the same call, where a session is null.
pub operate_all-viewed :
    (ops : List Operation) (h : House)
    → IsConsistent h
    → All Named ops
    → viewed (operate_all ops h) ≡ promised_all ops (view h)
operate_all-viewed [] h k named = refl
operate_all-viewed (op ∷ ops) h k named =
    let r = operate-Refined op h k named.0 in
    let house_next = λ (o : Option House). viewed (chain o (operate_all ops)) in
    let view_next = λ (o : Option View). chain o (promised_all ops) in
    elim (Option-cases (operate op h)) [
      | inl e ↦ ap house_next e ∙ ap view_next (sym (ap viewed e) ∙ r.same)
      | inr (h', e) ↦
          ap house_next e
          ∙ operate_all-viewed ops h' (r.kept h' e) named.1
          ∙ ap view_next (sym (ap viewed e) ∙ r.same)
    ]
