-- ===== src/Chat/OneLine.antt =====
-- Lines and newlines in the messages of src/chat/ChatServer.cc: the notions, and the fixed texts.
use reactor_chat_server.Common.{
  ℕ, zero, suc, ◌≡◌, ◌≢◌, refl, sym, ap, ◌∙◌, subst, List, [], ◌∷◌, ◌++◌, map, some, Bytes, drop,
  arith, inl, inr, Option-cases, All, All-append, append_assoc,
}
use reactor_chat_server.Buffer.{newline}
use reactor_chat_server.Buffer.Search.{Free}
use reactor_chat_server.Codec.{format_broadcast}
use reactor_chat_server.Codec.Stream.{broadcast_line, broadcast_line-Free, format_broadcast-line}
use reactor_chat_server.Rooms.{ConnectionId, Session, House, broadcast, members, names_of}
use reactor_chat_server.Rooms.Effects.{broadcast-none, broadcast-some, members-none, members-some}
use reactor_chat_server.Chat.{Effect, send, shutdown, run_after, send_all, joined_names}
use reactor_chat_server.Chat.Texts.{
  nick_set_text, empty_room_text, system_text, joined_text, online_text, join_first_text,
}

-- One line: bytes with no '\n', and a '\n' behind them.
abbrev pub OneLine : Bytes → Type 0
OneLine msg = (body : Bytes) × (msg ≡ body ++ newline ∷ []) × Free newline body

-- Every message of a handler's calls is one line.
abbrev pub SendsLines : List Effect → Type 0
SendsLines [] = Unit {0}
SendsLines (send c msg ∷ es) = OneLine msg × SendsLines es
SendsLines (shutdown c ∷ es) = SendsLines es
SendsLines (run_after c n ∷ es) = SendsLines es

-- The names in the sessions hold no '\n'.
abbrev pub IsClean : House → Type 0
IsClean h =
    (c : ConnectionId) (s : Session)
    → h.sessions c ≡ some s
    → Free newline s.nick × Free newline s.room

pub one_line : (body : Bytes) → Free newline body → OneLine (body ++ newline ∷ [])
one_line body f = (body, refl, f)

pub in_front : (front msg : Bytes) → Free newline front → OneLine msg → OneLine (front ++ msg)
in_front front msg f (body, e, g) = (
  front ++ body,
  ap (◌++◌ front) e ∙ sym (append_assoc front body (newline ∷ [])),
  All-append (λ x. x ≢ newline) front body f g,
)

pub broadcast-OneLine :
    (room nick text : Bytes)
    → Free newline room
    → Free newline nick
    → Free newline text
    → OneLine (format_broadcast room nick text)
broadcast-OneLine room nick text fr fn ft = (
  broadcast_line room nick text,
  format_broadcast-line room nick text,
  broadcast_line-Free room nick text fr fn ft,
)

pub drop-Free : (n : ℕ) (xs : Bytes) → Free newline xs → Free newline (drop n xs)
drop-Free zero xs f = f
drop-Free (suc n) [] f = tt
drop-Free (suc n) (x ∷ xs) f = drop-Free n xs f.1

send_all-SendsLines :
    (line : Bytes) (conns : List ConnectionId)
    → OneLine line
    → SendsLines (send_all (map (λ c. (c, line)) conns))
send_all-SendsLines line [] o = tt
send_all-SendsLines line (c ∷ cs) o = (o, send_all-SendsLines line cs o)

pub nick_set-Free : Free newline nick_set_text
nick_set-Free = omega arith

pub joined-Free : Free newline joined_text
joined-Free = omega arith

pub system-Free : Free newline system_text
system-Free = omega arith

pub online-Free : Free newline online_text
online-Free = omega arith

pub empty_room-OneLine : OneLine empty_room_text
empty_room-OneLine = (
  (230 ∷ 136 ∷ 191 ∷ 233 ∷ 151 ∷ 180 ∷ 229 ∷ 144 ∷ 141 ∷ 228 ∷ 184 ∷ 141 ∷ 232 ∷ 131 ∷ 189 ∷ 228
      ∷ 184 ∷ 186 ∷ 231 ∷ 169 ∷ 186 ∷ 227 ∷ 128 ∷ 130 ∷ []),
  refl,
  omega arith,
)

pub join_first-OneLine : OneLine join_first_text
join_first-OneLine = (
  (232 ∷ 175 ∷ 183 ∷ 229 ∷ 133 ∷ 136 ∷ 32 ∷ 47 ∷ 106 ∷ 111 ∷ 105 ∷ 110 ∷ 32 ∷ 228 ∷ 184 ∷ 128 ∷ 228
      ∷ 184 ∷ 170 ∷ 230 ∷ 136 ∷ 191 ∷ 233 ∷ 151 ∷ 180 ∷ 229 ∷ 134 ∷ 141 ∷ 229 ∷ 143 ∷ 145 ∷ 232
      ∷ 168 ∷ 128 ∷ 227 ∷ 128 ∷ 130 ∷ []),
  refl,
  omega arith,
)

pub broadcast-SendsLines :
    (room line : Bytes) (h : House) → OneLine line → SendsLines (send_all (broadcast room line h))
broadcast-SendsLines room line h o = elim (Option-cases (h.rooms room)) [
  | inl e ↦ subst (λ b. SendsLines (send_all b)) (sym (broadcast-none room h line e)) tt
  | inr (conns, e) ↦
      subst (λ b. SendsLines (send_all b)) (sym (broadcast-some room h line conns e))
        (send_all-SendsLines line conns o)
]

pub joined_names-Free :
    (nicks : List Bytes) → All (Free newline) nicks → Free newline (joined_names nicks)
unfolding joined_names
joined_names-Free [] f = tt
joined_names-Free (nick ∷ nicks) f =
    All-append (λ x. x ≢ newline) nick _ f.0 (omega arith, joined_names-Free nicks f.1)

names_of-Free :
    (conns : List ConnectionId) (h : House) → IsClean h → All (Free newline) (names_of conns h)
unfolding names_of
names_of-Free [] h k = tt
names_of-Free (c ∷ cs) h k = elim (Option-cases (h.sessions c)) [
  | inl e ↦ rw (e, names_of) (names_of-Free cs h k)
  | inr (s, e) ↦ rw (e, names_of) ((k c s e).0, names_of-Free cs h k)
]

pub members-Free : (room : Bytes) (h : House) → IsClean h → All (Free newline) (members room h)
members-Free room h k = elim (Option-cases (h.rooms room)) [
  | inl e ↦ subst (All (Free newline)) (sym (members-none room h e)) tt
  | inr (conns, e) ↦
      subst (All (Free newline)) (sym (members-some room h conns e)) (names_of-Free conns h k)
]
