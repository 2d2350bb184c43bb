-- ===== src/Chat/Delivery.antt =====
-- Who is sent what by src/chat/ChatServer.cc, on a text and on a close.
use reactor_chat_server.Common.{
  ℕ, ◌≡◌, refl, ap, ◌∙◌, false, not, ◌&&◌, List, [], ◌∷◌, some, Bytes, ◌==◌, bytes_eq, is_empty,
  starts_with, if◌then◌else◌, inl, inr, Bool-cases, ==-self,
}
use reactor_chat_server.Codec.{format_broadcast}
use reactor_chat_server.Rooms.{ConnectionId, Session, House, broadcast, leave}
use reactor_chat_server.Rooms.Invariant.{in_room, IsConsistent}
use reactor_chat_server.Rooms.Effects.{sends_to, broadcast_lem, leave_lem}
use reactor_chat_server.Chat.{
  Effect, send, shutdown, run_after, send_all, on_text, on_line, on_connection,
}
use reactor_chat_server.Chat.Texts.{nick_command, join_command, who_command, quit_command}

-- The messages for one connection among a handler's calls.
abbrev pub messages_to : ConnectionId → List Effect → List Bytes
messages_to c [] = []
messages_to c (send d msg ∷ es) = if c == d then msg ∷ messages_to c es else messages_to c es
messages_to c (shutdown d ∷ es) = messages_to c es
messages_to c (run_after d n ∷ es) = messages_to c es

messages_to-send_all :
    (c : ConnectionId) (sends : List (ConnectionId × Bytes))
    → messages_to c (send_all sends) ≡ sends_to c sends
messages_to-send_all c [] = refl
messages_to-send_all c ((d, line) ∷ sends) = elim (Bool-cases (c == d)) [
  | inl hit ↦ rw hit (ap (λ l. line ∷ l) (messages_to-send_all c sends))
  | inr other ↦ rw other (messages_to-send_all c sends)
]

-- No command: neither prefix, and neither of the whole-line commands.
abbrev pub IsText : Bytes → Type 0
IsText line =
    (starts_with nick_command line ≡ false)
    × (starts_with join_command line ≡ false)
    × (bytes_eq line who_command ≡ false)
    × (bytes_eq line quit_command ≡ false)

-- The calls of such a line.
pub on_line-broadcast :
    (conn : ConnectionId) (s : Session) (line : Bytes) (h : House)
    → IsText line
    → is_empty s.room ≡ false
    → on_line conn s line h
      ≡ some (h, send_all (broadcast s.room (format_broadcast s.room s.nick line) h))
unfolding on_line on_text
on_line-broadcast conn s line h (t₁, t₂, t₃, t₄) housed = rw (t₁, t₂, t₃, t₄, housed)

-- In a consistent house, a line that is no command, by a session that is in a room, reaches every
-- member of that room exactly once as "[room] nick: text" and a newline, reaches nobody else, and
-- leaves the house as it is.
pub on_line-text :
    (conn : ConnectionId) (s : Session) (line : Bytes) (h : House) (c : ConnectionId)
    → IsConsistent h
    → IsText line
    → is_empty s.room ≡ false
    → (done : List Effect) × (on_line conn s line h ≡ some (h, done))
      × (messages_to c done
          ≡ (if in_room s.room c h then format_broadcast s.room s.nick line ∷ [] else []))
on_line-text conn s line h c k t housed =
    let msg = format_broadcast s.room s.nick line in
    (
      send_all (broadcast s.room msg h),
      on_line-broadcast conn s line h t housed,
      messages_to-send_all c (broadcast s.room msg h) ∙ broadcast_lem s.room msg h c k,
    )

-- The connection callback on a close, in a consistent house, keeps it consistent, calls nothing,
-- takes the connection out of every room so that no broadcast reaches it, and leaves the others in
-- their rooms.
pub on_connection-closed :
    (conn : ConnectionId) (now timeout : ℕ) (h : House)
    → IsConsistent h
    → let (h', done) = on_connection conn false now timeout h in
      IsConsistent h'
      × (done ≡ [])
      × ((room line : Bytes) → sends_to conn (broadcast room line h') ≡ [])
      × ((room : Bytes) (c : ConnectionId)
          → (c == conn) ≡ false
          → in_room room c h' ≡ in_room room c h)
unfolding on_connection
on_connection-closed conn now timeout h k =
    let (k', out) = leave_lem conn h k in
    (
      k',
      refl,
      λ room line.
          broadcast_lem room line (leave conn h) conn k'
          ∙ ap (λ t. if t then line ∷ [] else [])
              (out room conn ∙ ap (λ t. not t && in_room room conn h) (==-self conn)),
      λ room c other. out room c ∙ ap (λ t. not t && in_room room c h) other,
    )
