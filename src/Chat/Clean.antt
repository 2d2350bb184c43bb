-- ===== src/Chat/Clean.antt =====
-- Newlines in what the handlers of src/chat/ChatServer.cc send, handler by handler.
use reactor_chat_server.Common.{
  ℕ, ◌≡◌, ◌≢◌, refl, sym, ap, ◌∙◌, subst, List, [], ◌∷◌, ◌++◌, some, Bytes, ◌==◌, bytes_eq,
  is_empty, starts_with, drop, if◌then◌else◌, inl, inr, Bool-cases, All, All-append, ==-self,
}
use reactor_chat_server.Buffer.{Buffer, newline}
use reactor_chat_server.Buffer.Invariant.{IsValid}
use reactor_chat_server.Buffer.Search.{Free}
use reactor_chat_server.Codec.{format_broadcast, take_lines}
use reactor_chat_server.Codec.Stream.{take_lines-unlines}
use reactor_chat_server.Rooms.{ConnectionId, Session, House, broadcast, members, set_session}
use reactor_chat_server.Rooms.Invariant.{IsConsistent, set_session-IsConsistent}
use reactor_chat_server.Rooms.Effects.{join_lem, set_nick_lem}
use reactor_chat_server.Chat.Texts.{nick_command, join_command, who_command, quit_command}
use reactor_chat_server.Chat.{
  Effect, send, shutdown, run_after, send_all, Outcome, on_nick, on_join, on_text, on_line,
  on_lines, on_message, joined_names,
}
use reactor_chat_server.Chat.Commands.{Handled, on_line-Succeeds}
use reactor_chat_server.Chat.Texts.{
  nick_set_text, empty_room_text, system_text, joined_text, online_text, join_first_text,
}
use reactor_chat_server.Chat.OneLine.{
  SendsLines, IsClean, one_line, in_front, broadcast-OneLine, drop-Free, nick_set-Free, joined-Free,
  system-Free, online-Free, empty_room-OneLine, join_first-OneLine, broadcast-SendsLines,
  joined_names-Free, members-Free,
}

-- A handler that returns, to a state with clean names, by calls that send lines.
abbrev pub Clean : Outcome → Type 0
Clean out =
    (h' : House) × (done : List Effect) × (out ≡ some (h', done)) × IsClean h' × SendsLines done

module _ (conn : ConnectionId) (s : Session) (h : House) (k : IsConsistent h)
    (e : h.sessions conn ≡ some s) (clean : IsClean h) where
  -- A session in place of the connection's, with clean names.
  renamed :
      (s' : Session) (h' : House)
      → Free newline s'.nick × Free newline s'.room
      → ((c : ConnectionId) → h'.sessions c ≡ (if c == conn then some s' else h.sessions c))
      → IsClean h'
  renamed s' h' f sessions c t found = elim (Bool-cases (c == conn)) [
    | inl hit ↦
        let own : h'.sessions c ≡ some s' =
          sessions c ∙ ap (λ b. if b then some s' else h.sessions c) hit in
        let same : s' ≡ t = cc in
        subst (λ (q : Session). Free newline q.nick × Free newline q.room) same f
    | inr other ↦
        let old = sessions c ∙ ap (λ b. if b then some s' else h.sessions c) other in
        clean c t (sym old ∙ found)
  ]

  on_nick-Clean : (nick : Bytes) → Free newline nick → Clean (on_nick conn nick h)
  unfolding on_nick
  on_nick-Clean nick f =
      let (h', g, _, _, sessions) = set_nick_lem nick conn h s k e in
      (
        h',
        send conn (nick_set_text ++ (nick ++ newline ∷ [])) ∷ [],
        rw (g, on_nick),
        renamed (record s { nick = nick }) h' (f, (clean conn s e).1) sessions,
        (in_front nick_set_text _ nick_set-Free (one_line nick f), tt),
      )

  on_join-Clean : (room : Bytes) → Free newline room → Clean (on_join conn s room h)
  unfolding on_join
  on_join-Clean room f = elim (Bool-cases (is_empty room)) [
    | inl nameless ↦
        (h, send conn empty_room_text ∷ [], rw nameless, clean, (empty_room-OneLine, tt))
    | inr named ↦
        let (h', g, _, _, sessions) = join_lem room conn h s k e named in
        let msg = format_broadcast room system_text (s.nick ++ joined_text) in
        (
          h',
          send_all (broadcast room msg h'),
          rw (named, g, on_join),
          renamed (record s { room = room }) h' ((clean conn s e).0, f) sessions,
          broadcast-SendsLines room msg h' (
              broadcast-OneLine room system_text (s.nick ++ joined_text) f system-Free
                (All-append (λ x. x ≢ newline) s.nick joined_text (clean conn s e).0 joined-Free)),
        )
  ]

  on_text-Clean : (line : Bytes) → Free newline line → Clean (on_text conn s line h)
  unfolding on_text
  on_text-Clean line f = elim (Bool-cases (is_empty s.room)) [
    | inl nowhere ↦ (h, send conn join_first_text ∷ [], rw nowhere, clean, (join_first-OneLine, tt))
    | inr somewhere ↦
        let msg = format_broadcast s.room s.nick line in
        (
          h,
          send_all (broadcast s.room msg h),
          rw somewhere,
          clean,
          broadcast-SendsLines s.room msg h
              (broadcast-OneLine s.room s.nick line (clean conn s e).1 (clean conn s e).0 f),
        )
  ]

  on_line-Clean : (line : Bytes) → Free newline line → Clean (on_line conn s line h)
  unfolding on_line
  on_line-Clean line f = elim (Bool-cases (starts_with nick_command line)) [
    | inl nick ↦ rw nick (on_nick-Clean (drop 6 line) (drop-Free 6 line f))
    | inr t₁ ↦ elim (Bool-cases (starts_with join_command line)) [
      | inl to_join ↦ rw (t₁, to_join) (on_join-Clean (drop 6 line) (drop-Free 6 line f))
      | inr t₂ ↦ elim (Bool-cases (bytes_eq line who_command)) [
        | inl who ↦
            let names = joined_names (members s.room h) in
            (
              h,
              send conn (online_text ++ (names ++ newline ∷ [])) ∷ [],
              rw (t₁, t₂, who),
              clean,
              (
                in_front online_text _ online-Free (
                    one_line names
                      (joined_names-Free (members s.room h) (members-Free s.room h clean))),
                tt,
              ),
            )
        | inr t₃ ↦ elim (Bool-cases (bytes_eq line quit_command)) [
          | inl quit ↦ (h, shutdown conn ∷ [], rw (t₁, t₂, t₃, quit), clean, tt)
          | inr t₄ ↦ rw (t₁, t₂, t₃, t₄) (on_text-Clean line f)
        ]
      ]
    ]
  ]

SendsLines-append : (es fs : List Effect) → SendsLines es → SendsLines fs → SendsLines (es ++ fs)
SendsLines-append [] fs a b = b
SendsLines-append (send c msg ∷ es) fs a b = (a.0, SendsLines-append es fs a.1 b)
SendsLines-append (shutdown c ∷ es) fs a b = SendsLines-append es fs a b
SendsLines-append (run_after c n ∷ es) fs a b = SendsLines-append es fs a b

-- A line that is handled, and the lines behind it.
on_lines-step :
    (conn : ConnectionId) (s : Session) (line : Bytes) (lines : List Bytes) (h h₁ h₃ : House)
    (done later : List Effect)
    → h.sessions conn ≡ some s
    → on_line conn s line h ≡ some (h₁, done)
    → on_lines conn lines h₁ ≡ some (h₃, later)
    → on_lines conn (line ∷ lines) h ≡ some (h₃, done ++ later)
unfolding on_lines
on_lines-step conn s line lines h h₁ h₃ done later e g g₃ = rw (e, on_lines, g, on_lines, g₃)

on_lines-Clean :
    (conn : ConnectionId) (lines : List Bytes) (h : House) (s : Session)
    → IsConsistent h
    → h.sessions conn ≡ some s
    → IsClean h
    → All (Free newline) lines
    → Clean (on_lines conn lines h)
unfolding on_lines
on_lines-Clean conn [] h s k e clean f = (h, [], refl, clean, tt)
on_lines-Clean conn (line ∷ lines) h s k e clean f =
    let (h₁, done, g, clean₁, sends) = on_line-Clean conn s h k e clean line f.0 in
    let (h₂, done₂, g₂, t) = on_line-Succeeds conn s h k e line in
    let same : h₂ ≡ h₁ = cc (sym g₂ ∙ g) in
    let kept = subst (Handled conn h) same t in
    let (h₃, later, g₃, clean₃, sends₃) =
      on_lines-Clean conn lines h₁ kept.session.0 kept.consistent kept.session.1 clean₁ f.1 in
    (
      h₃,
      done ++ later,
      on_lines-step conn s line lines h h₁ h₃ done later e g g₃,
      clean₃,
      SendsLines-append done later sends sends₃,
    )

-- With a valid buffer, a consistent house whose names hold no newline, and a session for the
-- connection, onMessage returns; every message that it sends, to whomever, is exactly one line; and
-- the names in the sessions still hold no newline.
pub on_message-Clean :
    (conn : ConnectionId) (now : ℕ) (buf : Buffer) (h : House) (s : Session)
    → IsValid buf
    → IsConsistent h
    → h.sessions conn ≡ some s
    → IsClean h
    → (h' : House) × (done : List Effect) × (on_message conn now buf h
        ≡ some (h', done, (take_lines buf).1))
      × IsClean h'
      × SendsLines done
unfolding on_message
on_message-Clean conn now buf h s v k e clean =
    let fresh = record s { last_active = now } in
    let h₁ = set_session conn fresh h in
    let k₁ = set_session-IsConsistent h s conn k e fresh refl in
    let e₁ : h₁.sessions conn ≡ some fresh =
      ap (λ t. if t then some fresh else h.sessions conn) (==-self conn) in
    let clean₁ = renamed conn s h k e clean fresh h₁ (clean conn s e) (λ c. refl) in
    let (h', done, f, clean', sends) =
      on_lines-Clean conn (take_lines buf).0 h₁ fresh k₁ e₁ clean₁ (take_lines-unlines buf v).1 in
    (h', done, rw (e, on_message, f), clean', sends)
