-- ===== src/Chat/Commands.antt =====
-- What the lines that src/chat/ChatServer.cc handles do to the rooms and the sessions.
use reactor_chat_server.Common.{
  ℕ, ◌≡◌, refl, ap, ◌∙◌, false, List, [], ◌∷◌, ◌++◌, some, Bytes, ◌==◌, bytes_eq, is_empty,
  starts_with, drop, if◌then◌else◌, inl, inr, Bool-cases, ==-self,
}
use reactor_chat_server.Rooms.{ConnectionId, Session, House, set_session}
use reactor_chat_server.Rooms.Invariant.{in_room, IsConsistent, set_session-IsConsistent}
use reactor_chat_server.Rooms.Effects.{join_lem, set_nick_lem}
use reactor_chat_server.Chat.{
  Effect, send, shutdown, send_all, joined_names, Outcome, on_nick, on_join, on_text, on_line,
  on_lines, on_message,
}
use reactor_chat_server.Buffer.{Buffer}
use reactor_chat_server.Codec.{format_broadcast, take_lines}
use reactor_chat_server.Rooms.{broadcast, members}
use reactor_chat_server.Chat.Texts.{
  nick_set_text, empty_room_text, system_text, joined_text, online_text, join_first_text,
  nick_command, join_command, who_command, quit_command,
}

-- What handling of a line of `conn` keeps: the agreement of table and sessions, a session for the
-- connection, and everything of the others.
pub record Handled (conn : ConnectionId) (h h' : House) : Type 0 where
  pub consistent : IsConsistent h'
  pub session : (s : Session) × (h'.sessions conn ≡ some s)
  pub others : (c : ConnectionId) → (c == conn) ≡ false → h'.sessions c ≡ h.sessions c
  pub other_rooms :
      (r : Bytes) (c : ConnectionId) → (c == conn) ≡ false → in_room r c h' ≡ in_room r c h

-- An outcome that is no null dereference.
abbrev pub Succeeds : ConnectionId → House → Outcome → Type 0
Succeeds conn h out =
    (h' : House) × (done : List Effect) × (out ≡ some (h', done)) × Handled conn h h'

module _ (conn : ConnectionId) (s : Session) (h : House) (k : IsConsistent h)
    (e : h.sessions conn ≡ some s) where
  same : Handled conn h h
  same = record {
    consistent = k;
    session = (s, e);
    others = λ c o. refl;
    other_rooms = λ r c o. refl;
  }

  on_nick-Succeeds : (nick : Bytes) → Succeeds conn h (on_nick conn nick h)
  unfolding on_nick
  on_nick-Succeeds nick =
      let (h', f, k', rooms, sessions) = set_nick_lem nick conn h s k e in
      (
        h',
        send conn (nick_set_text ++ (nick ++ b'\n' ∷ [])) ∷ [],
        rw (f, on_nick),
        record {
          consistent = k';
          session = (
            record s { nick = nick },
            sessions conn
                ∙ ap (λ t. if t then some (record s { nick = nick }) else h.sessions conn)
                    (==-self conn),
          );
          others = λ c o.
              sessions c ∙ ap (λ t. if t then some (record s { nick = nick }) else h.sessions c) o;
          other_rooms = λ r c o. rooms r c;
        },
      )

  on_join-Succeeds : (room : Bytes) → Succeeds conn h (on_join conn s room h)
  unfolding on_join
  on_join-Succeeds room = elim (Bool-cases (is_empty room)) [
    | inl nameless ↦ (h, send conn empty_room_text ∷ [], rw nameless, same)
    | inr named ↦
        let (h', f, k', rooms, sessions) = join_lem room conn h s k e named in
        (
          h',
          send_all (broadcast room (format_broadcast room system_text (s.nick ++ joined_text)) h'),
          rw (named, f, on_join),
          record {
            consistent = k';
            session = (
              record s { room = room },
              sessions conn
                  ∙ ap (λ t. if t then some (record s { room = room }) else h.sessions conn)
                      (==-self conn),
            );
            others = λ c o.
                sessions c
                ∙ ap (λ t. if t then some (record s { room = room }) else h.sessions c) o;
            other_rooms =
                λ r c o. rooms r c ∙ ap (λ t. if t then bytes_eq r room else in_room r c h) o;
          },
        )
  ]

  on_text-Succeeds : (line : Bytes) → Succeeds conn h (on_text conn s line h)
  unfolding on_text
  on_text-Succeeds line = elim (Bool-cases (is_empty s.room)) [
    | inl nowhere ↦ (h, send conn join_first_text ∷ [], rw nowhere, same)
    | inr somewhere ↦
        (h, send_all (broadcast s.room (format_broadcast s.room s.nick line) h), rw somewhere, same)
  ]

  pub on_line-Succeeds : (line : Bytes) → Succeeds conn h (on_line conn s line h)
  unfolding on_line
  on_line-Succeeds line = elim (Bool-cases (starts_with nick_command line)) [
    | inl nick ↦ rw nick (on_nick-Succeeds (drop 6 line))
    | inr t₁ ↦ elim (Bool-cases (starts_with join_command line)) [
      | inl to_join ↦ rw (t₁, to_join) (on_join-Succeeds (drop 6 line))
      | inr t₂ ↦ elim (Bool-cases (bytes_eq line who_command)) [
        | inl who ↦ (
          h,
          send conn (online_text ++ (joined_names (members s.room h) ++ b'\n' ∷ [])) ∷ [],
          rw (t₁, t₂, who),
          same,
        )
        | inr t₃ ↦ elim (Bool-cases (bytes_eq line quit_command)) [
          | inl quit ↦ (h, shutdown conn ∷ [], rw (t₁, t₂, t₃, quit), same)
          | inr t₄ ↦ rw (t₁, t₂, t₃, t₄) (on_text-Succeeds line)
        ]
      ]
    ]
  ]

Handled-trans :
    (conn : ConnectionId) {h₁ h₂ h₃ : House}
    → Handled conn h₁ h₂
    → Handled conn h₂ h₃
    → Handled conn h₁ h₃
Handled-trans conn f g = record {
  consistent = g.consistent;
  session = g.session;
  others = λ c o. g.others c o ∙ f.others c o;
  other_rooms = λ r c o. g.other_rooms r c o ∙ f.other_rooms r c o;
}

-- Lines of a connection that has a session never dereference a null session; the room table and
-- the sessions stay in agreement; and no other connection's session or room is touched.
pub on_lines-Succeeds :
    (conn : ConnectionId) (lines : List Bytes) (h : House) (s : Session)
    → IsConsistent h
    → h.sessions conn ≡ some s
    → Succeeds conn h (on_lines conn lines h)
unfolding on_lines
on_lines-Succeeds conn [] h s k e = (h, [], refl, same conn s h k e)
on_lines-Succeeds conn (line ∷ lines) h s k e =
    let (h', done, f, t) = on_line-Succeeds conn s h k e line in
    let (h'', later, g, u) = on_lines-Succeeds conn lines h' t.session.0 t.consistent t.session.1 in
    (h'', done ++ later, rw (e, on_lines, f, g), Handled-trans conn t u)

-- In a consistent house with a session for the connection, onMessage returns without a null
-- session, leaves the buffer that takeLines leaves, keeps the house consistent and a session for
-- the connection, and touches no other connection's session or rooms.
pub on_message-Succeeds :
    (conn : ConnectionId) (now : ℕ) (buf : Buffer) (h : House) (s : Session)
    → IsConsistent h
    → h.sessions conn ≡ some s
    → (h' : House) × (done : List Effect) × (on_message conn now buf h
        ≡ some (h', done, (take_lines buf).1))
      × Handled conn h h'
unfolding on_message
on_message-Succeeds conn now buf h s k e =
    let fresh = record s { last_active = now } in
    let h₁ = set_session conn fresh h in
    let k₁ = set_session-IsConsistent h s conn k e fresh refl in
    let e₁ : h₁.sessions conn ≡ some fresh =
      ap (λ t. if t then some fresh else h.sessions conn) (==-self conn) in
    let (h', done, f, t) = on_lines-Succeeds conn (take_lines buf).0 h₁ fresh k₁ e₁ in
    (
      h',
      done,
      rw (e, on_message, f),
      record {
        consistent = t.consistent;
        session = t.session;
        others = λ c o. t.others c o ∙ ap (λ b. if b then some fresh else h.sessions c) o;
        other_rooms = t.other_rooms;
      },
    )
