-- ===== src/System/Tests/Line.antt =====
-- A chat server (src/chat/ChatServer.cc) with one client in a room, who sends a line.
use reactor_chat_server.Common.{
  ℕ, ◌≤◌, ◌≡◌, refl, ◌+◌, sym, ap, ◌∙◌, subst, true, false, [], ◌∷◌, some, Bytes, length, arith,
  ltb, ◌==◌, ◌++◌, if◌then◌else◌, inl, inr, Bool-cases, starts_with, List,
}
use reactor_chat_server.Buffer.{
  Buffer, new_buffer, offered, writable_bytes, read_fd, newline, find_eol, find_byte,
  readable_bytes, retrieve, retrieve_as_string, retrieve_all,
}
use reactor_chat_server.Buffer.Copy.{copy_to}
use reactor_chat_server.Buffer.Invariant.{max_size}
use reactor_chat_server.Codec.{take_lines, take_lines_loop}
use reactor_chat_server.Connection.{
  World, Connection, new_connection, arrived, Arrival, read_failed, eagain,
}
use reactor_chat_server.Connection.Invariant.{Posix}
use reactor_chat_server.Connection.Life.{opened, new_connection-IsSound, opened-IsSound}
use reactor_chat_server.Connection.Tests.Scene.{world, world-Posix, fresh, fresh-state, idle-state}
use reactor_chat_server.Rooms.{ConnectionId, House, set_nick, with_session, nicked}
use reactor_chat_server.Chat.{Effect, send, on_nick, on_lines, on_message, on_line}
use reactor_chat_server.Chat.Texts.{nick_set_text}
use reactor_chat_server.Chat.Tests.{session, house, house-IsConsistent, house-IsClean}
use reactor_chat_server.Delivery.{set_connection}
use reactor_chat_server.System.{System, read_event}
use reactor_chat_server.System.Healthy.{IsFine, IsHealthy, Roomy, live-IsGuest}
use reactor_chat_server.System.Reach.{HasRoom, read_event_total, with_input}
use reactor_chat_server.System.Tests.{fresh-Whole}

-- "/nick b\n", if there is room for it.
abbrev line : Bytes
line = b'/' ∷ b'n' ∷ b'i' ∷ b'c' ∷ b'k' ∷ b' ' ∷ b'b' ∷ newline ∷ []

abbrev sent_line : ℕ → Arrival
sent_line room = if ltb room 8 then read_failed eagain else arrived line

abbrev talking : ConnectionId → World
talking c = record world { readv = λ i room. sent_line room }

sent_line_bounded : (room : ℕ) (bs : Bytes) → sent_line room ≡ arrived bs → length bs ≤ room
sent_line_bounded room bs e = elim (Bool-cases (ltb room 8)) [
  | inl few ↦
      let never = sym (ap (λ b. if b then read_failed eagain else arrived line) few) ∙ e in cc
  | inr enough ↦
      let came = sym (ap (λ b. if b then read_failed eagain else arrived line) enough) ∙ e in
      let all_came : line ≡ bs = cc in
      subst (λ (l : Bytes). length l ≤ room) all_came (ground arith)
]

talking-Posix : (c : ConnectionId) → Posix (talking c)
talking-Posix c = record {
  write_bounded = world-Posix.write_bounded;
  readv_bounded = λ i room bs e. sent_line_bounded room bs e;
}

-- The client is connection 1.
abbrev seated : System
seated = record { network = λ c. if c == 1 then opened fresh else fresh; house = house }

client-IsFine : (c : ConnectionId) → (c == 1) ≡ true → IsFine house c (opened fresh)
unfolding opened
client-IsFine c hit = record {
  sound = opened-IsSound fresh (new_connection-IsSound true 4096 7) fresh-state;
  whole = fresh-Whole;
  guest =
      live-IsGuest house c _ (λ e. cc (sym idle-state ∙ e)) (λ e. cc (sym idle-state ∙ e))
        (session, rw hit refl);
}

other-IsFine : (c : ConnectionId) → (c == 1) ≡ false → IsFine house c fresh
other-IsFine c miss = record {
  sound = new_connection-IsSound true 4096 7;
  whole = fresh-Whole;
  guest = record {
    fresh = λ e. rw miss refl;
    known = λ e. absurd (e fresh-state);
    gone = λ e r. cc (sym fresh-state ∙ e);
  };
}

seated-IsHealthy : IsHealthy seated
seated-IsHealthy = record {
  consistent = house-IsConsistent;
  clean = house-IsClean;
  fine = λ c. elim (Bool-cases (c == 1)) [
    | inl hit ↦
        subst (λ b. IsFine house c (if b then opened fresh else fresh)) (sym hit)
          (client-IsFine c hit)
    | inr miss ↦
        subst (λ b. IsFine house c (if b then opened fresh else fresh)) (sym miss)
          (other-IsFine c miss)
  ];
}

seated_line :
    (bytes : Bytes)
    → (talking 1).readv (opened fresh).calls (offered (opened fresh).input) ≡ arrived bytes
    → line ≡ bytes
unfolding opened new_connection new_buffer offered writable_bytes
seated_line bytes e = cc

abbrev answer : Bytes
answer = nick_set_text ++ (b'b' ∷ newline ∷ [])

-- The handler takes the line and answers it.
handled :
    (h : House) × (on_message 1 9 (with_input line (opened fresh)).input house
      ≡ some (h, send 1 answer ∷ [], (take_lines (with_input line (opened fresh)).input).1))
unfolding opened new_connection new_buffer read_fd writable_bytes on_message on_lines on_line
    on_nick set_nick with_session nicked take_lines take_lines_loop find_eol find_byte
    readable_bytes retrieve retrieve_as_string retrieve_all starts_with copy_to
handled = (_, refl)

answered :
    (bytes : Bytes) (h : House) (done : List Effect) (left : Buffer)
    → line ≡ bytes
    → on_message 1 9 (with_input bytes (opened fresh)).input house ≡ some (h, done, left)
    → send 1 answer ∷ [] ≡ done
answered bytes h done left e q =
    let (_, came) = handled in
    let at_line =
      subst
        (λ (l : Bytes).
          on_message 1 9 (with_input l (opened fresh)).input house ≡ some (h, done, left))
        (sym e) q in
    cc

answer-Roomy :
    (d : Connection) (n : ConnectionId → Connection) (done : List Effect)
    → send 1 answer ∷ [] ≡ done
    → d.output ≡ (opened fresh).output
    → Roomy talking done (set_connection 1 d n)
unfolding opened new_connection new_buffer
answer-Roomy d n done same e =
    subst (λ (l : List Effect). Roomy talking l (set_connection 1 d n)) same
      (λ c. elim (Bool-cases (c == 1)) [
        | inl hit ↦ rw (hit, e) (omega arith, tt)
        | inr apart ↦ rw apart tt
      ])

line-fits :
    (bytes : Bytes) → line ≡ bytes → length (opened fresh).input.buf + length bytes ≤ max_size
unfolding opened new_connection new_buffer
line-fits bytes e =
    subst (λ (l : Bytes). length (opened fresh).input.buf + length l ≤ max_size) e (omega arith)

seated-HasRoom : HasRoom talking 1 9 seated
seated-HasRoom = record {
  fits = λ bytes e some_came. line-fits bytes (seated_line bytes e);
  room = λ bytes h done e some_came q.
      answer-Roomy _ _ done (answered bytes h done _ (seated_line bytes e) q) refl;
}

read_event_example : (y : System) × (read_event talking 0 1 9 seated ≡ some y) × IsHealthy y
unfolding opened
read_event_example =
    read_event_total talking 0 talking-Posix 1 9 seated seated-IsHealthy
      (λ e. cc (sym idle-state ∙ e)) (λ e. cc (sym idle-state ∙ e)) seated-HasRoom
