-- ===== src/Delivery/Lines.antt =====
-- What a client of src/chat/ChatServer.cc reads, line by line, out of the stream of its connection.
use reactor_chat_server.Common.{
  ℕ, ◌≡◌, refl, sym, ap, ◌∙◌, subst, Bool, true, false, List, [], ◌∷◌, ◌++◌, some, Bytes, ◌==◌,
  length, if◌then◌else◌, inl, inr, Bool-cases, is_empty, append-nil, map,
}
use reactor_chat_server.Buffer.{Buffer, newline}
use reactor_chat_server.Buffer.Invariant.{IsValid, Fits}
use reactor_chat_server.Buffer.Search.{Free}
use reactor_chat_server.Codec.{format_broadcast, take_lines}
use reactor_chat_server.Codec.Split.{split, split-append, split-line}
use reactor_chat_server.Codec.Stream.{broadcast_line, broadcast_line-Free, format_broadcast-line}
use reactor_chat_server.Connection.{k_connected, World, Connection, sends}
use reactor_chat_server.Connection.Invariant.{Posix, IsSound, stream, State-cases}
use reactor_chat_server.Connection.Perform.{Room, accepted}
use reactor_chat_server.Rooms.{ConnectionId, Session, House, broadcast}
use reactor_chat_server.Rooms.Invariant.{in_room, IsConsistent}
use reactor_chat_server.Rooms.Effects.{sends_to, broadcast_lem}
use reactor_chat_server.Chat.{Effect, send, shutdown, run_after, send_all, on_line, on_message}
use reactor_chat_server.Chat.Delivery.{IsText, on_line-broadcast}
use reactor_chat_server.Chat.OneLine.{OneLine, SendsLines, IsClean}
use reactor_chat_server.Chat.Clean.{on_message-Clean}
use reactor_chat_server.Delivery.{Network, carry_out, calls_on}
use reactor_chat_server.Delivery.Carried.{carry_out-Performed, carry_out-closed}

-- No line has begun and not ended.
abbrev pub Whole : Bytes → Type 0
Whole bytes = (split bytes).1 ≡ []

Whole-append : (xs ys : Bytes) → Whole xs → Whole ys → Whole (xs ++ ys)
Whole-append xs ys f g =
    ap (λ p. p.1) (split-append xs ys) ∙ ap (λ (l : Bytes). (split (l ++ ys)).1) f ∙ g

split-Whole : (xs ys : Bytes) → Whole xs → (split (xs ++ ys)).0 ≡ (split xs).0 ++ (split ys).0
split-Whole xs ys f =
    ap (λ p. p.0) (split-append xs ys) ∙ ap (λ (l : Bytes). (split xs).0 ++ (split (l ++ ys)).0) f

OneLine-split : (body : Bytes) → Free newline body → split (body ++ newline ∷ []) ≡ (body ∷ [], [])
unfolding split
OneLine-split body f = split-line body [] f

OneLine-Whole : (msg : Bytes) → OneLine msg → Whole msg
OneLine-Whole msg (body, e, f) = ap (λ l. (split l).1) e ∙ ap (λ p. p.1) (OneLine-split body f)

-- Calls that send lines leave no line half sent, wherever a shutdown comes.
pub accepted-Whole :
    (c : ConnectionId) (es : List Effect) → SendsLines es → Whole (accepted (calls_on c es))
unfolding split
accepted-Whole c [] s = refl
accepted-Whole c (send d msg ∷ es) s = elim (Bool-cases (c == d)) [
  | inl hit ↦ rw hit (
      Whole-append msg (accepted (calls_on c es)) (OneLine-Whole msg s.0) (accepted-Whole c es s.1))
  | inr other ↦ rw other (accepted-Whole c es s.1)
]
accepted-Whole c (shutdown d ∷ es) s = elim (Bool-cases (c == d)) [
  | inl hit ↦ rw hit
  | inr other ↦ rw other (accepted-Whole c es s)
]
accepted-Whole c (run_after d ticks ∷ es) s = accepted-Whole c es s

-- A connection in any state, behind calls that send lines.
pub carried_Whole :
    (w : ConnectionId → World) (es : List Effect) (n : Network) (c : ConnectionId)
    → Posix (w c)
    → IsSound (n c)
    → Room (w c) (calls_on c es) (n c)
    → SendsLines es
    → Whole (stream (n c))
    → IsSound (carry_out w es n c) × Whole (stream (carry_out w es n c))
carried_Whole w es n c p s r lines whole = elim (State-cases (n c).state) [
  | inl on ↦
      let d = carry_out-Performed w es n c p s on r in
      (
        d.sound,
        subst Whole (sym d.streamed) (
            Whole-append (stream (n c)) (accepted (calls_on c es)) whole
              (accepted-Whole c es lines)),
      )
  | inr off ↦
      let same = sym (carry_out-closed w es n c off) in
      (subst IsSound same s, subst (λ (k : Connection). Whole (stream k)) same whole)
]

-- With a valid buffer, a consistent house whose names hold no newline, and a session for the
-- connection, onMessage returns; and once its calls are carried out, any sound connection, in
-- whatever state, with a POSIX socket, room in its output array for what it is sent, and no line
-- half sent, is still sound and has no line half sent.
pub message_Whole :
    (w : ConnectionId → World) (n : Network) (conn : ConnectionId) (now : ℕ) (buf : Buffer)
    (h : House) (s : Session) (c : ConnectionId)
    → IsValid buf
    → IsConsistent h
    → h.sessions conn ≡ some s
    → IsClean h
    → Posix (w c)
    → IsSound (n c)
    → ((h' : House) (done : List Effect)
        → on_message conn now buf h ≡ some (h', done, (take_lines buf).1)
        → Room (w c) (calls_on c done) (n c))
    → Whole (stream (n c))
    → (h' : House) × (done : List Effect) × (on_message conn now buf h
        ≡ some (h', done, (take_lines buf).1))
      × IsSound (carry_out w done n c)
      × Whole (stream (carry_out w done n c))
message_Whole w n conn now buf h s c v k e clean p sound room whole =
    let (h', done, f, _, lines) = on_message-Clean conn now buf h s v k e clean in
    let (kept, whole') = carried_Whole w done n c p sound (room h' done f) lines whole in
    (h', done, f, kept, whole')

-- The calls of a broadcast on one connection.
calls_on-send_all :
    (c : ConnectionId) (told : List (ConnectionId × Bytes))
    → calls_on c (send_all told) ≡ map sends (sends_to c told)
calls_on-send_all c [] = refl
calls_on-send_all c ((d, msg) ∷ told) = elim (Bool-cases (c == d)) [
  | inl hit ↦ rw hit (ap (◌∷◌ (sends msg)) (calls_on-send_all c told))
  | inr other ↦ rw other (calls_on-send_all c told)
]

-- A stream with a line more, or as it was.
told_lines :
    (xs msg body : Bytes) (t : Bool)
    → Whole xs
    → split msg ≡ (body ∷ [], [])
    → let ys = xs ++ accepted (map sends (if t then msg ∷ [] else [])) in
      ((split ys).0 ≡ (split xs).0 ++ (if t then body ∷ [] else [])) × Whole ys
told_lines xs msg body false f e = (
  ap (λ (l : Bytes). (split l).0) (append-nil xs) ∙ sym (append-nil (split xs).0),
  ap (λ (l : Bytes). (split l).1) (append-nil xs) ∙ f,
)
told_lines xs msg body true f e =
    let end = ap (λ (l : Bytes). xs ++ l) (append-nil msg) in
    (
      ap (λ (l : Bytes). (split l).0) end ∙ split-Whole xs msg f ∙ ap (λ p. (split xs).0 ++ p.0) e,
      ap (λ (l : Bytes). (split l).1) end ∙ Whole-append xs msg f (ap (λ p. p.1) e),
    )

-- In a consistent house, a line that is no command, by a session that is in a room, with no newline
-- in the line and the names: onMessage handles it, and once its calls are carried out on the
-- connections, the lines in the stream of any sound connected connection, with a POSIX socket, room
-- in its output array and no line half sent, are those of before, and behind them "[room] nick:
-- text" exactly if it is in that room; and no line is half sent.
pub text_delivered :
    (w : ConnectionId → World) (n : Network) (conn : ConnectionId) (s : Session) (line : Bytes)
    (h : House) (c : ConnectionId)
    → IsConsistent h
    → IsText line
    → is_empty s.room ≡ false
    → Free newline line × Free newline s.nick × Free newline s.room
    → Posix (w c)
    → IsSound (n c)
    → (n c).state ≡ k_connected
    → Fits (length (format_broadcast s.room s.nick line)) (n c).output
    → Whole (stream (n c))
    → (done : List Effect) × (on_line conn s line h ≡ some (h, done))
      × ((split (stream (carry_out w done n c))).0
          ≡ (split (stream (n c))).0
            ++ (if in_room s.room c h then broadcast_line s.room s.nick line ∷ [] else []))
      × Whole (stream (carry_out w done n c))
text_delivered w n conn s line h c k t housed (fl, fn, fr) p sound on fits whole =
    let msg = format_broadcast s.room s.nick line in
    let done = send_all (broadcast s.room msg h) in
    let asked : calls_on c done ≡ map sends (if in_room s.room c h then msg ∷ [] else []) =
      calls_on-send_all c (broadcast s.room msg h)
      ∙ ap (map sends) (broadcast_lem s.room msg h c k) in
    let lines : split msg ≡ (broadcast_line s.room s.nick line ∷ [], []) =
      ap split (format_broadcast-line s.room s.nick line)
      ∙ OneLine-split _ (broadcast_line-Free s.room s.nick line fr fn fl) in
    let room = room_for msg (in_room s.room c h) fits in
    let d =
      carry_out-Performed w done n c p sound on
        (subst (λ l. Room (w c) l (n c)) (sym asked) room) in
    let grown = d.streamed ∙ ap (λ l. stream (n c) ++ accepted l) asked in
    let (g, whole') = told_lines (stream (n c)) msg _ (in_room s.room c h) whole lines in
    (
      done,
      on_line-broadcast conn s line h t housed,
      ap (λ l. (split l).0) grown ∙ g,
      ap (λ l. (split l).1) grown ∙ whole',
    )
  where
    room_for :
        (msg : Bytes) (t : Bool)
        → Fits (length msg) (n c).output
        → Room (w c) (map sends (if t then msg ∷ [] else [])) (n c)
    room_for msg true f = (f, tt)
    room_for msg false f = tt
