-- ===== src/Codec/Stream.antt =====
-- src/chat/Codec.cc over a stream of bytes that comes in pieces, as a connection reads it.
use reactor_chat_server.Common.{
  ℕ, ◌+◌, ◌≤◌, ◌≡◌, refl, sym, ap, ◌∙◌, List, [], ◌∷◌, ◌++◌, Bytes, arith, length, All,
  append_assoc, append-nil, ◌≢◌, All-append, ap₂,
}
use reactor_chat_server.Buffer.{Buffer, newline, received, read_fd}
use reactor_chat_server.Buffer.Invariant.{IsValid, max_size}
use reactor_chat_server.Buffer.Contents.{contents}
use reactor_chat_server.Buffer.Receive.{Answers, read_fd-received}
use reactor_chat_server.Buffer.Search.{Free}
use reactor_chat_server.Codec.{take_lines, format_broadcast}
use reactor_chat_server.Codec.Split.{
  split, unlines, unlines-split, split-Free, split-append, split-Free_all, split-line,
}
use reactor_chat_server.Codec.Lines.{take_lines-Took}

-- The lines that takeLines gives from a valid buffer, each with its newline, and what stays
-- readable are exactly what was readable; no line holds a newline, and none is left.
pub take_lines-unlines :
    (b : Buffer)
    → IsValid b
    → let (lines, b') = take_lines b in
      (unlines lines ++ contents b' ≡ contents b)
      × All (Free newline) lines
      × Free newline (contents b')
take_lines-unlines b v =
    let t = take_lines-Took b v in
    let f = split-Free (contents b) in rw (t.lines, t.rest) (unlines-split (contents b), f.0, f.1)

-- The pieces that the connection reads, each followed by `takeLines`, as `onMessage` does.
pub feed : Buffer → List Bytes → List Bytes × Buffer
feed b [] = ([], b)
feed b (piece ∷ pieces) =
    let (lines, b') = take_lines (read_fd (received piece) b) in
    let (later, b'') = feed b' pieces in (lines ++ later, b'')

-- Each piece is what `readv` may answer at its turn, and the array stays within its maximum.
abbrev pub Delivers : Buffer → List Bytes → Type 0
Delivers b [] = Unit {0}
Delivers b (piece ∷ pieces) =
    Answers b piece
    × (length b.buf + length piece ≤ max_size)
    × Delivers (take_lines (read_fd (received piece) b)).1 pieces

abbrev pub concat : List Bytes → Bytes
concat [] = []
concat (xs ∷ xss) = xs ++ concat xss

-- With pieces that readv may answer, an array that stays within its maximum, and no newline waiting
-- at the start, reading pieces and taking the lines after each yields exactly the lines and the
-- rest of all the bytes put together, wherever they were cut, and a valid buffer.
pub feed-split :
    (b : Buffer) (pieces : List Bytes)
    → IsValid b
    → Free newline (contents b)
    → Delivers b pieces
    → let (lines, b') = feed b pieces in
      (lines ≡ (split (contents b ++ concat pieces)).0)
      × (contents b' ≡ (split (contents b ++ concat pieces)).1)
      × IsValid b'
unfolding feed
feed-split b [] v f d =
    let s = split-Free_all (contents b) f in rw (append-nil (contents b), s) (refl, refl, v)
feed-split b (piece ∷ pieces) v f d =
    let r = read_fd-received piece b v d.0 d.1 in
    let t = take_lines-Took (read_fd (received piece) b) r.1 in
    let sf = split-Free (contents (read_fd (received piece) b)) in
    let ih =
      feed-split (take_lines (read_fd (received piece) b)).1 pieces t.valid (rw t.rest sf.1) d.2 in
    let whole =
      ap split (sym (append_assoc (contents b) piece (concat pieces)))
      ∙ ap (λ (l : Bytes). split (l ++ concat pieces)) (sym r.0)
      ∙ split-append (contents (read_fd (received piece) b)) (concat pieces) in
    rw whole (
      ap₂ ◌++◌ t.lines (ih.0 ∙ ap (λ (l : Bytes). (split (l ++ concat pieces)).0) t.rest),
      ih.1 ∙ ap (λ (l : Bytes). (split (l ++ concat pieces)).1) t.rest,
      ih.2,
    )

-- "[room] nick: text"
abbrev pub broadcast_line : Bytes → Bytes → Bytes → Bytes
broadcast_line room nick text =
    (b'[' ∷ []) ++ (room ++ (b']' ∷ b' ' ∷ [] ++ (nick ++ (b':' ∷ b' ' ∷ [] ++ text))))

pub format_broadcast-line :
    (room nick text : Bytes)
    → format_broadcast room nick text ≡ broadcast_line room nick text ++ (newline ∷ [])
unfolding format_broadcast
format_broadcast-line room nick text = simp append_assoc

pub broadcast_line-Free :
    (room nick text : Bytes)
    → Free newline room
    → Free newline nick
    → Free newline text
    → Free newline (broadcast_line room nick text)
broadcast_line-Free room nick text fr fn ft =
    let mark =
      λ (a c : ℕ) (rest : Bytes) (ha : a ≢ newline) (hc : c ≢ newline) (h : Free newline rest).
        All-append (λ x. x ≢ newline) (a ∷ c ∷ []) rest (ha, (hc, tt)) h in
    (
      omega arith,
      All-append (λ x. x ≢ newline) room _ fr
          (mark b']' b' ' _ (omega arith) (omega arith) (
            All-append (λ x. x ≢ newline) nick _ fn
              (mark b':' b' ' text (omega arith) (omega arith) ft))),
    )

-- A broadcast whose room, nick and text hold no newline, when it is all that a valid buffer holds,
-- is read as exactly one line and leaves nothing behind.
pub take_lines-format_broadcast :
    (room nick text : Bytes) (b : Buffer)
    → IsValid b
    → Free newline room
    → Free newline nick
    → Free newline text
    → contents b ≡ format_broadcast room nick text
    → let (lines, b') = take_lines b in
      (lines ≡ broadcast_line room nick text ∷ []) × (contents b' ≡ [])
take_lines-format_broadcast room nick text b v fr fn ft e =
    let t = take_lines-Took b v in
    let f = broadcast_line-Free room nick text fr fn ft in
    let s =
      ap split (e ∙ format_broadcast-line room nick text)
      ∙ split-line (broadcast_line room nick text) [] f in
    let n = split-Free_all [] tt in
    (
      t.lines ∙ ap (λ p. p.0) s ∙ ap (λ p. broadcast_line room nick text ∷ p.0) n,
      t.rest ∙ ap (λ p. p.1) s ∙ ap (λ p. p.1) n,
    )
