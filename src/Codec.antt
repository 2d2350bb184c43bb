-- ===== src/Codec.antt =====
-- src/chat/Codec.h and src/chat/Codec.cc: lines out of the byte stream, and the text of a
-- broadcast.
pub mod Split
pub mod Lines
pub mod Stream
mod Tests
use reactor_chat_server.Common.{ℕ, zero, suc, List, [], ◌∷◌, ◌++◌, none, some, Byte, Bytes, sub64}
use reactor_chat_server.Buffer.{
  Buffer, newline, find_eol, readable_bytes, retrieve, retrieve_as_string,
}

-- The loop of `takeLines`, with fuel for its rounds.
unfoldable pub take_lines_loop : ℕ → Buffer → List Bytes × Buffer
take_lines_loop zero b = ([], b)
take_lines_loop (suc fuel) b = elim (find_eol b) [
  | none ↦ ([], b)
  | some eol ↦
      let (line, b') = retrieve_as_string (sub64 eol b.reader_index) b in
      let (lines, b'') = take_lines_loop fuel (retrieve 1 b') in (line ∷ lines, b'')
]

-- Each round takes at least the '\n' off, so one round more than there are bytes is enough.
unfoldable pub take_lines : Buffer → List Bytes × Buffer
take_lines b = take_lines_loop (suc (readable_bytes b)) b

-- "[room] nick: text\n"
unfoldable pub format_broadcast : Bytes → Bytes → Bytes → Bytes
format_broadcast room nick text =
    (b'[' ∷ [])
    ++ (room ++ (b']' ∷ b' ' ∷ [] ++ (nick ++ (b':' ∷ b' ' ∷ [] ++ (text ++ newline ∷ [])))))
