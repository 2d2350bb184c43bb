-- ===== src/Codec/Tests.antt =====
-- src/chat/Codec.cc at concrete bytes.
use reactor_chat_server.Common.{refl, ◌≡◌, [], ◌∷◌, arith}
use reactor_chat_server.Buffer.{Buffer, newline, writable_bytes, offered}
use reactor_chat_server.Buffer.Invariant.{IsValid}
use reactor_chat_server.Buffer.Contents.{contents}
use reactor_chat_server.Buffer.Receive.{Answers}
use reactor_chat_server.Codec.{format_broadcast}
use reactor_chat_server.Codec.Split.{split}
use reactor_chat_server.Codec.Stream.{feed, feed-split}

-- "[r] a: hi\n" is readable.
abbrev one_message : Buffer
one_message = record {
  buf =
      0 ∷ 0 ∷ 0 ∷ 0 ∷ 0 ∷ 0 ∷ 0 ∷ 0 ∷ b'[' ∷ b'r' ∷ b']' ∷ b' ' ∷ b'a' ∷ b':' ∷ b' ' ∷ b'h' ∷ b'i'
      ∷ newline ∷ [];
  reader_index = 8;
  writer_index = 18;
}

one_message-IsValid : IsValid one_message
one_message-IsValid = omega arith

one_message-text :
    contents one_message ≡ format_broadcast (b'r' ∷ []) (b'a' ∷ []) (b'h' ∷ b'i' ∷ [])
unfolding format_broadcast
one_message-text = refl

abbrev no_message : Buffer
no_message = record { buf = 0 ∷ 0 ∷ 0 ∷ 0 ∷ 0 ∷ 0 ∷ 0 ∷ 0 ∷ []; reader_index = 8; writer_index = 8 }

no_message-IsValid : IsValid no_message
no_message-IsValid = omega arith

piece-Answers : Answers no_message (b'h' ∷ newline ∷ b'i' ∷ [])
unfolding offered writable_bytes
piece-Answers = omega arith

feed_example :
    ((feed no_message ((b'h' ∷ newline ∷ b'i' ∷ []) ∷ [])).0 ≡ (b'h' ∷ []) ∷ [])
    × (contents (feed no_message ((b'h' ∷ newline ∷ b'i' ∷ []) ∷ [])).1 ≡ b'i' ∷ [])
    × IsValid (feed no_message ((b'h' ∷ newline ∷ b'i' ∷ []) ∷ [])).1
unfolding split
feed_example =
    feed-split no_message ((b'h' ∷ newline ∷ b'i' ∷ []) ∷ []) no_message-IsValid tt
      (piece-Answers, omega arith, tt)
