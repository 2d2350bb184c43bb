-- ===== src/Buffer/Tests.antt =====
-- The operations of src/base/Buffer.h at concrete bytes.
use reactor_chat_server.Common.{◌≤◌, ◌≡◌, ◌++◌, [], ◌∷◌, Bytes, arith, length}
use reactor_chat_server.Buffer.{
  Buffer, newline, append, retrieve_all_as_string, received, read_fd, writable_bytes, offered,
}
use reactor_chat_server.Buffer.Invariant.{IsValid}
use reactor_chat_server.Buffer.Contents.{contents, append-contents, retrieve_all_as_string_lem}
use reactor_chat_server.Buffer.Receive.{read_fd-received}

abbrev hello : Bytes
hello = b'h' ∷ b'i' ∷ newline ∷ b'y' ∷ []

-- An array of sixteen bytes, of which four are readable.
abbrev small : Buffer
small = record {
  buf = 0 ∷ 0 ∷ 0 ∷ 0 ∷ 0 ∷ 0 ∷ 0 ∷ 0 ∷ 0 ∷ 0 ∷ 0 ∷ 0 ∷ hello;
  reader_index = 12;
  writer_index = 16;
}

small-IsValid : IsValid small
small-IsValid = omega arith

append-contents_example : contents (append hello small) ≡ hello ++ hello
append-contents_example = append-contents hello small small-IsValid (omega arith)

retrieve_all_example :
    ((retrieve_all_as_string small).0 ≡ hello) × (contents (retrieve_all_as_string small).1 ≡ [])
retrieve_all_example = retrieve_all_as_string_lem small small-IsValid

small-offered : length hello ≤ offered small
unfolding offered writable_bytes
small-offered = omega arith

read_fd_example :
    (contents (read_fd (received hello) small) ≡ hello ++ hello)
    × IsValid (read_fd (received hello) small)
read_fd_example = read_fd-received hello small small-IsValid small-offered (omega arith)
