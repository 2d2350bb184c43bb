-- ===== src/Buffer.antt =====
-- src/base/Buffer.h and src/base/Buffer.cc: a byte queue in one growing array, with two cursors.
-- Positions and sizes are `size_t`, so sums and differences wrap at 2^64.
pub mod Copy
pub mod Invariant
pub mod Contents
pub mod Receive
pub mod Search
mod Tests
use reactor_chat_server.Common.{
  ℕ, zero, suc, ◌+◌, ◌-◌, List, [], ◌∷◌, ◌++◌, Bool, Option, none, some, Byte, Bytes, add64, sub64,
  length, take, drop, replicate, ltb, leb, ◌==◌, if◌then◌else◌,
}
use Copy.{copy_to}

abbrev pub k_prepend : ℕ
k_prepend = 8

abbrev pub k_initial : ℕ
k_initial = 1024

-- `sizeof(extrabuf)` in `readFd`.
abbrev pub extra_size : ℕ
extra_size = 65536

abbrev pub newline : Byte
newline = b'\n'

-- The members of `class Buffer`: the array, and the positions of the cursors in it.
pub record Buffer : Type 0 where
  pub buf : Bytes
  pub reader_index : ℕ
  pub writer_index : ℕ

-- The constructor; the array's bytes are zero.
unfoldable pub new_buffer : ℕ → Buffer
new_buffer initial = record {
  buf = replicate (k_prepend + initial) 0;
  reader_index = k_prepend;
  writer_index = k_prepend;
}

unfoldable pub readable_bytes : Buffer → ℕ
readable_bytes b = sub64 b.writer_index b.reader_index

unfoldable pub writable_bytes : Buffer → ℕ
writable_bytes b = sub64 (length b.buf) b.writer_index

abbrev pub prependable_bytes : Buffer → ℕ
prependable_bytes b = b.reader_index

unfoldable pub retrieve_all : Buffer → Buffer
retrieve_all b = record b { reader_index = k_prepend; writer_index = k_prepend }

unfoldable pub retrieve : ℕ → Buffer → Buffer
unfolding readable_bytes retrieve_all
retrieve len b =
    if ltb len (readable_bytes b)
    then record b { reader_index = add64 b.reader_index len }
    else retrieve_all b

-- The string is made from `len` bytes at `peek()`; then they are retrieved.
unfoldable pub retrieve_as_string : ℕ → Buffer → Bytes × Buffer
retrieve_as_string len b = (take len (drop b.reader_index b.buf), retrieve len b)

pub retrieve_all_as_string : Buffer → Bytes × Buffer
retrieve_all_as_string b = retrieve_as_string (readable_bytes b) b

-- `end` is a position in the array, as `peek()` is.
pub retrieve_until : ℕ → Buffer → Buffer
retrieve_until end b = retrieve (sub64 end b.reader_index) b

-- `vector::resize`: new bytes are zero.
pub resize : ℕ → Bytes → Bytes
resize n xs = if ltb (length xs) n then xs ++ replicate (n - length xs) 0 else take n xs

-- The bytes between two positions of the array.
abbrev pub slice : ℕ → ℕ → Bytes → Bytes
slice from to xs = take (to - from) (drop from xs)

pub make_space : ℕ → Buffer → Buffer
unfolding readable_bytes writable_bytes resize
make_space len b =
    if ltb (add64 (writable_bytes b) (prependable_bytes b)) (add64 len k_prepend)
    then record b { buf = resize (add64 b.writer_index len) b.buf }
    else record {
      buf = copy_to k_prepend b.buf (slice b.reader_index b.writer_index b.buf);
      reader_index = k_prepend;
      writer_index = add64 k_prepend (readable_bytes b);
    }

pub ensure_writable : ℕ → Buffer → Buffer
ensure_writable len b = if ltb (writable_bytes b) len then make_space len b else b

-- `std::copy` to the write cursor, once there is room.
pub append : Bytes → Buffer → Buffer
append bytes b =
    let b' = ensure_writable (length bytes) b in
    record b' {
      buf = copy_to b'.writer_index b'.buf bytes;
      writer_index = add64 b'.writer_index (length bytes);
    }

-- `memchr`: the offset of the first byte equal to `c`.
unfoldable pub find_byte : Byte → Bytes → Option ℕ
find_byte c [] = none
find_byte c (x ∷ xs) =
    let rest = find_byte c xs in
    if x == c then some 0 else elim rest [ none ↦ none | some i ↦ some (suc i) ]

-- The position of the first '\n' among the readable bytes.
unfoldable pub find_eol : Buffer → Option ℕ
unfolding readable_bytes
find_eol b = elim (find_byte newline (take (readable_bytes b) (drop b.reader_index b.buf))) [
  | none ↦ none
  | some i ↦ some (b.reader_index + i)
]

-- What `readv` returns: bytes, which it has stored through the two vectors, or an error number.
pub data ReadResult : Type 0 where
  received : Bytes → ReadResult
  failed : ℕ → ReadResult

-- The room that `readFd` offers to `readv`: the second vector is used below 64 KB only.
unfoldable pub offered : Buffer → ℕ
offered b =
    if ltb (writable_bytes b) extra_size then writable_bytes b + extra_size else writable_bytes b

-- `readv` fills the writable bytes first and then, if it was given, `extrabuf`.
-- With an error the buffer stays, and the caller reads the error number.
unfoldable pub read_fd : ReadResult → Buffer → Buffer
read_fd (failed errno) b = b
read_fd (received bytes) b =
    let writable = writable_bytes b in
    let filled = copy_to b.writer_index b.buf (take writable bytes) in
    let extrabuf = if ltb writable extra_size then take extra_size (drop writable bytes) else [] in
    if leb (length bytes) writable
    then record b { buf = filled; writer_index = add64 b.writer_index (length bytes) }
    else append (take (length bytes - writable) extrabuf)
        (record b { buf = filled; writer_index = length filled })
