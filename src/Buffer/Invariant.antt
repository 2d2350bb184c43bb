-- ===== src/Buffer/Invariant.antt =====
-- The representation invariant of `Buffer` (src/base/Buffer.h).
use reactor_chat_server.Common.{
  ℕ, ◌+◌, ◌-◌, ◌^◌, ◌≤◌, ◌<◌, ◌≡◌, ◌++◌, inl, inr, arith, length, take, drop, replicate, ltb,
  Bool-cases, length-replicate, add64,
}
use reactor_chat_server.Buffer.{
  Buffer, k_prepend, new_buffer, readable_bytes, writable_bytes, retrieve, make_space,
}
use reactor_chat_server.Buffer.Copy.{copy_to}

-- `vector<char>::max_size()`: a larger `resize` throws.
abbrev pub max_size : ℕ
max_size = 2 ^ 63 - 1

pub record IsValid (b : Buffer) : Type 0 where
  pub prepend : k_prepend ≤ b.reader_index
  pub ordered : b.reader_index ≤ b.writer_index
  pub inside : b.writer_index ≤ length b.buf
  pub bounded : length b.buf ≤ max_size

-- `n` more bytes leave the array within the vector's maximum.
abbrev pub Fits : ℕ → Buffer → Type 0
Fits n b = b.writer_index + n ≤ max_size

-- In a valid buffer the sizes are plain differences.
pub readable_bytes-sub :
    (b : Buffer) → IsValid b → readable_bytes b ≡ b.writer_index - b.reader_index
unfolding readable_bytes
readable_bytes-sub b v = omega arith

pub writable_bytes-sub : (b : Buffer) → IsValid b → writable_bytes b ≡ length b.buf - b.writer_index
unfolding writable_bytes
writable_bytes-sub b v = omega arith

pub new_buffer-IsValid : (n : ℕ) → n + k_prepend ≤ max_size → IsValid (new_buffer n)
unfolding new_buffer
new_buffer-IsValid n h = omega (arith, length-replicate {A = ℕ} (k_prepend + n) 0)

pub retrieve-IsValid : (n : ℕ) (b : Buffer) → IsValid b → IsValid (retrieve n b)
unfolding retrieve
retrieve-IsValid n b v = ground arith

-- How `make_space` branches in a valid buffer: without wrap.
pub data Branch (n : ℕ) (b : Buffer) : Type 0 where
  grown :
      make_space n b ≡ record b { buf = b.buf ++ replicate (b.writer_index + n - length b.buf) 0 }
      → length b.buf < b.writer_index + n
      → Branch n b
  moved :
      make_space n b ≡ record {
        buf =
            copy_to k_prepend b.buf
              (take (b.writer_index - b.reader_index) (drop b.reader_index b.buf));
        reader_index = k_prepend;
        writer_index = k_prepend + (b.writer_index - b.reader_index);
      }
      → n + k_prepend ≤ length b.buf - b.writer_index + b.reader_index
      → Branch n b

pub make_space-Branch : (n : ℕ) (b : Buffer) → IsValid b → Fits n b → Branch n b
unfolding make_space
make_space-Branch n b v f =
    elim (Bool-cases (ltb (add64 (writable_bytes b) b.reader_index) (add64 n k_prepend))) [
      | inl few ↦ grown (ground arith) (ground arith)
      | inr room ↦ moved (ground arith) (ground arith)
    ]
