-- ===== src/Buffer/Receive.antt =====
-- `Buffer::readFd` (src/base/Buffer.cc): a scattered read into the array and 64 KB on the stack.
use reactor_chat_server.Common.{
  ℕ, ◌+◌, ◌-◌, ◌≤◌, ◌≡◌, ap, ◌∙◌, ◌++◌, inl, inr, Bytes, arith, length, take, drop, ltb, leb,
  Bool-cases, add64, length-drop, length-take, take_all, take-append-drop, append_assoc, [],
  if◌then◌else◌, false,
}
use reactor_chat_server.Buffer.{Buffer, writable_bytes, received, read_fd, offered, extra_size}
use reactor_chat_server.Buffer.Copy.{copy_to, length-copy_to}
use reactor_chat_server.Buffer.Invariant.{IsValid, Fits, max_size, writable_bytes-sub}
use reactor_chat_server.Buffer.Contents.{contents, splice-contents, append-contents, append-IsValid}

-- What `readv` documents: it stores no more bytes than the vectors offer.
abbrev pub Answers : Buffer → Bytes → Type 0
Answers b bytes = length bytes ≤ offered b

module _ (bytes : Bytes) (b : Buffer) (v : IsValid b) where
  filled : Buffer
  filled = record b {
    buf = copy_to b.writer_index b.buf (take (writable_bytes b) bytes);
    writer_index = length (copy_to b.writer_index b.buf (take (writable_bytes b) bytes));
  }

  filled-IsValid : IsValid filled
  unfolding filled
  filled-IsValid =
      omega (arith, length-copy_to b.writer_index b.buf (take (writable_bytes b) bytes))

  filled-contents :
      writable_bytes b ≤ length bytes
      → contents filled ≡ contents b ++ take (writable_bytes b) bytes
  unfolding filled
  filled-contents h =
      let ds = take (writable_bytes b) bytes in
      let size : length ds ≡ writable_bytes b =
        omega (arith, length-take (writable_bytes b) bytes) in
      let e : length (copy_to b.writer_index b.buf ds) ≡ b.writer_index + length ds =
        omega (arith, length-copy_to b.writer_index b.buf ds, size, writable_bytes-sub b v) in
      ap
        (λ (k : ℕ).
          take (k - b.reader_index) (drop b.reader_index (copy_to b.writer_index b.buf ds)))
        e
      ∙ splice-contents b ds v (omega (arith, size, writable_bytes-sub b v))

  -- The spilled part is what `extrabuf` holds, and it lies within it.
  spilled-extra :
      Answers b bytes
      → leb (length bytes) (writable_bytes b) ≡ false
      → (take (length bytes - writable_bytes b) (
            if ltb (writable_bytes b) extra_size
            then take extra_size (drop (writable_bytes b) bytes)
            else [])
          ≡ drop (writable_bytes b) bytes)
        × (length bytes - writable_bytes b ≤ extra_size)
  unfolding offered
  spilled-extra a spilled = elim (Bool-cases (ltb (writable_bytes b) extra_size)) [
    | inl two ↦
        let n = length bytes - writable_bytes b in
        let bound : n ≤ extra_size = ground arith in
        let size : length (drop (writable_bytes b) bytes) ≡ n =
          length-drop (writable_bytes b) bytes in
        rw two (
          ap (take n) (take_all extra_size _ (omega (arith, size)))
              ∙ take_all n _ (omega (arith, size)),
          bound,
        )
    | inr one ↦ absurd (ground arith)
  ]

-- readFd on a valid buffer, with an answer that readv may give and an array that stays within its
-- maximum, puts exactly the received bytes behind the readable ones, on both paths, and keeps the
-- invariant.
pub read_fd-received :
    (bytes : Bytes) (b : Buffer)
    → IsValid b
    → Answers b bytes
    → length b.buf + length bytes ≤ max_size
    → (contents (read_fd (received bytes) b) ≡ contents b ++ bytes)
      × IsValid (read_fd (received bytes) b)
unfolding read_fd filled
read_fd-received bytes b v a fits = elim (Bool-cases (leb (length bytes) (writable_bytes b))) [
  | inl direct ↦
      let all : take (writable_bytes b) bytes ≡ bytes =
        take_all (writable_bytes b) bytes (ground arith) in
      let e : add64 b.writer_index (length bytes) ≡ b.writer_index + length bytes = omega arith in
      let room : b.writer_index + length bytes ≤ length b.buf =
        ground (arith, writable_bytes-sub b v) in
      rw (direct, all, e)
        (splice-contents b bytes v room, omega (arith, length-copy_to b.writer_index b.buf bytes))
  | inr spilled ↦
      let w = writable_bytes b in
      let f = filled bytes b v in
      let fv = filled-IsValid bytes b v in
      let extra = (spilled-extra bytes b v a spilled).0 in
      let fit : Fits (length (drop w bytes)) f =
        omega (arith, length-drop w bytes, length-copy_to b.writer_index b.buf (take w bytes)) in
      rw (spilled, extra)
        (
          append-contents (drop w bytes) f fv fit
              ∙ ap (λ (l : Bytes). l ++ drop w bytes) (filled-contents bytes b v (ground arith))
              ∙ append_assoc (contents b) (take w bytes) (drop w bytes)
              ∙ ap (◌++◌ (contents b)) (take-append-drop w bytes),
          append-IsValid (drop w bytes) f fv fit,
        )
]
