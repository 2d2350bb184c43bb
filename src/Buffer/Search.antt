-- ===== src/Buffer/Search.antt =====
-- `Buffer::findEOL` (src/base/Buffer.h): the search for a '\n' among the readable bytes.
use reactor_chat_server.Common.{
  ℕ, zero, suc, ◌+◌, ◌<◌, ◌≡◌, ◌≢◌, [], ◌∷◌, ◌⊎◌, inl, inr, none, some, Byte, Bytes, arith, length,
  take, Option-cases, All, get_elem?,
}
use reactor_chat_server.Buffer.{Buffer, newline, find_byte, find_eol}
use reactor_chat_server.Buffer.Invariant.{IsValid, readable_bytes-sub}
use reactor_chat_server.Buffer.Contents.{contents}

-- No byte of the list is `c`.
abbrev pub Free : Byte → Bytes → Type 0
Free c xs = All (λ x. x ≢ c) xs

-- `memchr` answers the first place of the byte, and nothing exactly if there is none.
pub find_byte-some :
    (c : Byte) (xs : Bytes) (i : ℕ)
    → find_byte c xs ≡ some i
    → (i < length xs) × Free c (take i xs) × (get_elem? xs i ≡ some c)
unfolding find_byte
find_byte-some c [] i h = cc
find_byte-some c (x ∷ xs) zero h = ground arith
find_byte-some c (x ∷ xs) (suc i) h = ground (arith, find_byte-some c xs i)

pub find_byte-none : (c : Byte) (xs : Bytes) → find_byte c xs ≡ none → Free c xs
unfolding find_byte
find_byte-none c [] h = tt
find_byte-none c (x ∷ xs) h = ground (arith, find_byte-none c xs)

-- `findEOL` is `memchr` over the readable bytes, as a position in the array.
pub find_eol_lem :
    (b : Buffer)
    → IsValid b
    → ((find_byte newline (contents b) ≡ none) × (find_eol b ≡ none))
      ⊎ ((i : ℕ) × (find_byte newline (contents b) ≡ some i)
          × (find_eol b ≡ some (b.reader_index + i)))
unfolding find_eol
find_eol_lem b v =
    rw (readable_bytes-sub b v, find_eol)
      (elim (Option-cases (find_byte newline (contents b))) [
        | inl e ↦ inl (e, rw (e, find_eol))
        | inr (i, e) ↦ inr (i, e, rw (e, find_eol))
      ])
