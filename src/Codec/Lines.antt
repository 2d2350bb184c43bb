-- ===== src/Codec/Lines.antt =====
-- The loop of `takeLines` (src/chat/Codec.cc) against the split of a list of bytes.
use reactor_chat_server.Common.{
  ℕ, zero, suc, ◌+◌, ◌<◌, ◌≤◌, ◌≡◌, sym, ap, ◌∙◌, List, [], ◌∷◌, ◌++◌, some, Bytes, arith, length,
  take, drop, sub64, inl, inr, get_elem?, drop-drop, length-drop,
}
use reactor_chat_server.Buffer.{
  Buffer, newline, find_byte, readable_bytes, retrieve, retrieve_as_string,
}
use reactor_chat_server.Buffer.Invariant.{IsValid, retrieve-IsValid}
use reactor_chat_server.Buffer.Contents.{
  contents, length-contents, length-contents-readable, retrieve-contents, retrieve_as_string_lem,
  retrieve_as_string-IsValid,
}
use reactor_chat_server.Buffer.Search.{find_eol_lem, find_byte-some, find_byte-none}
use reactor_chat_server.Codec.{take_lines_loop, take_lines}
use reactor_chat_server.Codec.Split.{split, split-Free_all, split-line}

-- A list cut at one of its elements.
pub cut_at :
    (xs : Bytes) (i c : ℕ) → get_elem? xs i ≡ some c → xs ≡ take i xs ++ (c ∷ drop (suc i) xs)
cut_at [] i c h = cc
cut_at (x ∷ xs) zero c h = cc
cut_at (x ∷ xs) (suc i) c h = ap (◌∷◌ x) (cut_at xs i c h)

-- The specification, cut at the byte that `memchr` found.
split-found :
    (xs : Bytes) (i : ℕ)
    → find_byte newline xs ≡ some i
    → split xs ≡ (take i xs ∷ (split (drop (suc i) xs)).0, (split (drop (suc i) xs)).1)
split-found xs i h =
    let f = find_byte-some newline xs i h in
    ap split (cut_at xs i newline f.2) ∙ split-line (take i xs) (drop (suc i) xs) f.1

-- What a run of the loop must have done to a buffer.
pub record Took (b : Buffer) (out : List Bytes × Buffer) : Type 0 where
  pub lines : out.0 ≡ (split (contents b)).0
  pub rest : contents out.1 ≡ (split (contents b)).1
  pub valid : IsValid out.1

-- The buffer after one round: the line and its '\n' are gone.
round-contents :
    (b : Buffer) (i : ℕ)
    → IsValid b
    → i ≤ length (contents b)
    → contents (retrieve 1 (retrieve_as_string i b).1) ≡ drop (suc i) (contents b)
round-contents b i v h =
    let e : i + 1 ≡ suc i = omega arith in
    retrieve-contents 1 (retrieve_as_string i b).1 (retrieve_as_string-IsValid i b v)
    ∙ ap (drop 1) (retrieve_as_string_lem i b v h).1
    ∙ drop-drop 1 i (contents b)
    ∙ ap (λ (k : ℕ). drop k (contents b)) e

-- A round, then the rest of the loop.
Took-round :
    (b : Buffer) (i : ℕ) {out : List Bytes × Buffer}
    → IsValid b
    → find_byte newline (contents b) ≡ some i
    → contents (retrieve 1 (retrieve_as_string i b).1) ≡ drop (suc i) (contents b)
    → Took (retrieve 1 (retrieve_as_string i b).1) out
    → Took b ((retrieve_as_string i b).0 ∷ out.0, out.1)
Took-round b i v found after t =
    let f = find_byte-some newline (contents b) i found in
    let s = split-found (contents b) i found in
    let front = (retrieve_as_string_lem i b v (omega (arith, f.0))).0 in
    record { lines = rw (s, front, t.lines, after); rest = rw (s, t.rest, after); valid = t.valid }

take_lines_loop-Took :
    (fuel : ℕ) (b : Buffer)
    → IsValid b
    → length (contents b) < fuel
    → Took b (take_lines_loop fuel b)
unfolding take_lines_loop
take_lines_loop-Took zero b v h = absurd (omega arith)
take_lines_loop-Took (suc fuel) b v h = elim (find_eol_lem b v) [
  | inl (missing, e) ↦
      let s = split-Free_all (contents b) (find_byte-none newline (contents b) missing) in
      rw (e, take_lines_loop)
        (record { lines = ap (λ p. p.0) (sym s); rest = ap (λ p. p.1) (sym s); valid = v })
  | inr (i, found, e) ↦
      let f = find_byte-some newline (contents b) i found in
      let k : sub64 (b.reader_index + i) b.reader_index ≡ i =
        omega (arith, length-contents b v, f.0) in
      let after = round-contents b i v (omega (arith, f.0)) in
      let valid = retrieve-IsValid 1 _ (retrieve_as_string-IsValid i b v) in
      rw (e, take_lines_loop, k)
        (Took-round b i v found after (
          take_lines_loop-Took fuel (retrieve 1 (retrieve_as_string i b).1) valid
            (omega (arith, ap length after, length-drop (suc i) (contents b), f.0))))
]

-- `takeLines` gives the complete lines of the readable bytes, in order, and leaves the bytes behind
-- the last '\n' readable.
pub take_lines-Took : (b : Buffer) → IsValid b → Took b (take_lines b)
unfolding take_lines
take_lines-Took b v =
    take_lines_loop-Took (suc (readable_bytes b)) b v (omega (arith, length-contents-readable b v))
