-- ===== src/Codec/Split.antt =====
-- The split of a list of bytes at its newlines: what `takeLines` (src/chat/Codec.cc) is held
-- against.
use reactor_chat_server.Common.{
  false, ◌≡◌, ◌≢◌, refl, List, [], ◌∷◌, ◌++◌, Byte, Bytes, arith, ◌==◌, if◌then◌else◌, All,
  Bool-cases, inl, inr,
}
use reactor_chat_server.Buffer.{newline}
use reactor_chat_server.Buffer.Search.{Free}

-- A byte in front of what has been split already.
abbrev pub extend : Byte → List Bytes × Bytes → List Bytes × Bytes
extend c ([], rest) = ([], c ∷ rest)
extend c (line ∷ lines, rest) = ((c ∷ line) ∷ lines, rest)

-- The complete lines without their '\n', and the bytes behind the last '\n'.
unfoldable pub split : Bytes → List Bytes × Bytes
split [] = ([], [])
split (c ∷ cs) =
    let (lines, rest) = split cs in
    if c == newline then ([] ∷ lines, rest) else extend c (lines, rest)

-- Lines put together again.
abbrev pub unlines : List Bytes → Bytes
unlines [] = []
unlines (line ∷ lines) = line ++ (newline ∷ unlines lines)

unlines-extend :
    (c : Byte) (lines : List Bytes) (rest : Bytes)
    → unlines (extend c (lines, rest)).0 ++ (extend c (lines, rest)).1 ≡ c ∷ (unlines lines ++ rest)
unlines-extend c [] rest = refl
unlines-extend c (line ∷ lines) rest = refl

-- Nothing is lost, added or reordered.
pub unlines-split : (xs : Bytes) → unlines (split xs).0 ++ (split xs).1 ≡ xs
unfolding split
unlines-split [] = refl
unlines-split (c ∷ cs) =
    ground (arith, unlines-split cs, unlines-extend c (split cs).0 (split cs).1)

extend-Free :
    (c : Byte) (lines : List Bytes) (rest : Bytes)
    → c ≢ newline
    → All (Free newline) lines
    → Free newline rest
    → All (Free newline) (extend c (lines, rest)).0 × Free newline (extend c (lines, rest)).1
extend-Free c [] rest h a f = (tt, (h, f))
extend-Free c (line ∷ lines) rest h a f = (((h, a.0), a.1), f)

-- No line holds a '\n', nor does the rest.
pub split-Free : (xs : Bytes) → All (Free newline) (split xs).0 × Free newline (split xs).1
unfolding split
split-Free [] = (tt, tt)
split-Free (c ∷ cs) = elim (Bool-cases (c == newline)) [
  | inl hit ↦ rw hit ((tt, (split-Free cs).0), (split-Free cs).1)
  | inr miss ↦ rw miss (extend-Free c _ _ (ground arith) (split-Free cs).0 (split-Free cs).1)
]

-- A list with no '\n' is all rest.
pub split-Free_all : (xs : Bytes) → Free newline xs → split xs ≡ ([], xs)
unfolding split
split-Free_all [] f = refl
split-Free_all (c ∷ cs) f = rw (split-Free_all cs f.1) (ground arith)

-- A line in front.
pub split-line :
    (line xs : Bytes)
    → Free newline line
    → split (line ++ (newline ∷ xs)) ≡ (line ∷ (split xs).0, (split xs).1)
unfolding split
split-line [] xs f = refl
split-line (c ∷ cs) xs f = rw (split-line cs xs f.1) (ground arith)

extend-append :
    (c : Byte) (lines : List Bytes) (rest ys : Bytes)
    → (c == newline) ≡ false
    → extend c (lines ++ (split (rest ++ ys)).0, (split (rest ++ ys)).1) ≡ (
      (extend c (lines, rest)).0 ++ (split ((extend c (lines, rest)).1 ++ ys)).0,
      (split ((extend c (lines, rest)).1 ++ ys)).1,
    )
unfolding split
extend-append c [] rest ys miss = rw miss
extend-append c (line ∷ lines) rest ys miss = refl

-- Bytes that come in two parts: the rest of the first is the front of the second.
pub split-append :
    (xs ys : Bytes)
    → let (lines, rest) = split xs in
      split (xs ++ ys) ≡ (lines ++ (split (rest ++ ys)).0, (split (rest ++ ys)).1)
unfolding split
split-append [] ys = refl
split-append (c ∷ cs) ys = elim (Bool-cases (c == newline)) [
  | inl hit ↦ rw (hit, split-append cs ys)
  | inr miss ↦ rw (miss, split-append cs ys) (extend-append c (split cs).0 (split cs).1 ys miss)
]
