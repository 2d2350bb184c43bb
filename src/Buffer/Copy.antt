-- ===== src/Buffer/Copy.antt =====
-- `std::copy` into an array, as src/base/Buffer.h calls it: the bytes from a position on are
-- replaced, in place.
use reactor_chat_server.Common.{
  ℕ, zero, suc, ◌+◌, ◌≤◌, ◌≡◌, refl, ap, ◌∙◌, [], ◌∷◌, ◌++◌, Bytes, arith, length, take, drop,
}

overwrite : Bytes → Bytes → Bytes
overwrite xs [] = xs
overwrite [] (d ∷ ds) = []
overwrite (x ∷ xs) (d ∷ ds) = d ∷ overwrite xs ds

-- Bytes that would fall past the end are dropped: in C++ that write has no meaning.
unfoldable pub copy_to : ℕ → Bytes → Bytes → Bytes
unfolding overwrite
copy_to zero xs ds = overwrite xs ds
copy_to (suc i) [] ds = []
copy_to (suc i) (x ∷ xs) ds = x ∷ copy_to i xs ds

overwrite_lem :
    (xs ds : Bytes) → length ds ≤ length xs → overwrite xs ds ≡ ds ++ drop (length ds) xs
unfolding overwrite
overwrite_lem xs [] h = refl
overwrite_lem [] (d ∷ ds) h = absurd (omega arith)
overwrite_lem (x ∷ xs) (d ∷ ds) h = ap (◌∷◌ d) (overwrite_lem xs ds (omega arith))

-- Inside the array a copy splices the bytes in.
pub copy_to_lem :
    (i : ℕ) (xs ds : Bytes)
    → i + length ds ≤ length xs
    → copy_to i xs ds ≡ take i xs ++ (ds ++ drop (i + length ds) xs)
unfolding copy_to
copy_to_lem zero xs ds h =
    overwrite_lem xs ds (omega arith) ∙ ap (λ (k : ℕ). ds ++ drop k xs) (omega arith)
copy_to_lem (suc i) [] ds h = absurd (omega arith)
copy_to_lem (suc i) (x ∷ xs) ds h =
    let e : suc (i + length ds) ≡ suc i + length ds = omega arith in
    ap (◌∷◌ x) (copy_to_lem i xs ds (omega arith))
    ∙ ap (λ (k : ℕ). x ∷ (take i xs ++ (ds ++ drop k (x ∷ xs)))) e

length-overwrite : (xs ds : Bytes) → length (overwrite xs ds) ≡ length xs
unfolding overwrite
length-overwrite [] [] = refl
length-overwrite (x ∷ xs) [] = refl
length-overwrite [] (d ∷ ds) = refl
length-overwrite (x ∷ xs) (d ∷ ds) = ap suc (length-overwrite xs ds)

pub length-copy_to : (i : ℕ) (xs ds : Bytes) → length (copy_to i xs ds) ≡ length xs
unfolding copy_to
length-copy_to zero xs ds = length-overwrite xs ds
length-copy_to (suc i) [] ds = refl
length-copy_to (suc i) (x ∷ xs) ds = ap suc (length-copy_to i xs ds)
