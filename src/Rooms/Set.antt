-- ===== src/Rooms/Set.antt =====
-- `std::set` of connections, as src/chat/RoomManager.h uses it: an ascending list without
-- repetition.
use reactor_chat_server.Common.{
  ℕ, ◌<◌, ◌≡◌, refl, Bool, false, not, ◌&&◌, ◌||◌, List, [], ◌∷◌, ◌==◌, ltb, arith, if◌then◌else◌,
}

pub insert : ℕ → List ℕ → List ℕ
insert a [] = a ∷ []
insert a (x ∷ xs) =
    let rest = insert a xs in if a == x then x ∷ xs else if ltb a x then a ∷ (x ∷ xs) else x ∷ rest

pub erase : ℕ → List ℕ → List ℕ
erase a [] = []
erase a (x ∷ xs) = let rest = erase a xs in if a == x then rest else x ∷ rest

unfoldable pub contains : ℕ → List ℕ → Bool
contains a [] = false
contains a (x ∷ xs) = a == x || contains a xs

-- All elements lie above the bound.
abbrev pub Above : ℕ → List ℕ → Type 0
Above a [] = Unit {0}
Above a (x ∷ xs) = (a < x) × Above a xs

abbrev pub Ascending : List ℕ → Type 0
Ascending [] = Unit {0}
Ascending (x ∷ xs) = Above x xs × Ascending xs

pub contains-insert : (a b : ℕ) (xs : List ℕ) → contains b (insert a xs) ≡ (b == a || contains b xs)
unfolding contains insert
contains-insert a b [] = refl
contains-insert a b (x ∷ xs) = ground (arith, contains-insert a b xs)

pub contains-erase :
    (a b : ℕ) (xs : List ℕ) → contains b (erase a xs) ≡ (not (b == a) && contains b xs)
unfolding contains erase
contains-erase a b [] = ground arith
contains-erase a b (x ∷ xs) = ground (arith, contains-erase a b xs)

pub Above-trans : (a b : ℕ) (xs : List ℕ) → a < b → Above b xs → Above a xs
Above-trans a b [] h t = tt
Above-trans a b (x ∷ xs) h t = (omega arith, Above-trans a b xs h t.1)

Above-insert : (a b : ℕ) (xs : List ℕ) → b < a → Above b xs → Above b (insert a xs)
unfolding insert
Above-insert a b [] h t = (h, tt)
Above-insert a b (x ∷ xs) h t = ground (arith, Above-insert a b xs)

Above-erase : (a b : ℕ) (xs : List ℕ) → Above b xs → Above b (erase a xs)
unfolding erase
Above-erase a b [] t = tt
Above-erase a b (x ∷ xs) t = ground (arith, Above-erase a b xs)

pub insert-Ascending : (a : ℕ) (xs : List ℕ) → Ascending xs → Ascending (insert a xs)
unfolding insert
insert-Ascending a [] s = (tt, tt)
insert-Ascending a (x ∷ xs) s =
    ground (arith, insert-Ascending a xs s.1, Above-insert a x xs, Above-trans a x xs)

pub erase-Ascending : (a : ℕ) (xs : List ℕ) → Ascending xs → Ascending (erase a xs)
unfolding erase
erase-Ascending a [] s = tt
erase-Ascending a (x ∷ xs) s = ground (arith, erase-Ascending a xs s.1, Above-erase a x xs)
