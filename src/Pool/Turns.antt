-- ===== src/Pool/Turns.antt =====
-- A round of `getNextLoop` (src/net/EventLoopThreadPool.cc).
use reactor_chat_server.Common.{
  ℕ, suc, ◌+◌, ◌%◌, ◌^◌, ◌<◌, ◌≡◌, refl, sym, ap, ◌∙◌, subst, List, [], ◌∷◌, ◌++◌, some, add64,
  length, length-append, get_elem?, arith, append_assoc, none, Option-cases, ◌⊎◌, inl, inr, zero,
}
use native.Mathlib.Nat.{mod-eq_of_lt, mod_self, mod-lt}
use reactor_chat_server.Pool.{EventLoopThreadPool, start_pool, get_next_loop, get_next_loops}

-- A pool at an index.
abbrev at_index : ℕ → List ℕ → ℕ → EventLoopThreadPool
at_index base loops i = record { base_loop = base; loops = loops; next_index = i }

get_next_loop_lem :
    (base : ℕ) (loops : List ℕ) (i loop : ℕ)
    → get_elem? loops i ≡ some loop
    → get_next_loop (at_index base loops i)
      ≡ some (loop, at_index base loops (add64 i 1 % length loops))
unfolding get_next_loop
get_next_loop_lem base [] i loop e = cc
get_next_loop_lem base (l ∷ ls) i loop e = rw (e, get_next_loop)

get_elem?-append :
    (front : List ℕ) (l : ℕ) (back : List ℕ) → get_elem? (front ++ l ∷ back) (length front) ≡ some l
get_elem?-append [] l back = refl
get_elem?-append (x ∷ front) l back = get_elem?-append front l back

-- The calls that are left in a round give the loops that are left, in order, and end at the first.
rest_of_round :
    (base : ℕ) (front : List ℕ) (l : ℕ) (back : List ℕ)
    → length (front ++ l ∷ back) < 2 ^ 64
    → get_next_loops (suc (length back)) (at_index base (front ++ l ∷ back) (length front))
      ≡ some (l ∷ back, at_index base (front ++ l ∷ back) 0)
unfolding get_next_loops
rest_of_round base front l [] small =
    let loops = front ++ l ∷ [] in
    let size : length loops ≡ length front + 1 = omega (arith, length-append front (l ∷ [])) in
    let sum : add64 (length front) 1 ≡ length loops = omega (arith, size, small) in
    let turn : add64 (length front) 1 % length loops ≡ 0 =
      ap (λ n. n % length loops) sum ∙ mod_self (length loops) in
    let e = get_next_loop_lem base loops (length front) l (get_elem?-append front l []) in
    rw (e, get_next_loops, turn)
rest_of_round base front l (m ∷ back) small =
    let loops = front ++ l ∷ (m ∷ back) in
    let size : length loops ≡ length front + (2 + length back) =
      omega (arith, length-append front (l ∷ (m ∷ back))) in
    let sum : add64 (length front) 1 ≡ length front + 1 = omega (arith, size, small) in
    let turn : add64 (length front) 1 % length loops ≡ length front + 1 =
      ap (λ n. n % length loops) sum ∙ mod-eq_of_lt (omega (arith, size)) in
    let e = get_next_loop_lem base loops (length front) l (get_elem?-append front l (m ∷ back)) in
    let shift : (front ++ l ∷ []) ++ (m ∷ back) ≡ loops = append_assoc front (l ∷ []) (m ∷ back) in
    let later =
      subst
        (λ xs.
          get_next_loops (suc (length back)) (at_index base xs (length front + 1))
          ≡ some (m ∷ back, at_index base xs 0))
        shift
        (subst
          (λ i.
            get_next_loops (suc (length back)) (at_index base ((front ++ l ∷ []) ++ (m ∷ back)) i)
            ≡ some (m ∷ back, at_index base ((front ++ l ∷ []) ++ (m ∷ back)) 0))
          (length-append front (l ∷ []))
          (rest_of_round base (front ++ l ∷ []) m back
            (subst (λ (xs : List ℕ). length xs < 2 ^ 64) (sym shift) small))) in
    rw (e, get_next_loops, turn, later)

-- As many calls of getNextLoop as a started pool has loops, at least one and fewer than 2^64, hand
-- out each loop once, in order, and leave the pool as it was at its start.
pub get_next_loops-round :
    (base l : ℕ) (ls : List ℕ)
    → length (l ∷ ls) < 2 ^ 64
    → get_next_loops (length (l ∷ ls)) (start_pool base (l ∷ ls))
      ≡ some (l ∷ ls, start_pool base (l ∷ ls))
unfolding start_pool
get_next_loops-round base l ls small = rest_of_round base [] l ls small

-- The index of the next loop lies in the vector, if there are loops.
abbrev pub IsInside : EventLoopThreadPool → Type 0
IsInside p = (p.loops ≡ []) ⊎ (p.next_index < length p.loops)

get_elem?-inside : (i : ℕ) (xs : List ℕ) → i < length xs → (x : ℕ) × (get_elem? xs i ≡ some x)
get_elem?-inside i [] h = absurd (omega (arith, h))
get_elem?-inside zero (x ∷ xs) h = (x, refl)
get_elem?-inside (suc i) (x ∷ xs) h = get_elem?-inside i xs (omega (arith, h))

-- Such a pool gives a loop, and stays such a pool.
pub get_next_loop-IsInside :
    (p : EventLoopThreadPool)
    → IsInside p
    → (loop : ℕ) × (p' : EventLoopThreadPool) × (get_next_loop p ≡ some (loop, p')) × IsInside p'
unfolding get_next_loop
get_next_loop-IsInside p = inside p.base_loop p.loops p.next_index
  where
    inside :
        (base : ℕ) (loops : List ℕ) (i : ℕ)
        → IsInside (at_index base loops i)
        → (loop : ℕ) × (p' : EventLoopThreadPool) × (get_next_loop (at_index base loops i)
            ≡ some (loop, p'))
          × IsInside p'
    inside base [] i h = (base, at_index base [] i, refl, inl refl)
    inside base (l ∷ ls) i (inl e) = cc
    inside base (l ∷ ls) i (inr h) =
        let (loop, f) = get_elem?-inside i (l ∷ ls) h in
        let j = add64 i 1 % length (l ∷ ls) in
        (
          loop,
          at_index base (l ∷ ls) j,
          get_next_loop_lem base (l ∷ ls) i loop f,
          inr (mod-lt (add64 i 1) (omega arith)),
        )

pub start_pool-IsInside : (base : ℕ) (loops : List ℕ) → IsInside (start_pool base loops)
unfolding start_pool
start_pool-IsInside base [] = inl refl
start_pool-IsInside base (l ∷ ls) = inr (omega arith)

pub get_next_loops-zero : (p : EventLoopThreadPool) → get_next_loops 0 p ≡ some ([], p)
unfolding get_next_loops
get_next_loops-zero p = refl

-- The first of several calls, and the others.
pub get_next_loops-suc :
    (n : ℕ) (p q : EventLoopThreadPool) (loops : List ℕ)
    → get_next_loops (suc n) p ≡ some (loops, q)
    → (loop : ℕ) × (p' : EventLoopThreadPool) × (rest : List ℕ) × (get_next_loop p
        ≡ some (loop, p'))
      × (get_next_loops n p' ≡ some (rest, q))
      × (loop ∷ rest ≡ loops)
unfolding get_next_loops
get_next_loops-suc n p q loops e = elim (Option-cases (get_next_loop p)) [
  | inl stuck ↦ let nothing : get_next_loops (suc n) p ≡ none = rw (stuck, get_next_loops) in cc
  | inr ((loop, p'), taken) ↦ elim (Option-cases (get_next_loops n p')) [
    | inl stuck ↦
        let nothing : get_next_loops (suc n) p ≡ none = rw (taken, get_next_loops, stuck) in cc
    | inr ((rest, q'), others) ↦
        let found : get_next_loops (suc n) p ≡ some (loop ∷ rest, q') =
          rw (taken, get_next_loops, others) in
        let same_pool : q' ≡ q = cc (sym found ∙ e) in
        let same : loop ∷ rest ≡ loops = cc (sym found ∙ e) in
        (loop, p', rest, taken, others ∙ ap (λ x. some (rest, x)) same_pool, same)
  ]
]

-- The base loop stays.
pub get_next_loop-base :
    (p q : EventLoopThreadPool) (loop : ℕ)
    → get_next_loop p ≡ some (loop, q)
    → q.base_loop ≡ p.base_loop
unfolding get_next_loop
get_next_loop-base p q loop e = by_loops p.base_loop p.loops p.next_index e
  where
    by_loops :
        (base : ℕ) (loops : List ℕ) (i : ℕ)
        → get_next_loop (at_index base loops i) ≡ some (loop, q)
        → q.base_loop ≡ base
    by_loops base [] i f =
        let same : at_index base [] i ≡ q = cc in
        ap (λ (k : EventLoopThreadPool). k.base_loop) (sym same)
    by_loops base (l ∷ ls) i f = elim (Option-cases (get_elem? (l ∷ ls) i)) [
      | inl outside ↦
          let nothing : get_next_loop (at_index base (l ∷ ls) i) ≡ none =
            rw (outside, get_next_loop) in
          cc
      | inr (loop', g) ↦
          let same : at_index base (l ∷ ls) (add64 i 1 % length (l ∷ ls)) ≡ q =
            cc (sym (get_next_loop_lem base (l ∷ ls) i loop' g) ∙ f) in
          ap (λ (k : EventLoopThreadPool). k.base_loop) (sym same)
    ]

pub get_next_loops-cons :
    (n l : ℕ) (ls : List ℕ) (p p' p'' : EventLoopThreadPool)
    → get_next_loop p ≡ some (l, p')
    → get_next_loops n p' ≡ some (ls, p'')
    → get_next_loops (suc n) p ≡ some (l ∷ ls, p'')
unfolding get_next_loops
get_next_loops-cons n l ls p p' p'' e f = rw (e, get_next_loops, f)
