-- ===== src/Pool.antt =====
-- src/net/EventLoopThreadPool.h and src/net/EventLoopThreadPool.cc: the loops of the pool, handed
-- out in turn. A loop is known by a number.
pub mod Turns
use reactor_chat_server.Common.{
  ℕ, zero, suc, ◌+◌, ◌%◌, ◌^◌, List, [], ◌∷◌, Option, none, some, add64, length, get_elem?,
}

-- The members that `getNextLoop` uses.
pub record EventLoopThreadPool : Type 0 where
  pub base_loop : ℕ
  pub loops : List ℕ
  pub next_index : ℕ

-- `start`, given the loops that the new threads make.
unfoldable pub start_pool : ℕ → List ℕ → EventLoopThreadPool
start_pool base loops = record { base_loop = base; loops = loops; next_index = 0 }

-- The loop and the pool after it; `none` is an index outside the vector.
pub get_next_loop : EventLoopThreadPool → Option (ℕ × EventLoopThreadPool)
get_next_loop p = elim p.loops [
  | [] ↦ some (p.base_loop, p)
  | l ∷ ls ↦ elim (get_elem? (l ∷ ls) p.next_index) [
    | none ↦ none
    | some loop ↦ some (loop, record p { next_index = add64 p.next_index 1 % length (l ∷ ls) })
  ]
]

-- That many connections, one after the other.
pub get_next_loops : ℕ → EventLoopThreadPool → Option (List ℕ × EventLoopThreadPool)
get_next_loops zero p = some ([], p)
get_next_loops (suc n) p = elim (get_next_loop p) [
  | none ↦ none
  | some (loop, p') ↦ elim (get_next_loops n p') [
    | none ↦ none
    | some (rest, p'') ↦ some (loop ∷ rest, p'')
  ]
]
