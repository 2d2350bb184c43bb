-- ===== src/Timers/Heap.antt =====
-- The heap of src/net/TimerQueue.h: `push`, and the search for expired timers.
use reactor_chat_server.Common.{
  ℕ, ◌+◌, ◌≤◌, ◌<◌, ◌≡◌, refl, ap, List, Bool, ◌&&◌, [], ◌∷◌, ◌++◌, ltb, leb, ◌==◌, arith, inl, inr,
  Bool-cases, if◌then◌else◌, All,
}
use reactor_chat_server.Timers.{Timer, push, take_expired}

-- No timer is earlier than the bound.
abbrev pub NotBefore : ℕ → List Timer → Type 0
NotBefore at ts = All (λ t. at ≤ t.at) ts

-- The earliest in front.
abbrev pub Sorted : List Timer → Type 0
Sorted [] = Unit {0}
Sorted (t ∷ ts) = NotBefore t.at ts × Sorted ts

NotBefore-trans : (a b : ℕ) (ts : List Timer) → a ≤ b → NotBefore b ts → NotBefore a ts
NotBefore-trans a b [] h n = tt
NotBefore-trans a b (t ∷ ts) h n = (omega (arith, n.0), NotBefore-trans a b ts h n.1)

NotBefore-push :
    (a : ℕ) (t : Timer) (ts : List Timer) → a ≤ t.at → NotBefore a ts → NotBefore a (push t ts)
unfolding push
NotBefore-push a t [] h n = (h, tt)
NotBefore-push a t (u ∷ us) h n = elim (Bool-cases (ltb t.at u.at)) [
  | inl early ↦ rw early (h, n)
  | inr late ↦ rw late (n.0, NotBefore-push a t us h n.1)
]

pub push-Sorted : (t : Timer) (ts : List Timer) → Sorted ts → Sorted (push t ts)
unfolding push
push-Sorted t [] s = (tt, tt)
push-Sorted t (u ∷ us) s = elim (Bool-cases (ltb t.at u.at)) [
  | inl early ↦ rw early ((ground arith, NotBefore-trans t.at u.at us (ground arith) s.0), s)
  | inr late ↦ rw late (NotBefore-push u.at t us (ground arith) s.0, push-Sorted t us s.1)
]

-- A timer is its time and its callback.
abbrev pub same_timer : Timer → Timer → Bool
same_timer t u = t.at == u.at && t.callback == u.callback

-- How often a timer, with its time, stands in a list.
unfoldable pub count : Timer → List Timer → ℕ
count x [] = 0
count x (t ∷ ts) = let rest = count x ts in if same_timer t x then 1 + rest else rest

pub count-push : (x : Timer) (t : Timer) (ts : List Timer) → count x (push t ts) ≡ count x (t ∷ ts)
unfolding push count
count-push x t [] = refl
count-push x t (u ∷ us) = ground (arith, count-push x t us)

pub count-append : (x : Timer) (ts us : List Timer) → count x (ts ++ us) ≡ count x ts + count x us
unfolding count
count-append x [] us = omega arith
count-append x (t ∷ ts) us = ground (arith, count-append x ts us)

-- The expired timers are the front of the heap: those whose time has come, and no other.
pub record Split (now : ℕ) (ts : List Timer) (out : List Timer × List Timer) : Type 0 where
  pub whole : out.0 ++ out.1 ≡ ts
  pub due : All (λ t. t.at ≤ now) out.0
  pub not_due : All (λ t. now < t.at) out.1
  pub sorted : Sorted out.1

later_than : (now a : ℕ) (ts : List Timer) → now < a → NotBefore a ts → All (λ t. now < t.at) ts
later_than now a [] h n = tt
later_than now a (t ∷ ts) h n = (omega (arith, n.0), later_than now a ts h n.1)

pub take_expired-Split :
    (now : ℕ) (ts : List Timer) → Sorted ts → Split now ts (take_expired now ts)
unfolding take_expired
take_expired-Split now [] s = record { whole = refl; due = tt; not_due = tt; sorted = tt }
take_expired-Split now (t ∷ ts) s = elim (Bool-cases (leb t.at now)) [
  | inl due ↦
      let r = take_expired-Split now ts s.1 in
      rw due (record {
        whole = ap (λ l. t ∷ l) r.whole;
        due = (ground arith, r.due);
        not_due = r.not_due;
        sorted = r.sorted;
      })
  | inr early ↦ rw early (record {
    whole = refl;
    due = tt;
    not_due = (ground arith, later_than now t.at ts (ground arith) s.0);
    sorted = s;
  })
]
