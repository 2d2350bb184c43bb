-- ===== src/Timers/Armed.antt =====
-- The timerfd of src/net/TimerQueue.cc, held against the earliest timer.
use reactor_chat_server.Common.{
  ℕ, ◌+◌, ◌*◌, ◌≤◌, ◌<◌, ◌≡◌, refl, sym, ap, ◌∙◌, subst, List, [], ◌∷◌, ◌++◌, ltb, arith, inl, inr,
  Bool-cases, if◌then◌else◌, All, Option, some,
}
use reactor_chat_server.Timers.{
  Timer, Itimerspec, TimerQueue, push, is_earliest, relative_time, reset_timerfd, add_timer,
  take_expired, add_timers, run_expired, reset_to_top, handle_read,
}
use reactor_chat_server.Timers.Heap.{
  Sorted, push-Sorted, count, count-push, count-append, take_expired-Split,
}

-- The kernel's view of a setting: how many nanoseconds until it expires.
abbrev pub nanoseconds : Itimerspec → ℕ
nanoseconds its = its.tv_sec * 1000000000 + its.tv_nsec

-- The setting of resetTimerfd never disarms the timerfd, has its nanoseconds in range, and expires
-- no earlier than the timer, exactly at its time if that is a microsecond or more away, and else
-- after a microsecond.
pub relative_time_lem :
    (now at : ℕ)
    → (0 < nanoseconds (relative_time now at))
      × ((relative_time now at).tv_nsec < 1000000000)
      × (at ≤ now + nanoseconds (relative_time now at))
      × (now + 1000 ≤ at → now + nanoseconds (relative_time now at) ≡ at)
      × (at < now + 1000 → nanoseconds (relative_time now at) ≡ 1000)
unfolding relative_time
relative_time_lem now at =
    (ground arith, ground arith, ground arith, λ h. ground arith, λ h. ground arith)

-- The last setting was made for this time.
abbrev pub SetFor : ℕ → Option (ℕ × Itimerspec) → Type 0
SetFor at fd = (now : ℕ) × (fd ≡ some (now, relative_time now at))

abbrev pub Points : List Timer → Option (ℕ × Itimerspec) → Type 0
Points [] fd = Unit {0}
Points (t ∷ ts) fd = SetFor t.at fd

-- The heap is in order, and the timerfd was set for its top.
pub record IsArmed (q : TimerQueue) : Type 0 where
  pub sorted : Sorted q.timers
  pub points : Points q.timers q.timerfd

push-Points :
    (now : ℕ) (t : Timer) (ts : List Timer) (fd : Option (ℕ × Itimerspec))
    → Points ts fd
    → Points (push t ts) (if is_earliest t.at ts then some (now, relative_time now t.at) else fd)
unfolding push is_earliest
push-Points now t [] fd p = (now, refl)
push-Points now t (u ∷ us) fd p = elim (Bool-cases (ltb t.at u.at)) [
  | inl early ↦ rw early (now, refl)
  | inr late ↦ rw late p
]

-- addTimer keeps the heap in order and the timerfd set for its earliest timer, and adds exactly the
-- given timer, with its time and its callback.
pub add_timer-IsArmed :
    (now : ℕ) (t : Timer) (q : TimerQueue)
    → IsArmed q
    → IsArmed (add_timer now t q)
      × ((x : Timer) → count x (add_timer now t q).timers ≡ count x (t ∷ q.timers))
unfolding add_timer reset_timerfd
add_timer-IsArmed now t q a = elim (Bool-cases (is_earliest t.at q.timers)) [
  | inl early ↦ rw early (
    record {
      sorted = push-Sorted t q.timers a.sorted;
      points =
          subst
            (λ b.
              Points (push t q.timers)
                (if b then some (now, relative_time now t.at) else q.timerfd))
            early (push-Points now t q.timers q.timerfd a.points);
    },
    λ x. count-push x t q.timers,
  )
  | inr late ↦ rw late (
    record {
      sorted = push-Sorted t q.timers a.sorted;
      points =
          subst
            (λ b.
              Points (push t q.timers)
                (if b then some (now, relative_time now t.at) else q.timerfd))
            late (push-Points now t q.timers q.timerfd a.points);
    },
    λ x. count-push x t q.timers,
  )
]

add_timer-timers :
    (now : ℕ) (t : Timer) (q : TimerQueue) → (add_timer now t q).timers ≡ push t q.timers
unfolding add_timer reset_timerfd
add_timer-timers now t q = ground arith

-- The timers that callbacks add, without their times.
abbrev pub added : List (ℕ × Timer) → List Timer
added [] = []
added ((now, t) ∷ adds) = t ∷ added adds

abbrev pub all_added : (ℕ → List (ℕ × Timer)) → List Timer → List Timer
all_added asks [] = []
all_added asks (t ∷ ts) = added (asks t.callback) ++ all_added asks ts

add_timers-timers :
    (adds : List (ℕ × Timer)) (q : TimerQueue)
    → Sorted q.timers
    → Sorted (add_timers adds q).timers
      × ((x : Timer) → count x (add_timers adds q).timers ≡ count x (added adds) + count x q.timers)
unfolding add_timers count
add_timers-timers [] q s = (s, λ x. omega arith)
add_timers-timers ((now, t) ∷ adds) q s =
    let e = add_timer-timers now t q in
    let (sorted, counts) =
      add_timers-timers adds (add_timer now t q)
        (subst Sorted (sym e) (push-Sorted t q.timers s)) in
    (
      sorted,
      λ x.
          counts x
          ∙ ap (λ n. count x (added adds) + n) (ap (count x) e ∙ count-push x t q.timers)
          ∙ ground arith,
    )

run_expired-timers :
    (asks : ℕ → List (ℕ × Timer)) (ts : List Timer) (q : TimerQueue)
    → Sorted q.timers
    → Sorted (run_expired asks ts q).timers
      × ((x : Timer)
          → count x (run_expired asks ts q).timers ≡ count x (all_added asks ts) + count x q.timers)
unfolding run_expired count
run_expired-timers asks [] q s = (s, λ x. omega arith)
run_expired-timers asks (t ∷ ts) q s =
    let (s₁, c₁) = add_timers-timers (asks t.callback) q s in
    let (s₂, c₂) = run_expired-timers asks ts (add_timers (asks t.callback) q) s₁ in
    (
      s₂,
      λ x. omega (arith, c₁ x, c₂ x, count-append x (added (asks t.callback)) (all_added asks ts)),
    )

reset_to_top-timers : (later : ℕ) (q : TimerQueue) → (reset_to_top later q).timers ≡ q.timers
unfolding reset_to_top reset_timerfd
reset_to_top-timers later q = ground arith

reset_to_top-Points :
    (later : ℕ) (q : TimerQueue) (ts : List Timer)
    → q.timers ≡ ts
    → Points ts (reset_to_top later q).timerfd
unfolding reset_to_top reset_timerfd
reset_to_top-Points later q [] e = tt
reset_to_top-Points later q (t ∷ ts) e = rw (e, reset_to_top) (later, refl)

pub handle_read_lem :
    (asks : ℕ → List (ℕ × Timer)) (now later : ℕ) (q : TimerQueue)
    → Sorted q.timers
    → let (run, q') = handle_read asks now later q in
      IsArmed q'
      × ((rest : List Timer) × (run ++ rest ≡ q.timers) × All (λ t. now < t.at) rest)
      × All (λ t. t.at ≤ now) run
      × ((x : Timer)
          → count x run + count x q'.timers ≡ count x q.timers + count x (all_added asks run))
unfolding handle_read
handle_read_lem asks now later q s =
    let split = take_expired-Split now q.timers s in
    let (expired, rest) = take_expired now q.timers in
    let left = record q { timers = rest } in
    let (sorted, counts) = run_expired-timers asks expired left split.sorted in
    let after = run_expired asks expired left in
    let e = reset_to_top-timers later after in
    (
      record {
        sorted = subst Sorted (sym e) sorted;
        points =
            subst (λ ts. Points ts (reset_to_top later after).timerfd) (sym e)
              (reset_to_top-Points later after after.timers refl);
      },
      (rest, split.whole, split.not_due),
      split.due,
      λ x.
          let kept = ap (count x) e ∙ counts x in
          let parts = ap (count x) (sym split.whole) ∙ count-append x expired rest in
          omega (arith, kept, parts),
    )
