-- ===== src/Timers.antt =====
-- src/net/TimerQueue.h and src/net/TimerQueue.cc: the timers of a loop over one timerfd. A time is
-- a number of nanoseconds, the tick of `steady_clock`.
pub mod Heap
pub mod Armed
mod Tests
use reactor_chat_server.Common.{
  ℕ, ◌+◌, ◌-◌, ◌/◌, ◌%◌, ◌*◌, Bool, true, false, ◌||◌, List, [], ◌∷◌, ◌++◌, Option, none, some, ltb,
  leb, if◌then◌else◌,
}

-- `TimerQueue::Timer`; the callback is known by a number.
pub record Timer : Type 0 where
  pub at : ℕ
  pub callback : ℕ

-- `it_value` of an `itimerspec`; `it_interval` is zero.
pub record Itimerspec : Type 0 where
  pub tv_sec : ℕ
  pub tv_nsec : ℕ

-- The heap, as the list of its timers with the earliest in front, and the last setting of the
-- timerfd, with the time at which it was made.
pub record TimerQueue : Type 0 where
  pub timers : List Timer
  pub timerfd : Option (ℕ × Itimerspec)

pub new_timer_queue : TimerQueue
new_timer_queue = record { timers = []; timerfd = none }

-- `timers_.push`
pub push : Timer → List Timer → List Timer
push t [] = t ∷ []
push t (u ∷ us) = let rest = push t us in if ltb t.at u.at then t ∷ (u ∷ us) else u ∷ rest

-- `timers_.empty() || when < timers_.top().when`
pub is_earliest : ℕ → List Timer → Bool
is_earliest at [] = true
is_earliest at (u ∷ us) = ltb at u.at

-- The relative time that `resetTimerfd` sets. A time that has passed gives a negative difference in
-- the source, and zero here: both are below 1000.
pub relative_time : ℕ → ℕ → Itimerspec
relative_time now at =
    let ns = if ltb (at - now) 1000 then 1000 else at - now in
    record { tv_sec = ns / 1000000000; tv_nsec = ns % 1000000000 }

pub reset_timerfd : ℕ → ℕ → TimerQueue → TimerQueue
unfolding relative_time
reset_timerfd now at q = record q { timerfd = some (now, relative_time now at) }

pub add_timer : ℕ → Timer → TimerQueue → TimerQueue
unfolding push is_earliest reset_timerfd
add_timer now t q =
    let pushed = record q { timers = push t q.timers } in
    if is_earliest t.at q.timers then reset_timerfd now t.at pushed else pushed

-- `while (!timers_.empty() && timers_.top().when <= now)`: the expired timers, and the heap left.
pub take_expired : ℕ → List Timer → List Timer × List Timer
take_expired now [] = ([], [])
take_expired now (t ∷ ts) =
    let (expired, rest) = take_expired now ts in
    if leb t.at now then (t ∷ expired, rest) else ([], t ∷ ts)

-- The timers that callbacks add, each at its own time.
pub add_timers : List (ℕ × Timer) → TimerQueue → TimerQueue
add_timers [] q = q
add_timers ((now, t) ∷ adds) q = add_timers adds (add_timer now t q)

-- The expired timers' callbacks in order; `asks` says which timers a callback adds, and when.
pub run_expired : (ℕ → List (ℕ × Timer)) → List Timer → TimerQueue → TimerQueue
run_expired asks [] q = q
run_expired asks (t ∷ ts) q = run_expired asks ts (add_timers (asks t.callback) q)

-- `if (!timers_.empty()) resetTimerfd(timers_.top().when)`
pub reset_to_top : ℕ → TimerQueue → TimerQueue
reset_to_top now q = elim q.timers [ [] ↦ q | t ∷ ts ↦ reset_timerfd now t.at q ]

-- The handler: `now` is the time at which it looks for expired timers, `later` that of the last
-- setting. The answer is the timers whose callbacks it has run, in order, and the state.
pub handle_read : (ℕ → List (ℕ × Timer)) → ℕ → ℕ → TimerQueue → List Timer × TimerQueue
handle_read asks now later q =
    let (expired, rest) = take_expired now q.timers in
    (expired, reset_to_top later (run_expired asks expired (record q { timers = rest })))
