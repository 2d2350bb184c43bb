-- ===== src/Timers/Tests.antt =====
-- src/net/TimerQueue.cc with two timers.
use reactor_chat_server.Common.{
  ℕ, ◌==◌, if◌then◌else◌, ◌+◌, ◌≤◌, ◌<◌, ◌≡◌, refl, List, [], ◌∷◌, some, arith,
}
use reactor_chat_server.Timers.{Timer, TimerQueue, relative_time, add_timer}
use reactor_chat_server.Timers.Heap.{count}
use reactor_chat_server.Timers.Armed.{nanoseconds, relative_time_lem, IsArmed, add_timer-IsArmed}

relative_time_example :
    (0 < nanoseconds (relative_time 5 2000000005))
    × ((relative_time 5 2000000005).tv_nsec < 1000000000)
    × (2000000005 ≤ 5 + nanoseconds (relative_time 5 2000000005))
    × (5 + 1000 ≤ 2000000005 → 5 + nanoseconds (relative_time 5 2000000005) ≡ 2000000005)
    × (2000000005 < 5 + 1000 → nanoseconds (relative_time 5 2000000005) ≡ 1000)
relative_time_example = relative_time_lem 5 2000000005

abbrev soon : Timer
soon = record { at = 40; callback = 1 }

abbrev late : Timer
late = record { at = 90; callback = 2 }

abbrev two : TimerQueue
two = record { timers = soon ∷ late ∷ []; timerfd = some (0, relative_time 0 40) }

two-IsArmed : IsArmed two
two-IsArmed = record { sorted = omega arith; points = (0, refl) }

add_timer_example :
    IsArmed (add_timer 10 (record { at = 20; callback = 3 }) two)
    × ((x : Timer)
        → count x (add_timer 10 (record { at = 20; callback = 3 }) two).timers
          ≡ count x (record { at = 20; callback = 3 } ∷ two.timers))
add_timer_example = add_timer-IsArmed 10 (record { at = 20; callback = 3 }) two two-IsArmed

-- The first timer's callback adds the timer again.
abbrev asks : ℕ → List (ℕ × Timer)
asks cb = if cb == 1 then (51, record { at = 110; callback = 1 }) ∷ [] else []
