-- ===== src/Loop.antt =====
-- src/net/EventLoop.h and src/net/EventLoop.cc: the queue of tasks of a loop, its wake-ups, and its
-- turns. The poller and the channels are in Channel, the timers in Timers.
pub mod Turns
pub mod Awake
pub mod Order
pub mod Quit
mod Tests
use reactor_chat_server.Common.{
  ℕ, ◌+◌, ◌-◌, ◌^◌, Bool, true, false, not, ◌||◌, List, [], ◌∷◌, ◌++◌, ltb, if◌then◌else◌,
}

-- A `Functor`, known by a number.
abbrev pub Task : Type 0
Task = ℕ

-- `quit_`, `callingPendingFunctors_`, `pendingFunctors_`, and the counter of the eventfd.
pub record EventLoop : Type 0 where
  pub quit : Bool
  pub calling : Bool
  pub pending : List Task
  pub wakeups : ℕ

pub new_event_loop : EventLoop
new_event_loop = record { quit = false; calling = false; pending = []; wakeups = 0 }

-- `write` of one to the eventfd; it fails when the counter is at its maximum.
unfoldable pub wakeup : EventLoop → EventLoop
wakeup l = if ltb l.wakeups (2 ^ 64 - 2) then record l { wakeups = l.wakeups + 1 } else l

-- `read` of the eventfd sets the counter to zero.
pub handle_wakeup : EventLoop → EventLoop
handle_wakeup l = record l { wakeups = 0 }

-- `pendingFunctors_.push_back`, under the mutex.
pub push_back : Task → EventLoop → EventLoop
push_back t l = record l { pending = l.pending ++ t ∷ [] }

-- `in_loop` is what `isInLoopThread()` answers to the caller.
pub queue_in_loop : Bool → Task → EventLoop → EventLoop
queue_in_loop in_loop t l =
    let pushed = push_back t l in if not in_loop || pushed.calling then wakeup pushed else pushed

pub queue_all : List Task → EventLoop → EventLoop
queue_all [] l = l
queue_all (t ∷ ts) l = queue_all ts (queue_in_loop true t l)

-- A call of a task on the loop's thread; `asks` says which tasks it queues.
pub call_task : (Task → List Task) → Task → EventLoop → EventLoop
call_task asks t l = queue_all (asks t) l

pub run_in_loop : (Task → List Task) → Bool → Task → EventLoop → EventLoop
run_in_loop asks in_loop t l = if in_loop then call_task asks t l else queue_in_loop in_loop t l

-- `quit_ = true`, and the wake-up if another thread calls.
unfoldable pub set_quit : EventLoop → EventLoop
set_quit l = record l { quit = true }

unfoldable pub quit : Bool → EventLoop → EventLoop
quit in_loop l = if in_loop then set_quit l else wakeup (set_quit l)

-- `quit_ = false`, with which `loop` starts.
pub start : EventLoop → EventLoop
start l = record l { quit = false }

-- `doPendingFunctors`: the swap, the calls, and the end.
pub swap_pending : EventLoop → EventLoop
swap_pending l = record l { calling = true; pending = [] }

pub call_all : (Task → List Task) → List Task → EventLoop → EventLoop
call_all asks [] l = l
call_all asks (t ∷ ts) l = call_all asks ts (call_task asks t l)

pub end_pending : EventLoop → EventLoop
end_pending l = record l { calling = false }

pub do_pending_functors : (Task → List Task) → EventLoop → EventLoop
do_pending_functors asks l = end_pending (call_all asks l.pending (swap_pending l))
