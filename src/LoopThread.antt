-- ===== src/LoopThread.antt =====
-- src/net/EventLoopThread.h and src/net/EventLoopThread.cc: the thread of a loop, from `startLoop` to
-- the destructor. What is done under the mutex is one step, but for the destructor's `quit`, whose two
-- halves the loop's thread may come between. The loop itself is in Loop.
pub mod Guard
pub mod Join
mod Tests
use reactor_chat_server.Common.{◌≡◌, ◌≢◌, Bool, true, false, List}
use reactor_chat_server.Loop.{Task, wakeup, set_quit}
use reactor_chat_server.Loop.Turns.{Turn, first_turn, stopped}
use reactor_chat_server.Loop.Turns

-- The loop's thread: not started, with its loop made, behind the publishing of `loop_`, behind
-- `loop.loop()`, behind the reset of `loop_`, and ended, with its loop destroyed.
pub data Inner : Type 0 where
  unborn built looping returned cleared ended : Inner

-- The owner's thread: before `startLoop`, waiting in it, behind it, in the destructor with the mutex
-- and `quit_` set, before `join`, and behind the destructor.
pub data Outer : Type 0 where
  unstarted waiting using quitting joining joined : Outer

-- `pointer` says that `loop_` is not null.
pub record EventLoopThread : Type 0 where
  pub pointer : Bool
  pub inner : Inner
  pub outer : Outer
  pub turn : Turn

pub new_loop_thread : EventLoopThread
new_loop_thread = record { pointer = false; inner = unborn; outer = unstarted; turn = first_turn }

-- The two halves of `quit` on a thread that is not the loop's.
abbrev pub turn_quits : Turn → Turn
turn_quits t = record t { loop = set_quit t.loop }

abbrev pub turn_wakes : Turn → Turn
turn_wakes t = record t { loop = wakeup t.loop }

-- A step of one of the two threads, or of the loop.
pub data Step (asks : Task → List Task) (x : EventLoopThread) : EventLoopThread → Type 0 where
  spawned :
      x.outer ≡ unstarted
      → x.inner ≡ unborn
      → Step asks x (record x { outer = waiting; inner = built })
  published :
      x.inner ≡ built
      → x.outer ≢ quitting
      → Step asks x (record x { inner = looping; pointer = true })
  start_returns : x.outer ≡ waiting → x.pointer ≡ true → Step asks x (record x { outer = using })
  turns :
      (t : Turn)
      → x.inner ≡ looping
      → Turns.Step asks x.turn t
      → Step asks x (record x { turn = t })
  loop_returns :
      x.inner ≡ looping → x.turn.phase ≡ stopped → Step asks x (record x { inner = returned })
  reset :
      x.inner ≡ returned
      → x.outer ≢ quitting
      → Step asks x (record x { inner = cleared; pointer = false })
  loop_destroyed : x.inner ≡ cleared → Step asks x (record x { inner = ended })
  quits :
      x.outer ≡ using
      → x.pointer ≡ true
      → Step asks x (record x { outer = quitting; turn = turn_quits x.turn })
  quit_wakes :
      x.outer ≡ quitting → Step asks x (record x { outer = joining; turn = turn_wakes x.turn })
  quits_not : x.outer ≡ using → x.pointer ≡ false → Step asks x (record x { outer = joining })
  unused : x.outer ≡ unstarted → Step asks x (record x { outer = joined })
  joins : x.outer ≡ joining → x.inner ≡ ended → Step asks x (record x { outer = joined })

pub data Reach (asks : Task → List Task) (x : EventLoopThread) : EventLoopThread → Type 0 where
  here : Reach asks x x
  next : {y z : EventLoopThread} → Reach asks x y → Step asks y z → Reach asks x z

-- Whether a step is the destructor's, or one of the loop's thread behind `startLoop` by itself: no
-- handler queues a task, neither a handler nor a task quits, and no third thread does anything.
abbrev pub is_closing : {asks : Task → List Task} {x y : EventLoopThread} → Step asks x y → Bool
is_closing (turns t e s) = Turns.is_own s
is_closing (loop_returns e f) = true
is_closing (reset e f) = true
is_closing (loop_destroyed e) = true
is_closing (quits e f) = true
is_closing (quit_wakes e) = true
is_closing (quits_not e f) = true
is_closing (joins e f) = true
is_closing _ = false

-- A history of such steps.
pub data Closes (asks : Task → List Task) (x : EventLoopThread) : EventLoopThread → Type 0 where
  closed_here : Closes asks x x
  closes :
      {y z : EventLoopThread}
      → Closes asks x y
      → (s : Step asks y z) → is_closing s ≡ true
      → Closes asks x z
