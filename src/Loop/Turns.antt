-- ===== src/Loop/Turns.antt =====
-- The turns of `EventLoop::loop` (src/net/EventLoop.cc), with the other threads' calls between any
-- two of its actions.
use reactor_chat_server.Common.{ℕ, ◌+◌, ◌≡◌, Bool, true, false, List, [], ◌∷◌, ◌++◌}
use reactor_chat_server.Loop.{
  Task, EventLoop, new_event_loop, wakeup, handle_wakeup, push_back, queue_in_loop, call_task,
  set_quit, start, swap_pending, end_pending, quit,
}

-- Where the loop's thread is: before `loop`, at the test of `quit_`, in `poll`, in the handlers of the
-- active channels, in the batch of tasks, with those it still has to call, or behind the loop.
pub data Phase : Type 0 where
  unstarted testing polling handling : Phase
  running : List Task → Phase
  stopped : Phase

-- A loop in a phase, the number of wake-ups that other threads still owe for what they have pushed or
-- set, and the history: the tasks queued and the tasks called, oldest first.
pub record Turn : Type 0 where
  pub loop : EventLoop
  pub phase : Phase
  pub owed : ℕ
  pub queued : List Task
  pub called : List Task

unfoldable pub first_turn : Turn
first_turn = record { loop = new_event_loop; phase = unstarted; owed = 0; queued = []; called = [] }

-- One action. The loop's own thread queues tasks, and quits, in its handlers and in its tasks, and not
-- before `loop`, as nothing in the repository does.
pub data Step (asks : Task → List Task) (x : Turn) : Turn → Type 0 where
  started : x.phase ≡ unstarted → Step asks x (record x { loop = start x.loop; phase = testing })
  goes_on : x.phase ≡ testing → x.loop.quit ≡ false → Step asks x (record x { phase = polling })
  stops : x.phase ≡ testing → x.loop.quit ≡ true → Step asks x (record x { phase = stopped })
  polled : x.phase ≡ polling → Step asks x (record x { phase = handling })
  woken : x.phase ≡ handling → Step asks x (record x { loop = handle_wakeup x.loop })
  queued_here :
      (t : Task)
      → x.phase ≡ handling
      → Step asks x (record x { loop = queue_in_loop true t x.loop; queued = x.queued ++ t ∷ [] })
  quit_here : x.phase ≡ handling → Step asks x (record x { loop = quit true x.loop })
  quit_in_task :
      (ts : List Task) → x.phase ≡ running ts → Step asks x (record x { loop = quit true x.loop })
  swapped :
      x.phase ≡ handling
      → Step asks x (record x { loop = swap_pending x.loop; phase = running x.loop.pending })
  called_next :
      (t : Task) (ts : List Task)
      → x.phase ≡ running (t ∷ ts)
      → Step asks x (record x {
        loop = call_task asks t x.loop;
        phase = running ts;
        queued = x.queued ++ asks t;
        called = x.called ++ t ∷ [];
      })
  ended :
      x.phase ≡ running [] → Step asks x (record x { loop = end_pending x.loop; phase = testing })
  pushed :
      (t : Task)
      → Step asks x
          (record x { loop = push_back t x.loop; owed = x.owed + 1; queued = x.queued ++ t ∷ [] })
  quit_set : Step asks x (record x { loop = set_quit x.loop; owed = x.owed + 1 })
  wakes : (n : ℕ) → x.owed ≡ n + 1 → Step asks x (record x { loop = wakeup x.loop; owed = n })

pub data Reach (asks : Task → List Task) (x : Turn) : Turn → Type 0 where
  here : Reach asks x x
  next : {y z : Turn} → Reach asks x y → Step asks y z → Reach asks x z

-- Whether a step is the loop's own, in answer to nothing: no handler queues a task or quits, and no
-- other thread does anything.
abbrev pub is_own : {asks : Task → List Task} {x y : Turn} → Step asks x y → Bool
is_own (queued_here t e) = false
is_own (quit_here e) = false
is_own (quit_in_task ts e) = false
is_own (pushed t) = false
is_own quit_set = false
is_own (wakes n e) = false
is_own _ = true

-- A history of such steps.
pub data Alone (asks : Task → List Task) (x : Turn) : Turn → Type 0 where
  idle : Alone asks x x
  acts : {y z : Turn} → Alone asks x y → (s : Step asks y z) → is_own s ≡ true → Alone asks x z

pub Alone-Reach : {asks : Task → List Task} {x y : Turn} → Alone asks x y → Reach asks x y
Alone-Reach idle = here
Alone-Reach (acts r s e) = next (Alone-Reach r) s

pub Alone-first :
    {asks : Task → List Task} {x y z : Turn} (s : Step asks x y)
    → is_own s ≡ true
    → Alone asks y z
    → Alone asks x z
Alone-first s e idle = acts idle s e
Alone-first s e (acts r t f) = acts (Alone-first s e r) t f

pub Alone-trans :
    {asks : Task → List Task} {x y z : Turn} → Alone asks x y → Alone asks y z → Alone asks x z
Alone-trans r idle = r
Alone-trans r (acts t s e) = acts (Alone-trans r t) s e
