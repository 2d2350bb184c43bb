-- ===== src/Loop/Awake.antt =====
-- The wake-ups of src/net/EventLoop.cc, and its `quit_`.
use reactor_chat_server.Common.{
  ℕ, ◌+◌, ◌<◌, ◌≡◌, refl, sym, ap, ◌∙◌, Bool, true, false, not, ◌||◌, List, [], ◌∷◌, arith,
  if◌then◌else◌,
}
use reactor_chat_server.Loop.{
  Task, EventLoop, new_event_loop, wakeup, handle_wakeup, push_back, queue_in_loop, queue_all,
  call_task, set_quit, start, swap_pending, end_pending, quit,
}
use reactor_chat_server.Loop.Turns.{
  Phase, unstarted, testing, polling, handling, running, stopped, Turn, first_turn, Step, Reach,
  here, next, Alone, idle, acts, started, goes_on, stops, polled, woken, queued_here, quit_here,
  quit_in_task, swapped, called_next, ended, pushed, quit_set, wakes,
}

abbrev pub is_empty_queue : List Task → Bool
is_empty_queue [] = true
is_empty_queue (t ∷ ts) = false

-- Whether the loop must not sleep: in `poll` because of a task or of `quit_`, and before it because of
-- a task. In the handlers the queue is about to be swapped, and behind the loop nothing matters.
abbrev pub must_wake : Phase → Bool → List Task → Bool
must_wake unstarted q p = not (is_empty_queue p)
must_wake testing q p = not (is_empty_queue p)
must_wake polling q p = q || not (is_empty_queue p)
must_wake handling q p = false
must_wake (running ts) q p = not (is_empty_queue p)
must_wake stopped q p = false

abbrev pub is_running : Phase → Bool
is_running (running ts) = true
is_running _ = false

-- `woken`: the eventfd is readable, or a thread is about to write it.
pub record IsAwake (x : Turn) : Type 0 where
  pub flag : x.loop.calling ≡ is_running x.phase
  pub woken : must_wake x.phase x.loop.quit x.loop.pending ≡ true → 0 < x.loop.wakeups + x.owed

wakeup_lem :
    (l : EventLoop)
    → (0 < (wakeup l).wakeups)
      × ((wakeup l).calling ≡ l.calling)
      × ((wakeup l).quit ≡ l.quit)
      × ((wakeup l).pending ≡ l.pending)
unfolding wakeup
wakeup_lem l = (ground arith, ground arith, ground arith, ground arith)

-- A task that the loop's own thread queues: with a wake-up exactly while it calls tasks.
queue_in_loop-loud :
    (t : Task) (l : EventLoop) → l.calling ≡ true → queue_in_loop true t l ≡ wakeup (push_back t l)
unfolding queue_in_loop push_back
queue_in_loop-loud t l e = ap (λ b. if b then wakeup (push_back t l) else push_back t l) e

queue_in_loop-quiet :
    (t : Task) (l : EventLoop) → l.calling ≡ false → queue_in_loop true t l ≡ push_back t l
unfolding queue_in_loop push_back
queue_in_loop-quiet t l e = ap (λ b. if b then wakeup (push_back t l) else push_back t l) e

-- The tasks that a task queues: the flag stays, and the queue is watched if it was.
queue_all-woken :
    (ts : List Task) (l : EventLoop) (owed : ℕ)
    → l.calling ≡ true
    → (not (is_empty_queue l.pending) ≡ true → 0 < l.wakeups + owed)
    → ((queue_all ts l).calling ≡ true)
      × (not (is_empty_queue (queue_all ts l).pending) ≡ true → 0 < (queue_all ts l).wakeups + owed)
unfolding queue_all push_back
queue_all-woken [] l owed e h = (e, h)
queue_all-woken (t ∷ ts) l owed e h =
    let (a, b, _, _) = wakeup_lem (push_back t l) in
    let q = queue_in_loop-loud t l e in
    queue_all-woken ts (queue_in_loop true t l) owed (ap (λ (k : EventLoop). k.calling) q ∙ b ∙ e)
      (λ _. omega (arith, a, ap (λ (k : EventLoop). k.wakeups) q))

-- In the handlers nothing has to wake the loop.
in_handling :
    {A : Type 0} (ph : Phase) (q : Bool) (p : List Task)
    → ph ≡ handling
    → must_wake ph q p ≡ true
    → A
in_handling ph q p e h = let none_due = sym (ap (λ k. must_wake k q p) e) ∙ h in cc

Step-IsAwake : (asks : Task → List Task) {x y : Turn} → Step asks x y → IsAwake x → IsAwake y
unfolding start handle_wakeup swap_pending end_pending push_back set_quit call_task quit
Step-IsAwake asks {x} (started e) a = record {
  flag = a.flag ∙ ap is_running e;
  woken = λ h. a.woken (ap (λ ph. must_wake ph x.loop.quit x.loop.pending) e ∙ h);
}
Step-IsAwake asks {x} (goes_on e f) a = record {
  flag = a.flag ∙ ap is_running e;
  woken = λ h. a.woken (
      ap (λ ph. must_wake ph x.loop.quit x.loop.pending) e
      ∙ sym (ap (λ q. q || not (is_empty_queue x.loop.pending)) f)
      ∙ h);
}
Step-IsAwake asks {x} (stops e f) a = record { flag = a.flag ∙ ap is_running e; woken = λ h. cc }
Step-IsAwake asks {x} (polled e) a = record { flag = a.flag ∙ ap is_running e; woken = λ h. cc }
Step-IsAwake asks {x} (woken e) a = record {
  flag = a.flag;
  woken = λ h. in_handling x.phase _ _ e h;
}
Step-IsAwake asks {x} (queued_here t e) a =
    let idle = a.flag ∙ ap is_running e in
    record {
      flag = ap (λ (k : EventLoop). k.calling) (queue_in_loop-quiet t x.loop idle) ∙ a.flag;
      woken = λ h. in_handling x.phase _ _ e h;
    }
Step-IsAwake asks {x} (quit_here e) a = record {
  flag = a.flag;
  woken = λ h. in_handling x.phase _ _ e h;
}
Step-IsAwake asks {x} (quit_in_task ts e) a = record {
  flag = a.flag;
  woken = λ h. a.woken (
      ap (λ ph. must_wake ph x.loop.quit x.loop.pending) e
      ∙ sym (ap (λ ph. must_wake ph true x.loop.pending) e)
      ∙ h);
}
Step-IsAwake asks {x} (swapped e) a = record { flag = refl; woken = λ h. cc }
Step-IsAwake asks {x} (called_next t ts e) a =
    let due : not (is_empty_queue x.loop.pending) ≡ true → 0 < x.loop.wakeups + x.owed =
      λ h. a.woken (ap (λ ph. must_wake ph x.loop.quit x.loop.pending) e ∙ h) in
    let (f, w) = queue_all-woken (asks t) x.loop x.owed (a.flag ∙ ap is_running e) due in
    record { flag = f; woken = w }
Step-IsAwake asks {x} (ended e) a = record {
  flag = refl;
  woken = λ h. a.woken (ap (λ ph. must_wake ph x.loop.quit x.loop.pending) e ∙ h);
}
Step-IsAwake asks {x} (pushed t) a = record { flag = a.flag; woken = λ h. omega arith }
Step-IsAwake asks {x} quit_set a = record { flag = a.flag; woken = λ h. omega arith }
Step-IsAwake asks {x} (wakes n e) a =
    let (readable, flag, _, _) = wakeup_lem x.loop in
    record { flag = flag ∙ a.flag; woken = λ h. omega (arith, readable) }

-- In every history of a loop, whatever its tasks queue and whatever other threads do between its
-- actions: while the loop polls with a task waiting or quit_ set, and before it polls with a task
-- waiting, the eventfd is readable or a thread is about to write it; and callingPendingFunctors_ is
-- set exactly while tasks are called.
pub Reach-IsAwake : (asks : Task → List Task) {x : Turn} → Reach asks first_turn x → IsAwake x
unfolding first_turn new_event_loop
Reach-IsAwake asks here = record { flag = refl; woken = λ h. cc }
Reach-IsAwake asks (next r s) = Step-IsAwake asks s (Reach-IsAwake asks r)

-- A quit that another thread completes before loop has begun is forgotten: the loop then goes, by
-- its own steps, to poll with quit_ not set, and has called nothing.
pub quit_unheeded :
    (asks : Task → List Task) (x : Turn)
    → x.phase ≡ unstarted
    → (d : Turn) × Alone asks (record x { loop = quit false x.loop }) d
      × (d.phase ≡ polling)
      × (d.loop.quit ≡ false)
      × (d.called ≡ x.called)
unfolding start
quit_unheeded asks x e =
    let y = record x { loop = quit false x.loop } in
    (
      record y { loop = start y.loop; phase = polling },
      acts (acts idle (started e) refl) (goes_on refl refl) refl,
      refl,
      refl,
      refl,
    )
