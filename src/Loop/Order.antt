-- ===== src/Loop/Order.antt =====
-- The queue and the batches of src/net/EventLoop.cc.
use reactor_chat_server.Common.{
  ◌≡◌, refl, sym, ap, ap₂, ◌∙◌, Bool, true, false, not, ◌||◌, List, [], ◌∷◌, ◌++◌, arith, inl, inr,
  Bool-cases, append_assoc, append-nil,
}
use reactor_chat_server.Loop.{
  Task, EventLoop, new_event_loop, wakeup, handle_wakeup, push_back, queue_in_loop, queue_all,
  call_task, set_quit, start, swap_pending, end_pending, quit, call_all, do_pending_functors,
}
use reactor_chat_server.Loop.Turns.{
  Phase, testing, polling, handling, running, stopped, Turn, first_turn, Step, Reach, here, next,
  Alone, idle, acts, Alone-first, started, goes_on, stops, polled, woken, queued_here, quit_here,
  quit_in_task, swapped, called_next, ended, pushed, quit_set, wakes,
}

-- The tasks of the present batch that are still to be called.
abbrev pub batch : Phase → List Task
batch (running ts) = ts
batch _ = []

-- What was queued is what was called, then the batch, then the queue.
abbrev pub InOrder : Turn → Type 0
InOrder x = x.called ++ (batch x.phase ++ x.loop.pending) ≡ x.queued

wakeup-pending : (l : EventLoop) → (wakeup l).pending ≡ l.pending
unfolding wakeup
wakeup-pending l = ground arith

queue_in_loop-pending :
    (own : Bool) (t : Task) (l : EventLoop) → (queue_in_loop own t l).pending ≡ l.pending ++ t ∷ []
unfolding queue_in_loop push_back
queue_in_loop-pending own t l = elim (Bool-cases (not own || l.calling)) [
  | inl loud ↦ rw loud (wakeup-pending (push_back t l))
  | inr quiet ↦ rw quiet
]

queue_all-pending : (ts : List Task) (l : EventLoop) → (queue_all ts l).pending ≡ l.pending ++ ts
unfolding queue_all
queue_all-pending [] l = sym (append-nil l.pending)
queue_all-pending (t ∷ ts) l =
    queue_all-pending ts (queue_in_loop true t l)
    ∙ ap (λ p. p ++ ts) (queue_in_loop-pending true t l)
    ∙ append_assoc l.pending (t ∷ []) ts

quit-pending : (own : Bool) (l : EventLoop) → (quit own l).pending ≡ l.pending
unfolding quit set_quit
quit-pending true l = refl
quit-pending false l = wakeup-pending (set_quit l)

-- A task behind all three parts.
snoc : (a b c ts : List Task) → (a ++ (b ++ c)) ++ ts ≡ a ++ (b ++ (c ++ ts))
snoc a b c ts = append_assoc a (b ++ c) ts ∙ ap (◌++◌ a) (append_assoc b c ts)

-- A step that queues tasks and stays in its phase.
added :
    (x : Turn) (l : EventLoop) (ts : List Task)
    → InOrder x
    → l.pending ≡ x.loop.pending ++ ts
    → x.called ++ (batch x.phase ++ l.pending) ≡ x.queued ++ ts
added x l ts o e =
    ap (λ p. x.called ++ (batch x.phase ++ p)) e
    ∙ sym (snoc x.called (batch x.phase) x.loop.pending ts)
    ∙ ap (λ q. q ++ ts) o

-- A step that leaves the queue and the history.
kept :
    (x : Turn) (l : EventLoop) (ph : Phase)
    → InOrder x
    → batch ph ≡ batch x.phase
    → l.pending ≡ x.loop.pending
    → x.called ++ (batch ph ++ l.pending) ≡ x.queued
kept x l ph o e f = ap₂ (λ b p. x.called ++ (b ++ p)) e f ∙ o

Step-InOrder : (asks : Task → List Task) {x y : Turn} → Step asks x y → InOrder x → InOrder y
unfolding start handle_wakeup swap_pending end_pending push_back set_quit call_task
Step-InOrder asks {x} (started e) o = kept x (start x.loop) testing o (sym (ap batch e)) refl
Step-InOrder asks {x} (goes_on e f) o = kept x x.loop polling o (sym (ap batch e)) refl
Step-InOrder asks {x} (stops e f) o = kept x x.loop stopped o (sym (ap batch e)) refl
Step-InOrder asks {x} (polled e) o = kept x x.loop handling o (sym (ap batch e)) refl
Step-InOrder asks {x} (woken e) o = o
Step-InOrder asks {x} (queued_here t e) o =
    added x (queue_in_loop true t x.loop) (t ∷ []) o (queue_in_loop-pending true t x.loop)
Step-InOrder asks {x} (quit_here e) o =
    kept x (quit true x.loop) x.phase o refl (quit-pending true x.loop)
Step-InOrder asks {x} (quit_in_task ts e) o =
    kept x (quit true x.loop) x.phase o refl (quit-pending true x.loop)
Step-InOrder asks {x} (swapped e) o =
    ap (λ b. x.called ++ b) (append-nil x.loop.pending)
    ∙ sym (ap (λ b. x.called ++ (b ++ x.loop.pending)) (ap batch e))
    ∙ o
Step-InOrder asks {x} (called_next t ts e) o =
    let l = call_task asks t x.loop in
    append_assoc x.called (t ∷ []) (ts ++ l.pending)
    ∙ sym (ap (λ b. x.called ++ (b ++ l.pending)) (ap batch e))
    ∙ added x l (asks t) o (queue_all-pending (asks t) x.loop)
Step-InOrder asks {x} (ended e) o = kept x (end_pending x.loop) testing o (sym (ap batch e)) refl
Step-InOrder asks {x} (pushed t) o = added x (push_back t x.loop) (t ∷ []) o refl
Step-InOrder asks {x} quit_set o = o
Step-InOrder asks {x} (wakes n e) o = kept x (wakeup x.loop) x.phase o refl (wakeup-pending x.loop)

-- In every history of a loop, whatever its tasks queue and whatever other threads do between its
-- actions, the tasks called, those of the present batch and those in the queue are together all
-- that were queued, in the order of the queue: none is lost, called twice or overtaken.
pub Reach-InOrder : (asks : Task → List Task) {x : Turn} → Reach asks first_turn x → InOrder x
unfolding first_turn new_event_loop
Reach-InOrder asks here = refl
Reach-InOrder asks (next r s) = Step-InOrder asks s (Reach-InOrder asks r)

-- A batch is called to its end.
pub call_all_lem :
    (asks : Task → List Task) (ts : List Task) (x : Turn)
    → x.phase ≡ running ts
    → (d : Turn) × Alone asks x d
      × (d.loop ≡ call_all asks ts x.loop)
      × (d.phase ≡ running [])
      × (d.called ≡ x.called ++ ts)
unfolding call_all
call_all_lem asks [] x e = (x, idle, refl, e, sym (append-nil x.called))
call_all_lem asks (t ∷ ts) x e =
    let y = record x {
      loop = call_task asks t x.loop;
      phase = running ts;
      queued = x.queued ++ asks t;
      called = x.called ++ t ∷ [];
    } in
    let (d, r, f, g, h) = call_all_lem asks ts y refl in
    (d, Alone-first (called_next t ts e) refl r, f, g, h ∙ append_assoc x.called (t ∷ []) ts)

-- From the handlers of a turn the loop gets by its own steps to the test of quit_, in the state of
-- doPendingFunctors, having called every task that waited, once and in order.
pub do_pending_functors_lem :
    (asks : Task → List Task) (x : Turn)
    → x.phase ≡ handling
    → (d : Turn) × Alone asks x d
      × (d.loop ≡ do_pending_functors asks x.loop)
      × (d.phase ≡ testing)
      × (d.called ≡ x.called ++ x.loop.pending)
unfolding do_pending_functors
do_pending_functors_lem asks x e =
    let y = record x { loop = swap_pending x.loop; phase = running x.loop.pending } in
    let (d, r, f, g, h) = call_all_lem asks x.loop.pending y refl in
    (
      record d { loop = end_pending d.loop; phase = testing },
      acts (Alone-first (swapped e) refl r) (ended g) refl,
      ap end_pending f,
      refl,
      h,
    )
