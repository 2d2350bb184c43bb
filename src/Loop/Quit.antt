-- ===== src/Loop/Quit.antt =====
-- How `EventLoop::loop` (src/net/EventLoop.cc) ends.
use reactor_chat_server.Common.{◌≡◌, ◌≢◌, refl, ap, ◌∙◌, true, List, [], ◌∷◌, arith}
use reactor_chat_server.Loop.{
  Task, EventLoop, wakeup, push_back, queue_in_loop, queue_all, call_task, call_all, swap_pending,
  end_pending, do_pending_functors,
}
use reactor_chat_server.Loop.Turns.{
  Phase, unstarted, testing, polling, handling, running, stopped, Turn, polled, stops, ended, Alone,
  idle, acts, Alone-trans,
}
use reactor_chat_server.Loop.Order.{call_all_lem, do_pending_functors_lem}

queue_in_loop-quit : (t : Task) (l : EventLoop) → (queue_in_loop true t l).quit ≡ l.quit
unfolding queue_in_loop push_back wakeup
queue_in_loop-quit t l = ground arith

pub wakeup-quit : (l : EventLoop) → (wakeup l).quit ≡ l.quit
unfolding wakeup
wakeup-quit l = ground arith

queue_all-quit : (ts : List Task) (l : EventLoop) → (queue_all ts l).quit ≡ l.quit
unfolding queue_all
queue_all-quit [] l = refl
queue_all-quit (t ∷ ts) l = queue_all-quit ts (queue_in_loop true t l) ∙ queue_in_loop-quit t l

-- No task that only queues tasks takes a `quit` back.
call_all-quit :
    (asks : Task → List Task) (ts : List Task) (l : EventLoop) → (call_all asks ts l).quit ≡ l.quit
unfolding call_all call_task
call_all-quit asks [] l = refl
call_all-quit asks (t ∷ ts) l =
    call_all-quit asks ts (queue_all (asks t) l) ∙ queue_all-quit (asks t) l

module _ (asks : Task → List Task) where
  -- From each place in a turn to the end.
  from_testing :
      (x : Turn)
      → x.loop.quit ≡ true
      → x.phase ≡ testing
      → (d : Turn) × Alone asks x d × (d.phase ≡ stopped)
  from_testing x q e = (record x { phase = stopped }, acts idle (stops e q) refl, refl)

  from_handling :
      (x : Turn)
      → x.loop.quit ≡ true
      → x.phase ≡ handling
      → (d : Turn) × Alone asks x d × (d.phase ≡ stopped)
  unfolding do_pending_functors swap_pending end_pending
  from_handling x q e =
      let (d, r, f, g, _) = do_pending_functors_lem asks x e in
      let quits : d.loop.quit ≡ true =
        ap (λ (l : EventLoop). l.quit) f ∙ call_all-quit asks x.loop.pending _ ∙ q in
      let (z, t, h) = from_testing d quits g in (z, Alone-trans r t, h)

  from_running :
      (ts : List Task) (x : Turn)
      → x.loop.quit ≡ true
      → x.phase ≡ running ts
      → (d : Turn) × Alone asks x d × (d.phase ≡ stopped)
  unfolding end_pending
  from_running ts x q e =
      let (d, r, f, g, _) = call_all_lem asks ts x e in
      let quits : d.loop.quit ≡ true =
        ap (λ (l : EventLoop). l.quit) f ∙ call_all-quit asks ts x.loop ∙ q in
      let (z, t, h) =
        from_testing (record d { loop = end_pending d.loop; phase = testing }) quits refl in
      (z, Alone-trans (acts r (ended g) refl) t, h)

  -- A loop that has begun, with quit_ set, stops by its own actions alone.
  pub quit_heeded :
      (x : Turn)
      → x.phase ≢ unstarted
      → x.loop.quit ≡ true
      → (d : Turn) × Alone asks x d × (d.phase ≡ stopped)
  quit_heeded x begun q = by_phase x.phase refl
    where
      by_phase : (ph : Phase) → x.phase ≡ ph → (d : Turn) × Alone asks x d × (d.phase ≡ stopped)
      by_phase unstarted e = absurd (begun e)
      by_phase testing e = from_testing x q e
      by_phase polling e =
          let (d, r, h) = from_handling (record x { phase = handling }) q refl in
          (d, Alone-trans (acts idle (polled e) refl) r, h)
      by_phase handling e = from_handling x q e
      by_phase (running ts) e = from_running ts x q e
      by_phase stopped e = (x, idle, e)
