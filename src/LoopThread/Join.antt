-- ===== src/LoopThread/Join.antt =====
-- The destructor of src/net/EventLoopThread.cc, which waits for the loop's thread.
use reactor_chat_server.Common.{◌≡◌, ◌≢◌, refl, sym, ap, ◌∙◌, true, false, List, arith}
use reactor_chat_server.Loop.{Task, quit, set_quit}
use reactor_chat_server.Loop.Turns.{Turn, Phase, polling, stopped, Alone, idle, acts}
use reactor_chat_server.Loop.Turns
use reactor_chat_server.Loop.Quit.{quit_heeded, wakeup-quit}
use reactor_chat_server.Loop.Awake.{quit_unheeded}
use reactor_chat_server.LoopThread.{
  Inner, unborn, built, looping, returned, cleared, ended, using, joining, joined, EventLoopThread,
  turn_quits, turn_wakes, Step, spawned, published, start_returns, unused, turns, loop_returns,
  reset, loop_destroyed, quits, quit_wakes, quits_not, joins, Reach, here, next, Closes,
  closed_here, closes,
}
use reactor_chat_server.LoopThread.Guard.{IsGuarded, is_published}

module _ (asks : Task → List Task) where
  Closes-trans : {x y z : EventLoopThread} → Closes asks x y → Closes asks y z → Closes asks x z
  Closes-trans r closed_here = r
  Closes-trans r (closes t s e) = closes (Closes-trans r t) s e

  Closes-Reach : {x y : EventLoopThread} → Closes asks x y → Reach asks x y
  Closes-Reach closed_here = here
  Closes-Reach (closes r s e) = next (Closes-Reach r) s

  -- The loop's own steps, on its thread.
  Alone-turns :
      (x : EventLoopThread) (t : Turn)
      → x.inner ≡ looping
      → Alone asks x.turn t
      → Closes asks x (record x { turn = t })
  Alone-turns x _ e idle = closed_here
  Alone-turns x _ e (acts {y = y} r s own) = closes (Alone-turns x y e r) (turns _ e s) own

  -- With the owner at `join`, from each place of the loop's thread.
  joins_cleared :
      (x : EventLoopThread)
      → x.outer ≡ joining
      → x.inner ≡ cleared
      → (d : EventLoopThread) × Closes asks x d × (d.outer ≡ joined)
  joins_cleared x e f = (
    record x { inner = ended; outer = joined },
    closes (closes closed_here (loop_destroyed f) refl) (joins e refl) refl,
    refl,
  )

  joins_returned :
      (x : EventLoopThread)
      → x.outer ≡ joining
      → x.inner ≡ returned
      → (d : EventLoopThread) × Closes asks x d × (d.outer ≡ joined)
  joins_returned x e f =
      let cleared_first = closes closed_here (reset f (λ q. let both = sym e ∙ q in cc)) refl in
      let (d, r, g) = joins_cleared (record x { inner = cleared; pointer = false }) e refl in
      (d, Closes-trans cleared_first r, g)

  joins_looping :
      (x : EventLoopThread)
      → x.outer ≡ joining
      → x.inner ≡ looping
      → x.turn.loop.quit ≡ true
      → x.turn.phase ≢ Phase.unstarted
      → (d : EventLoopThread) × Closes asks x d × (d.outer ≡ joined)
  joins_looping x e f q begun =
      let (t, r, g) = quit_heeded asks x.turn begun q in
      let whole = closes (Alone-turns x t f r) (loop_returns f g) refl in
      let (d, s, h) = joins_returned (record x { turn = t; inner = returned }) e refl in
      (d, Closes-trans whole s, h)

  -- The destructor's half of it.
  quits_all :
      (x : EventLoopThread)
      → x.outer ≡ using
      → x.pointer ≡ true
      → Closes asks x (record x { outer = joining; turn = turn_wakes (turn_quits x.turn) })
  quits_all x e p = closes (closes closed_here (quits e p) refl) (quit_wakes refl) refl

  -- From an EventLoopThread in which the invariant holds and startLoop has returned, if its thread
  -- is not between the publishing of loop_ and the start of loop, a history of only the
  -- destructor's steps and those of the loop's thread by itself, in which no handler queues a task,
  -- neither a handler nor a task quits, and no third thread does anything, leads to the end of the
  -- destructor.
  pub destructor_joins :
      (x : EventLoopThread)
      → IsGuarded x
      → x.outer ≡ using
      → (x.inner ≡ looping → x.turn.phase ≢ Phase.unstarted)
      → (d : EventLoopThread) × Closes asks x d × (d.outer ≡ joined)
  unfolding set_quit
  destructor_joins x k e begun = at_place x.inner refl
    where
      at_place :
          (i : Inner) → x.inner ≡ i → (d : EventLoopThread) × Closes asks x d × (d.outer ≡ joined)
      at_place unborn f = absurd (ground (arith, k.returned e, f))
      at_place built f = absurd (ground (arith, k.returned e, f))
      at_place looping f =
          let set = quits_all x e (k.publication ∙ ap is_published f) in
          let y = record x { outer = joining; turn = turn_wakes (turn_quits x.turn) } in
          let (d, r, g) = joins_looping y refl f (wakeup-quit (set_quit x.turn.loop)) (begun f) in
          (d, Closes-trans set r, g)
      at_place returned f =
          let set = quits_all x e (k.publication ∙ ap is_published f) in
          let y = record x { outer = joining; turn = turn_wakes (turn_quits x.turn) } in
          let (d, r, g) = joins_returned y refl f in (d, Closes-trans set r, g)
      at_place cleared f =
          let y = record x { outer = joining } in
          let (d, r, g) = joins_cleared y refl f in
          (
            d,
            Closes-trans (closes closed_here (quits_not e (k.publication ∙ ap is_published f)) refl)
                r,
            g,
          )
      at_place ended f =
          let y = record x { outer = joined } in
          (
            y,
            closes (closes closed_here (quits_not e (k.publication ∙ ap is_published f)) refl)
                (joins refl f) refl,
            refl,
          )

  -- At `join`, before a loop that polls, no step is left but the loop's.
  only_turns :
      (d : EventLoopThread) {y : EventLoopThread}
      → d.outer ≡ joining
      → d.inner ≡ looping
      → d.turn.phase ≡ polling
      → Step asks d y
      → (t : Turn) × Turns.Step asks d.turn t × (y ≡ record d { turn = t })
  only_turns d o i p (spawned e f) = cc (sym o ∙ e)
  only_turns d o i p (published e f) = cc (sym i ∙ e)
  only_turns d o i p (start_returns e f) = cc (sym o ∙ e)
  only_turns d o i p (turns t e s) = (t, s, refl)
  only_turns d o i p (loop_returns e f) = cc (sym p ∙ f)
  only_turns d o i p (reset e f) = cc (sym i ∙ e)
  only_turns d o i p (loop_destroyed e) = cc (sym i ∙ e)
  only_turns d o i p (quits e f) = cc (sym o ∙ e)
  only_turns d o i p (quit_wakes e) = cc (sym o ∙ e)
  only_turns d o i p (quits_not e f) = cc (sym o ∙ e)
  only_turns d o i p (unused e) = cc (sym o ∙ e)
  only_turns d o i p (joins e f) = cc (sym i ∙ f)

  -- A destructor of EventLoopThread that calls quit after loop_ is published and before loop has
  -- begun may come to join while the loop polls with quit_ not set; then only the loop's own turns
  -- are left.
  pub destructor_waits :
      (x : EventLoopThread)
      → x.outer ≡ using
      → x.pointer ≡ true
      → x.inner ≡ looping
      → x.turn.phase ≡ Phase.unstarted
      → (d : EventLoopThread) × Reach asks x d
        × (d.outer ≡ joining)
        × (d.turn.phase ≡ polling)
        × (d.turn.loop.quit ≡ false)
        × ((y : EventLoopThread)
            → Step asks d y
            → (t : Turn) × Turns.Step asks d.turn t × (y ≡ record d { turn = t }))
  unfolding quit
  destructor_waits x e p i f =
      let (t, r, g, h, _) = quit_unheeded asks x.turn f in
      let y = record x { outer = joining; turn = turn_wakes (turn_quits x.turn) } in
      let d = record y { turn = t } in
      (
        d,
        Closes-Reach (Closes-trans (quits_all x e p) (Alone-turns y t i r)),
        refl,
        g,
        h,
        (λ z s. only_turns d refl i g s),
      )
