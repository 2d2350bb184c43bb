-- ===== src/LoopThread/Tests.antt =====
-- src/net/EventLoopThread.cc from the constructor on.
use reactor_chat_server.Common.{◌≡◌, refl, true, false, [], List}
use reactor_chat_server.Loop.{Task, start}
use reactor_chat_server.Loop.Turns.{Turn, Phase, polling, first_turn, started}
use reactor_chat_server.Loop.Turns
use reactor_chat_server.LoopThread.{
  looping, using, joining, joined, EventLoopThread, new_loop_thread, Step, spawned, published,
  start_returns, turns, Reach, here, next, Closes,
}
use reactor_chat_server.LoopThread.Guard.{IsGuarded, Reach-IsGuarded}
use reactor_chat_server.LoopThread.Join.{destructor_joins, destructor_waits}

abbrev asks : Task → List Task
asks t = []

-- `startLoop` has returned, and the loop's thread has not come to `loop.loop()` yet.
abbrev started_up : EventLoopThread
started_up = record { pointer = true; inner = looping; outer = using; turn = first_turn }

start_history : Reach asks new_loop_thread started_up
unfolding new_loop_thread
start_history =
    next (next (next here (spawned refl refl)) (published refl (λ e. cc))) (start_returns refl refl)

loop_thread_example : IsGuarded started_up
loop_thread_example = Reach-IsGuarded asks start_history

-- The loop has begun.
abbrev in_loop : EventLoopThread
in_loop = record started_up {
  turn = record first_turn { loop = start first_turn.loop; phase = Phase.testing };
}

first-unstarted : first_turn.phase ≡ Phase.unstarted
unfolding first_turn
first-unstarted = refl

in_loop-IsGuarded : IsGuarded in_loop
in_loop-IsGuarded =
    Reach-IsGuarded asks (next start_history (turns _ refl (started first-unstarted)))

destructor_joins_example : (d : EventLoopThread) × Closes asks in_loop d × (d.outer ≡ joined)
destructor_joins_example = destructor_joins asks in_loop in_loop-IsGuarded refl (λ e f. cc)

destructor_waits_example :
    (d : EventLoopThread) × Reach asks started_up d
    × (d.outer ≡ joining)
    × (d.turn.phase ≡ polling)
    × (d.turn.loop.quit ≡ false)
    × ((y : EventLoopThread)
        → Step asks d y
        → (t : Turn) × Turns.Step asks d.turn t × (y ≡ record d { turn = t }))
unfolding first_turn
destructor_waits_example = destructor_waits asks started_up refl refl refl refl
