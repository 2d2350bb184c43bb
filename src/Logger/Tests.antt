-- ===== src/Logger/Tests.antt =====
-- src/base/AsyncLogger.cc with two lines, a round between them, and a stop.
use reactor_chat_server.Common.{◌≡◌, refl, false, [], ◌∷◌, Bytes, arith}
use reactor_chat_server.Logger.{
  append_line, append_here, change_buffer, start_running, take_buffers, give_back, new_logger,
  last_of, reset, written,
}
use reactor_chat_server.Logger.Run.{
  Run, Step, first_run, Reach, here, next, appends, starts, takes, writes, gives_back, waiting,
  finished, unstarted, Writes, halted,
}
use reactor_chat_server.Logger.Kept.{IsKept, Reach-IsKept, stop_flushes}

abbrev line : Bytes
line = b'a' ∷ b'\n' ∷ []

abbrev other_line : Bytes
other_line = b'b' ∷ b'\n' ∷ []

first-unstarted : first_run.phase ≡ unstarted
unfolding first_run
first-unstarted = refl

-- A line, a round of the writing thread, and another line in the spare buffer.
lined :
    (y : Run) × Reach first_run y
    × (y.phase ≡ waiting)
    × (y.file ≡ line)
    × (y.logger.current_buffer ≡ other_line)
unfolding first_run new_logger start_running append_line append_here change_buffer take_buffers
    give_back last_of reset written
lined =
    let r = next (next here (starts first-unstarted)) (appends line (omega arith)) in
    let taken = next r (takes refl) in
    let wrote = next taken (writes _ false refl) in
    let back = next wrote (gives_back _ false refl) in
    (_, next back (appends other_line (omega arith)), refl, refl, refl)

started_example : IsKept lined.0
started_example = Reach-IsKept lined.1

stop_example :
    Step lined.0 (halted lined.0)
    × (y : Run) × Writes (halted lined.0) y
    × (y.phase ≡ finished)
    × (y.file ≡ lined.0.appended)
stop_example = stop_flushes lined.1 lined.2
