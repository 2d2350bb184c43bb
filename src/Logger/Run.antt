-- ===== src/Logger/Run.antt =====
-- The threads of src/base/AsyncLogger.cc: those that append lines, the one that stops it, and the
-- one that writes. The writing thread may act whenever it waits, as it does when its interval is
-- over.
use reactor_chat_server.Common.{
  ◌≡◌, Bool, true, false, not, ◌||◌, List, [], ◌++◌, Bytes, length, ◌≤◌,
}
use reactor_chat_server.Logger.{
  AsyncLogger, LogBuffer, new_logger, k_size, append_line, start_running, stop_running,
  take_buffers, written, give_back,
}

-- Where the writing thread is: not started, before a round, about to write buffers, about to give one
-- back, or done. The test says whether the round is the last.
pub data Phase : Type 0 where
  unstarted waiting : Phase
  writing : List LogBuffer → Bool → Phase
  returning : List LogBuffer → Bool → Phase
  finished : Phase

-- The log with the file, and the history: all that was appended, and whether a line came after `stop`.
pub record Run : Type 0 where
  pub logger : AsyncLogger
  pub phase : Phase
  pub file : Bytes
  pub appended : Bytes
  pub late : Bool

abbrev pub after_round : Bool → Phase
after_round true = finished
after_round false = waiting

unfoldable pub first_run : Run
first_run = record {
  logger = new_logger;
  phase = unstarted;
  file = [];
  appended = [];
  late = false;
}

pub data Step (x : Run) : Run → Type 0 where
  appends :
      (line : Bytes)
      → length line ≤ k_size
      → Step x (record x {
        logger = append_line line x.logger;
        appended = x.appended ++ line;
        late = x.late || not x.logger.running;
      })
  starts :
      x.phase ≡ unstarted
      → Step x (record x { logger = start_running x.logger; phase = waiting; late = false })
  halts : Step x (record x { logger = stop_running x.logger })
  takes :
      x.phase ≡ waiting
      → Step x (record x {
        logger = (take_buffers x.logger).2;
        phase = writing (take_buffers x.logger).0 (take_buffers x.logger).1;
      })
  writes :
      (bs : List LogBuffer) (last : Bool)
      → x.phase ≡ writing bs last
      → Step x (record x { file = x.file ++ written bs; phase = returning bs last })
  gives_back :
      (bs : List LogBuffer) (last : Bool)
      → x.phase ≡ returning bs last
      → Step x (record x { logger = give_back bs x.logger; phase = after_round last })

pub data Reach (x : Run) : Run → Type 0 where
  here : Reach x x
  next : {y z : Run} → Reach x y → Step y z → Reach x z

-- Whether a step is the writing thread's own, once it has started.
abbrev pub is_writers : {x y : Run} → Step x y → Bool
is_writers (takes e) = true
is_writers (writes bs last e) = true
is_writers (gives_back bs last e) = true
is_writers _ = false

-- A history of such steps.
pub data Writes (x : Run) : Run → Type 0 where
  idle : Writes x x
  acts : {y z : Run} → Writes x y → (s : Step y z) → is_writers s ≡ true → Writes x z

-- A call of `stop`, up to its join.
abbrev pub halted : Run → Run
halted x = record x { logger = stop_running x.logger }
