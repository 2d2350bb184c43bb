-- ===== src/Logger.antt =====
-- src/base/AsyncLogger.h and src/base/AsyncLogger.cc: the buffers of the log, and the rounds of the
-- thread that writes them to the file. A line is at most as long as a buffer, as the header
-- demands.
pub mod Run
pub mod Kept
mod Tests
use reactor_chat_server.Common.{
  ℕ, ◌+◌, ◌-◌, ◌*◌, ◌≤◌, Bool, true, false, not, ◌&&◌, List, [], ◌∷◌, ◌++◌, Option, none, some,
  Bytes, length, leb, if◌then◌else◌,
}

-- `kSize`
abbrev pub k_size : ℕ
k_size = 65536

-- A buffer, as the bytes written into it.
abbrev pub LogBuffer : Type 0
LogBuffer = Bytes

abbrev pub avail : LogBuffer → ℕ
avail b = k_size - length b

-- `Buffer::reset`
pub reset : LogBuffer → LogBuffer
reset b = []

-- The members under the mutex; `next_buffer` may be a null pointer.
pub record AsyncLogger : Type 0 where
  pub running : Bool
  pub current_buffer : LogBuffer
  pub next_buffer : Option LogBuffer
  pub buffers_to_write : List LogBuffer

pub new_logger : AsyncLogger
new_logger = record {
  running = false;
  current_buffer = [];
  next_buffer = some [];
  buffers_to_write = [];
}

-- The spare buffer as it is, or a new one.
abbrev pub or_new : Option LogBuffer → LogBuffer
or_new none = []
or_new (some b) = b

-- The current buffer goes to the queue, and the spare or a new one takes its place.
pub change_buffer : AsyncLogger → AsyncLogger
change_buffer l = record l {
  current_buffer = or_new l.next_buffer;
  next_buffer = none;
  buffers_to_write = l.buffers_to_write ++ l.current_buffer ∷ [];
}

pub append_here : Bytes → AsyncLogger → AsyncLogger
append_here line l = record l { current_buffer = l.current_buffer ++ line }

pub append_line : Bytes → AsyncLogger → AsyncLogger
append_line line l =
    if leb (length line) (avail l.current_buffer)
    then append_here line l
    else append_here line (change_buffer l)

pub start_running : AsyncLogger → AsyncLogger
start_running l = record l { running = true }

-- `stop`, on the calling thread, up to the join.
pub stop_running : AsyncLogger → AsyncLogger
stop_running l = record l { running = false }

-- The part of a round under the mutex: the buffers to write, whether this is the last round, and the
-- state left.
pub take_buffers : AsyncLogger → List LogBuffer × Bool × AsyncLogger
unfolding change_buffer
take_buffers l =
    let changed = change_buffer l in
    (changed.buffers_to_write, not l.running, record changed { buffers_to_write = [] })

-- What the round writes to the file.
pub written : List LogBuffer → Bytes
written [] = []
written (b ∷ bs) = b ++ written bs

-- `toWrite.back()`
pub last_of : List LogBuffer → Option LogBuffer
last_of [] = none
last_of (b ∷ bs) = elim bs [ [] ↦ some b | _ ∷ _ ↦ last_of bs ]

-- The last of the buffers that were written becomes the spare, if there is none.
pub give_back : List LogBuffer → AsyncLogger → AsyncLogger
unfolding reset
give_back to_write l = elim l.next_buffer [
  | some _ ↦ l
  | none ↦ elim (last_of to_write) [ none ↦ l | some b ↦ record l { next_buffer = some (reset b) } ]
]
