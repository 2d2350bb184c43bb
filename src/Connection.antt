-- ===== src/Connection.antt =====
-- src/net/TcpConnection.h and src/net/TcpConnection.cc, on the thread of the loop that owns the
-- connection: the life cycle, sending through the output buffer, and receiving into the input
-- buffer.
pub mod Invariant
pub mod Send
pub mod Flush
pub mod WriteLoop
pub mod Perform
pub mod Events
pub mod Life
pub mod Hear
pub mod Reach
pub mod ReadLoop
pub mod Remote
pub mod Asked
pub mod Advance
pub mod Dispatch
pub mod Tests
use reactor_chat_server.Common.{
  ℕ, zero, suc, ◌+◌, ◌≤◌, ◌<◌, ◌≡◌, Bool, true, false, not, ◌&&◌, List, [], ◌∷◌, ◌++◌, Option, none,
  some, Bytes, sub64, length, take, drop, ltb, leb, ◌==◌, if◌then◌else◌,
}
use reactor_chat_server.Buffer.{
  Buffer, ReadResult, received, failed, k_initial, new_buffer, readable_bytes, retrieve, append,
  read_fd, offered,
}
use reactor_chat_server.Channel.{
  Channel, Poller, Callbacks, new_channel, enable_et, enable_reading, enable_writing,
  disable_writing, disable_all, remove_channel, is_writing, tie, handle_event,
}

-- `StateE`
pub data State : Type 0 where
  k_connecting k_connected k_disconnecting k_disconnected : State

abbrev pub is_connected : State → Bool
is_connected k_connected = true
is_connected _ = false

abbrev pub is_disconnecting : State → Bool
is_disconnecting k_disconnecting = true
is_disconnecting _ = false

-- What the code tells of an error number: `EAGAIN` and `EWOULDBLOCK`, or another.
pub data Errno : Type 0 where
  eagain other_errno : Errno

-- What `write` returns: how many bytes the kernel took, or an error.
pub data WriteResult : Type 0 where
  wrote : ℕ → WriteResult
  write_failed : Errno → WriteResult

-- What `readFd` returns with its error number.
pub data Arrival : Type 0 where
  arrived : Bytes → Arrival
  read_failed : Errno → Arrival

-- What the connection calls on its owner: the state at the time is what `connected()` answers.
pub data Notice : Type 0 where
  connection_notice : State → Notice
  message_notice : Notice
  close_notice : Notice
  error_notice : Notice

-- What a callback asks of the connection that it is given.
pub data Api : Type 0 where
  sends : Bytes → Api
  shuts : Api

-- What the connection does not implement: the socket's answers, each from the number of calls made
-- so far and what the call passes, and the application's callbacks, each from the number of
-- notices so far. The message callback answers with the input buffer that it leaves.
pub record World : Type 0 where
  pub write : ℕ → Bytes → WriteResult
  pub readv : ℕ → ℕ → Arrival
  pub on_connection : ℕ → State → List Api
  pub on_message : ℕ → Buffer → Buffer × List Api

-- The members of `class TcpConnection`, the poller of its loop, and what the outside has seen:
-- the bytes that the kernel took, oldest first, whether the writing end is shut, the notices made,
-- and the number of socket calls.
pub record Connection : Type 0 where
  pub et : Bool
  pub state : State
  pub channel : Channel
  pub poller : Poller
  pub input : Buffer
  pub output : Buffer
  pub sent : Bytes
  pub shut : Bool
  pub notices : List Notice
  pub calls : ℕ

unfoldable pub new_connection : Bool → ℕ → ℕ → Poller → Connection
new_connection et address sockfd poller = record {
  et = et;
  state = k_connecting;
  channel = new_channel address sockfd;
  poller = poller;
  input = new_buffer k_initial;
  output = new_buffer k_initial;
  sent = [];
  shut = false;
  notices = [];
  calls = 0;
}

abbrev pub writing : Connection → Bool
writing c = is_writing c.channel

abbrev set_channel : Connection → Channel × Poller → Connection
set_channel c (ch, p) = record c { channel = ch; poller = p }

-- `peek()` and `readableBytes()`, as `handleWrite` passes them.
abbrev pub pending : Buffer → Bytes
pending b = take (readable_bytes b) (drop b.reader_index b.buf)

-- The direct write of `sendInLoop`: what was written, and the connection after it.
pub write_direct : World → Bytes → Connection → ℕ × Connection
write_direct w msg c = elim (w.write c.calls msg) [
  | wrote n ↦ (n, record c { sent = c.sent ++ take n msg; calls = c.calls + 1 })
  | write_failed e ↦ (0, record c { calls = c.calls + 1 })
]

-- `if (!channel_->isWriting()) channel_->enableWriting();`
pub wait_for_room : Connection → Connection
wait_for_room c = if writing c then c else set_channel c (enable_writing c.channel c.poller)

-- What was not written goes to the output buffer, and the channel waits for room.
pub queue_rest : Bytes → ℕ × Connection → Connection
queue_rest msg (nwrote, c) =
    let remaining = sub64 (length msg) nwrote in
    if ltb 0 remaining
    then wait_for_room (record c { output = append (take remaining (drop nwrote msg)) c.output })
    else c

pub send_in_loop : World → Bytes → Connection → Connection
send_in_loop w msg c =
    if is_connected c.state
    then queue_rest msg
        (if not (writing c) && readable_bytes c.output == 0 then write_direct w msg c else (0, c))
    else c

-- `send` on the owner's thread.
pub send : World → Bytes → Connection → Connection
send w msg c = if is_connected c.state then send_in_loop w msg c else c

pub shutdown_in_loop : Connection → Connection
shutdown_in_loop c = if writing c then c else record c { shut = true }

-- The part of `shutdown` that runs on the calling thread.
pub begin_shutdown : Connection → Connection
begin_shutdown c = record c { state = k_disconnecting }

-- `shutdown` on the owner's thread.
pub shutdown : Connection → Connection
shutdown c = if is_connected c.state then shutdown_in_loop (begin_shutdown c) else c

-- A callback's requests, in order.
unfoldable pub perform : World → List Api → Connection → Connection
perform w [] c = c
perform w (sends msg ∷ rest) c = perform w rest (send w msg c)
perform w (shuts ∷ rest) c = perform w rest (shutdown c)

abbrev notify : Notice → Connection → Connection
notify n c = record c { notices = n ∷ c.notices }

unfoldable pub notify_connection : World → Connection → Connection
notify_connection w c =
    perform w (w.on_connection (length c.notices) c.state) (notify (connection_notice c.state) c)

pub notify_message : World → Connection → Connection
notify_message w c =
    let (input, asked) = w.on_message (length c.notices) c.input in
    perform w asked (notify message_notice (record c { input = input }))

-- One round of `handleWrite`: the connection after it, and whether the loop may go on.
pub write_round : World → Connection → Connection × Bool
unfolding shutdown_in_loop
write_round w c = elim (w.write c.calls (pending c.output)) [
  | write_failed e ↦ (record c { calls = c.calls + 1 }, false)
  | wrote n ↦
      let c₁ = record c {
        sent = c.sent ++ take n (pending c.output);
        output = retrieve n c.output;
        calls = c.calls + 1;
      } in
      let c₂ = set_channel c₁ (disable_writing c₁.channel c₁.poller) in
      if ltb 0 n
      then (if readable_bytes c₁.output == 0
          then (if is_disconnecting c₂.state then shutdown_in_loop c₂ else c₂, false)
          else (c₁, true))
      else (record c { calls = c.calls + 1 }, false)
]

-- The `do`-`while (et_)` of `handleWrite`; `none` means that the fuel ran out.
pub write_loop : ℕ → World → Connection → Option Connection
write_loop zero w c = none
write_loop (suc fuel) w c =
    let (c', more) = write_round w c in
    let again = write_loop fuel w c' in if more && c.et then again else some c'

pub handle_write : ℕ → World → Connection → Option Connection
handle_write fuel w c = if writing c then write_loop fuel w c else some c

-- `state_ = kDisconnected; channel_->disableAll();` and the connection callback.
pub disconnect : World → Connection → Connection
disconnect w c =
    let gone = record c { state = k_disconnected } in
    notify_connection w (set_channel gone (disable_all gone.channel gone.poller))

pub handle_close : World → Connection → Connection
handle_close w c = notify close_notice (disconnect w c)

-- `handleError` reads `SO_ERROR` and logs it.
unfoldable pub handle_error : Connection → Connection
handle_error c = notify error_notice c

-- One round of `handleRead`.
pub read_round : World → Connection → Connection × Bool
read_round w c =
    let counted = record c { calls = c.calls + 1 } in
    elim (w.readv c.calls (offered c.input)) [
      | arrived [] ↦ (handle_close w counted, false)
      | arrived (x ∷ xs) ↦
          (notify_message w (record counted { input = read_fd (received (x ∷ xs)) c.input }), true)
      | read_failed eagain ↦ (counted, false)
      | read_failed other_errno ↦ (handle_error counted, false)
    ]

pub handle_read : ℕ → World → Connection → Option Connection
handle_read zero w c = none
handle_read (suc fuel) w c =
    let (c', more) = read_round w c in
    let again = handle_read fuel w c' in if more && c.et then again else some c'

unfoldable pub connect_established : World → Connection → Connection
connect_established w c =
    let tied = tie c.channel in
    let ch = if c.et then enable_et tied else tied in
    notify_connection w
      (set_channel (record c { state = k_connected }) (enable_reading ch c.poller))

-- `channel_->remove()`
pub unregister : Connection → Connection
unregister c = set_channel c (remove_channel c.channel c.poller)

pub connect_destroyed : World → Connection → Connection
connect_destroyed w c = unregister (if is_connected c.state then disconnect w c else c)
