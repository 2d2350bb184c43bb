-- ===== src/Connection/Tests.antt =====
-- src/net/TcpConnection.cc at a concrete socket and a concrete application.
pub mod Scene
use reactor_chat_server.Common.{
  ℕ, zero, suc, ◌≤◌, ◌≡◌, refl, ◌⊎◌, true, false, [], ◌∷◌, ◌++◌, Bytes, length, arith,
  if◌then◌else◌, some,
}
use reactor_chat_server.Buffer.{new_buffer, offered, writable_bytes}
use reactor_chat_server.Buffer.Invariant.{Fits}
use reactor_chat_server.Buffer.Contents.{contents}
use reactor_chat_server.Channel.{new_poller, new_channel}
use reactor_chat_server.Common.{◌==◌, ap, sym, ◌∙◌, inl, inr, Bool-cases}
use reactor_chat_server.Connection.{handle_read, read_failed, eagain}
use reactor_chat_server.Connection.ReadLoop.{
  Rounds, start, round, read_round-calls, handle_read_total,
}
use reactor_chat_server.Connection.{
  k_connecting, k_connected, k_disconnected, k_disconnecting, World, Connection, new_connection,
  sends, shuts, wrote, arrived, send, shutdown, perform, handle_write, handle_close, read_round,
  connect_established, connect_destroyed, is_connected, connection_notice, begin_shutdown,
  shutdown_in_loop,
}
use reactor_chat_server.Connection.Invariant.{Posix, stream, IsSound}
use reactor_chat_server.Connection.Send.{Sent, send-Sent}
use reactor_chat_server.Connection.Flush.{Flushed}
use reactor_chat_server.Connection.WriteLoop.{handle_write_total}
use reactor_chat_server.Connection.Perform.{
  Performed, perform-Performed, Ended, shutdown-Ended, Room,
}
use reactor_chat_server.Connection.Events.{Closed, handle_close-Closed, connect_destroyed-IsSound}
use reactor_chat_server.Connection.Life.{
  connect_established-IsSound, new_connection-IsSound, opened, opened-IsSound,
}
use reactor_chat_server.Connection.Hear.{Polite, Bounded, Heard, delivered, read_round-Heard}
use reactor_chat_server.Connection.Reach.{
  sending, shutting, Reach, here, next, Kept, Step-Kept, Reach-Kept, shut_flushed,
}
use reactor_chat_server.Connection.Remote.{
  drain, sends_remote, send_remote, shutdown_remote, drain-sends_remote, shutdown_remote_drops,
}
use reactor_chat_server.Common.{true, false, not, ◌&&◌, ◌+◌}
use reactor_chat_server.Buffer.Invariant.{max_size}
use reactor_chat_server.Channel.{Mask, k_none_event}
use reactor_chat_server.Connection.Dispatch.{dispatch, dispatch_total}
use reactor_chat_server.Connection.Advance.{rank, send-state, Reach-far}
use reactor_chat_server.Connection.Remote.{Posted, shutdown_load, shutdown_store}
use reactor_chat_server.Connection.Remote.Race.{stale_shutdown}
use Scene.{
  hello, one_byte, first, world, one_byte_bounded, take_bounded, world-Posix, world-Polite, fresh,
  fresh-state, fresh-Room, idle, idle-IsSound, idle-state, idle-Fits, busy, busy-IsSound, plain,
  plain-IsSound, plain-Fits, plain-Bounded, history, closed-state, closed-shut, quiet,
  quiet-bounded, quiet-Posix, quiet-dry, quiet-Bounded,
}

send_example :
    ((idle.state ≡ k_connected) × Sent hello idle (send world hello idle))
    ⊎ ((is_connected idle.state ≡ false) × (send world hello idle ≡ idle))
send_example = send-Sent world hello idle world-Posix idle-IsSound idle-Fits

handle_write_example :
    (d : Connection) × (handle_write (suc (length (contents busy.output))) world busy ≡ some d)
    × Flushed busy d
handle_write_example =
    handle_write_total (suc (length (contents busy.output))) world busy world-Posix busy-IsSound
      (omega arith)

handle_close_example : IsSound (handle_close world busy) × Closed busy (handle_close world busy)
handle_close_example = handle_close-Closed world busy busy-IsSound

read_round_example :
    Heard world plain (world.readv plain.calls (offered plain.input)) (read_round world plain)
read_round_example =
    read_round-Heard world plain world-Posix world-Polite plain-IsSound plain-Bounded

Reach-Kept_example : Kept plain (shutdown (send world hello plain))
Reach-Kept_example = Reach-Kept world world-Posix world-Polite plain-IsSound history

shut_flushed_example :
    (contents (shutdown plain).output ≡ []) × ((shutdown plain).sent ≡ stream (shutdown plain))
shut_flushed_example =
    shut_flushed world world-Posix world-Polite plain-IsSound (next here shutting) closed-state
      closed-shut

drain_example :
    stream
      (drain world
        (sends_remote (hello ∷ []) (record { connection = plain; tasks = [] }))).connection
    ≡ stream plain ++ (hello ++ [])
drain_example =
    drain-sends_remote world (hello ∷ []) plain world-Posix plain-IsSound refl (plain-Fits, tt)

shutdown_remote_example :
    (stream
        (drain world (
          shutdown_remote
            (send_remote hello (record { connection = plain; tasks = [] })))).connection
      ≡ stream plain)
    × ((drain world (
          shutdown_remote
            (send_remote hello (record { connection = plain; tasks = [] })))).connection.sent
        ≡ plain.sent)
shutdown_remote_example = shutdown_remote_drops world hello plain refl

-- A byte of the greeting waits to be written.
abbrev posted : Posted
posted = record { connection = busy; tasks = [] }

stale_shutdown_example :
    let closed = record posted { connection = handle_close world busy } in
    let d = (drain world (shutdown_store (shutdown_load posted) closed)).connection in
    (d.state ≡ k_disconnecting) × (d.shut ≡ true) × (d.sent ≡ busy.sent) × (stream d ≡ stream busy)
stale_shutdown_example =
    stale_shutdown world busy busy-IsSound (send-state world hello idle ∙ idle-state)

-- Readable and writable at once.
abbrev both_ways : Mask
both_ways = record k_none_event { epollin = true; epollout = true }

dispatch_example :
    (d : Connection) × (dispatch (max_size + 1) quiet both_ways plain ≡ some d)
    × Reach quiet plain d
    × Kept plain d
    × ((both_ways.epollhup && not both_ways.epollin) ≡ true → d.state ≡ k_disconnected)
unfolding new_connection
dispatch_example =
    dispatch_total (max_size + 1) 1 quiet both_ways plain quiet-Posix
      (record { keeps = λ i b v. v }) plain-IsSound quiet-dry quiet-Bounded (omega arith)
      (omega arith)
