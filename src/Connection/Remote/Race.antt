-- ===== src/Connection/Remote/Race.antt =====
-- A `shutdown` of src/net/TcpConnection.cc on another thread, with the owner's `handleClose` between its
-- test of `state_` and its store.
use reactor_chat_server.Common.{◌≡◌, refl, ap, true, false, []}
use reactor_chat_server.Connection.{
  k_connected, k_disconnecting, World, Connection, writing, begin_shutdown, shutdown_in_loop,
  handle_close, is_connected,
}
use reactor_chat_server.Connection.Invariant.{IsSound, stream}
use reactor_chat_server.Connection.Events.{handle_close-Closed}
use reactor_chat_server.Connection.Remote.{
  Posted, shutdown_load, shutdown_store, drain, run_task, run_tasks,
}

-- What the task does to a connection that is not waiting for room.
stored_late :
    (d : Connection)
    → writing d ≡ false
    → shutdown_in_loop (begin_shutdown d) ≡ record d { state = k_disconnecting; shut = true }
unfolding shutdown_in_loop begin_shutdown
stored_late d idle = rw idle

-- On a sound connection, if another thread calls shutdown and finds the state kConnected, and
-- handleClose of the owner comes before it stores: when the owner has run the task posted, the
-- connection is in the state kDisconnecting with its writing end shut, though no byte was sent and
-- what was accepted is as before, be it sent or not.
pub stale_shutdown :
    (w : World) (c : Connection)
    → IsSound c
    → c.state ≡ k_connected
    → let start : Posted = record { connection = c; tasks = [] } in
      let closed : Posted = record start { connection = handle_close w c } in
      let d = (drain w (shutdown_store (shutdown_load start) closed)).connection in
      (d.state ≡ k_disconnecting) × (d.shut ≡ true) × (d.sent ≡ c.sent) × (stream d ≡ stream c)
unfolding shutdown_load shutdown_store drain run_task run_tasks
stale_shutdown w c s e =
    let (_, k) = handle_close-Closed w c s in
    let on = ap is_connected e in
    let late = stored_late (handle_close w c) k.idle in
    rw (on, late) (refl, refl, k.sent, k.streamed)
