-- ===== src/Connection/Remote.antt =====
-- `send` and `shutdown` of src/net/TcpConnection.cc on a thread that does not own the connection:
-- each looks at `state_` there, and posts the rest as a task to the owner's loop.
pub mod Race
use reactor_chat_server.Common.{
  ◌≡◌, refl, sym, ap, ◌∙◌, Bool, List, [], ◌∷◌, ◌++◌, Bytes, length, append-nil, append_assoc,
  if◌then◌else◌,
}
use reactor_chat_server.Buffer.Invariant.{Fits}
use reactor_chat_server.Connection.{
  k_connected, World, Connection, send_in_loop, shutdown_in_loop, begin_shutdown, is_connected,
}
use reactor_chat_server.Connection.Invariant.{Posix, stream, IsSound}
use reactor_chat_server.Connection.Send.{send_in_loop-Sent}
use reactor_chat_server.Connection.Perform.{
  send_in_loop-closed, begin_shutdown-stream, shutdown_in_loop-stream,
}

-- The tasks that `runInLoop` posts for a connection.
pub data Task : Type 0 where
  send_task : Bytes → Task
  shutdown_task : Task

-- A connection, and the tasks posted for it that its owner has not run yet, oldest first.
pub record Posted : Type 0 where
  pub connection : Connection
  pub tasks : List Task

pub send_remote : Bytes → Posted → Posted
send_remote msg s =
    if is_connected s.connection.state
    then record s { tasks = s.tasks ++ send_task msg ∷ [] }
    else s

-- The two halves of `shutdown`: the test of `state_`, and, if it held, the store and the task. The
-- owner may act in between.
pub shutdown_load : Posted → Bool
shutdown_load s = is_connected s.connection.state

pub shutdown_store : Bool → Posted → Posted
shutdown_store seen s =
    if seen
    then record s {
      connection = begin_shutdown s.connection;
      tasks = s.tasks ++ shutdown_task ∷ [];
    }
    else s

-- Both, with nothing in between.
pub shutdown_remote : Posted → Posted
unfolding shutdown_load shutdown_store
shutdown_remote s = shutdown_store (shutdown_load s) s

pub run_task : World → Task → Connection → Connection
run_task w (send_task msg) c = send_in_loop w msg c
run_task w shutdown_task c = shutdown_in_loop c

pub run_tasks : World → List Task → Connection → Connection
run_tasks w [] c = c
run_tasks w (t ∷ ts) c = run_tasks w ts (run_task w t c)

-- The owner's loop runs all that is posted.
pub drain : World → Posted → Posted
drain w s = record { connection = run_tasks w s.tasks s.connection; tasks = [] }

pub sends_remote : List Bytes → Posted → Posted
sends_remote [] s = s
sends_remote (msg ∷ msgs) s = sends_remote msgs (send_remote msg s)

abbrev sends_of : List Bytes → List Task
sends_of [] = []
sends_of (msg ∷ msgs) = send_task msg ∷ sends_of msgs

abbrev pub concat : List Bytes → Bytes
concat [] = []
concat (xs ∷ xss) = xs ++ concat xss

-- The output array stays within its maximum while the tasks run.
abbrev pub Room : World → List Bytes → Connection → Type 0
Room w [] c = Unit {0}
Room w (msg ∷ msgs) c = Fits (length msg) c.output × Room w msgs (send_in_loop w msg c)

run_sends :
    (w : World) (msgs : List Bytes) (c : Connection)
    → Posix w
    → IsSound c
    → c.state ≡ k_connected
    → Room w msgs c
    → stream (run_tasks w (sends_of msgs) c) ≡ stream c ++ concat msgs
unfolding run_tasks run_task
run_sends w [] c p s e r = sym (append-nil (stream c))
run_sends w (msg ∷ msgs) c p s e r =
    let d = send_in_loop-Sent w msg c p s e r.0 in
    run_sends w msgs (send_in_loop w msg c) p d.sound (d.same_state ∙ e) r.1
    ∙ ap (λ (l : Bytes). l ++ concat msgs) d.streamed
    ∙ append_assoc (stream c) msg (concat msgs)

sends_remote-tasks :
    (msgs : List Bytes) (s : Posted)
    → s.connection.state ≡ k_connected
    → sends_remote msgs s ≡ record s { tasks = s.tasks ++ sends_of msgs }
unfolding sends_remote send_remote
sends_remote-tasks [] s e =
    ap (λ (l : List Task). record s { tasks = l }) (sym (append-nil s.tasks))
sends_remote-tasks (msg ∷ msgs) s e =
    let posted = record s { tasks = s.tasks ++ send_task msg ∷ [] } in
    ap (λ t. sends_remote msgs (if t then posted else s)) (ap is_connected e)
    ∙ sends_remote-tasks msgs posted e
    ∙ ap (λ (l : List Task). record s { tasks = l })
        (append_assoc s.tasks (send_task msg ∷ []) (sends_of msgs))

-- Messages that another thread sends to a sound connected connection, with a POSIX socket and room
-- in the output array, are accepted whole and in order when the owner runs the posted tasks.
pub drain-sends_remote :
    (w : World) (msgs : List Bytes) (c : Connection)
    → Posix w
    → IsSound c
    → c.state ≡ k_connected
    → Room w msgs c
    → stream (drain w (sends_remote msgs (record { connection = c; tasks = [] }))).connection
      ≡ stream c ++ concat msgs
unfolding drain
drain-sends_remote w msgs c p s e r =
    ap (λ (k : Posted). stream (run_tasks w k.tasks k.connection)) (sends_remote-tasks msgs _ e)
    ∙ run_sends w msgs c p s e r

-- A message that another thread sends to a connected connection, and then calls shutdown before the
-- owner has run the posted tasks, is dropped: when the owner runs them, nothing more is accepted
-- and nothing is sent.
pub shutdown_remote_drops :
    (w : World) (msg : Bytes) (c : Connection)
    → c.state ≡ k_connected
    → let after =
        drain w (shutdown_remote (send_remote msg (record { connection = c; tasks = [] }))) in
      (stream after.connection ≡ stream c) × (after.connection.sent ≡ c.sent)
unfolding drain shutdown_remote shutdown_load shutdown_store send_remote run_tasks run_task
    begin_shutdown
shutdown_remote_drops w msg c e =
    let ending = begin_shutdown c in
    let start : Posted = record { connection = c; tasks = [] } in
    let posted : Posted = record { connection = c; tasks = send_task msg ∷ [] } in
    let both : Posted = record {
      connection = ending;
      tasks = send_task msg ∷ shutdown_task ∷ [];
    } in
    let on = ap is_connected e in
    let same : shutdown_remote (send_remote msg start) ≡ both =
      ap shutdown_remote (ap (λ t. if t then posted else start) on)
      ∙ ap (λ t. if t then both else posted) on in
    let ignored = send_in_loop-closed w msg ending refl in
    let (f, g) = shutdown_in_loop-stream ending in
    rw (same, ignored) (f ∙ begin_shutdown-stream c ∙ append-nil (stream c), g)
