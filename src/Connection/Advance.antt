-- ===== src/Connection/Advance.antt =====
-- The states that a connection of src/net/TcpConnection.cc goes through.
use reactor_chat_server.Common.{
  ℕ, ◌+◌, ◌≤◌, ◌≡◌, refl, sym, ap, subst, ◌∙◌, List, [], ◌∷◌, Bytes, arith, inl, inr, Bool-cases,
  true,
}
use reactor_chat_server.Buffer.{offered}
use reactor_chat_server.Connection.{
  State, k_connecting, k_connected, k_disconnecting, k_disconnected, World, Connection, Arrival,
  arrived, read_failed, eagain, other_errno, Api, sends, shuts, send, send_in_loop, write_direct,
  queue_rest, wait_for_room, shutdown, shutdown_in_loop, begin_shutdown, perform, notify_connection,
  notify_message, read_round, handle_close, handle_error, disconnect, connect_established,
  connect_destroyed, unregister, is_connected,
}
use reactor_chat_server.Connection.Invariant.{Posix, State-cases, is_live, live_cases}
use reactor_chat_server.Connection.Perform.{perform-closed}
use reactor_chat_server.Connection.Hear.{Polite}
use reactor_chat_server.Connection.WriteLoop.{handle_write_total}
use reactor_chat_server.Connection.Invariant.{IsSound}
use reactor_chat_server.Connection.Reach.{
  Step, established, sending, shutting, reading, flushing, closing, failing, destroyed,
  shutdown_stored, shutdown_task, send_task, Reach, here, next, Reach-Kept,
}

-- How far a connection has come.
abbrev pub rank : State → ℕ
rank k_connecting = 0
rank k_connected = 1
rank k_disconnecting = 2
rank k_disconnected = 3

abbrev pub far : Connection → ℕ
far c = rank c.state

queue_rest-state : (msg : Bytes) (n : ℕ) (c : Connection) → (queue_rest msg (n, c)).state ≡ c.state
unfolding queue_rest wait_for_room
queue_rest-state msg n c = ground arith

write_direct-state :
    (w : World) (msg : Bytes) (c : Connection) → (write_direct w msg c).1.state ≡ c.state
unfolding write_direct
write_direct-state w msg c = ground arith

send_in_loop-state :
    (w : World) (msg : Bytes) (c : Connection) → (send_in_loop w msg c).state ≡ c.state
unfolding send_in_loop
send_in_loop-state w msg c =
    let (n, d) = write_direct w msg c in
    ground (arith, write_direct-state w msg c, queue_rest-state msg n d, queue_rest-state msg 0 c)

pub send-state : (w : World) (msg : Bytes) (c : Connection) → (send w msg c).state ≡ c.state
unfolding send
send-state w msg c = ground (arith, send_in_loop-state w msg c)

shutdown_in_loop-state : (c : Connection) → (shutdown_in_loop c).state ≡ c.state
unfolding shutdown_in_loop
shutdown_in_loop-state c = ground arith

begin_shutdown-far : (c : Connection) → is_live c.state ≡ true → far c ≤ far (begin_shutdown c)
unfolding begin_shutdown
begin_shutdown-far c e = elim (live_cases c.state e) [
  | inl on ↦ rw on (omega arith)
  | inr off ↦ rw off (omega arith)
]

shutdown-far : (c : Connection) → far c ≤ far (shutdown c)
unfolding shutdown begin_shutdown
shutdown-far c = elim (State-cases c.state) [
  | inl e ↦ rw (e, ap rank (shutdown_in_loop-state (begin_shutdown c))) (omega arith)
  | inr off ↦ rw off (omega arith)
]

perform-far : (w : World) (asked : List Api) (c : Connection) → far c ≤ far (perform w asked c)
unfolding perform
perform-far w [] c = omega arith
perform-far w (sends msg ∷ rest) c =
    omega (arith, ap rank (send-state w msg c), perform-far w rest (send w msg c))
perform-far w (shuts ∷ rest) c = omega (arith, shutdown-far c, perform-far w rest (shutdown c))

-- Behind a close, whatever the callback asks.
pub handle_close-state : (w : World) (c : Connection) → (handle_close w c).state ≡ k_disconnected
unfolding handle_close disconnect notify_connection
handle_close-state w c = ap (λ (k : Connection). k.state) (perform-closed w _ _ refl)

disconnect-state : (w : World) (c : Connection) → (disconnect w c).state ≡ k_disconnected
unfolding disconnect notify_connection
disconnect-state w c = ap (λ (k : Connection). k.state) (perform-closed w _ _ refl)

rank_bounded : (st : State) → rank st ≤ 3
rank_bounded st = ground arith

read_round-far : (w : World) (c : Connection) → far c ≤ far (read_round w c).0
unfolding read_round handle_error notify_message
read_round-far w c = far_of (w.readv c.calls (offered c.input)) refl
  where
    counted : Connection
    counted = record c { calls = c.calls + 1 }

    far_of : (r : Arrival) → w.readv c.calls (offered c.input) ≡ r → far c ≤ far (read_round w c).0
    far_of (arrived []) e =
        rw (e, read_round, ap rank (handle_close-state w counted)) (rank_bounded c.state)
    far_of (arrived (x ∷ xs)) e = rw (e, read_round) (perform-far w _ _)
    far_of (read_failed eagain) e = rw (e, read_round) (omega arith)
    far_of (read_failed other_errno) e = rw (e, read_round) (omega arith)

connect_destroyed-far : (w : World) (c : Connection) → far c ≤ far (connect_destroyed w c)
unfolding connect_destroyed unregister
connect_destroyed-far w c = elim (Bool-cases (is_connected c.state)) [
  | inl e ↦ rw (e, ap rank (disconnect-state w c)) (rank_bounded c.state)
  | inr off ↦ rw off (omega arith)
]

connect_established-far :
    (w : World) (c : Connection) → c.state ≡ k_connecting → far c ≤ far (connect_established w c)
unfolding connect_established notify_connection
connect_established-far w c e = rw e (omega arith)

Step-far : (w : World) {c d : Connection} → Posix w → IsSound c → Step w c d → far c ≤ far d
unfolding handle_error
Step-far w {c} p s (established e r) = connect_established-far w c e
Step-far w {c} p s (sending msg r) = omega (arith, ap rank (send-state w msg c))
Step-far w {c} p s shutting = shutdown-far c
Step-far w {c} p s (reading b) = read_round-far w c
Step-far w {c} p s (flushing fuel d h e) =
    let (d', e', f) = handle_write_total fuel w c p s h in
    let same : d' ≡ d = cc (sym e' ∙ e) in
    subst (λ (k : Connection). far c ≤ far k) same (omega (arith, ap rank f.same_state))
Step-far w {c} p s closing = omega (arith, ap rank (handle_close-state w c), rank_bounded c.state)
Step-far w {c} p s failing = omega arith
Step-far w {c} p s destroyed = connect_destroyed-far w c
Step-far w {c} p s (shutdown_stored e) = begin_shutdown-far c e
Step-far w {c} p s (shutdown_task e) = omega (arith, ap rank (shutdown_in_loop-state c))
Step-far w {c} p s (send_task msg r) = omega (arith, ap rank (send_in_loop-state w msg c))

-- From a sound connection, with a POSIX socket and an application that leaves a valid buffer, no
-- history goes back in the order of the states: connecting, connected, disconnecting, disconnected.
pub Reach-far :
    (w : World) {c d : Connection}
    → Posix w
    → Polite w
    → IsSound c
    → Reach w c d
    → rank c.state ≤ rank d.state
Reach-far w p q s here = omega arith
Reach-far w p q s (next {d = d} {e = e} r st) =
    let k = (Reach-Kept w p q s r).sound in omega (arith, Reach-far w p q s r, Step-far w p k st)
