-- ===== src/Connection/Asked.antt =====
-- What a callback's requests do besides sending (src/net/TcpConnection.cc): the input buffer, the
-- state and the writing end.
use reactor_chat_server.Common.{
  ℕ, ◌≡◌, refl, sym, ap, subst, ◌∙◌, Bool, true, false, not, List, [], ◌∷◌, Bytes, inl, inr, arith,
}
use reactor_chat_server.Connection.{
  k_connected, k_disconnecting, World, Connection, Api, sends, shuts, writing, send, send_in_loop,
  write_direct, queue_rest, wait_for_room, shutdown, shutdown_in_loop, begin_shutdown, perform,
  is_connected,
}
use reactor_chat_server.Connection.Invariant.{Posix, IsSound}
use reactor_chat_server.Connection.Send.{send-Sent}
use reactor_chat_server.Connection.Perform.{Room, perform-closed, shutdown-Ended}

-- Nothing that is asked of a connection touches its input buffer.
queue_rest-input : (msg : Bytes) (n : ℕ) (c : Connection) → (queue_rest msg (n, c)).input ≡ c.input
unfolding queue_rest wait_for_room
queue_rest-input msg n c = ground arith

write_direct-input :
    (w : World) (msg : Bytes) (c : Connection) → (write_direct w msg c).1.input ≡ c.input
unfolding write_direct
write_direct-input w msg c = ground arith

send-input : (w : World) (msg : Bytes) (c : Connection) → (send w msg c).input ≡ c.input
unfolding send send_in_loop
send-input w msg c =
    let (n, d) = write_direct w msg c in
    ground (arith, write_direct-input w msg c, queue_rest-input msg n d, queue_rest-input msg 0 c)

shutdown-input : (c : Connection) → (shutdown c).input ≡ c.input
unfolding shutdown shutdown_in_loop begin_shutdown
shutdown-input c = ground arith

pub perform-input :
    (w : World) (asked : List Api) (c : Connection) → (perform w asked c).input ≡ c.input
unfolding perform
perform-input w [] c = refl
perform-input w (sends msg ∷ rest) c = perform-input w rest (send w msg c) ∙ send-input w msg c
perform-input w (shuts ∷ rest) c = perform-input w rest (shutdown c) ∙ shutdown-input c

-- Whether a callback asks for a shutdown.
abbrev pub ends : List Api → Bool
ends [] = false
ends (sends msg ∷ rest) = ends rest
ends (shuts ∷ rest) = true

shutdown-writing : (c : Connection) → writing (shutdown c) ≡ writing c
unfolding shutdown shutdown_in_loop begin_shutdown
shutdown-writing c = ground arith

-- The state behind a callback on a connected connection, and the writing end with it.
abbrev pub Left : Bool → Connection → Type 0
Left true d = (d.state ≡ k_disconnecting) × (d.shut ≡ not (writing d))
Left false d = d.state ≡ k_connected

pub perform-Left :
    (w : World) (asked : List Api) (c : Connection)
    → Posix w
    → IsSound c
    → c.state ≡ k_connected
    → Room w asked c
    → Left (ends asked) (perform w asked c)
unfolding perform
perform-Left w [] c p s e r = e
perform-Left w (shuts ∷ rest) c p s e r =
    let d = shutdown-Ended c s in
    let (st, shut) = d.shuts (ap is_connected e) in
    subst (Left true) (sym (perform-closed w rest (shutdown c) d.not_connected))
      (st, shut ∙ ap not (sym (shutdown-writing c)))
perform-Left w (sends msg ∷ rest) c p s e r = elim (send-Sent w msg c p s r.0) [
  | inr (off, _) ↦ let on : is_connected c.state ≡ true = ap is_connected e in cc
  | inl (_, d) ↦ perform-Left w rest (send w msg c) p d.sound (d.same_state ∙ e) r.1
]
