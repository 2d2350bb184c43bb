-- ===== src/Connection/Reach.antt =====
-- Everything that can happen to a connection (src/net/TcpConnection.cc), as a step relation, and
-- its histories.
use reactor_chat_server.Common.{
  ℕ, ◌<◌, ◌≡◌, refl, sym, ap, ◌∙◌, subst, true, false, [], ◌++◌, Bytes, length, arith, inl, inr,
  some, append-nil, append_assoc, length-eq-zero,
}
use reactor_chat_server.Buffer.{offered}
use reactor_chat_server.Buffer.Invariant.{Fits}
use reactor_chat_server.Buffer.Contents.{contents}
use reactor_chat_server.Connection.{
  State, k_connecting, k_connected, k_disconnecting, k_disconnected, World, Connection, writing,
  arrived, send, send_in_loop, shutdown, shutdown_in_loop, begin_shutdown, handle_write, read_round,
  handle_close, handle_error, connect_established, connect_destroyed, is_connected,
}
use reactor_chat_server.Connection.Invariant.{
  Posix, stream, IsSound, is_ending, State-cases, not_shut, Waiting-live, is_live, live_cases,
}
use reactor_chat_server.Connection.Send.{send-Sent, send_in_loop-Sent}
use reactor_chat_server.Connection.WriteLoop.{handle_write_total, handle_write-idle}
use reactor_chat_server.Connection.Perform.{
  Room, accepted, shutdown-Ended, shutdown-closed, begin_shutdown-IsSound, send_in_loop-closed,
  shutdown_in_loop-IsSound, begin_shutdown-stream,
}
use reactor_chat_server.Connection.Events.{handle_close-Closed, connect_destroyed-IsSound}
use reactor_chat_server.Connection.Life.{connect_established-IsSound, opened}
use reactor_chat_server.Connection.Hear.{Polite, Bounded, read_round-Heard}

-- A step: a call of the interface on the owner's thread, an event of the channel, a call of the
-- server, a task that another thread posted, or the store of `state_` by a `shutdown` on another
-- thread, which saw the connection connected and stores before it is closed. A store that comes
-- later is in Race.
pub data Step (w : World) (c : Connection) : Connection → Type 0 where
  established :
      c.state ≡ k_connecting
      → Room w (w.on_connection (length c.notices) k_connected) (opened c)
      → Step w c (connect_established w c)
  sending : (msg : Bytes) → Fits (length msg) c.output → Step w c (send w msg c)
  shutting : Step w c (shutdown c)
  reading :
      ((bytes : Bytes) → w.readv c.calls (offered c.input) ≡ arrived bytes → Bounded w c bytes)
      → Step w c (read_round w c).0
  flushing :
      (fuel : ℕ) (d : Connection)
      → length (contents c.output) < fuel
      → handle_write fuel w c ≡ some d
      → Step w c d
  closing : Step w c (handle_close w c)
  failing : Step w c (handle_error c)
  destroyed : Step w c (connect_destroyed w c)
  shutdown_stored : is_live c.state ≡ true → Step w c (begin_shutdown c)
  shutdown_task : is_ending c.state ≡ true → Step w c (shutdown_in_loop c)
  send_task : (msg : Bytes) → Fits (length msg) c.output → Step w c (send_in_loop w msg c)

-- What each step keeps: the invariant, the order of all that was accepted, and the end of the
-- stream once the writing end is shut.
pub record Kept (c d : Connection) : Type 0 where
  pub sound : IsSound d
  pub streamed : (more : Bytes) × (stream d ≡ stream c ++ more)
  pub ended : c.shut ≡ true → (d.sent ≡ c.sent) × (d.shut ≡ true)

ending_off : (st : State) → is_ending st ≡ true → is_connected st ≡ false
ending_off k_connecting e = refl
ending_off k_connected e = cc
ending_off k_disconnecting e = refl
ending_off k_disconnected e = refl

module _ (c : Connection) (s : IsSound c) where
  -- A connection whose writing end is shut is not connected, and waits for nothing.
  shut_state : c.shut ≡ true → (is_connected c.state ≡ false) × (writing c ≡ false)
  shut_state e = (ending_off c.state (ground (arith, s.closed)), ground (arith, s.closed))

  stays : Kept c c
  stays = record { sound = s; streamed = ([], sym (append-nil (stream c))); ended = λ e. (refl, e) }

  -- A step to a connection with the same socket and stream.
  still :
      (d : Connection)
      → IsSound d
      → stream d ≡ stream c
      → d.sent ≡ c.sent
      → (c.shut ≡ true → d.shut ≡ true)
      → Kept c d
  still d t e f g = record {
    sound = t;
    streamed = ([], e ∙ sym (append-nil (stream c)));
    ended = λ h. (f, g h);
  }

  -- A step that the state `kConnected` allows only.
  growing :
      (d : Connection) (more : Bytes)
      → is_ending c.state ≡ false
      → IsSound d
      → stream d ≡ stream c ++ more
      → Kept c d
  growing d more unended t e = record {
    sound = t;
    streamed = (more, e);
    ended = λ h. absurd (ground (arith, not_shut c s unended));
  }

handle_error-IsSound : (c : Connection) → IsSound c → IsSound (handle_error c)
unfolding handle_error
handle_error-IsSound c s = record {
  input_valid = s.input_valid;
  output_valid = s.output_valid;
  attached = s.attached;
  waiting = s.waiting;
  closed = s.closed;
}

-- A second store changes nothing.
begin_shutdown-again : (c : Connection) → c.state ≡ k_disconnecting → c ≡ begin_shutdown c
unfolding begin_shutdown
begin_shutdown-again c e = ap (λ st. record c { state = st }) e

-- Every step keeps the invariant; it only adds to the end of what was accepted; and once the
-- writing end is shut no step sends a byte.
pub Step-Kept :
    (w : World) {c d : Connection} → Posix w → Polite w → IsSound c → Step w c d → Kept c d
unfolding handle_error
Step-Kept w {c} p q s (established e r) =
    let (t, f) = connect_established-IsSound w c p s e r in
    growing c s _ (accepted (w.on_connection (length c.notices) k_connected)) (ap is_ending e) t f
Step-Kept w {c} p q s (sending msg r) = elim (send-Sent w msg c p s r) [
  | inl (e, d) ↦ growing c s _ msg (ap is_ending e) d.sound d.streamed
  | inr (off, e) ↦ subst (Kept c) (sym e) (stays c s)
]
Step-Kept w {c} p q s shutting =
    let d = shutdown-Ended c s in
    elim (State-cases c.state) [
      | inl e ↦ growing c s _ [] (ap is_ending e) d.sound (d.streamed ∙ sym (append-nil (stream c)))
      | inr off ↦ subst (Kept c) (sym (shutdown-closed c off)) (stays c s)
    ]
Step-Kept w {c} p q s (reading b) =
    let h = read_round-Heard w c p q s b in
    record {
      sound = h.sound;
      streamed = h.streamed;
      ended = λ e. let l = h.late (shut_state c s e).0 in (l.0, l.1 ∙ e);
    }
Step-Kept w {c} p q s (flushing fuel d h e) =
    let (d', e', f) = handle_write_total fuel w c p s h in
    let same : d' ≡ d = cc (sym e' ∙ e) in
    subst (Kept c) same (record {
      sound = f.sound;
      streamed = ([], f.streamed ∙ sym (append-nil (stream c)));
      ended = λ shut.
          let idle = (shut_state c s shut).1 in
          let kept : c ≡ d' = cc (handle_write-idle fuel w c idle) in
          (
            ap (λ (k : Connection). k.sent) (sym kept),
            ap (λ (k : Connection). k.shut) (sym kept) ∙ shut,
          );
    })
Step-Kept w {c} p q s closing =
    let (t, d) = handle_close-Closed w c s in still c s _ t d.streamed d.sent (λ h. d.shut ∙ h)
Step-Kept w {c} p q s failing = still c s _ (handle_error-IsSound c s) refl refl (λ h. h)
Step-Kept w {c} p q s destroyed =
    let (t, _, f, g, e, _) = connect_destroyed-IsSound w c s in still c s _ t e f (λ h. g ∙ h)
Step-Kept w {c} p q s (shutdown_stored e) = elim (live_cases c.state e) [
  | inl on ↦
      let t = begin_shutdown-IsSound c s on in
      growing c s _ [] (ap is_ending on) t (begin_shutdown-stream c)
  | inr off ↦ subst (Kept c) (begin_shutdown-again c off) (stays c s)
]
Step-Kept w {c} p q s (shutdown_task e) =
    let (t, f, g, h) = shutdown_in_loop-IsSound c s e in still c s _ t g f h
Step-Kept w {c} p q s (send_task msg r) = elim (State-cases c.state) [
  | inl e ↦
      let d = send_in_loop-Sent w msg c p s e r in
      growing c s _ msg (ap is_ending e) d.sound d.streamed
  | inr off ↦ subst (Kept c) (sym (send_in_loop-closed w msg c off)) (stays c s)
]

pub data Reach (w : World) (c : Connection) : Connection → Type 0 where
  here : Reach w c c
  next : {d e : Connection} → Reach w c d → Step w d e → Reach w c e

pub Kept-trans : {c d e : Connection} → Kept c d → Kept d e → Kept c e
Kept-trans {c} {d} {e} f g =
    let (xs, h) = f.streamed in
    let (ys, k) = g.streamed in
    record {
      sound = g.sound;
      streamed = (xs ++ ys, k ∙ ap (λ (l : Bytes). l ++ ys) h ∙ append_assoc (stream c) xs ys);
      ended = λ shut. let a = f.ended shut in let b = g.ended a.1 in (b.0 ∙ a.0, b.1);
    }

-- From a sound connection every history of steps (establishing, send, shutdown, reading, flushing,
-- closing, destruction, the tasks that other threads post, and a shutdown of another thread whose
-- store finds the connection not closed), with a POSIX socket, an application that leaves a valid
-- buffer, and arrays within their maximum at each step that fills one, ends in a sound connection;
-- what was accepted for sending is only added to, at its end; and if the writing end was shut at
-- the start, no byte is sent and it stays shut.
pub Reach-Kept :
    (w : World) {c d : Connection} → Posix w → Polite w → IsSound c → Reach w c d → Kept c d
Reach-Kept w {c} p q s here = stays c s
Reach-Kept w p q s (next r st) =
    let k = Reach-Kept w p q s r in Kept-trans k (Step-Kept w p q k.sound st)

-- In every history from a sound connection in which no shutdown of another thread stores its state
-- behind the close, with a POSIX socket, an application that leaves a valid buffer, and arrays
-- within their maximum at each step that fills one: a connection in the state kDisconnecting whose
-- writing end is shut has an empty output buffer, and every byte that was accepted has been sent.
pub shut_flushed :
    (w : World) {c d : Connection}
    → Posix w
    → Polite w
    → IsSound c
    → Reach w c d
    → d.state ≡ k_disconnecting
    → d.shut ≡ true
    → (contents d.output ≡ []) × (d.sent ≡ stream d)
shut_flushed w {c} {d} p q s r e shut =
    let t = (Reach-Kept w p q s r).sound in
    let idle = (shut_state d t shut).1 in
    let empty : contents d.output ≡ [] =
      length-eq-zero _ (ground (arith, Waiting-live d.state _ _ (ap is_live e) t.waiting)) in
    (empty, sym (ap (◌++◌ d.sent) empty ∙ append-nil d.sent))
