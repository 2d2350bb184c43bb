-- ===== src/Connection/Perform.antt =====
-- `shutdown` (src/net/TcpConnection.cc), and what a callback does to the connection that it is
-- given.
use reactor_chat_server.Common.{
  ◌≡◌, refl, sym, ap, ◌∙◌, subst, Bool, true, false, not, List, [], ◌∷◌, ◌++◌, Bytes, length, ltb,
  arith, inl, inr, ◌⊎◌, Bool-cases, if◌then◌else◌, append-nil, append_assoc, length-eq-zero,
}
use reactor_chat_server.Buffer.Invariant.{Fits}
use reactor_chat_server.Buffer.Contents.{contents}
use reactor_chat_server.Connection.{
  k_connected, k_disconnecting, World, Connection, writing, Api, sends, shuts, send, send_in_loop,
  begin_shutdown, shutdown, shutdown_in_loop, perform, is_connected,
}
use reactor_chat_server.Connection.Invariant.{
  Posix, stream, IsSound, is_ending, State-cases, Waiting-connected, not_shut,
}
use reactor_chat_server.Connection.Send.{send-Sent}

-- The effect of `shutdown`.
pub record Ended (c d : Connection) : Type 0 where
  pub sound : IsSound d
  pub streamed : stream d ≡ stream c
  pub not_connected : is_connected d.state ≡ false
  pub shut_last : (d.shut ≡ c.shut) ⊎ ((d.state ≡ k_disconnecting) × (d.sent ≡ stream c))
  pub shuts : is_connected c.state ≡ true → (d.state ≡ k_disconnecting) × (d.shut ≡ not (writing c))
  pub off : is_connected c.state ≡ false → d ≡ c

pub begin_shutdown-IsSound :
    (c : Connection) → IsSound c → c.state ≡ k_connected → IsSound (begin_shutdown c)
unfolding begin_shutdown
begin_shutdown-IsSound c s e = record {
  input_valid = s.input_valid;
  output_valid = s.output_valid;
  attached = s.attached;
  waiting = Waiting-connected c.state _ _ e s.waiting;
  closed = ground (arith, not_shut c s (ap is_ending e));
}

-- With nothing waiting, all that was accepted has been sent.
flushed :
    (c : Connection)
    → writing c ≡ ltb 0 (length (contents c.output))
    → writing c ≡ false
    → c.sent ≡ stream c
flushed c h idle =
    sym (ap (◌++◌ c.sent) (length-eq-zero (contents c.output) (ground arith)) ∙ append-nil c.sent)

shutdown-connected :
    (c : Connection)
    → IsSound c
    → c.state ≡ k_connected
    → Ended c (shutdown_in_loop (begin_shutdown c))
unfolding begin_shutdown shutdown_in_loop
shutdown-connected c s e =
    let t = begin_shutdown-IsSound c s e in
    elim (Bool-cases (writing c)) [
      | inl busy ↦ simp busy (record {
        sound = t;
        streamed = refl;
        not_connected = refl;
        shut_last = inl refl;
        shuts = λ _. (refl, not_shut c s (ap is_ending e) ∙ sym (ap not busy));
        off = λ o. absurd (ground (arith, ap is_connected e));
      })
      | inr idle ↦ simp idle (record {
        sound = record {
          input_valid = s.input_valid;
          output_valid = s.output_valid;
          attached = s.attached;
          waiting = t.waiting;
          closed = ground (arith, idle);
        };
        streamed = refl;
        not_connected = refl;
        shut_last = inr (refl, flushed c (Waiting-connected c.state _ _ e s.waiting) idle);
        shuts = λ _. (refl, sym (ap not idle));
        off = λ o. absurd (ground (arith, ap is_connected e));
      })
    ]

-- shutdown on a sound connection keeps the invariant, loses nothing and leaves it not connected; a
-- connected one is then in the state kDisconnecting, its writing end shut exactly if it was not
-- waiting for room, and never with bytes still to send; any other stays as it is.
pub shutdown-Ended : (c : Connection) → IsSound c → Ended c (shutdown c)
unfolding shutdown begin_shutdown
shutdown-Ended c s =
    let test = λ (t : Bool). if t then shutdown_in_loop (begin_shutdown c) else c in
    elim (State-cases c.state) [
      | inl e ↦ subst (Ended c) (sym (ap test (ap is_connected e))) (shutdown-connected c s e)
      | inr off ↦ subst (Ended c) (sym (ap test off)) (record {
        sound = s;
        streamed = refl;
        not_connected = off;
        shut_last = inl refl;
        shuts = λ on. cc;
        off = λ _. refl;
      })
    ]

pub send-closed :
    (w : World) (msg : Bytes) (c : Connection) → is_connected c.state ≡ false → send w msg c ≡ c
unfolding send
send-closed w msg c e = ap (λ t. if t then send_in_loop w msg c else c) e

pub shutdown-closed : (c : Connection) → is_connected c.state ≡ false → shutdown c ≡ c
unfolding shutdown begin_shutdown
shutdown-closed c e = ap (λ t. if t then shutdown_in_loop (begin_shutdown c) else c) e

-- A callback of a connection that is not connected changes nothing.
pub perform-closed :
    (w : World) (asked : List Api) (c : Connection)
    → is_connected c.state ≡ false
    → perform w asked c ≡ c
unfolding perform
perform-closed w [] c e = refl
perform-closed w (sends msg ∷ rest) c e =
    ap (perform w rest) (send-closed w msg c e) ∙ perform-closed w rest c e
perform-closed w (shuts ∷ rest) c e =
    ap (perform w rest) (shutdown-closed c e) ∙ perform-closed w rest c e

-- The array of the output buffer stays within its maximum, send by send.
abbrev pub Room : World → List Api → Connection → Type 0
Room w [] c = Unit {0}
Room w (sends msg ∷ rest) c = Fits (length msg) c.output × Room w rest (send w msg c)
Room w (shuts ∷ rest) c = Room w rest (shutdown c)

-- The messages that a connected connection accepts: those before its first `shutdown`.
abbrev pub accepted : List Api → Bytes
accepted [] = []
accepted (sends msg ∷ rest) = msg ++ accepted rest
accepted (shuts ∷ rest) = []

pub record Performed (asked : List Api) (c d : Connection) : Type 0 where
  pub sound : IsSound d
  pub streamed : stream d ≡ stream c ++ accepted asked

-- A callback on a sound connected connection, with a POSIX socket and room in the output array:
-- exactly the messages before its first shutdown are accepted, in order, and the invariant is kept.
pub perform-Performed :
    (w : World) (asked : List Api) (c : Connection)
    → Posix w
    → IsSound c
    → c.state ≡ k_connected
    → Room w asked c
    → Performed asked c (perform w asked c)
unfolding perform
perform-Performed w [] c p s e r = record { sound = s; streamed = sym (append-nil (stream c)) }
perform-Performed w (shuts ∷ rest) c p s e r =
    let d = shutdown-Ended c s in
    subst (Performed (shuts ∷ rest) c) (sym (perform-closed w rest (shutdown c) d.not_connected))
      (record { sound = d.sound; streamed = d.streamed ∙ sym (append-nil (stream c)) })
perform-Performed w (sends msg ∷ rest) c p s e r = elim (send-Sent w msg c p s r.0) [
  | inr (off, _) ↦ absurd_state off e
  | inl (_, d) ↦
      let q = perform-Performed w rest (send w msg c) p d.sound (d.same_state ∙ e) r.1 in
      record {
        sound = q.sound;
        streamed =
            q.streamed
            ∙ ap (λ (l : Bytes). l ++ accepted rest) d.streamed
            ∙ append_assoc (stream c) msg (accepted rest);
      }
]
  where
    absurd_state :
        is_connected c.state ≡ false
        → c.state ≡ k_connected
        → Performed (sends msg ∷ rest) c (perform w rest (send w msg c))
    absurd_state off e = absurd (ground arith)

pub send_in_loop-closed :
    (w : World) (msg : Bytes) (c : Connection)
    → is_connected c.state ≡ false
    → send_in_loop w msg c ≡ c
unfolding send_in_loop
send_in_loop-closed w msg c e = rw e

-- The second half of `shutdown`, as a posted task runs it: nothing is sent and nothing is lost.
pub shutdown_in_loop-IsSound :
    (c : Connection)
    → IsSound c
    → is_ending c.state ≡ true
    → IsSound (shutdown_in_loop c)
      × ((shutdown_in_loop c).sent ≡ c.sent)
      × (stream (shutdown_in_loop c) ≡ stream c)
      × (c.shut ≡ true → (shutdown_in_loop c).shut ≡ true)
unfolding shutdown_in_loop
shutdown_in_loop-IsSound c s e = elim (Bool-cases (writing c)) [
  | inl busy ↦ simp busy (s, refl, refl, λ h. h)
  | inr idle ↦ simp idle (
    record {
      input_valid = s.input_valid;
      output_valid = s.output_valid;
      attached = s.attached;
      waiting = s.waiting;
      closed = ground (arith, idle);
    },
    refl,
    refl,
    λ h. refl,
  )
]

pub begin_shutdown-stream : (c : Connection) → stream (begin_shutdown c) ≡ stream c ++ []
unfolding begin_shutdown
begin_shutdown-stream c = sym (append-nil (stream c))

pub shutdown_in_loop-stream :
    (c : Connection)
    → (stream (shutdown_in_loop c) ≡ stream c) × ((shutdown_in_loop c).sent ≡ c.sent)
unfolding shutdown_in_loop
shutdown_in_loop-stream c = elim (Bool-cases (writing c)) [
  | inl busy ↦ simp busy (refl, refl)
  | inr idle ↦ simp idle (refl, refl)
]
