-- ===== src/Connection/Send.antt =====
-- `send` and `sendInLoop` of src/net/TcpConnection.cc.
use reactor_chat_server.Common.{
  ℕ, ◌≤◌, ◌≡◌, refl, sym, ap, ◌∙◌, true, false, not, ◌&&◌, [], ◌++◌, Bytes, length, take, drop, ltb,
  ◌==◌, sub64, arith, inl, inr, Bool-cases, take_all, take-append-drop, length-drop, length-append,
  append-nil, append_assoc, length-eq-zero, drop_all, ap₂, subst, ◌<◌, lt→ltb, ◌⊎◌,
}
use reactor_chat_server.Buffer.{append, readable_bytes}
use reactor_chat_server.Buffer.Invariant.{IsValid, Fits, max_size}
use reactor_chat_server.Buffer.Contents.{
  contents, append-contents, append-IsValid, length-contents-readable,
}
use reactor_chat_server.Channel.Events.{is_writing-enable_writing, enable_writing-Attached}
use reactor_chat_server.Connection.{
  k_connected, World, wrote, write_failed, Connection, writing, write_direct, queue_rest,
  wait_for_room, send_in_loop, send, is_connected, WriteResult,
}
use reactor_chat_server.Channel.Registered.{Attached}
use reactor_chat_server.Connection.Invariant.{
  connected-Waiting, not_shut, State-cases, Posix, stream, IsSound, is_ending,
}

-- What a write of `msg` makes of a connected connection: the bytes are accepted, and all else that
-- the callers look at stays.
pub record Sent (msg : Bytes) (c d : Connection) : Type 0 where
  pub sound : IsSound d
  pub streamed : stream d ≡ stream c ++ msg
  pub same_state : d.state ≡ c.state
  pub same_shut : d.shut ≡ c.shut

-- The bytes behind the written ones, as `append` is given them.
rest_eq :
    (n : ℕ) (msg : Bytes)
    → n ≤ length msg
    → length msg ≤ max_size
    → take (sub64 (length msg) n) (drop n msg) ≡ drop n msg
rest_eq n msg h k = take_all _ _ (omega (arith, length-drop n msg))

-- `enableWriting`, if it is not on: all but the channel and the poller stays.
record Waits (c d : Connection) : Type 0 where
  on : writing d ≡ true
  attached : Attached d.channel d.poller
  input : d.input ≡ c.input
  output : d.output ≡ c.output
  sent : d.sent ≡ c.sent
  state : d.state ≡ c.state
  shut : d.shut ≡ c.shut

wait_for_room-Waits : (c : Connection) → Attached c.channel c.poller → Waits c (wait_for_room c)
unfolding wait_for_room
wait_for_room-Waits c a = elim (Bool-cases (writing c)) [
  | inl busy ↦ simp busy (record {
    on = busy;
    attached = a;
    input = refl;
    output = refl;
    sent = refl;
    state = refl;
    shut = refl;
  })
  | inr free ↦ simp free (record {
    on = is_writing-enable_writing c.channel c.poller;
    attached = enable_writing-Attached c.channel c.poller a;
    input = refl;
    output = refl;
    sent = refl;
    state = refl;
    shut = refl;
  })
]

module _ (msg : Bytes) (n : ℕ) (c : Connection) where
  -- The rest is queued: the channel waits for room exactly if something waits.
  queue_rest-Sent :
      IsSound c
      → c.state ≡ k_connected
      → n ≤ length msg
      → Fits (length msg) c.output
      → Sent (drop n msg) c (queue_rest msg (n, c))
  unfolding queue_rest
  queue_rest-Sent s e h f = elim (Bool-cases (ltb 0 (sub64 (length msg) n))) [
    | inl more ↦
        rw (more, rest_eq n msg h (omega arith)) (queued (ground (arith, length-drop n msg)))
    | inr done ↦
        let none_left : drop n msg ≡ [] = drop_all n msg (ground arith) in
        rw (done, none_left)
          (record {
            sound = s;
            streamed = sym (append-nil (stream c));
            same_state = refl;
            same_shut = refl;
          })
  ]
    where
      rest : Bytes
      rest = drop n msg

      q : Connection
      q = record c { output = append rest c.output }

      fit : Fits (length rest) c.output
      fit = omega (arith, length-drop n msg)

      added : contents q.output ≡ contents c.output ++ rest
      added = append-contents rest c.output s.output_valid fit

      w : Waits q (wait_for_room q)
      w = wait_for_room-Waits q s.attached

      queued : 0 < length rest → Sent rest c (wait_for_room q)
      queued more = record {
        sound = record {
          input_valid = subst IsValid (sym w.input) s.input_valid;
          output_valid =
              subst IsValid (sym w.output) (append-IsValid rest c.output s.output_valid fit);
          attached = w.attached;
          waiting = connected-Waiting _ _ _ (w.state ∙ e) (
              w.on
              ∙ sym (
                  rw (w.output) (
                    lt→ltb 0 _
                      (omega (arith, ap length added, length-append (contents c.output) rest)))));
          closed = rw (w.shut) (ground (arith, not_shut c s (ap is_ending e)));
        };
        streamed =
            ap₂ (λ (l : Bytes) b. l ++ contents b) w.sent w.output
            ∙ ap (◌++◌ c.sent) added
            ∙ sym (append_assoc c.sent (contents c.output) rest);
        same_state = w.state;
        same_shut = w.shut;
      }

Sent-trans : (xs ys : Bytes) {c d e : Connection} → Sent xs c d → Sent ys d e → Sent (xs ++ ys) c e
Sent-trans xs ys {c} s t = record {
  sound = t.sound;
  streamed = t.streamed ∙ ap (λ (l : Bytes). l ++ ys) s.streamed ∙ append_assoc (stream c) xs ys;
  same_state = t.same_state ∙ s.same_state;
  same_shut = t.same_shut ∙ s.same_shut;
}

-- A direct write accepts the bytes that the kernel took, and leaves the output buffer alone.
record Direct (msg : Bytes) (c : Connection) (out : ℕ × Connection) : Type 0 where
  bounded : out.0 ≤ length msg
  accepted : Sent (take out.0 msg) c out.1
  output : out.1.output ≡ c.output

write_direct-Direct :
    (w : World) (msg : Bytes) (c : Connection) (r : WriteResult)
    → Posix w
    → IsSound c
    → contents c.output ≡ []
    → w.write c.calls msg ≡ r
    → Direct msg c (write_direct w msg c)
unfolding write_direct
write_direct-Direct w msg c (write_failed e) p s none_waits h =
    rw (h, write_direct)
      (record {
        bounded = omega arith;
        accepted = record {
          sound = record {
            input_valid = s.input_valid;
            output_valid = s.output_valid;
            attached = s.attached;
            waiting = s.waiting;
            closed = s.closed;
          };
          streamed = sym (append-nil (stream c));
          same_state = refl;
          same_shut = refl;
        };
        output = refl;
      })
write_direct-Direct w msg c (wrote n) p s none_waits h =
    rw (h, write_direct)
      (record {
        bounded = p.write_bounded c.calls msg n h;
        accepted = record {
          sound = record {
            input_valid = s.input_valid;
            output_valid = s.output_valid;
            attached = s.attached;
            waiting = s.waiting;
            closed = s.closed;
          };
          streamed =
              ap (◌++◌ (c.sent ++ take n msg)) none_waits
              ∙ append-nil (c.sent ++ take n msg)
              ∙ ap (λ (l : Bytes). l ++ take n msg)
                  (sym (ap (◌++◌ c.sent) none_waits ∙ append-nil c.sent));
          same_state = refl;
          same_shut = refl;
        };
        output = refl;
      })

-- `sendInLoop` on a connected connection accepts the whole message, whatever the kernel answers,
-- behind all that was accepted before, and keeps the invariant.
pub send_in_loop-Sent :
    (w : World) (msg : Bytes) (c : Connection)
    → Posix w
    → IsSound c
    → c.state ≡ k_connected
    → Fits (length msg) c.output
    → Sent msg c (send_in_loop w msg c)
unfolding send_in_loop
send_in_loop-Sent w msg c p s e f =
    let on : is_connected c.state ≡ true = ap is_connected e in
    elim (Bool-cases (not (writing c) && readable_bytes c.output == 0)) [
      | inl idle ↦
          let size : length (contents c.output) ≡ 0 =
            length-contents-readable c.output s.output_valid ∙ ground arith in
          let d =
            write_direct-Direct w msg c (w.write c.calls msg) p s (length-eq-zero _ size) refl in
          let n = (write_direct w msg c).0 in
          rw (on, idle)
            (subst (λ l. Sent l c (queue_rest msg (write_direct w msg c))) (take-append-drop n msg)
              (Sent-trans (take n msg) (drop n msg) d.accepted (
                queue_rest-Sent msg n (write_direct w msg c).1 d.accepted.sound
                  (d.accepted.same_state ∙ e) d.bounded
                  (subst (Fits (length msg)) (sym d.output) f))))
      | inr waits ↦ rw (on, waits) (queue_rest-Sent msg 0 c s e (omega arith) f)
    ]

-- On a sound connection with a POSIX socket, with room for the message in the output array: in the
-- state kConnected send accepts the whole message behind all that was accepted before, whatever the
-- socket answers, keeps the invariant and the state and shuts nothing; in any other state it
-- changes nothing.
pub send-Sent :
    (w : World) (msg : Bytes) (c : Connection)
    → Posix w
    → IsSound c
    → Fits (length msg) c.output
    → ((c.state ≡ k_connected) × Sent msg c (send w msg c))
      ⊎ ((is_connected c.state ≡ false) × (send w msg c ≡ c))
unfolding send
send-Sent w msg c p s f = elim (State-cases c.state) [
  | inl e ↦ inl (e, rw (ap is_connected e) (send_in_loop-Sent w msg c p s e f))
  | inr e ↦ inr (e, rw e)
]
