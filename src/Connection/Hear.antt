-- ===== src/Connection/Hear.antt =====
-- A round of `handleRead` (src/net/TcpConnection.cc).
use reactor_chat_server.Common.{
  ℕ, ◌+◌, ◌≤◌, ◌≡◌, ◌≢◌, refl, sym, ap, ◌∙◌, subst, Bool, true, false, List, [], ◌∷◌, ◌++◌, Bytes,
  length, inl, inr, append-nil,
}
use reactor_chat_server.Buffer.{Buffer, received, read_fd, offered}
use reactor_chat_server.Buffer.Invariant.{IsValid, max_size}
use reactor_chat_server.Buffer.Contents.{contents}
use reactor_chat_server.Buffer.Receive.{read_fd-received}
use reactor_chat_server.Connection.{
  k_disconnected, World, Connection, Api, message_notice, Arrival, arrived, read_failed, Errno,
  eagain, other_errno, perform, notify_message, handle_error, read_round, is_connected,
}
use reactor_chat_server.Connection.Invariant.{Posix, stream, IsSound, State-cases}
use reactor_chat_server.Connection.Perform.{perform-closed, Room, perform-Performed, accepted}
use reactor_chat_server.Connection.Events.{handle_close-Closed}

-- The application takes bytes off the buffer that it is given, and does no harm to it.
pub record Polite (w : World) : Type 0 where
  pub keeps : (i : ℕ) (b : Buffer) → IsValid b → IsValid (w.on_message i b).0

module _ (w : World) (c : Connection) (bytes : Bytes) where
  -- The input buffer that the message callback is given, and what it asks for.
  abbrev pub heard : Buffer
  heard = read_fd (received bytes) c.input

  abbrev pub reply : Buffer × List Api
  reply = w.on_message (length c.notices) heard

  unfoldable pub delivered : Connection
  delivered = record c {
    input = reply.0;
    notices = message_notice ∷ c.notices;
    calls = c.calls + 1;
  }

-- What the owner of the connection must see to: the input array stays within its maximum, and so
-- does the output array under the callback's answer.
pub record Bounded (w : World) (c : Connection) (bytes : Bytes) : Type 0 where
  pub fits : length c.input.buf + length bytes ≤ max_size
  pub room : Room w (reply w c bytes).1 (delivered w c bytes)

-- A callback at any state.
perform-IsSound :
    (w : World) (asked : List Api) (c : Connection)
    → Posix w
    → IsSound c
    → Room w asked c
    → IsSound (perform w asked c)
perform-IsSound w asked c p s r = elim (State-cases c.state) [
  | inl e ↦ (perform-Performed w asked c p s e r).sound
  | inr off ↦ subst IsSound (sym (perform-closed w asked c off)) s
]

pub delivered-IsSound :
    (w : World) (c : Connection) (bytes : Bytes)
    → IsSound c
    → IsValid (reply w c bytes).0
    → IsSound (delivered w c bytes)
unfolding delivered
delivered-IsSound w c bytes s v = record {
  input_valid = v;
  output_valid = s.output_valid;
  attached = s.attached;
  waiting = s.waiting;
  closed = s.closed;
}

perform-stream :
    (w : World) (asked : List Api) (c : Connection)
    → Posix w
    → IsSound c
    → Room w asked c
    → (more : Bytes) × (stream (perform w asked c) ≡ stream c ++ more)
perform-stream w asked c p s r = elim (State-cases c.state) [
  | inl e ↦ (accepted asked, (perform-Performed w asked c p s e r).streamed)
  | inr off ↦ ([], ap stream (perform-closed w asked c off) ∙ sym (append-nil (stream c)))
]

-- What a round makes of a connection, by the socket's answer.
pub record Heard (w : World) (c : Connection) (r : Arrival) (out : Connection × Bool) : Type 0 where
  pub sound : IsSound out.0
  pub streamed : (more : Bytes) × (stream out.0 ≡ stream c ++ more)
  pub late : is_connected c.state ≡ false → (out.0.sent ≡ c.sent) × (out.0.shut ≡ c.shut)
  pub on_data :
      (bytes : Bytes)
      → r ≡ arrived bytes
      → bytes ≢ []
      → (contents (heard w c bytes) ≡ contents c.input ++ bytes)
        × (out ≡ (perform w (reply w c bytes).1 (delivered w c bytes), true))
  pub on_end : r ≡ arrived [] → (out.0.state ≡ k_disconnected) × (out.1 ≡ false)
  pub on_error : (e : Errno) → r ≡ read_failed e → (out.0.state ≡ c.state) × (out.1 ≡ false)

counted-IsSound : (c : Connection) → IsSound c → IsSound (record c { calls = c.calls + 1 })
counted-IsSound c s = record {
  input_valid = s.input_valid;
  output_valid = s.output_valid;
  attached = s.attached;
  waiting = s.waiting;
  closed = s.closed;
}

read_cases :
    (w : World) (c : Connection) (r : Arrival)
    → Posix w
    → Polite w
    → IsSound c
    → ((bytes : Bytes) → r ≡ arrived bytes → Bounded w c bytes)
    → w.readv c.calls (offered c.input) ≡ r
    → Heard w c r (read_round w c)
unfolding read_round handle_error notify_message delivered
read_cases w c (read_failed eagain) p q s b h =
    rw (h, read_round)
      (record {
        sound = counted-IsSound c s;
        streamed = ([], sym (append-nil (stream c)));
        late = λ _. (refl, refl);
        on_data = λ bytes e _. cc;
        on_end = λ e. cc;
        on_error = λ e _. (refl, refl);
      })
read_cases w c (read_failed other_errno) p q s b h =
    let t = counted-IsSound c s in
    rw (h, read_round, handle_error)
      (record {
        sound = record {
          input_valid = t.input_valid;
          output_valid = t.output_valid;
          attached = t.attached;
          waiting = t.waiting;
          closed = t.closed;
        };
        streamed = ([], sym (append-nil (stream c)));
        late = λ _. (refl, refl);
        on_data = λ bytes e _. cc;
        on_end = λ e. cc;
        on_error = λ e _. (refl, refl);
      })
read_cases w c (arrived []) p q s b h =
    let (t, d) = handle_close-Closed w (record c { calls = c.calls + 1 }) (counted-IsSound c s) in
    rw (h, read_round)
      (record {
        sound = t;
        streamed = ([], d.streamed ∙ sym (append-nil (stream c)));
        late = λ _. (d.sent, d.shut);
        on_data = λ bytes e ne. absurd (ne (cc));
        on_end = λ _. (d.state, refl);
        on_error = λ e f. cc;
      })
read_cases w c (arrived (x ∷ xs)) p q s b h =
    let bytes = x ∷ xs in
    let bd = b bytes refl in
    let (seen, valid) =
      read_fd-received bytes c.input s.input_valid (p.readv_bounded _ _ bytes h) bd.fits in
    let d = delivered-IsSound w c bytes s (q.keeps _ _ valid) in
    let asked = (reply w c bytes).1 in
    rw (h, read_round)
      (record {
        sound = perform-IsSound w asked (delivered w c bytes) p d bd.room;
        streamed = perform-stream w asked (delivered w c bytes) p d bd.room;
        late = λ off.
            let e = perform-closed w asked (delivered w c bytes) off in
            (ap (λ (k : Connection). k.sent) e, ap (λ (k : Connection). k.shut) e);
        on_data = λ bs e _.
            let same : bytes ≡ bs = cc in
            (
              subst (λ l. contents (heard w c l) ≡ contents c.input ++ l) same seen,
              ap (λ l. (perform w (reply w c l).1 (delivered w c l), true)) same,
            );
        on_end = λ e. cc;
        on_error = λ e f. cc;
      })

-- A round of handleRead on a sound connection, with a POSIX socket, an application that leaves a
-- valid buffer, and arrays within their maximum: it keeps the invariant and only adds to the end of
-- what was accepted; on data the callback is given the old bytes with the new ones behind them and
-- its answer is performed; on end of file the connection is closed and the loop ends; on an error
-- the state stays and the loop ends; a connection that is not connected sends nothing.
pub read_round-Heard :
    (w : World) (c : Connection)
    → Posix w
    → Polite w
    → IsSound c
    → ((bytes : Bytes) → w.readv c.calls (offered c.input) ≡ arrived bytes → Bounded w c bytes)
    → Heard w c (w.readv c.calls (offered c.input)) (read_round w c)
read_round-Heard w c p q s b = read_cases w c (w.readv c.calls (offered c.input)) p q s b refl
