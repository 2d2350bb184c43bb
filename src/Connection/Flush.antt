-- ===== src/Connection/Flush.antt =====
-- A round of `handleWrite` (src/net/TcpConnection.cc).
use reactor_chat_server.Common.{
  ℕ, ◌+◌, ◌≡◌, refl, sym, ap, ap₂, ◌∙◌, true, false, [], ◌++◌, length, take, drop, ltb, ◌==◌, arith,
  inl, inr, take-append-drop, append-nil, append_assoc, length-eq-zero, ◌⊎◌,
}
use reactor_chat_server.Buffer.{Buffer, retrieve, readable_bytes}
use reactor_chat_server.Buffer.Invariant.{IsValid, retrieve-IsValid, readable_bytes-sub}
use reactor_chat_server.Buffer.Contents.{contents, retrieve-contents, length-contents-readable}
use reactor_chat_server.Channel.{disable_writing}
use reactor_chat_server.Channel.Events.{is_writing-disable_writing, disable_writing-Attached}
use reactor_chat_server.Connection.{
  k_disconnecting, World, wrote, Connection, writing, is_disconnecting, pending, shutdown_in_loop,
}
use reactor_chat_server.Connection.Invariant.{
  disconnecting_state, disconnecting_ending, Posix, stream, IsSound, is_live, live-Waiting,
  live_of_writing,
}

-- What a round, and the whole handler, make of a connection.
pub record Flushed (c d : Connection) : Type 0 where
  pub sound : IsSound d
  pub streamed : stream d ≡ stream c
  pub same_state : d.state ≡ c.state
  pub shut_last : (d.shut ≡ c.shut) ⊎ ((d.state ≡ k_disconnecting) × (d.sent ≡ stream c))
  pub shuts : writing c ≡ true → is_disconnecting c.state ≡ true → writing d ≡ false → d.shut ≡ true

pending-contents : (b : Buffer) → IsValid b → pending b ≡ contents b
pending-contents b v = ap (λ (n : ℕ). take n (drop b.reader_index b.buf)) (readable_bytes-sub b v)

module _ (w : World) (c : Connection) (p : Posix w) (s : IsSound c) (busy : writing c ≡ true) where
  live : is_live c.state ≡ true
  live = live_of_writing c.state (writing c) (contents c.output) busy s.waiting

  -- A call that wrote nothing.
  pub unchanged : Flushed c (record c { calls = c.calls + 1 })
  unchanged = record {
    sound = record {
      input_valid = s.input_valid;
      output_valid = s.output_valid;
      attached = s.attached;
      waiting = s.waiting;
      closed = s.closed;
    };
    streamed = refl;
    same_state = refl;
    shut_last = inl refl;
    shuts = λ on _ off. cc;
  }

  module _ (n : ℕ) (h : w.write c.calls (pending c.output) ≡ wrote n) where
    unfoldable pub partly : Connection
    partly = record c {
      sent = c.sent ++ take n (pending c.output);
      output = retrieve n c.output;
      calls = c.calls + 1;
    }

    pub left : contents (retrieve n c.output) ≡ drop n (contents c.output)
    left = retrieve-contents n c.output s.output_valid

    partly-stream : stream partly ≡ stream c
    unfolding partly
    partly-stream =
        append_assoc c.sent (take n (pending c.output)) (contents (retrieve n c.output))
        ∙ ap (◌++◌ c.sent) (
            ap₂ ◌++◌ (ap (take n) (pending-contents c.output s.output_valid)) left
            ∙ take-append-drop n (contents c.output))

    still_open : c.shut ≡ false
    still_open = ground (arith, s.closed)

    partly-IsValid : IsValid (retrieve n c.output)
    partly-IsValid = retrieve-IsValid n c.output s.output_valid

    -- Some bytes are left: the channel goes on waiting.
    pub partly-Flushed : (readable_bytes (retrieve n c.output) == 0) ≡ false → Flushed c partly
    unfolding partly
    partly-Flushed more = record {
      sound = record {
        input_valid = s.input_valid;
        output_valid = partly-IsValid;
        attached = s.attached;
        waiting = live-Waiting c.state _ _ live (
            busy
            ∙ sym (
                ground
                  (arith, more, length-contents-readable (retrieve n c.output) partly-IsValid)));
        closed = s.closed;
      };
      streamed = partly-stream;
      same_state = refl;
      shut_last = inl refl;
      shuts = λ on _ off. cc;
    }

    unfoldable pub done : Connection
    done = record partly {
      channel = (disable_writing c.channel c.poller).0;
      poller = (disable_writing c.channel c.poller).1;
    }

    empty : (readable_bytes (retrieve n c.output) == 0) ≡ true → contents (retrieve n c.output) ≡ []
    empty e =
        length-eq-zero _
          (length-contents-readable (retrieve n c.output) partly-IsValid ∙ ground arith)

    -- Nothing is left: the channel stops waiting.
    done-IsSound : (readable_bytes (retrieve n c.output) == 0) ≡ true → IsSound done
    unfolding partly done
    done-IsSound e = record {
      input_valid = s.input_valid;
      output_valid = partly-IsValid;
      attached = disable_writing-Attached c.channel c.poller s.attached;
      waiting = live-Waiting c.state _ _ live (
          is_writing-disable_writing c.channel c.poller
          ∙ sym (ap (λ l. ltb 0 (length l)) (empty e)));
      closed = ground (arith, still_open);
    }

    pub done-Flushed :
        (readable_bytes (retrieve n c.output) == 0) ≡ true
        → is_disconnecting c.state ≡ false
        → Flushed c done
    unfolding partly done
    done-Flushed e going = record {
      sound = done-IsSound e;
      streamed = partly-stream;
      same_state = refl;
      shut_last = inl refl;
      shuts = λ _ asked _. cc;
    }

    -- Nothing is left and `shutdown` was called before: now the writing end is shut.
    pub finished-Flushed :
        (readable_bytes (retrieve n c.output) == 0) ≡ true
        → is_disconnecting c.state ≡ true
        → Flushed c (shutdown_in_loop done)
    unfolding partly done shutdown_in_loop
    finished-Flushed e d =
        let f = done-IsSound e in
        rw (is_writing-disable_writing c.channel c.poller) (record {
          sound = record {
            input_valid = f.input_valid;
            output_valid = f.output_valid;
            attached = f.attached;
            waiting = f.waiting;
            closed = ground (
              arith,
              is_writing-disable_writing c.channel c.poller,
              disconnecting_ending c.state d,
            );
          };
          streamed = partly-stream;
          same_state = refl;
          shut_last = inr (
            disconnecting_state c.state d,
            sym (append-nil _)
                ∙ ap (◌++◌ (c.sent ++ take n (pending c.output))) (sym (empty e))
                ∙ partly-stream,
          );
          shuts = λ _ _ _. refl;
        })
