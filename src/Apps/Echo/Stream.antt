-- ===== src/Apps/Echo/Stream.antt =====
-- What a client of examples/echo_server.cc gets back.
use reactor_chat_server.Common.{
  ℕ, ◌≡◌, ◌≢◌, sym, ap, ◌∙◌, [], ◌++◌, Bytes, append-nil, append_assoc,
}
use reactor_chat_server.Buffer.{Buffer, offered}
use reactor_chat_server.Buffer.Contents.{contents}
use reactor_chat_server.Connection.{k_connected, World, Connection, arrived, read_round}
use reactor_chat_server.Connection.Invariant.{Posix, IsSound, stream}
use reactor_chat_server.Connection.Hear.{Bounded}
use reactor_chat_server.Apps.Serve.{read_round-Served}
use reactor_chat_server.Apps.Echo.{echo, echo_application}

-- Rounds of `handleRead` that read bytes, with all the bytes read.
pub data Fed (w : World) (c : Connection) : Bytes → Connection → Type 0 where
  unfed : Fed w c [] c
  fed :
      {got : Bytes} {d : Connection} (bytes : Bytes)
      → Fed w c got d
      → w.readv d.calls (offered d.input) ≡ arrived bytes
      → bytes ≢ []
      → Bounded w d bytes
      → Fed w c (got ++ bytes) (read_round w d).0

pub record Echoed (c : Connection) (got : Bytes) (d : Connection) : Type 0 where
  pub sound : IsSound d
  pub state : d.state ≡ k_connected
  pub streamed : stream d ≡ stream c ++ got
  pub input : contents d.input ≡ []

-- Rounds of handleRead under the echo callback that read bytes, from a sound connected connection
-- with an empty input buffer, with a POSIX socket and arrays within their maximum: what is accepted
-- for sending is exactly all the bytes read, in order, behind what was accepted before; the
-- connection is sound and connected, and its input buffer empty.
pub Fed-Echoed :
    (w : World) {c d : Connection} {got : Bytes}
    → ((i : ℕ) (b : Buffer) → w.on_message i b ≡ echo b)
    → Posix w
    → IsSound c
    → c.state ≡ k_connected
    → contents c.input ≡ []
    → Fed w c got d
    → Echoed c got d
unfolding echo_application
Fed-Echoed w {c} runs p s e empty unfed = record {
  sound = s;
  state = e;
  streamed = sym (append-nil (stream c));
  input = empty;
}
Fed-Echoed w {c} runs p s e empty (fed {got = got} {d = d} bytes r arrives some_read b) =
    let k = Fed-Echoed w runs p s e empty r in
    let v =
      read_round-Served w echo_application runs d bytes p k.sound k.state arrives some_read b in
    record {
      sound = v.sound;
      state = v.state;
      streamed =
          v.streamed
          ∙ ap (◌++◌ (stream d))
              (append-nil (contents d.input ++ bytes) ∙ ap (λ l. l ++ bytes) k.input)
          ∙ ap (λ l. l ++ bytes) k.streamed
          ∙ append_assoc (stream c) got bytes;
      input = v.input;
    }
