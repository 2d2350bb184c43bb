-- ===== src/Apps/Http/Round.antt =====
-- A round of `handleRead` (src/net/TcpConnection.cc) under the callback of examples/http_server.cc.
use reactor_chat_server.Common.{
  ℕ, ◌≡◌, ◌≢◌, ap, subst, ◌∙◌, not, [], ◌∷◌, ◌++◌, none, some, Bytes, append-nil,
}
use reactor_chat_server.Buffer.{Buffer, offered}
use reactor_chat_server.Buffer.Contents.{contents}
use reactor_chat_server.Buffer.Search.{Free}
use reactor_chat_server.Connection.{
  k_connected, k_disconnecting, World, Connection, sends, shuts, arrived, read_round, writing,
}
use reactor_chat_server.Connection.Invariant.{Posix, IsSound, stream}
use reactor_chat_server.Connection.Hear.{Bounded}
use reactor_chat_server.Apps.Serve.{Served, read_round-Served}
use reactor_chat_server.Apps.Http.{find, on_message, response, parse_line, request_line}
use reactor_chat_server.Apps.Http.Texts.{crlf, end_of_head}
use reactor_chat_server.Apps.Http.Request.{IsWord, first_line, request_line_lem}
use reactor_chat_server.Apps.Http.Response.{http_answer, http_application}

http_answer-none : (bytes : Bytes) → find end_of_head bytes ≡ none → http_answer bytes ≡ (bytes, [])
unfolding http_answer
http_answer-none bytes e = rw (e, http_answer)

http_answer-some :
    (bytes : Bytes) (i : ℕ) (line : Bytes × Bytes)
    → find end_of_head bytes ≡ some i
    → parse_line (request_line bytes) ≡ line
    → http_answer bytes ≡ ([], sends (response line.0 line.1) ∷ shuts ∷ [])
unfolding http_answer
http_answer-some bytes i line e f = rw (e, http_answer, f)

module _ (w : World) (runs : (i : ℕ) (b : Buffer) → w.on_message i b ≡ on_message b)
    (c : Connection) (bytes : Bytes) (p : Posix w) (s : IsSound c) (e : c.state ≡ k_connected)
    (arrives : w.readv c.calls (offered c.input) ≡ arrived bytes) (some_read : bytes ≢ [])
    (b : Bounded w c bytes) where
  -- While the head of the request is incomplete nothing is accepted for sending, the bytes stay in
  -- the input buffer, and the connection stays connected.
  pub request_waits :
      find end_of_head (contents c.input ++ bytes) ≡ none
      → let d = (read_round w c).0 in
        (stream d ≡ stream c)
        × (contents d.input ≡ contents c.input ++ bytes)
        × (d.state ≡ k_connected)
  unfolding http_application
  request_waits incomplete =
      let d =
        subst (λ a. Served c a.0 a.1 (read_round w c).0)
          (http_answer-none (contents c.input ++ bytes) incomplete)
          (read_round-Served w http_application runs c bytes p s e arrives some_read b) in
      (d.streamed ∙ append-nil (stream c), d.input, d.state)

  -- A round of handleRead under the HTTP callback, on a sound connected connection, with a POSIX
  -- socket, arrays within their maximum and bytes that complete a request whose first line is a
  -- method, a path and a version with single spaces and whose header ends: exactly the response for
  -- that method and path is accepted behind all that was accepted before, the input buffer is
  -- empty, and the connection is in the state kDisconnecting, its writing end shut exactly if it
  -- does not wait for room.
  pub request_answered :
      (method path version rest : Bytes) (i : ℕ)
      → IsWord method
      → IsWord path
      → Free b'\r' version
      → contents c.input ++ bytes ≡ first_line method path version ++ (crlf ++ rest)
      → find end_of_head (contents c.input ++ bytes) ≡ some i
      → let d = (read_round w c).0 in
        (stream d ≡ stream c ++ response method path)
        × (contents d.input ≡ [])
        × (d.state ≡ k_disconnecting)
        × (d.shut ≡ not (writing d))
  unfolding http_application
  request_answered method path version rest i m q v whole complete =
      let line =
        ap (λ l. parse_line (request_line l)) whole
        ∙ request_line_lem method path version rest m q v in
      let d =
        subst (λ a. Served c a.0 a.1 (read_round w c).0)
          (http_answer-some (contents c.input ++ bytes) i (method, path) complete line)
          (read_round-Served w http_application runs c bytes p s e arrives some_read b) in
      (
        d.streamed ∙ ap (◌++◌ (stream c)) (append-nil (response method path)),
        d.input,
        d.state.0,
        d.state.1,
      )
