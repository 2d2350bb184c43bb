-- ===== src/Apps/Http/Tests.antt =====
-- examples/http_server.cc at a concrete socket and a concrete request.
use reactor_chat_server.Common.{
  ◌≡◌, refl, not, [], ◌∷◌, ◌++◌, none, some, Bytes, length, take, arith, starts_with, length-take,
  ap, subst, sym, ◌≤◌,
}
use reactor_chat_server.Buffer.{new_buffer, offered, writable_bytes}
use reactor_chat_server.Buffer.Contents.{contents}
use reactor_chat_server.Connection.{
  k_disconnecting, World, arrived, wrote, sends, shuts, new_connection, read_round, writing,
}
use reactor_chat_server.Connection.Invariant.{Posix, stream}
use reactor_chat_server.Connection.Hear.{Bounded, delivered}
use reactor_chat_server.Connection.Perform.{Room}
use reactor_chat_server.Connection.Tests.Scene.{one_byte, one_byte_bounded, plain, plain-IsSound}
use reactor_chat_server.Apps.Serve.{application-Bounded}
use reactor_chat_server.Apps.Http.{
  find, on_message, request_line, parse_line, page, html_escape, escape_char, response,
}
use reactor_chat_server.Apps.Http.Texts.{crlf, end_of_head}
use reactor_chat_server.Apps.Http.Escape.{markup, unescape, page_lem}
use reactor_chat_server.Apps.Http.Request.{IsWord, first_line, request_line_lem}
use reactor_chat_server.Apps.Http.Response.{
  http_answer, http_application, length-response, read_response, read_response_lem,
}
use reactor_chat_server.Apps.Http.Round.{request_answered}

-- "GET /a HTTP/1.1", with an empty line behind it.
abbrev get : Bytes
get = b'G' ∷ b'E' ∷ b'T' ∷ []

abbrev path : Bytes
path = b'/' ∷ b'a' ∷ []

abbrev version : Bytes
version = b'H' ∷ b'T' ∷ b'T' ∷ b'P' ∷ b'/' ∷ b'1' ∷ b'.' ∷ b'1' ∷ []

abbrev request : Bytes
request = first_line get path version ++ (crlf ++ crlf)

get-IsWord : IsWord get
get-IsWord = record { spaceless = (refl, (refl, (refl, tt))); filled = refl }

path-IsWord : IsWord path
path-IsWord = record { spaceless = (refl, (refl, tt)); filled = refl }

request_line_read : parse_line (request_line request) ≡ (get, path)
request_line_read = request_line_lem get path version crlf get-IsWord path-IsWord (omega arith)

-- A peer that sends the same bytes at every call, as far as there is room.
abbrev peer : Bytes → World
peer text = record {
  write = λ i bs. wrote (one_byte bs);
  readv = λ i room. arrived (take room text);
  on_connection = λ i st. [];
  on_message = λ i b. on_message b;
}

peer-Posix : (text : Bytes) → Posix (peer text)
peer-Posix text = record {
  write_bounded = λ i bs n e. one_byte_bounded bs n e;
  readv_bounded = λ i room bs e.
      let same : take room text ≡ bs = cc in
      subst (λ l. length l ≤ room) same (omega (arith, length-take room text));
}

plain-empty : contents plain.input ≡ []
unfolding new_connection new_buffer
plain-empty = refl

arrives : (peer request).readv plain.calls (offered plain.input) ≡ arrived request
unfolding new_connection new_buffer offered writable_bytes
arrives = refl

complete : find end_of_head (contents plain.input ++ request) ≡ some 15
unfolding new_connection new_buffer find starts_with
complete = refl

answer :
    http_answer (contents plain.input ++ request) ≡ ([], sends (response get path) ∷ shuts ∷ [])
unfolding http_answer new_connection new_buffer find starts_with
answer = ap (λ l. ([], sends (response l.0 l.1) ∷ shuts ∷ [])) request_line_read

page-length : length (page get path) ≤ 400
unfolding page html_escape escape_char
page-length = omega arith

room :
    Room
      (peer request)
      (http_answer (contents plain.input ++ request)).1
      (delivered (peer request) plain request)
unfolding new_connection new_buffer delivered
room =
    subst (λ a. Room (peer request) a.1 (delivered (peer request) plain request)) (sym answer)
      (omega (arith, length-response get path, page-length), tt)

request-Bounded : Bounded (peer request) plain request
unfolding http_application new_connection new_buffer
request-Bounded =
    application-Bounded (peer request) http_application (λ i b. refl) plain request
      (peer-Posix request) plain-IsSound arrives (omega arith) room

request_answered_example :
    let d = (read_round (peer request) plain).0 in
    (stream d ≡ stream plain ++ response get path)
    × (contents d.input ≡ [])
    × (d.state ≡ k_disconnecting)
    × (d.shut ≡ not (writing d))
request_answered_example =
    request_answered (peer request) (λ i b. refl) plain request (peer-Posix request) plain-IsSound
      refl arrives (λ e. cc) request-Bounded get path version crlf 15 get-IsWord path-IsWord
      (omega arith) (ap (λ (l : Bytes). l ++ request) plain-empty) complete

read_response_example : read_response (response get path) ≡ some (page get path)
read_response_example = read_response_lem get path

page_example :
    (markup (page get (b'<' ∷ path)) ≡ markup (page [] []))
    × (unescape none (html_escape get) ≡ get)
    × (unescape none (html_escape (b'<' ∷ path)) ≡ b'<' ∷ path)
page_example = page_lem get (b'<' ∷ path)
