-- ===== src/Apps/Http.antt =====
-- examples/http_server.cc: the request line, the page, and the response.
pub mod Texts
pub mod Escape
pub mod Request
pub mod Response
pub mod Round
mod Tests
use reactor_chat_server.Common.{
  ℕ, suc, Bool, true, false, ◌||◌, ◌&&◌, List, [], ◌∷◌, ◌++◌, Option, none, some, Byte, Bytes, ◌==◌,
  leb, length, take, starts_with, if◌then◌else◌,
}
use reactor_chat_server.Buffer.{Buffer, retrieve_all}
use reactor_chat_server.Connection.{Api, sends, shuts, pending}
use reactor_chat_server.Server.{to_string}
use Texts.{
  amp_text, lt_text, gt_text, crlf, end_of_head, page_start, page_middle, page_end, head_start,
  head_end,
}

-- The cases of the `switch` in `htmlEscape`.
pub escape_char : Byte → Bytes
escape_char c =
    if c == b'&'
    then amp_text
    else if c == b'<'
    then lt_text
    else if c == b'>'
    then gt_text
    else c ∷ []

pub html_escape : Bytes → Bytes
html_escape [] = []
html_escape (c ∷ s) = escape_char c ++ html_escape s

-- `std::string::find`: the first place of `p`; `none` is `npos`.
pub find : Bytes → Bytes → Option ℕ
find p [] = if starts_with p [] then some 0 else none
find p (c ∷ s) =
    let rest = find p s in
    if starts_with p (c ∷ s) then some 0 else elim rest [ none ↦ none | some i ↦ some (suc i) ]

-- `isspace` in the C locale.
abbrev pub is_space : Byte → Bool
is_space c = c == b' ' || (leb 9 c && leb c 13)

-- `iss >> word`: white space is skipped, and the bytes up to the next are the word. `none` is a
-- stream with nothing left, in which case the variable stays as it is.
pub skip_space : Bytes → Bytes
skip_space [] = []
skip_space (c ∷ s) = let rest = skip_space s in if is_space c then rest else c ∷ s

pub word : Bytes → Bytes × Bytes
word [] = ([], [])
word (c ∷ s) = let (w, rest) = word s in if is_space c then ([], c ∷ s) else (c ∷ w, rest)

pub extract : Bytes → Option (Bytes × Bytes)
extract s = elim (skip_space s) [ [] ↦ none | c ∷ t ↦ some (word (c ∷ t)) ]

-- `data.substr(0, data.find("\r\n"))`, `data` being the text.
pub request_line : Bytes → Bytes
request_line text = elim (find crlf text) [ none ↦ text | some i ↦ take i text ]

-- The method and the path, with their defaults.
pub parse_line : Bytes → Bytes × Bytes
parse_line line = elim (extract line) [
  | none ↦ (b'?' ∷ [], b'/' ∷ [])
  | some (method, rest) ↦ elim (extract rest) [
    | none ↦ (method, b'/' ∷ [])
    | some (path, _) ↦ (method, path)
  ]
]

pub page : Bytes → Bytes → Bytes
page method path =
    page_start ++ (html_escape method ++ (page_middle ++ (html_escape path ++ page_end)))

pub response : Bytes → Bytes → Bytes
response method path =
    let body = page method path in head_start ++ (to_string (length body) ++ (head_end ++ body))

-- The message callback.
pub on_message : Buffer → Buffer × List Api
on_message buf =
    let text = pending buf in
    elim (find end_of_head text) [
      | none ↦ (buf, [])
      | some _ ↦
          let (method, path) = parse_line (request_line text) in
          (retrieve_all buf, sends (response method path) ∷ shuts ∷ [])
    ]
