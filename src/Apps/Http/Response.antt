-- ===== src/Apps/Http/Response.antt =====
-- The response of examples/http_server.cc, as a client reads it, and the message callback.
use reactor_chat_server.Common.{
  ℕ, ◌≤◌, length-append, ◌+◌, ◌-◌, ◌*◌, ◌≡◌, refl, ap, ◌∙◌, true, false, List, [], ◌∷◌, ◌++◌,
  Option, none, some, Byte, Bytes, ◌==◌, length, All, arith, inl, inr, Option-cases, if◌then◌else◌,
  ==-self,
}
use reactor_chat_server.Buffer.{Buffer}
use reactor_chat_server.Buffer.Invariant.{IsValid}
use reactor_chat_server.Buffer.Contents.{contents, retrieve_all_lem, peek-contents}
use reactor_chat_server.Connection.{Api, sends, shuts}
use reactor_chat_server.Server.{to_string}
use reactor_chat_server.Server.Names.{
  value, value-to_string, to_string-digits, is_digit, length-to_string,
}
use reactor_chat_server.Apps.{Application}
use reactor_chat_server.Apps.Http.{find, parse_line, request_line, page, response, on_message}
use reactor_chat_server.Apps.Http.Texts.{end_of_head, head_start, head_end}

-- What is behind a text, if it stands at the front.
abbrev strip : Bytes → Bytes → Option Bytes
strip [] s = some s
strip (p ∷ ps) [] = none
strip (p ∷ ps) (c ∷ s) = let rest = strip ps s in if p == c then rest else none

strip-append : (p s : Bytes) → strip p (p ++ s) ≡ some s
strip-append [] s = refl
strip-append (c ∷ p) s = rw (==-self c, strip-append p s)

-- The digits at the front, as the number that they stand for behind `n`, and what is behind them.
abbrev digits : ℕ → Bytes → ℕ × Bytes
digits n [] = (n, [])
digits n (c ∷ s) =
    let rest = digits (n * 10 + (c - b'0')) s in if is_digit c then rest else (n, c ∷ s)

digits-append :
    (n : ℕ) (ds : Bytes) (c : Byte) (s : Bytes)
    → All (λ d. is_digit d ≡ true) ds
    → is_digit c ≡ false
    → digits n (ds ++ c ∷ s) ≡ (value n ds, c ∷ s)
digits-append n [] c s f e = rw e
digits-append n (d ∷ ds) c s f e = rw f.0 (digits-append (n * 10 + (d - b'0')) ds c s f.1 e)

-- A client: the status line and the fields, the length, and exactly as many bytes as it says.
abbrev checked : ℕ → Option Bytes → Option Bytes
checked n none = none
checked n (some body) = if length body == n then some body else none

abbrev measured : Option Bytes → Option Bytes
measured none = none
measured (some s) = let (n, rest) = digits 0 s in checked n (strip head_end rest)

abbrev pub read_response : Bytes → Option Bytes
read_response s = measured (strip head_start s)

-- A client that reads the response of a request by its header, the decimal number of bytes that the
-- header gives and exactly that many bytes behind it, reads the page, and nothing is left.
pub read_response_lem :
    (method path : Bytes) → read_response (response method path) ≡ some (page method path)
unfolding response
read_response_lem method path =
    let body = page method path in
    let n = to_string (length body) in
    ap measured (strip-append head_start (n ++ (head_end ++ body)))
    ∙ ap (λ p. checked p.0 (strip head_end p.1))
        (digits-append 0 n b'\r' _ (to_string-digits (length body)) refl
          ∙ ap (λ k. (k, head_end ++ body)) (value-to_string (length body)))
    ∙ ap (checked (length body)) (strip-append head_end body)
    ∙ ap (λ t. if t then some body else none) (==-self (length body))

-- The specification of the callback: nothing before the end of the header is there, and then one
-- response.
unfoldable pub http_answer : Bytes → Bytes × List Api
http_answer bytes = elim (find end_of_head bytes) [
  | none ↦ (bytes, [])
  | some _ ↦
      let (method, path) = parse_line (request_line bytes) in
      ([], sends (response method path) ∷ shuts ∷ [])
]

abbrev asked : Bytes → List Api
asked bytes =
    let (method, path) = parse_line (request_line bytes) in
    sends (response method path) ∷ shuts ∷ []

module _ (b : Buffer) (v : IsValid b) where
  pub on_message_lem :
      IsValid (on_message b).0
      × (contents (on_message b).0 ≡ (http_answer (contents b)).0)
      × ((on_message b).1 ≡ (http_answer (contents b)).1)
  unfolding on_message http_answer
  on_message_lem = elim (Option-cases (find end_of_head (contents b))) [
    | inl e ↦ rw (peek-contents b v, on_message, e, http_answer) (v, refl, refl)
    | inr (i, e) ↦
        rw (peek-contents b v, on_message, e, http_answer)
          ((retrieve_all_lem b v).0, (retrieve_all_lem b v).1, ap asked (peek-contents b v))
  ]

unfoldable pub http_application : Application
http_application = record {
  handle = on_message;
  answer = http_answer;
  keeps = λ b v. (on_message_lem b v).0;
  leaves = λ b v. (on_message_lem b v).1;
  asks = λ b v. (on_message_lem b v).2;
}

-- The size of a response, by that of its page.
pub length-response :
    (method path : Bytes) → length (response method path) ≤ 2 * length (page method path) + 200
unfolding response
length-response method path =
    let body = page method path in
    let n = to_string (length body) in
    omega (
      arith,
      length-to_string (length body),
      length-append head_start (n ++ (head_end ++ body)),
      length-append n (head_end ++ body),
      length-append head_end body,
    )
