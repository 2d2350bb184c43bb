-- ===== src/Apps/Http/Request.antt =====
-- The request line of examples/http_server.cc.
use reactor_chat_server.Common.{
  ◌≡◌, refl, ap, ◌∙◌, true, false, [], ◌∷◌, ◌++◌, some, Byte, Bytes, ◌==◌, ◌≢◌, length, arith, All,
  take-append_self, starts_with, is_empty, ==-ne, sym, All-append,
}
use reactor_chat_server.Buffer.Search.{Free}
use reactor_chat_server.Apps.Http.{
  find, is_space, skip_space, word, extract, request_line, parse_line,
}
use reactor_chat_server.Apps.Http.Texts.{crlf}

-- A word of a request line: it holds no white space, and it is not empty.
abbrev pub Spaceless : Bytes → Type 0
Spaceless w = All (λ c. is_space c ≡ false) w

pub record IsWord (w : Bytes) : Type 0 where
  pub spaceless : Spaceless w
  pub filled : is_empty w ≡ false

word-Spaceless :
    (w t : Bytes) (c : Byte) → Spaceless w → is_space c ≡ true → word (w ++ c ∷ t) ≡ (w, c ∷ t)
unfolding word
word-Spaceless [] t c f e = rw e
word-Spaceless (x ∷ w) t c f e = rw (f.0, word-Spaceless w t c f.1 e)

-- A word at the front of the stream.
extract-word :
    (w t : Bytes) (c : Byte) → IsWord w → is_space c ≡ true → extract (w ++ c ∷ t) ≡ some (w, c ∷ t)
unfolding extract skip_space
extract-word [] t c k e = absurd (ground (arith, k.filled))
extract-word (x ∷ w) t c k e =
    rw (k.spaceless.0, extract, skip_space) (ap some (word-Spaceless (x ∷ w) t c k.spaceless e))

extract-space : (c : Byte) (t : Bytes) → is_space c ≡ true → extract (c ∷ t) ≡ extract t
unfolding extract skip_space
extract-space c t e = rw (e, extract, skip_space)

-- The first line ends at the first CR LF.
find-crlf : (xs t : Bytes) → Free b'\r' xs → find crlf (xs ++ (crlf ++ t)) ≡ some (length xs)
unfolding find starts_with
find-crlf [] t f = refl
find-crlf (x ∷ xs) t f =
    let other : (b'\r' == x) ≡ false = ==-ne (λ e. f.0 (sym e)) in rw (other, find-crlf xs t f.1)

Spaceless-Free : (w : Bytes) → Spaceless w → Free b'\r' w
Spaceless-Free [] f = tt
Spaceless-Free (c ∷ w) f = (ground (arith, f.0), Spaceless-Free w f.1)

-- "METHOD PATH VERSION"
abbrev pub first_line : Bytes → Bytes → Bytes → Bytes
first_line method path version = method ++ b' ' ∷ (path ++ b' ' ∷ version)

module _ (method path version rest : Bytes) (m : IsWord method) (p : IsWord path)
    (v : Free b'\r' version) where
  first_line-Free : Free b'\r' (first_line method path version)
  first_line-Free =
      All-append (λ x. x ≢ b'\r') method _ (Spaceless-Free method m.spaceless)
        (
          omega arith,
          All-append (λ x. x ≢ b'\r') path _ (Spaceless-Free path p.spaceless) (omega arith, v),
        )

  cut_line :
      request_line (first_line method path version ++ (crlf ++ rest))
      ≡ first_line method path version
  unfolding request_line
  cut_line =
      rw (find-crlf (first_line method path version) rest first_line-Free, request_line)
        (take-append_self (first_line method path version) (crlf ++ rest))

  parse_line-words : parse_line (first_line method path version) ≡ (method, path)
  unfolding parse_line
  parse_line-words =
      rw (extract-word method (path ++ b' ' ∷ version) b' ' m refl, parse_line)
        (rw (
          extract-space b' ' (path ++ b' ' ∷ version) refl,
          extract-word path version b' ' p refl,
          parse_line,
        ))

  -- The method and the path of a request, for words with single spaces between them and no '\r' in
  -- the version, whatever follows the first line.
  pub request_line_lem :
      parse_line (request_line (first_line method path version ++ (crlf ++ rest))) ≡ (method, path)
  request_line_lem = ap parse_line cut_line ∙ parse_line-words
