-- ===== src/Apps/Http/Escape.antt =====
-- `htmlEscape` of examples/http_server.cc, against a reader of HTML.
use reactor_chat_server.Common.{
  ◌≡◌, refl, sym, ap, ◌∙◌, ◌||◌, [], ◌∷◌, ◌++◌, Option, none, some, Byte, Bytes, ◌==◌, bytes_eq,
  if◌then◌else◌, arith, inl, inr, Bool-cases, ==_iff, subst,
}
use reactor_chat_server.Apps.Http.{html_escape, escape_char, page}
use reactor_chat_server.Apps.Http.Texts.{page_middle}

-- The bytes that begin or end a tag.
abbrev pub markup : Bytes → Bytes
markup [] = []
markup (c ∷ s) = let rest = markup s in if c == b'<' || c == b'>' then c ∷ rest else rest

-- The byte that an entity stands for.
abbrev named : Bytes → Byte
named name =
    if bytes_eq name (b'a' ∷ b'm' ∷ b'p' ∷ [])
    then b'&'
    else if bytes_eq name (b'l' ∷ b't' ∷ [])
    then b'<'
    else b'>'

-- A reader of HTML text, outside an entity or behind the front of one.
abbrev pub unescape : Option Bytes → Bytes → Bytes
unescape none [] = []
unescape (some name) [] = name
unescape none (c ∷ s) =
    let entity = unescape (some []) s in
    let plain = unescape none s in if c == b'&' then entity else c ∷ plain
unescape (some name) (c ∷ s) =
    let plain = unescape none s in
    let entity = unescape (some (name ++ c ∷ [])) s in
    if c == b';' then named name ∷ plain else entity

markup-append : (xs ys : Bytes) → markup (xs ++ ys) ≡ markup xs ++ markup ys
markup-append [] ys = refl
markup-append (c ∷ s) ys = elim (Bool-cases (c == b'<' || c == b'>')) [
  | inl tag ↦ rw (tag, markup-append s ys)
  | inr text ↦ rw (text, markup-append s ys)
]

markup-escape_char : (c : Byte) → markup (escape_char c) ≡ []
unfolding escape_char
markup-escape_char c = ground arith

markup-html_escape : (s : Bytes) → markup (html_escape s) ≡ []
unfolding html_escape
markup-html_escape [] = refl
markup-html_escape (c ∷ s) =
    markup-append (escape_char c) (html_escape s)
    ∙ ap (λ l. l ++ markup (html_escape s)) (markup-escape_char c)
    ∙ markup-html_escape s

-- One byte, escaped and read.
unescape-escape_char :
    (c : Byte) (t : Bytes) → unescape none (escape_char c ++ t) ≡ c ∷ unescape none t
unfolding escape_char bytes_eq
unescape-escape_char c t = elim (Bool-cases (c == b'&')) [
  | inl hit ↦
      subst (λ (k : Byte). unescape none (escape_char k ++ t) ≡ k ∷ unescape none t)
        (sym ((==_iff c b'&').0 hit)) refl
  | inr a ↦ elim (Bool-cases (c == b'<')) [
    | inl hit ↦
        subst (λ (k : Byte). unescape none (escape_char k ++ t) ≡ k ∷ unescape none t)
          (sym ((==_iff c b'<').0 hit)) refl
    | inr b ↦ elim (Bool-cases (c == b'>')) [
      | inl hit ↦
          subst (λ (k : Byte). unescape none (escape_char k ++ t) ≡ k ∷ unescape none t)
            (sym ((==_iff c b'>').0 hit)) refl
      | inr d ↦ rw (a, b, d, escape_char) (rw a)
    ]
  ]
]

unescape-html_escape : (s : Bytes) → unescape none (html_escape s) ≡ s
unfolding html_escape
unescape-html_escape [] = refl
unescape-html_escape (c ∷ s) =
    unescape-escape_char c (html_escape s) ∙ ap (◌∷◌ c) (unescape-html_escape s)

markup-page : (method path : Bytes) → markup (page method path) ≡ markup (page [] [])
unfolding page html_escape
markup-page method path = simp (
  markup-append page_middle,
  markup-append (html_escape method),
  markup-append (html_escape path),
  markup-html_escape,
)

-- Whatever the method and the path of a request, the page has the same bytes that begin or end a
-- tag, in the same order, as for an empty method and path; and a reader of HTML gets both back from
-- their escaped forms.
pub page_lem :
    (method path : Bytes)
    → (markup (page method path) ≡ markup (page [] []))
      × (unescape none (html_escape method) ≡ method)
      × (unescape none (html_escape path) ≡ path)
page_lem method path =
    (markup-page method path, unescape-html_escape method, unescape-html_escape path)
