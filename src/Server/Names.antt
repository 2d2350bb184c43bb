-- ===== src/Server/Names.antt =====
-- The names that src/net/TcpServer.cc gives to connections.
use reactor_chat_server.Common.{
  ℕ, zero, suc, ◌+◌, ◌-◌, ◌*◌, ◌/◌, ◌%◌, ◌<◌, ◌≡◌, refl, sym, ap, ◌∙◌, [], ◌∷◌, ◌++◌, Bytes, ltb,
  leb, Bool, true, Byte, All, All-append, ◌&&◌, length, length-append, ◌≤◌, arith, inl, inr,
  Bool-cases,
}
use reactor_chat_server.Server.{to_digits, to_string, conn_name}

-- The number that decimal digits stand for, behind a number that others stand for.
abbrev pub value : ℕ → Bytes → ℕ
value n [] = n
value n (c ∷ cs) = value (n * 10 + (c - b'0')) cs

pub value-append : (n : ℕ) (xs ys : Bytes) → value n (xs ++ ys) ≡ value (value n xs) ys
value-append n [] ys = refl
value-append n (x ∷ xs) ys = value-append (n * 10 + (x - b'0')) xs ys

pub value-to_digits : (fuel n : ℕ) → n < fuel → value 0 (to_digits fuel n) ≡ n
unfolding to_digits
value-to_digits zero n h = absurd (omega (arith, h))
value-to_digits (suc fuel) n h = elim (Bool-cases (ltb n 10)) [
  | inl small ↦ rw small (omega arith)
  | inr large ↦
      let front = value-to_digits fuel (n / 10) (ground arith) in
      rw large (
        value-append 0 (to_digits fuel (n / 10)) ((b'0' + n % 10) ∷ [])
        ∙ ap (λ k. k * 10 + (b'0' + n % 10 - b'0')) front
        ∙ omega arith)
]

cancel : (xs ys zs : Bytes) → xs ++ ys ≡ xs ++ zs → ys ≡ zs
cancel [] ys zs e = e
cancel (x ∷ xs) ys zs e = cancel xs ys zs cc

-- Two connections of a server have the same name only if they have the same number.
pub conn_name-injective : (name : Bytes) (a b : ℕ) → conn_name name a ≡ conn_name name b → a ≡ b
unfolding conn_name to_string
conn_name-injective name a b e =
    let digits : to_digits (suc a) a ≡ to_digits (suc b) b =
      let tails = cancel name (b'#' ∷ to_digits (suc a) a) (b'#' ∷ to_digits (suc b) b) e in cc in
    sym (value-to_digits (suc a) a (omega arith))
    ∙ ap (value 0) digits
    ∙ value-to_digits (suc b) b (omega arith)

pub value-to_string : (n : ℕ) → value 0 (to_string n) ≡ n
unfolding to_string
value-to_string n = value-to_digits (suc n) n (omega arith)

abbrev pub is_digit : Byte → Bool
is_digit c = leb b'0' c && leb c b'9'

to_digits-digits : (fuel n : ℕ) → All (λ c. is_digit c ≡ true) (to_digits fuel n)
unfolding to_digits
to_digits-digits zero n = tt
to_digits-digits (suc fuel) n = elim (Bool-cases (ltb n 10)) [
  | inl small ↦ rw small (ground arith, tt)
  | inr large ↦ rw large (
      All-append (λ c. is_digit c ≡ true) (to_digits fuel (n / 10)) _
        (to_digits-digits fuel (n / 10)) (ground arith, tt))
]

pub to_string-digits : (n : ℕ) → All (λ c. is_digit c ≡ true) (to_string n)
unfolding to_string
to_string-digits n = to_digits-digits (suc n) n

length-to_digits : (fuel n : ℕ) → length (to_digits fuel n) ≤ fuel
unfolding to_digits
length-to_digits zero n = omega arith
length-to_digits (suc fuel) n = elim (Bool-cases (ltb n 10)) [
  | inl small ↦ rw small (omega arith)
  | inr large ↦ rw large (
      omega (
        arith,
        length-to_digits fuel (n / 10),
        length-append (to_digits fuel (n / 10)) ((b'0' + n % 10) ∷ []),
      ))
]

pub length-to_string : (n : ℕ) → length (to_string n) ≤ n + 1
unfolding to_string
length-to_string n = omega (arith, length-to_digits (suc n) n)
