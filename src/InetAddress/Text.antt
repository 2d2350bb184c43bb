-- ===== src/InetAddress/Text.antt =====
-- `InetAddress::toIpPort` (src/base/InetAddress.cc): the whole text, and the size of its buffer.
use reactor_chat_server.Common.{
  ℕ, zero, suc, ◌+◌, ◌-◌, ◌*◌, ◌/◌, ◌%◌, ◌≤◌, ◌<◌, ◌≡◌, refl, ap, ◌∙◌, [], ◌∷◌, ◌++◌, Option, some,
  Bytes, true, ltb, length, arith, inl, inr, Bool-cases, length-append, take_all,
}
use reactor_chat_server.Server.{to_digits, to_string}
use reactor_chat_server.InetAddress.{
  Ip, swap_bytes, dotted, new_address, buffer_size, printed, to_ip_port,
}

-- Powers of ten.
abbrev ten : ℕ → ℕ
ten zero = 1
ten (suc k) = ten k * 10

length-to_digits : (fuel k n : ℕ) → n < ten (suc k) → length (to_digits fuel n) ≤ suc k
unfolding to_digits
length-to_digits zero k n h = omega arith
length-to_digits (suc fuel) zero n h =
    let small : ltb n 10 ≡ true = ground (arith, h) in rw small (omega arith)
length-to_digits (suc fuel) (suc k) n h = elim (Bool-cases (ltb n 10)) [
  | inl small ↦ rw small (omega arith)
  | inr large ↦
      let front = length-to_digits fuel k (n / 10) (omega (arith, h)) in
      let whole = length-append (to_digits fuel (n / 10)) ((b'0' + n % 10) ∷ []) in
      rw large (omega (arith, front, whole))
]

length-to_string : (k n : ℕ) → n < ten (suc k) → length (to_string n) ≤ suc k
unfolding to_string
length-to_string k n h = length-to_digits (suc n) k n h

pub record IsIp (ip : Ip) : Type 0 where
  pub first : ip.first < 256
  pub second : ip.second < 256
  pub third : ip.third < 256
  pub fourth : ip.fourth < 256

length-dotted : (ip : Ip) → IsIp ip → length (dotted ip) ≤ 15
unfolding dotted
length-dotted ip i =
    let a = length-to_string 2 ip.first (omega (arith, i.first)) in
    let b = length-to_string 2 ip.second (omega (arith, i.second)) in
    let c = length-to_string 2 ip.third (omega (arith, i.third)) in
    let d = length-to_string 2 ip.fourth (omega (arith, i.fourth)) in
    let first = length-append (to_string ip.first) (
      b'.'
      ∷ (to_string ip.second ++ (b'.' ∷ (to_string ip.third ++ (b'.' ∷ to_string ip.fourth))))) in
    let second =
      length-append (to_string ip.second)
        (b'.' ∷ (to_string ip.third ++ (b'.' ∷ to_string ip.fourth))) in
    let third = length-append (to_string ip.third) (b'.' ∷ to_string ip.fourth) in
    omega (arith, a, b, c, d, first, second, third)

swap_bytes_twice : (n : ℕ) → n < 65536 → swap_bytes (swap_bytes n) ≡ n
unfolding swap_bytes
swap_bytes_twice n h = omega (arith, h)

-- For an address whose text inet_pton reads back and a port below 2^16, toIpPort gives the whole text of
-- the address, a colon and the port's digits, within the 64 bytes of its buffer.
pub to_ip_port_lem :
    (inet_pton : Bytes → Option Ip) (port : ℕ) (ip : Ip)
    → IsIp ip
    → port < 65536
    → inet_pton (dotted ip) ≡ some ip
    → let text = to_ip_port (new_address inet_pton port (dotted ip)) in
      (text ≡ dotted ip ++ b':' ∷ to_string port) × (length text < buffer_size)
unfolding to_ip_port new_address printed
to_ip_port_lem inet_pton port ip i h e =
    let front = length-dotted ip i in
    let digits = length-to_string 4 port (omega (arith, h)) in
    let back : printed (buffer_size - length (dotted ip))
          (b':' ∷ to_string (swap_bytes (swap_bytes port)))
        ≡ b':' ∷ to_string port =
      ap (λ (n : ℕ). printed (buffer_size - length (dotted ip)) (b':' ∷ to_string n))
        (swap_bytes_twice port h)
      ∙ take_all _ (b':' ∷ to_string port) (omega (arith, front, digits)) in
    let whole = length-append (dotted ip) (b':' ∷ to_string port) in
    rw (e, new_address, back) (refl, omega (arith, front, digits, whole))
