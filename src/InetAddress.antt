-- ===== src/InetAddress.antt =====
-- src/base/InetAddress.h and src/base/InetAddress.cc: an IPv4 address and its text. The numbers in
-- a `sockaddr_in` stand in network order, on a machine whose own order is the other.
pub mod Text
mod Tests
use reactor_chat_server.Common.{
  ℕ, ◌+◌, ◌-◌, ◌*◌, ◌/◌, ◌%◌, List, [], ◌∷◌, ◌++◌, Option, none, some, Bytes, length, take,
}
use reactor_chat_server.Server.{to_string}

-- The four bytes of `sin_addr`.
pub record Ip : Type 0 where
  pub first : ℕ
  pub second : ℕ
  pub third : ℕ
  pub fourth : ℕ

pub record InetAddress : Type 0 where
  pub sin_port : ℕ
  pub sin_addr : Ip

-- `htons` and `ntohs`: the two bytes change places.
pub swap_bytes : ℕ → ℕ
swap_bytes n = n % 256 * 256 + n / 256 % 256

-- What `inet_ntop` writes: the bytes in decimal, with dots between them.
pub dotted : Ip → Bytes
dotted ip =
    to_string ip.first
    ++ (b'.'
        ∷ (to_string ip.second ++ (b'.' ∷ (to_string ip.third ++ (b'.' ∷ to_string ip.fourth)))))

-- The constructor; `inet_pton` is given, and on its failure the bytes stay 0, as `memset` left them.
pub new_address : (Bytes → Option Ip) → ℕ → Bytes → InetAddress
new_address inet_pton port ip = elim (inet_pton ip) [
  | none ↦ record {
    sin_port = swap_bytes port;
    sin_addr = record { first = 0; second = 0; third = 0; fourth = 0 };
  }
  | some addr ↦ record { sin_port = swap_bytes port; sin_addr = addr }
]

-- The size of `buf`.
abbrev pub buffer_size : ℕ
buffer_size = 64

-- `snprintf` into that many bytes, of which the last is for the '\0'.
pub printed : ℕ → Bytes → Bytes
printed size text = take (size - 1) text

pub to_ip_port : InetAddress → Bytes
to_ip_port a =
    let ip = dotted a.sin_addr in
    let end = length ip in
    ip ++ printed (buffer_size - end) (b':' ∷ to_string (swap_bytes a.sin_port))
