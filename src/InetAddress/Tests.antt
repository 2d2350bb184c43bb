-- ===== src/InetAddress/Tests.antt =====
-- src/base/InetAddress.cc at one address.
use reactor_chat_server.Common.{◌≡◌, refl, [], ◌∷◌, Option, some, Bytes}
use reactor_chat_server.Server.{to_string, to_digits}
use reactor_chat_server.InetAddress.{Ip, dotted, new_address, to_ip_port, printed, swap_bytes}

abbrev localhost : Ip
localhost = record { first = 127; second = 0; third = 0; fourth = 1 }

-- It knows one address.
abbrev to_localhost : Bytes → Option Ip
to_localhost text = some localhost

-- "127.0.0.1:80"
text_of_localhost :
    to_ip_port (new_address to_localhost 80 [])
    ≡ b'1' ∷ b'2' ∷ b'7' ∷ b'.' ∷ b'0' ∷ b'.' ∷ b'0' ∷ b'.' ∷ b'1' ∷ b':' ∷ b'8' ∷ b'0' ∷ []
unfolding to_ip_port new_address printed swap_bytes dotted to_string to_digits
text_of_localhost = refl
