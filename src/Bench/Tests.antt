-- ===== src/Bench/Tests.antt =====
-- bench/bench_client.cc with small sockets.
use reactor_chat_server.Common.{
  ℕ, zero, suc, ◌≡◌, [], ◌∷◌, Bytes, Option, some, length, arith, ◌==◌, min,
}
use reactor_chat_server.Buffer.{newline}
use reactor_chat_server.Codec.Stream.{broadcast_line}
use reactor_chat_server.Bench.{LineReader, read_line, nick_of, stamp, stamped, is_echo}
use reactor_chat_server.Bench.Sending.{SendBounded}
use reactor_chat_server.Bench.Reading.{Dry, ReadLine, read_line_total}
use reactor_chat_server.Bench.Echo.{echo_lem}

abbrev hello : Bytes
hello = b'h' ∷ b'i' ∷ newline ∷ []

-- `send` takes two bytes at most.
abbrev two_bytes : ℕ → Bytes → Option ℕ
two_bytes i bytes = some (min 2 (length bytes))

two_bytes-bounded : SendBounded two_bytes
two_bytes-bounded i bytes n e = let same : min 2 (length bytes) ≡ n = cc in omega (arith, same)

-- One piece, and then the end of the stream.
abbrev once : ℕ → Option Bytes
once zero = some hello
once (suc n) = some []

once-Dry : Dry once 1
once-Dry zero x xs h e = absurd (omega (arith, h))
once-Dry (suc n) x xs h e = cc

abbrev reader : LineReader
reader = record { buf = []; pos = 0; calls = 0 }

read_line_example :
    (out : Option Bytes × LineReader) × (read_line 2 once reader ≡ some out)
    × ReadLine once reader out
read_line_example = read_line_total 2 1 once reader once-Dry (omega arith) (omega arith)

echo_example :
    (stamped (broadcast_line (b'b' ∷ []) (nick_of 11) (stamp 1234)) ≡ some 1234)
    × (is_echo (b'b' ∷ []) (nick_of 1) (broadcast_line (b'b' ∷ []) (nick_of 11) (stamp 1234))
        ≡ (1 == 11))
echo_example = echo_lem (b'b' ∷ []) 1 11 1234
