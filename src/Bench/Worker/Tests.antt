-- ===== src/Bench/Worker/Tests.antt =====
-- `worker` of bench/bench_client.cc on a small host.
use reactor_chat_server.Common.{
  ℕ, zero, suc, ◌≡◌, refl, [], ◌∷◌, ◌++◌, Bytes, Option, some, length, ◌≤◌, ◌<◌, arith, min,
  starts_with,
}
use reactor_chat_server.Buffer.{newline, find_byte}
use reactor_chat_server.Server.{to_string, to_digits}
use reactor_chat_server.Bench.{
  nick_of, room_of, stamp, is_echo, echo_prefix, send_all, send_from, read_line, take_line, stamped,
  behind_last, digits_value,
}
use reactor_chat_server.Bench.Sending.{SendBounded}
use reactor_chat_server.Bench.Reading.{Dry}
use reactor_chat_server.Bench.Worker.{
  Host, Worker, message, greeting, worker, measure, warm_up, await_echo, count_line,
}
use reactor_chat_server.Bench.Worker.Whole.{Worked, worker_total}

-- `send` takes two bytes at most.
abbrev two_bytes : ℕ → Bytes → Option ℕ
two_bytes i bytes = some (min 2 (length bytes))

two_bytes-bounded : SendBounded two_bytes
two_bytes-bounded i bytes n e = let same : min 2 (length bytes) ≡ n = cc in omega (arith, same)

-- A host on which one message is echoed, and then the end comes.
abbrev ticking : ℕ → ℕ
ticking zero = 0
ticking (suc zero) = 1
ticking (suc (suc zero)) = 2
ticking (suc (suc (suc zero))) = 3
ticking (suc (suc (suc (suc n)))) = 9

abbrev echo_of_two : Bytes
echo_of_two =
    b'[' ∷ b'b' ∷ b'0' ∷ b']' ∷ b' ' ∷ b'u' ∷ b'7' ∷ b':' ∷ b' ' ∷ b't' ∷ b'2' ∷ newline ∷ []

abbrev one_echo : ℕ → Option Bytes
one_echo zero = some echo_of_two
one_echo (suc n) = some []

abbrev host : Host
host = record { clock = ticking; recv = one_echo; send = two_bytes }

ends : (i : ℕ) → 4 ≤ i → 9 ≤ ticking i
ends zero h = absurd (omega (arith, h))
ends (suc zero) h = absurd (omega (arith, h))
ends (suc (suc zero)) h = absurd (omega (arith, h))
ends (suc (suc (suc zero))) h = absurd (omega (arith, h))
ends (suc (suc (suc (suc n)))) h = omega arith

one_echo-Dry : Dry one_echo 4
one_echo-Dry zero x xs h e = absurd (omega (arith, h))
one_echo-Dry (suc n) x xs h e = cc

short : (i : ℕ) → length (message (ticking i)) < 40
unfolding stamp to_string to_digits
short zero = omega arith
short (suc zero) = omega arith
short (suc (suc zero)) = omega arith
short (suc (suc (suc zero))) = omega arith
short (suc (suc (suc (suc n)))) = omega arith

polite : length (greeting (nick_of 7) (room_of 1 7)) < 40
unfolding greeting nick_of room_of to_string to_digits
polite = omega arith

worker_example :
    (w : Worker) × (worker 40 host 7 1 0 9 ≡ some w)
    × Worked ticking 9 (greeting (nick_of 7) (room_of 1 7)) w
worker_example =
    worker_total 40 4 host 7 1 0 9 (λ i h. omega arith) ends one_echo-Dry two_bytes-bounded
      (omega arith) short polite

-- One message is sent, and one line received.
worker_run :
    worker 40 host 7 1 0 9
    ≡ some (record {
      outlet = record { taken = greeting (nick_of 7) (room_of 1 7) ++ message 2; calls = 11 };
      reader = record { buf = echo_of_two; pos = 12; calls = 1 };
      ticks = 5;
      stat = record {
        sent = 1;
        received = 1;
        latency_ns = record { received_at = 3; sent_at = 2 } ∷ [];
      };
    })
unfolding worker measure warm_up await_echo count_line greeting stamp nick_of room_of is_echo
    echo_prefix to_string to_digits send_all send_from read_line take_line find_byte stamped
    behind_last digits_value starts_with
worker_run = refl
