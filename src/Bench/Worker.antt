-- ===== src/Bench/Worker.antt =====
-- `worker` of bench/bench_client.cc, behind the connecting: the clock and the socket's answers are
-- given by the number of calls so far, with whatever timeout is set. The loops run on fuel.
pub mod Await
pub mod Measure
pub mod Whole
mod Tests
use reactor_chat_server.Common.{
  ℕ, zero, suc, ◌+◌, Bool, true, false, List, [], ◌∷◌, ◌++◌, Option, none, some, Bytes, ltb, leb,
  if◌then◌else◌,
}
use reactor_chat_server.Buffer.{newline}
use reactor_chat_server.Bench.{
  Outlet, send_all, LineReader, read_line, nick_of, room_of, stamp, stamped, is_echo,
}

-- `nowNs`, `recv` and `send`.
pub record Host : Type 0 where
  pub clock : ℕ → ℕ
  pub recv : ℕ → Option Bytes
  pub send : ℕ → Bytes → Option ℕ

-- A latency, as the two times of which it is the difference.
pub record Sample : Type 0 where
  pub received_at : ℕ
  pub sent_at : ℕ

-- The latencies, newest first.
pub record Stat : Type 0 where
  pub sent : ℕ
  pub received : ℕ
  pub latency_ns : List Sample

-- What a worker has, and the number of calls of the clock.
pub record Worker : Type 0 where
  pub outlet : Outlet
  pub reader : LineReader
  pub ticks : ℕ
  pub stat : Stat

abbrev pub new_stat : Stat
new_stat = record { sent = 0; received = 0; latency_ns = [] }

-- A line in the statistics.
pub count_line : ℕ → Bytes → Stat → Stat
count_line recv_t line s =
    let counted = record s { received = s.received + 1 } in
    elim (stamped line) [
      | none ↦ counted
      | some t ↦ record counted {
        latency_ns = record { received_at = recv_t; sent_at = t } ∷ s.latency_ns;
      }
    ]

-- The wait for the own echo, with `k` rounds at most for a line; the result is `alive`.
pub await_echo : ℕ → ℕ → Host → Bytes → Bytes → ℕ → Worker → Option (Bool × Worker)
await_echo k zero h room nick end_ns w = none
await_echo k (suc fuel) h room nick end_ns w = elim (read_line k h.recv w.reader) [
  | none ↦ none
  | some (none, r) ↦ some (false, record w { reader = r })
  | some (some line, r) ↦
      let recv_t = h.clock w.ticks in
      let timed = record w { reader = r; ticks = w.ticks + 1 } in
      let counted = record timed { stat = count_line recv_t line w.stat } in
      let later = await_echo k fuel h room nick end_ns counted in
      if leb end_ns recv_t
      then some (false, timed)
      else if is_echo room nick line
      then some (true, counted)
      else later
]

-- "t", the time, and a newline.
abbrev pub message : ℕ → Bytes
message now = stamp now ++ newline ∷ []

-- The loop of the measurement, while the worker is alive.
pub measure : ℕ → ℕ → Host → Bytes → Bytes → ℕ → Worker → Option Worker
measure k zero h room nick end_ns w = none
measure k (suc fuel) h room nick end_ns w =
    let asked = record w { ticks = w.ticks + 1 } in
    let stamping = record w { ticks = w.ticks + 2 } in
    if ltb (h.clock w.ticks) end_ns
    then elim (send_all k h.send (message (h.clock asked.ticks)) w.outlet) [
      | none ↦ none
      | some (false, o) ↦ some (record stamping { outlet = o })
      | some (true, o) ↦
          let counted = record w.stat { sent = w.stat.sent + 1 } in
          let waiting = record stamping { outlet = o; stat = counted } in
          elim (await_echo k k h room nick end_ns waiting) [
            | none ↦ none
            | some (false, w') ↦ some w'
            | some (true, w') ↦ measure k fuel h room nick end_ns w'
          ]
    ]
    else some asked

-- The wait for the start, which throws away what comes: whether the server is still there, and the
-- calls of the clock and of `recv` after it.
pub warm_up : ℕ → Host → ℕ → ℕ → ℕ → Option (Bool × ℕ × ℕ)
warm_up zero h start_ns ticks calls = none
warm_up (suc fuel) h start_ns ticks calls =
    let rest = warm_up fuel h start_ns (ticks + 1) (calls + 1) in
    if ltb (h.clock ticks) start_ns
    then elim (h.recv calls) [
      | some [] ↦ some (false, ticks + 1, calls + 1)
      | some (x ∷ xs) ↦ rest
      | none ↦ rest
    ]
    else some (true, ticks + 1, calls)

-- "/nick " and the nick, "/join " and the room, each with a newline.
pub greeting : Bytes → Bytes → Bytes
greeting nick room =
    b'/' ∷ b'n' ∷ b'i' ∷ b'c' ∷ b'k' ∷ b' ' ∷ []
    ++ (nick ++ (newline ∷ b'/' ∷ b'j' ∷ b'o' ∷ b'i' ∷ b'n' ∷ b' ' ∷ [] ++ (room ++ newline ∷ [])))

-- The whole of it, on a socket that is connected. Whether the greeting was sent is not looked at.
pub worker : ℕ → Host → ℕ → ℕ → ℕ → ℕ → Option Worker
worker k h id rooms start_ns end_ns =
    let nick = nick_of id in
    let room = room_of rooms id in
    elim (send_all k h.send (greeting nick room) (record { taken = []; calls = 0 })) [
      | none ↦ none
      | some (_, o) ↦ elim (warm_up k h start_ns 0 0) [
        | none ↦ none
        | some (there, ticks, calls) ↦
            let w : Worker = record {
              outlet = o;
              reader = record { buf = []; pos = 0; calls = calls };
              ticks = ticks;
              stat = new_stat;
            } in
            if there then measure k k h room nick end_ns w else some w
      ]
    ]
