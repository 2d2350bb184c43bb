-- ===== src/Bench.antt =====
-- bench/bench_client.cc: sending, reading line by line, and the measurement of one client. The
-- sockets' answers are given by the number of calls so far, and so is the clock.
pub mod Sending
pub mod Reading
pub mod Echo
pub mod Worker
mod Tests
use reactor_chat_server.Common.{
  ℕ, zero, suc, ◌+◌, ◌-◌, ◌*◌, ◌%◌, ◌^◌, Bool, true, false, ◌&&◌, ◌||◌, not, List, [], ◌∷◌, ◌++◌,
  Option, none, some, Byte, Bytes, ltb, leb, ◌==◌, if◌then◌else◌, length, take, drop, starts_with,
}
use reactor_chat_server.Buffer.{newline, find_byte}
use reactor_chat_server.Server.{to_string}

-- What the kernel has of a client: the bytes it took, oldest first, and the number of calls of `send`.
pub record Outlet : Type 0 where
  pub taken : Bytes
  pub calls : ℕ

-- The loop of `sendAll` from an offset; `send` answers how much it took, or nothing. The result is
-- `none` if the fuel runs out.
pub send_from : ℕ → (ℕ → Bytes → Option ℕ) → Bytes → ℕ → Outlet → Option (Bool × Outlet)
send_from zero send s off o = none
send_from (suc fuel) send s off o =
    let rest = drop off s in
    let counted = record o { calls = o.calls + 1 } in
    if ltb off (length s)
    then elim (send o.calls rest) [
      | none ↦ some (false, counted)
      | some zero ↦ some (false, counted)
      | some (suc n) ↦
          send_from fuel send s (off + suc n)
            (record counted { taken = o.taken ++ take (suc n) rest })
    ]
    else some (true, o)

pub send_all : ℕ → (ℕ → Bytes → Option ℕ) → Bytes → Outlet → Option (Bool × Outlet)
send_all fuel send s o = send_from fuel send s 0 o

-- `struct LineReader`, with the number of calls of `recv`.
pub record LineReader : Type 0 where
  pub buf : Bytes
  pub pos : ℕ
  pub calls : ℕ

-- A line was found `i` bytes behind `pos_`; a long prefix that has been read is erased.
pub take_line : ℕ → LineReader → Bytes × LineReader
take_line i r =
    let pos = r.pos + i + 1 in
    (
      take i (drop r.pos r.buf),
      if ltb (2 ^ 20) pos
          then record r { buf = drop pos r.buf; pos = 0 }
          else record r { pos = pos },
    )

-- `recv` answers bytes, none of them at the end of the stream, or an error. The inner result is
-- `none` where the code returns false.
pub read_line : ℕ → (ℕ → Option Bytes) → LineReader → Option (Option Bytes × LineReader)
read_line zero recv r = none
read_line (suc fuel) recv r =
    let counted = record r { calls = r.calls + 1 } in
    elim (find_byte newline (drop r.pos r.buf)) [
      | some i ↦ let (line, r') = take_line i r in some (some line, r')
      | none ↦ elim (recv r.calls) [
        | none ↦ some (none, counted)
        | some [] ↦ some (none, counted)
        | some (x ∷ xs) ↦ read_line fuel recv (record counted { buf = r.buf ++ (x ∷ xs) })
      ]
    ]

-- The names that a worker takes.
pub nick_of : ℕ → Bytes
nick_of id = b'u' ∷ to_string id

pub room_of : ℕ → ℕ → Bytes
room_of rooms id = b'b' ∷ to_string (id % rooms)

-- "[room] nick: t"
pub echo_prefix : Bytes → Bytes → Bytes
echo_prefix room nick =
    (b'[' ∷ []) ++ (room ++ (b']' ∷ b' ' ∷ [] ++ (nick ++ (b':' ∷ b' ' ∷ b't' ∷ []))))

-- "t" and the time of sending.
pub stamp : ℕ → Bytes
stamp now = b't' ∷ to_string now

-- `rfind`: what stands behind the last place of `p`.
pub behind_last : Bytes → Bytes → Option Bytes
behind_last p [] = none
behind_last p (c ∷ s) =
    let later = behind_last p s in
    elim later [
      | some t ↦ some t
      | none ↦ if starts_with p (c ∷ s) then some (drop (length p) (c ∷ s)) else none
    ]

-- `atol` of digits, behind a number that others stand for; overflow is left out, and so are white
-- space and signs in front.
pub digits_value : ℕ → Bytes → ℕ
digits_value n [] = n
digits_value n (c ∷ s) =
    let rest = digits_value (n * 10 + (c - b'0')) s in if leb b'0' c && leb c b'9' then rest else n

-- The time in a line.
pub stamped : Bytes → Option ℕ
stamped line = elim (behind_last (b':' ∷ b' ' ∷ b't' ∷ []) line) [
  | none ↦ none
  | some digits ↦ some (digits_value 0 digits)
]

pub is_echo : Bytes → Bytes → Bytes → Bool
is_echo room nick line = starts_with (echo_prefix room nick) line
