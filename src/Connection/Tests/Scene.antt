-- ===== src/Connection/Tests/Scene.antt =====
-- A concrete socket and a concrete application for src/net/TcpConnection.cc, and connections there.
use reactor_chat_server.Common.{
  ℕ, zero, suc, ◌≤◌, ◌≡◌, refl, true, false, [], ◌∷◌, Bytes, length, arith, if◌then◌else◌,
}
use reactor_chat_server.Buffer.{new_buffer, offered, writable_bytes}
use reactor_chat_server.Buffer.Invariant.{Fits}
use reactor_chat_server.Channel.{new_poller, new_channel}
use reactor_chat_server.Common.{◌==◌, ap, sym, ◌∙◌, inl, inr, Bool-cases}
use reactor_chat_server.Connection.{read_failed, eagain}
use reactor_chat_server.Connection.ReadLoop.{Rounds, start, round, read_round-calls}
use reactor_chat_server.Connection.{
  k_connecting, k_connected, k_disconnecting, World, Connection, new_connection, sends, shuts,
  wrote, arrived, send, shutdown, read_round, begin_shutdown, shutdown_in_loop,
}
use reactor_chat_server.Connection.Invariant.{Posix, IsSound}
use reactor_chat_server.Connection.Perform.{Room}
use reactor_chat_server.Connection.Life.{new_connection-IsSound, opened, opened-IsSound}
use reactor_chat_server.Connection.Hear.{Polite, Bounded, delivered}
use reactor_chat_server.Connection.Reach.{sending, shutting, Reach, here, next, Reach-Kept}

abbrev pub hello : Bytes
hello = b'h' ∷ b'i' ∷ []

-- `write` takes one byte at a time.
abbrev pub one_byte : Bytes → ℕ
one_byte [] = 0
one_byte (x ∷ xs) = 1

-- One byte, if there is room.
abbrev pub first : ℕ → Bytes
first zero = []
first (suc n) = b'x' ∷ []

-- The peer sends one byte, and so does the application on a connection and on a message.
abbrev pub world : World
world = record {
  write = λ i bs. wrote (one_byte bs);
  readv = λ i room. arrived (first room);
  on_connection = λ i st. sends hello ∷ [];
  on_message = λ i b. (b, sends (b'y' ∷ []) ∷ shuts ∷ []);
}

pub one_byte_bounded : (bs : Bytes) (n : ℕ) → wrote (one_byte bs) ≡ wrote n → n ≤ length bs
one_byte_bounded [] n e = ground arith
one_byte_bounded (x ∷ xs) n e = ground arith

pub take_bounded : (room : ℕ) (bs : Bytes) → arrived (first room) ≡ arrived bs → length bs ≤ room
take_bounded zero bs e = ground arith
take_bounded (suc n) bs e = ground arith

pub world-Posix : Posix world
world-Posix = record {
  write_bounded = λ i bs n e. one_byte_bounded bs n e;
  readv_bounded = λ i room bs e. take_bounded room bs e;
}

pub world-Polite : Polite world
world-Polite = record { keeps = λ i b v. v }

abbrev pub fresh : Connection
fresh = new_connection true 4096 7 new_poller

pub fresh-state : fresh.state ≡ k_connecting
unfolding new_connection
fresh-state = refl

pub fresh-Room : Room world (world.on_connection (length fresh.notices) k_connected) (opened fresh)
unfolding opened new_connection new_buffer
fresh-Room = (omega arith, tt)

-- A connection that is connected, with nothing accepted yet.
abbrev pub idle : Connection
idle = opened fresh

pub idle-IsSound : IsSound idle
idle-IsSound = opened-IsSound fresh (new_connection-IsSound true 4096 7) fresh-state

pub idle-state : idle.state ≡ k_connected
unfolding opened
idle-state = refl

pub idle-Fits : Fits 2 idle.output
unfolding opened new_connection new_buffer
idle-Fits = omega arith

-- The kernel has taken the first byte of the greeting, and the second waits.
abbrev pub busy : Connection
busy = send world hello idle

pub busy-IsSound : IsSound busy
busy-IsSound =
    (Reach-Kept world world-Posix world-Polite idle-IsSound
      (next here (sending hello idle-Fits))).sound

-- A connection that is connected, at its first byte.
abbrev pub plain : Connection
plain = record fresh { state = k_connected }

pub plain-IsSound : IsSound plain
unfolding new_connection new_channel new_buffer
plain-IsSound =
    let s = new_connection-IsSound true 4096 7 in
    record {
      input_valid = s.input_valid;
      output_valid = s.output_valid;
      attached = s.attached;
      waiting = refl;
      closed = refl;
    }

pub plain-Fits : Fits 2 plain.output
unfolding new_connection new_buffer
plain-Fits = omega arith

pub plain-Bounded :
    (bytes : Bytes)
    → world.readv plain.calls (offered plain.input) ≡ arrived bytes
    → Bounded world plain bytes
unfolding new_connection new_buffer offered writable_bytes delivered
plain-Bounded bytes e =
    let one : bytes ≡ b'x' ∷ [] = cc in
    record { fits = ground (arith, one); room = (omega arith, tt) }

abbrev pub history : Reach world plain (shutdown (send world hello plain))
history = next (next here (sending hello plain-Fits)) shutting

-- With nothing waiting, `shutdown` shuts the writing end at once.
pub closed-state : (shutdown plain).state ≡ k_disconnecting
unfolding shutdown shutdown_in_loop begin_shutdown new_connection new_channel
closed-state = refl

pub closed-shut : (shutdown plain).shut ≡ true
unfolding shutdown shutdown_in_loop begin_shutdown new_connection new_channel
closed-shut = refl

-- The peer sends one byte, and then nothing yet.
abbrev pub quiet : World
quiet = record world {
  readv = λ i room. if i == 0 then arrived (first room) else read_failed eagain;
}

pub quiet-bounded :
    (i room : ℕ) (bs : Bytes)
    → (if i == 0 then arrived (first room) else read_failed eagain) ≡ arrived bs
    → length bs ≤ room
quiet-bounded i room bs e = elim (Bool-cases (i == 0)) [
  | inl hit ↦
      take_bounded room bs
        (sym (ap (λ b. if b then arrived (first room) else read_failed eagain) hit) ∙ e)
  | inr miss ↦
      let never = sym (ap (λ b. if b then arrived (first room) else read_failed eagain) miss) ∙ e in
      cc
]

pub quiet-Posix : Posix quiet
quiet-Posix = record {
  write_bounded = λ i bs n e. one_byte_bounded bs n e;
  readv_bounded = quiet-bounded;
}

pub quiet-dry :
    (i room : ℕ) (bytes : Bytes) → 1 ≤ i → quiet.readv i room ≡ arrived bytes → bytes ≡ []
quiet-dry i room bytes h e =
    let other : (i == 0) ≡ false = ground arith in
    let never = sym (ap (λ b. if b then arrived (first room) else read_failed eagain) other) ∙ e in
    cc

pub quiet-Bounded :
    (d : Connection) (bytes : Bytes)
    → Rounds quiet plain d
    → quiet.readv d.calls (offered d.input) ≡ arrived bytes
    → Bounded quiet d bytes
unfolding new_connection new_buffer offered writable_bytes delivered
quiet-Bounded d bytes start e =
    let one : bytes ≡ b'x' ∷ [] = cc in
    record { fits = ground (arith, one); room = (omega arith, tt) }
quiet-Bounded _ bytes (round {d = k} r goes) e =
    let moved = read_round-calls quiet k in
    let none_left = quiet-dry _ _ bytes (omega (arith, moved)) e in
    absurd_empty (read_round quiet k).0 bytes none_left (omega (arith, moved)) e
  where
    absurd_empty :
        (d : Connection) (bytes : Bytes)
        → bytes ≡ []
        → 1 ≤ d.calls
        → quiet.readv d.calls (offered d.input) ≡ arrived bytes
        → Bounded quiet d bytes
    absurd_empty d bytes none_left h e =
        let other : (d.calls == 0) ≡ false = ground arith in
        let never =
          sym (ap (λ b. if b then arrived (first (offered d.input)) else read_failed eagain) other)
          ∙ e in
        cc
