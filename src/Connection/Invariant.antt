-- ===== src/Connection/Invariant.antt =====
-- The invariant of a connection (src/net/TcpConnection.h), and what it relies on from the socket.
use reactor_chat_server.Common.{
  ℕ, ◌≤◌, ◌≡◌, Bool, true, false, not, ◌&&◌, ◌||◌, [], ◌++◌, Bytes, length, ltb, refl, sym, ap,
  subst, arith, ◌⊎◌, inl, inr,
}
use reactor_chat_server.Buffer.Invariant.{IsValid}
use reactor_chat_server.Buffer.Contents.{contents}
use reactor_chat_server.Channel.Registered.{Attached}
use reactor_chat_server.Connection.{
  State, k_connecting, k_connected, k_disconnecting, k_disconnected, World, wrote, arrived,
  Connection, writing, is_connected, is_disconnecting,
}

-- POSIX: `write` and `readv` report no more bytes than they were given, or than there was room for.
pub record Posix (w : World) : Type 0 where
  pub write_bounded : (i : ℕ) (bs : Bytes) (n : ℕ) → w.write i bs ≡ wrote n → n ≤ length bs
  pub readv_bounded : (i room : ℕ) (bs : Bytes) → w.readv i room ≡ arrived bs → length bs ≤ room

-- Everything that was accepted for sending: what the kernel took, and what waits behind it.
abbrev pub stream : Connection → Bytes
stream c = c.sent ++ contents c.output

-- When the channel waits for the socket to be writable: while the connection lives, exactly if
-- bytes wait in the output buffer.
abbrev pub Waiting : State → Bool → Bytes → Type 0
Waiting k_connecting w out = (w ≡ false) × (out ≡ [])
Waiting k_connected w out = w ≡ ltb 0 (length out)
Waiting k_disconnecting w out = w ≡ ltb 0 (length out)
Waiting k_disconnected w out = w ≡ false

-- The states after a call of `shutdown` or a close.
abbrev pub is_ending : State → Bool
is_ending k_connecting = false
is_ending k_connected = false
is_ending k_disconnecting = true
is_ending k_disconnected = true

-- `closed`: once the writing end is shut, nothing waits to be written and the connection is ending.
pub record IsSound (c : Connection) : Type 0 where
  pub input_valid : IsValid c.input
  pub output_valid : IsValid c.output
  pub attached : Attached c.channel c.poller
  pub waiting : Waiting c.state (writing c) (contents c.output)
  pub closed : (c.shut && (writing c || not (is_ending c.state))) ≡ false

-- The invariant at a state that is known.
pub Waiting-connected :
    (st : State) (w : Bool) (out : Bytes)
    → st ≡ k_connected
    → Waiting st w out
    → w ≡ ltb 0 (length out)
Waiting-connected st w out e h = subst (λ st. Waiting st w out) e h

pub connected-Waiting :
    (st : State) (w : Bool) (out : Bytes)
    → st ≡ k_connected
    → w ≡ ltb 0 (length out)
    → Waiting st w out
connected-Waiting st w out e h = subst (λ st. Waiting st w out) (sym e) h

pub not_shut : (c : Connection) → IsSound c → is_ending c.state ≡ false → c.shut ≡ false
not_shut c s e = ground (arith, s.closed)

pub State-cases : (st : State) → (st ≡ k_connected) ⊎ (is_connected st ≡ false)
State-cases k_connected = inl refl
State-cases k_connecting = inr refl
State-cases k_disconnecting = inr refl
State-cases k_disconnected = inr refl

-- The states in which the output buffer is being flushed.
abbrev pub is_live : State → Bool
is_live k_connecting = false
is_live k_connected = true
is_live k_disconnecting = true
is_live k_disconnected = false

pub live_cases : (st : State) → is_live st ≡ true → (st ≡ k_connected) ⊎ (st ≡ k_disconnecting)
live_cases k_connecting e = cc
live_cases k_connected e = inl refl
live_cases k_disconnecting e = inr refl
live_cases k_disconnected e = cc

pub Waiting-live :
    (st : State) (w : Bool) (out : Bytes)
    → is_live st ≡ true
    → Waiting st w out
    → w ≡ ltb 0 (length out)
Waiting-live k_connecting w out e h = cc
Waiting-live k_connected w out e h = h
Waiting-live k_disconnecting w out e h = h
Waiting-live k_disconnected w out e h = cc

pub live-Waiting :
    (st : State) (w : Bool) (out : Bytes)
    → is_live st ≡ true
    → w ≡ ltb 0 (length out)
    → Waiting st w out
live-Waiting k_connecting w out e h = cc
live-Waiting k_connected w out e h = h
live-Waiting k_disconnecting w out e h = h
live-Waiting k_disconnected w out e h = cc

-- Only a live connection waits for room.
pub live_of_writing :
    (st : State) (w : Bool) (out : Bytes) → w ≡ true → Waiting st w out → is_live st ≡ true
live_of_writing k_connecting w out e h = cc (h.0)
live_of_writing k_connected w out e h = refl
live_of_writing k_disconnecting w out e h = refl
live_of_writing k_disconnected w out e h = cc

pub disconnecting_state : (st : State) → is_disconnecting st ≡ true → st ≡ k_disconnecting
disconnecting_state k_connecting e = cc
disconnecting_state k_connected e = cc
disconnecting_state k_disconnecting e = refl
disconnecting_state k_disconnected e = cc

pub disconnecting_ending : (st : State) → is_disconnecting st ≡ true → is_ending st ≡ true
disconnecting_ending st e = ap is_ending (disconnecting_state st e)
