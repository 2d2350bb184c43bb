-- ===== src/Acceptor.antt =====
-- src/net/Acceptor.h and src/net/Acceptor.cc, with the calls of src/base/Socket.cc that they make.
-- What `accept4` answers is given by the number of calls so far; the peer's address, which is passed
-- on untouched, is left out.
pub mod Drain
pub mod Tests
use reactor_chat_server.Common.{
  ℕ, zero, suc, ◌+◌, Bool, true, false, List, [], ◌∷◌, ◌++◌, Option, none, some, if◌then◌else◌,
}
use reactor_chat_server.Channel.{Channel, Poller, new_channel, enable_reading}

-- `acceptChannel_`, with the poller of its loop, and whether the socket is bound and listens.
pub record Acceptor : Type 0 where
  pub channel : Channel
  pub poller : Poller
  pub bound : Bool
  pub listening : Bool

-- `Socket::bindAddress` and `Socket::listen`, by whether the system call succeeds; `none` is `abort()`.
pub bind_address : Bool → Acceptor → Option Acceptor
bind_address succeeds a = if succeeds then some (record a { bound = true }) else none

pub socket_listen : Bool → Acceptor → Option Acceptor
socket_listen succeeds a = if succeeds then some (record a { listening = true }) else none

-- The constructor, on the descriptor that `createNonblockingTCP` brings, if it does.
pub new_acceptor : ℕ → Option ℕ → Bool → Poller → Option Acceptor
new_acceptor address none binds p = none
new_acceptor address (some fd) binds p =
    bind_address binds
      (record { channel = new_channel address fd; poller = p; bound = false; listening = false })

pub listen : Bool → Acceptor → Option Acceptor
listen succeeds a = elim (socket_listen succeeds a) [
  | none ↦ none
  | some b ↦
      let (ch, p) = enable_reading b.channel b.poller in
      some (record b { channel = ch; poller = p })
]

-- The state that `newConnectionCallback_` works on, the descriptors closed at once, and the number
-- of calls of `accept`.
pub record Door (S : Type 0) : Type 0 where
  pub owner : S
  pub closed : List ℕ
  pub calls : ℕ

-- `newConnectionCallback_` may be empty; a call of it that ends in undefined behaviour is `none`.
abbrev pub NewConnection : Type 0 → Type 0
NewConnection S = Option (ℕ → S → Option S)

-- A descriptor goes to the callback, or is closed.
pub hand_over : {S : Type 0} → NewConnection S → ℕ → Door S → Option (Door S)
hand_over none fd d = some (record d { closed = d.closed ++ fd ∷ [] })
hand_over (some f) fd d = elim (f fd d.owner) [
  | none ↦ none
  | some s ↦ some (record d { owner = s })
]

-- The loop of `handleRead`; `accept` is what the calls bring, `none` for an error of any kind.
pub handle_read : {S : Type 0} → ℕ → (ℕ → Option ℕ) → NewConnection S → Door S → Option (Door S)
handle_read zero accept f d = none
handle_read (suc fuel) accept f d =
    let counted = record d { calls = d.calls + 1 } in
    elim (accept d.calls) [
      | none ↦ some counted
      | some fd ↦ elim (hand_over f fd counted) [
        | none ↦ none
        | some d' ↦ handle_read fuel accept f d'
      ]
    ]
