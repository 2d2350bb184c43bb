-- ===== src/Acceptor/Drain.antt =====
-- The loop of `Acceptor::handleRead` (src/net/Acceptor.cc).
use reactor_chat_server.Common.{
  ℕ, zero, suc, refl, ◌+◌, ◌<◌, ◌≡◌, ap, ap₂, ◌∙◌, List, [], ◌∷◌, ◌++◌, Option, none, some, arith,
  inl, inr, true, Option-cases, append-nil, append_assoc, length,
}
use reactor_chat_server.Channel.{enable_reading}
use reactor_chat_server.Channel.Registered.{Attached, Synced}
use reactor_chat_server.Channel.Requests.{reading, request, request-Synced}
use reactor_chat_server.Acceptor.{
  Acceptor, Door, NewConnection, hand_over, handle_read, socket_listen, listen,
}

-- The descriptors that `accept` brings from a call on, up to the first error.
pub data Brings (accept : ℕ → Option ℕ) : ℕ → List ℕ → Type 0 where
  nothing : {i : ℕ} → accept i ≡ none → Brings accept i []
  another :
      {i : ℕ} {fds : List ℕ} (fd : ℕ)
      → accept i ≡ some fd
      → Brings accept (i + 1) fds
      → Brings accept i (fd ∷ fds)

-- What becomes of descriptors: the owner takes them one by one, or they are closed.
abbrev pub hand_all : {S : Type 0} → NewConnection S → List ℕ → S → List ℕ → Option (S × List ℕ)
hand_all none fds s closed = some (s, closed ++ fds)
hand_all (some f) [] s closed = some (s, closed)
hand_all (some f) (fd ∷ fds) s closed = elim (f fd s) [
  | none ↦ none
  | some s' ↦ hand_all (some f) fds s' closed
]

abbrev pub after_calls : {S : Type 0} → ℕ → Option (S × List ℕ) → Option (Door S)
after_calls n none = none
after_calls n (some (s, closed)) = some (record { owner = s; closed = closed; calls = n })

-- The loop returns, and has handed over, or closed, each descriptor that came before the first
-- error, in order, with one call of `accept` for each and one for the error; or it is `none`, if a
-- call of the callback is.
pub handle_read_lem :
    {S : Type 0} (accept : ℕ → Option ℕ) (f : NewConnection S) (fuel : ℕ) (fds : List ℕ)
    (d : Door S)
    → Brings accept d.calls fds
    → length fds < fuel
    → handle_read fuel accept f d
      ≡ after_calls (d.calls + length fds + 1) (hand_all f fds d.owner d.closed)
unfolding handle_read hand_over
handle_read_lem {S} accept f zero fds d b h = absurd (omega (arith, h))
handle_read_lem {S} accept none (suc fuel) [] d (nothing e) h =
    let count : d.calls + 1 ≡ d.calls + 0 + 1 = omega arith in
    rw (e, handle_read, append-nil d.closed) (ap (λ (n : ℕ). some (record d { calls = n })) count)
handle_read_lem {S} accept (some f) (suc fuel) [] d (nothing e) h =
    let count : d.calls + 1 ≡ d.calls + 0 + 1 = omega arith in
    rw (e, handle_read) (ap (λ (n : ℕ). some (record d { calls = n })) count)
handle_read_lem {S} accept none (suc fuel) (_ ∷ fds) d (another fd e b) h =
    let count : d.calls + 1 + length fds + 1 ≡ d.calls + suc (length fds) + 1 = omega arith in
    rw (e, handle_read)
      (handle_read_lem accept none fuel fds
          (record d { closed = d.closed ++ fd ∷ []; calls = d.calls + 1 }) b (omega (arith, h))
        ∙ ap₂ (λ (n : ℕ) (l : List ℕ). some (record { owner = d.owner; closed = l; calls = n }))
            count (append_assoc d.closed (fd ∷ []) fds))
handle_read_lem {S} accept (some f) (suc fuel) (_ ∷ fds) d (another fd e b) h =
    let count : d.calls + 1 + length fds + 1 ≡ d.calls + suc (length fds) + 1 = omega arith in
    elim (Option-cases (f fd d.owner)) [
      | inl stuck ↦ rw (e, handle_read, stuck)
      | inr (s, taken) ↦
          rw (e, handle_read, taken)
            (handle_read_lem accept (some f) fuel fds (record d { owner = s; calls = d.calls + 1 })
                b (omega (arith, h))
              ∙ ap (λ (n : ℕ). after_calls n (hand_all (some f) fds s d.closed)) count)
    ]

-- `listen`, of a socket that may: the kernel waits for what the channel asks for.
pub listen_lem :
    (a : Acceptor)
    → Attached a.channel a.poller
    → (b : Acceptor) × (listen true a ≡ some b) × (b.listening ≡ true) × Synced b.channel b.poller
unfolding listen socket_listen request
listen_lem a attached =
    let (ch, p) = enable_reading a.channel a.poller in
    (
      record a { channel = ch; poller = p; listening = true },
      refl,
      refl,
      request-Synced (reading true) a.channel a.poller attached (λ e. cc),
    )
