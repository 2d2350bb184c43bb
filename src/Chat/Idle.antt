-- ===== src/Chat/Idle.antt =====
-- The chain of idle timers of src/chat/ChatServer.cc, for a connection that stays open.
use reactor_chat_server.Common.{
  ℕ, zero, suc, ◌+◌, ◌-◌, ◌≤◌, ◌<◌, ◌≡◌, ap, ◌∙◌, subst, true, [], ◌∷◌, inl, inr, List, Option,
  none, some, arith, leb, Bool-cases,
}
use reactor_chat_server.Rooms.{ConnectionId, Session, House}
use reactor_chat_server.Chat.{Effect, send, shutdown, run_after, on_idle_timer}
use reactor_chat_server.Chat.Texts.{idle_text}

-- The delay of the next timer, if the callback started one.
abbrev pub rearmed : List Effect → Option ℕ
rearmed (run_after conn delay ∷ []) = some delay
rearmed _ = none

-- When the chain of timers ends, and by which calls, with timers that fire on time: `house t` is the state at time `t`,
-- and the first timer fires at `now`. `none` means that the fuel ran out, or a null session.
pub closing_time : ℕ → ConnectionId → ℕ → (ℕ → House) → ℕ → Option (ℕ × List Effect)
closing_time zero conn timeout house now = none
closing_time (suc fuel) conn timeout house now =
    elim (on_idle_timer conn true now timeout (house now)) [
      | none ↦ none
      | some calls ↦ elim (rearmed calls) [
        | none ↦ some (now, calls)
        | some delay ↦ closing_time fuel conn timeout house (now + delay)
      ]
    ]

-- How a timer ends: in a farewell, or in a timer for the time at which the silence gets too long.
data Verdict (conn : ConnectionId) (now timeout seen : ℕ) (h : House) : Type 0 where
  farewell :
      seen + timeout ≤ now
      → on_idle_timer conn true now timeout h ≡ some (send conn idle_text ∷ shutdown conn ∷ [])
      → Verdict conn now timeout seen h
  again :
      now < seen + timeout
      → (delay : ℕ) → now + delay ≡ seen + timeout
      → on_idle_timer conn true now timeout h ≡ some (run_after conn delay ∷ [])
      → Verdict conn now timeout seen h

on_idle_timer-Verdict :
    (conn : ConnectionId) (now timeout : ℕ) (h : House) (s : Session)
    → h.sessions conn ≡ some s
    → s.last_active ≤ now
    → Verdict conn now timeout s.last_active h
unfolding on_idle_timer
on_idle_timer-Verdict conn now timeout h s e past =
    elim (Bool-cases (leb timeout (now - s.last_active))) [
      | inl idle ↦ farewell (ground arith) (rw (e, on_idle_timer, idle))
      | inr awake ↦
          again (ground arith) (timeout - (now - s.last_active)) (ground arith)
            (rw (e, on_idle_timer, awake))
    ]

-- What a chain of timers does in a step, by its verdict.
closing_time-farewell :
    (fuel : ℕ) (conn : ConnectionId) (timeout now : ℕ) (house : ℕ → House)
    → on_idle_timer conn true now timeout (house now)
      ≡ some (send conn idle_text ∷ shutdown conn ∷ [])
    → closing_time (suc fuel) conn timeout house now
      ≡ some (now, send conn idle_text ∷ shutdown conn ∷ [])
unfolding closing_time
closing_time-farewell fuel conn timeout now house e = rw (e, closing_time)

closing_time-again :
    (fuel : ℕ) (conn : ConnectionId) (timeout now delay : ℕ) (house : ℕ → House)
    → on_idle_timer conn true now timeout (house now) ≡ some (run_after conn delay ∷ [])
    → closing_time (suc fuel) conn timeout house now
      ≡ closing_time fuel conn timeout house (now + delay)
unfolding closing_time
closing_time-again fuel conn timeout now delay house e = rw (e, closing_time)

module _ (conn : ConnectionId) (timeout last : ℕ) (house : ℕ → House) (seen : ℕ → ℕ)
    (session : (t : ℕ)
      → (s : Session) × ((house t).sessions conn ≡ some s) × (s.last_active ≡ seen t))
    (past : (t : ℕ) → seen t ≤ t) (silent : (t : ℕ) → last ≤ t → seen t ≡ last)
    (lively : (t : ℕ) → t < last → t < seen t + timeout) where
  verdict : (now : ℕ) → Verdict conn now timeout (seen now) (house now)
  verdict now =
      let (s, e, f) = session now in
      subst (λ n. Verdict conn now timeout n (house now)) f
        (on_idle_timer-Verdict conn now timeout (house now) s e (omega (arith, f, past now)))

  -- A client whose last input comes at some time, and that never before kept silent for the
  -- timeout, is sent the farewell and then shut down, exactly the timeout after that input, if the
  -- timers fire on time, the first no later than that, and the fuel exceeds the time in between.
  pub closing_time_lem :
      (fuel now : ℕ)
      → now ≤ last + timeout
      → last + timeout - now < fuel
      → closing_time fuel conn timeout house now
        ≡ some (last + timeout, send conn idle_text ∷ shutdown conn ∷ [])
  closing_time_lem zero now h enough = absurd (omega (arith, enough))
  closing_time_lem (suc fuel) now h enough = elim (verdict now) [
    | farewell idle e ↦
        let over : now ≡ last + timeout = ground (arith, silent now, lively now) in
        closing_time-farewell fuel conn timeout now house e
        ∙ ap (λ (t : ℕ). some (t, send conn idle_text ∷ shutdown conn ∷ [])) over
    | again early delay next e ↦
        let bound : seen now ≤ last = ground (arith, silent now, past now) in
        closing_time-again fuel conn timeout now delay house e
        ∙ closing_time_lem fuel (now + delay) (omega (arith, next, bound))
            (omega (arith, next, bound, early, enough, h))
  ]
