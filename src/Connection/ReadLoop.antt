-- ===== src/Connection/ReadLoop.antt =====
-- The loop of `handleRead` (src/net/TcpConnection.cc).
use reactor_chat_server.Common.{
  ℕ, zero, suc, ◌+◌, ◌-◌, ◌≤◌, ◌<◌, ◌≡◌, ◌≢◌, refl, sym, ap, subst, true, ◌&&◌, List, [], ◌∷◌,
  Bytes, some, arith, inl, inr, Bool-cases,
}
use reactor_chat_server.Buffer.{offered}
use reactor_chat_server.Connection.{
  World, Connection, Arrival, arrived, read_failed, Api, sends, shuts, send, send_in_loop,
  write_direct, queue_rest, wait_for_room, shutdown, shutdown_in_loop, begin_shutdown, perform,
  read_round, handle_read, handle_close, handle_error, disconnect, notify_connection,
  notify_message, eagain, other_errno,
}
use reactor_chat_server.Connection.Invariant.{Posix, IsSound}
use reactor_chat_server.Connection.Hear.{Polite, Bounded, Heard, read_round-Heard, delivered, reply}
use reactor_chat_server.Connection.Reach.{
  Step, reading, Reach, here, next, Kept, Step-Kept, Reach-Kept,
}

-- The number of socket calls only grows.
queue_rest-calls : (msg : Bytes) (n : ℕ) (c : Connection) → (queue_rest msg (n, c)).calls ≡ c.calls
unfolding queue_rest wait_for_room
queue_rest-calls msg n c = ground arith

write_direct-calls :
    (w : World) (msg : Bytes) (c : Connection) → c.calls ≤ (write_direct w msg c).1.calls
unfolding write_direct
write_direct-calls w msg c = ground arith

send-calls : (w : World) (msg : Bytes) (c : Connection) → c.calls ≤ (send w msg c).calls
unfolding send send_in_loop
send-calls w msg c =
    let (n, d) = write_direct w msg c in
    ground (arith, write_direct-calls w msg c, queue_rest-calls msg n d, queue_rest-calls msg 0 c)

shutdown-calls : (c : Connection) → (shutdown c).calls ≡ c.calls
unfolding shutdown shutdown_in_loop begin_shutdown
shutdown-calls c = ground arith

perform-calls :
    (w : World) (asked : List Api) (c : Connection) → c.calls ≤ (perform w asked c).calls
unfolding perform
perform-calls w [] c = omega arith
perform-calls w (sends msg ∷ rest) c =
    omega (arith, send-calls w msg c, perform-calls w rest (send w msg c))
perform-calls w (shuts ∷ rest) c =
    omega (arith, shutdown-calls c, perform-calls w rest (shutdown c))

pub handle_close-calls : (w : World) (c : Connection) → c.calls ≤ (handle_close w c).calls
unfolding handle_close disconnect notify_connection
handle_close-calls w c = perform-calls w _ _

-- Every round makes a socket call.
pub read_round-calls : (w : World) (c : Connection) → c.calls + 1 ≤ (read_round w c).0.calls
unfolding read_round handle_close handle_error disconnect notify_connection notify_message
read_round-calls w c = calls_of (w.readv c.calls (offered c.input)) refl
  where
    counted : Connection
    counted = record c { calls = c.calls + 1 }

    calls_of :
        (r : Arrival)
        → w.readv c.calls (offered c.input) ≡ r
        → c.calls + 1 ≤ (read_round w c).0.calls
    calls_of (arrived []) e = rw (e, read_round) (perform-calls w _ _)
    calls_of (arrived (x ∷ xs)) e = rw (e, read_round) (perform-calls w _ _)
    calls_of (read_failed eagain) e = rw (e, read_round) (omega arith)
    calls_of (read_failed other_errno) e = rw (e, read_round) (omega arith)

-- A round that lets the loop go on has read bytes, by a socket call.
going_round :
    (w : World) (c : Connection) (r : Arrival)
    → Heard w c r (read_round w c)
    → (read_round w c).1 ≡ true
    → (bytes : Bytes) × (r ≡ arrived bytes)
      × (bytes ≢ [])
      × (c.calls + 1 ≤ (read_round w c).0.calls)
unfolding delivered
going_round w c (arrived []) h goes = absurd (ground (arith, (h.on_end refl).1))
going_round w c (read_failed e) h goes = absurd (ground (arith, (h.on_error e refl).1))
going_round w c (arrived (x ∷ xs)) h goes =
    let out = (h.on_data (x ∷ xs) refl (λ e. cc)).1 in
    (
      x ∷ xs,
      refl,
      (λ e. cc),
      subst (λ (k : Connection). c.calls + 1 ≤ k.calls) (sym (ap (λ p. p.0) out))
          (perform-calls w (reply w c (x ∷ xs)).1 (delivered w c (x ∷ xs))),
    )

-- A step in front of a history.
after : {w : World} {c d e : Connection} → Step w c d → Reach w d e → Reach w c e
after s here = next here s
after s (next r t) = next (after s r) t

-- The connections at which the loop reads, from one on: behind rounds that let it go on.
pub data Rounds (w : World) (c : Connection) : Connection → Type 0 where
  start : Rounds w c c
  round :
      {d : Connection} → Rounds w c d → (read_round w d).1 ≡ true → Rounds w c (read_round w d).0

later :
    {w : World} {c d : Connection}
    → (read_round w c).1 ≡ true
    → Rounds w (read_round w c).0 d
    → Rounds w c d
later goes start = round start goes
later goes (round r on) = round (later goes r) on

-- handleRead on a sound connection, with a POSIX socket that has no data from some socket call on,
-- an application that leaves a valid buffer, and arrays within their maximum at each round: with
-- fuel for one round more than the calls that may still bring data it returns, and what it does is
-- a history of rounds, with all that Reach-Kept states of one.
pub handle_read_total :
    (fuel limit : ℕ) (w : World) (c : Connection)
    → Posix w
    → Polite w
    → IsSound c
    → ((i room : ℕ) (bytes : Bytes) → limit ≤ i → w.readv i room ≡ arrived bytes → bytes ≡ [])
    → ((d : Connection) (bytes : Bytes)
        → Rounds w c d
        → w.readv d.calls (offered d.input) ≡ arrived bytes
        → Bounded w d bytes)
    → limit - c.calls < fuel
    → (d : Connection) × (handle_read fuel w c ≡ some d) × Reach w c d × Kept c d
unfolding handle_read
handle_read_total zero limit w c p q s dry fits enough = absurd (omega (arith, enough))
handle_read_total (suc fuel) limit w c p q s dry fits enough =
    let step : Step w c (read_round w c).0 = reading (λ bytes e. fits c bytes start e) in
    let once = next here step in
    elim (Bool-cases ((read_round w c).1 && c.et)) [
      | inr stops ↦ ((read_round w c).0, rw stops, once, Reach-Kept w p q s once)
      | inl goes ↦
          let heard = read_round-Heard w c p q s (λ bytes e. fits c bytes start e) in
          let (bytes, e, some_read, more) = going_round w c _ heard (ground (arith, goes)) in
          let early : c.calls < limit =
            ground (arith, dry c.calls (offered c.input) bytes, e, some_read) in
          let (d, f, r, _) =
            handle_read_total fuel limit w (read_round w c).0 p q (Step-Kept w p q s step).sound dry
              (λ k bs r. fits k bs (later (ground (arith, goes)) r))
              (omega (arith, more, enough, early)) in
          let whole = after step r in (d, rw goes f, whole, Reach-Kept w p q s whole)
    ]
