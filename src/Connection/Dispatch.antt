-- ===== src/Connection/Dispatch.antt =====
-- An event on the channel of a connection (src/net/Channel.cc, src/net/TcpConnection.cc).
use reactor_chat_server.Common.{
  ℕ, ◌-◌, ◌≤◌, ◌<◌, ◌≡◌, refl, ap, ◌∙◌, Bool, true, false, not, ◌&&◌, ◌||◌, [], Bytes, length,
  arith, inl, inr, Option, none, some, Bool-cases, if◌then◌else◌,
}
use reactor_chat_server.Buffer.{offered}
use reactor_chat_server.Buffer.Invariant.{max_size}
use reactor_chat_server.Buffer.Contents.{contents, length-contents}
use reactor_chat_server.Channel.{Mask, Callbacks, handle_event, handle_event_guarded}
use reactor_chat_server.Connection.{
  State, k_connecting, k_connected, k_disconnecting, k_disconnected, World, Connection, arrived,
  handle_read, handle_write, handle_close, handle_error,
}
use reactor_chat_server.Connection.Invariant.{Posix, IsSound}
use reactor_chat_server.Connection.Hear.{Polite, Bounded}
use reactor_chat_server.Connection.WriteLoop.{handle_write_total}
use reactor_chat_server.Connection.ReadLoop.{Rounds, handle_read_total, handle_close-calls}
use reactor_chat_server.Connection.Advance.{rank, Reach-far, handle_close-state}
use reactor_chat_server.Connection.Reach.{
  flushing, closing, failing, Reach, here, next, Kept, Reach-Kept,
}

-- A callback on a connection that may have run out of fuel.
abbrev and_then : (Connection → Option Connection) → Option Connection → Option Connection
and_then f none = none
and_then f (some c) = f c

-- The four callbacks that the constructor sets.
pub callbacks : ℕ → World → Callbacks (Option Connection)
callbacks fuel w = record {
  on_read = some (and_then (handle_read fuel w));
  on_write = some (and_then (handle_write fuel w));
  on_close = some (and_then (λ c. some (handle_close w c)));
  on_error = some (and_then (λ c. some (handle_error c)));
}

-- `setRevents` by the poller, and `handleEvent` while `tie_` finds the connection.
pub dispatch : ℕ → World → Mask → Connection → Option Connection
dispatch fuel w revents c =
    handle_event (record (c.channel) { revents = revents }) true (callbacks fuel w) (some c)

module _ (w : World) (m : Mask) (c : Connection) where
  -- The connection once a hang-up and an error are dealt with.
  abbrev hung_up : Bool
  hung_up = m.epollhup && not m.epollin

  abbrev pub before_read : Connection
  before_read =
      let d = if hung_up then handle_close w c else c in if m.epollerr then handle_error d else d

  abbrev readable : Bool
  readable = m.epollin || m.epollpri || m.epollrdhup

  abbrev after_read : ℕ → Option Connection
  after_read fuel = if readable then handle_read fuel w before_read else some before_read

  staged :
      (h e : Bool)
      → (let o : Option Connection = if h then some (handle_close w c) else some c in
          if e then and_then (λ d. some (handle_error d)) o else o)
        ≡ some (let d = if h then handle_close w c else c in if e then handle_error d else d)
  staged true true = refl
  staged true false = refl
  staged false true = refl
  staged false false = refl

  if_same : (t : Bool) (o : Option Connection) → (if t then o else o) ≡ o
  if_same true o = refl
  if_same false o = refl

  -- The event, with its first two parts done.
  dispatch_lem :
      (fuel : ℕ)
      → dispatch fuel w m c
        ≡ (if m.epollout then and_then (handle_write fuel w) (after_read fuel) else after_read fuel)
  unfolding dispatch callbacks handle_event handle_event_guarded
  dispatch_lem fuel =
      let last = λ (o : Option Connection).
        let read = if readable then and_then (handle_read fuel w) o else o in
        if m.epollout then and_then (handle_write fuel w) read else read in
      if_same c.channel.tied _ ∙ ap last (staged hung_up m.epollerr)

  -- The events before the reading, as a history.
  before_read-Reach : Reach w c before_read
  before_read-Reach = hung hung_up m.epollerr
    where
      hung :
          (h e : Bool)
          → Reach w c (let d = if h then handle_close w c else c in if e then handle_error d else d)
      hung true true = next (next here closing) failing
      hung true false = next here closing
      hung false true = next here failing
      hung false false = here

  before_read-calls : c.calls ≤ before_read.calls
  unfolding handle_error
  before_read-calls = ground (arith, handle_close-calls w c)

Reach-trans : {w : World} {c d e : Connection} → Reach w c d → Reach w d e → Reach w c e
Reach-trans r here = r
Reach-trans r (next t st) = next (Reach-trans r t) st

far_enough : (st : State) → 3 ≤ rank st → st ≡ k_disconnected
far_enough k_connecting h = absurd (omega (arith, h))
far_enough k_connected h = absurd (omega (arith, h))
far_enough k_disconnecting h = absurd (omega (arith, h))
far_enough k_disconnected h = refl

before_read-state :
    (w : World) (m : Mask) (c : Connection)
    → hung_up w m c ≡ true
    → (before_read w m c).state ≡ k_disconnected
unfolding handle_error
before_read-state w m c e = ground (arith, handle_close-state w c)

-- The last part of an event.
write_part :
    (fuel : ℕ) (w : World) (m : Mask) (c d : Connection)
    → Posix w
    → max_size < fuel
    → Reach w c d
    → IsSound d
    → (e : Connection) × ((if m.epollout then handle_write fuel w d else some d) ≡ some e)
      × Reach w c e
write_part fuel w m c d p large r u = elim (Bool-cases m.epollout) [
  | inr off ↦ (d, rw off, r)
  | inl on ↦
      let v = u.output_valid in
      let room : length (contents d.output) < fuel =
        omega (arith, large, length-contents d.output v, v.inside, v.bounded) in
      let (d', e, f) = handle_write_total fuel w d p u room in
      (d', rw on e, next r (flushing fuel d' room e))
]

-- An event on the channel of a sound connection, with any set of ready bits, a POSIX socket that
-- has no data from some socket call on, an application that leaves a valid buffer, arrays within
-- their maximum at each round of reading, and fuel above both the calls that may still bring data
-- and the size of an array: handleEvent returns; what it does is a history of the connection, with
-- all that Reach-Kept states of one; and a hang-up with nothing to read leaves it disconnected,
-- whatever other bits are set.
pub dispatch_total :
    (fuel limit : ℕ) (w : World) (m : Mask) (c : Connection)
    → Posix w
    → Polite w
    → IsSound c
    → ((i room : ℕ) (bytes : Bytes) → limit ≤ i → w.readv i room ≡ arrived bytes → bytes ≡ [])
    → ((d : Connection) (bytes : Bytes)
        → Rounds w (before_read w m c) d
        → w.readv d.calls (offered d.input) ≡ arrived bytes
        → Bounded w d bytes)
    → limit - c.calls < fuel
    → max_size < fuel
    → (d : Connection) × (dispatch fuel w m c ≡ some d)
      × Reach w c d
      × Kept c d
      × ((m.epollhup && not m.epollin) ≡ true → d.state ≡ k_disconnected)
dispatch_total fuel limit w m c p q s dry fits enough large =
    let b = before_read w m c in
    let first = before_read-Reach w m c in
    let t = (Reach-Kept w p q s first).sound in
    let (d, e, r) = read_part t in
    let (d', e', r') = write_part fuel w m b d p large r (Reach-Kept w p q t r).sound in
    let whole = Reach-trans first r' in
    let write =
      λ (o : Option Connection). if m.epollout then and_then (handle_write fuel w) o else o in
    (
      d',
      dispatch_lem w m c fuel ∙ ap write e ∙ e',
      whole,
      Reach-Kept w p q s whole,
      (λ hung.
          far_enough d'.state
            (omega (arith, ap rank (before_read-state w m c hung), Reach-far w p q t r'))),
    )
  where
    read_part :
        IsSound (before_read w m c)
        → (d : Connection) × (after_read w m c fuel ≡ some d) × Reach w (before_read w m c) d
    read_part t = elim (Bool-cases (readable w m c)) [
      | inr off ↦ (before_read w m c, rw off, here)
      | inl on ↦
          let (d, e, r, _) =
            handle_read_total fuel limit w (before_read w m c) p q t dry fits
              (omega (arith, enough, before_read-calls w m c)) in
          (d, rw on e, r)
    ]
