-- ===== src/Connection/WriteLoop.antt =====
-- The loop of `handleWrite` (src/net/TcpConnection.cc).
use reactor_chat_server.Common.{
  ℕ, zero, suc, ◌<◌, ◌≡◌, refl, sym, ap, ◌∙◌, Bool, true, false, ◌&&◌, length, ltb, ◌==◌, arith,
  inl, inr, Bool-cases, some, ◌⊎◌, if◌then◌else◌, length-drop, ltb→lt,
}
use reactor_chat_server.Buffer.{retrieve, readable_bytes}
use reactor_chat_server.Buffer.Contents.{contents}
use reactor_chat_server.Connection.{
  k_disconnecting, World, WriteResult, wrote, write_failed, Connection, writing, is_disconnecting,
  pending, write_round, write_loop, handle_write,
}
use reactor_chat_server.Connection.Invariant.{Posix, stream, IsSound, live_of_writing, Waiting-live}
use reactor_chat_server.Connection.Flush.{
  Flushed, unchanged, partly, left, partly-Flushed, done, done-Flushed, finished-Flushed,
}

-- One round; if the loop may go on, it has made progress and the writing end is as it was.
record Round (c : Connection) (out : Connection × Bool) : Type 0 where
  flushed : Flushed c out.0
  goes_on :
      out.1 ≡ true
      → (writing out.0 ≡ true)
        × (out.0.shut ≡ c.shut)
        × (length (contents out.0.output) < length (contents c.output))

module _ (w : World) (c : Connection) (p : Posix w) (s : IsSound c) (busy : writing c ≡ true) where
  nonempty : 0 < length (contents c.output)
  nonempty =
      let live = live_of_writing c.state (writing c) (contents c.output) busy s.waiting in
      ltb→lt 0 _ (sym (Waiting-live c.state _ _ live s.waiting) ∙ busy)

  shrinks :
      (n : ℕ)
      → w.write c.calls (pending c.output) ≡ wrote n
      → 0 < n
      → length (contents (retrieve n c.output)) < length (contents c.output)
  shrinks n h positive =
      omega (arith, ap length (left w c p s busy n h), length-drop n (contents c.output), nonempty)

  wrote-Round : (n : ℕ) → w.write c.calls (pending c.output) ≡ wrote n → Round c (write_round w c)
  unfolding partly done write_round
  wrote-Round n h = elim (Bool-cases (ltb 0 n)) [
    | inr nothing ↦
        rw (h, write_round, nothing)
          (record { flushed = unchanged w c p s busy; goes_on = λ e. cc })
    | inl progress ↦ elim (Bool-cases (readable_bytes (retrieve n c.output) == 0)) [
      | inr more ↦
          rw (h, write_round, progress, more)
            (record {
              flushed = partly-Flushed w c p s busy n h more;
              goes_on = λ _. (busy, refl, shrinks n h (ltb→lt 0 n progress));
            })
      | inl all ↦ elim (Bool-cases (is_disconnecting c.state)) [
        | inl asked ↦
            rw (h, write_round, progress, all, asked)
              (record { flushed = finished-Flushed w c p s busy n h all asked; goes_on = λ e. cc })
        | inr going ↦
            rw (h, write_round, progress, all, going)
              (record { flushed = done-Flushed w c p s busy n h all going; goes_on = λ e. cc })
      ]
    ]
  ]

  failed-Round :
      (r : WriteResult) → w.write c.calls (pending c.output) ≡ r → Round c (write_round w c)
  unfolding write_round
  failed-Round (wrote n) h = wrote-Round n h
  failed-Round (write_failed e) h =
      rw (h, write_round) (record { flushed = unchanged w c p s busy; goes_on = λ e. cc })

  write_round-Round : Round c (write_round w c)
  write_round-Round = failed-Round (w.write c.calls (pending c.output)) refl

-- A round, then the rest of the loop.
Flushed-next :
    {c d e : Connection}
    → Flushed c d
    → writing d ≡ true
    → d.shut ≡ c.shut
    → Flushed d e
    → Flushed c e
Flushed-next {c} {d} {e} f busy same g = record {
  sound = g.sound;
  streamed = g.streamed ∙ f.streamed;
  same_state = g.same_state ∙ f.same_state;
  shut_last = later g.shut_last;
  shuts = λ _ asked off. g.shuts busy (ap is_disconnecting f.same_state ∙ asked) off;
}
  where
    later :
        (e.shut ≡ d.shut) ⊎ ((e.state ≡ k_disconnecting) × (e.sent ≡ stream d))
        → (e.shut ≡ c.shut) ⊎ ((e.state ≡ k_disconnecting) × (e.sent ≡ stream c))
    later (inl h) = inl (h ∙ same)
    later (inr h) = inr (h.0, h.1 ∙ f.streamed)

write_loop_total :
    (fuel : ℕ) (w : World) (c : Connection)
    → Posix w
    → IsSound c
    → writing c ≡ true
    → length (contents c.output) < fuel
    → (d : Connection) × (write_loop fuel w c ≡ some d) × Flushed c d
unfolding write_loop
write_loop_total zero w c p s busy h = absurd (omega arith)
write_loop_total (suc fuel) w c p s busy h =
    let r = write_round-Round w c p s busy in
    elim (Bool-cases ((write_round w c).1 && c.et)) [
      | inr stops ↦ ((write_round w c).0, rw stops, r.flushed)
      | inl goes ↦
          let g = r.goes_on (ground arith) in
          let (d, e, f) =
            write_loop_total fuel w (write_round w c).0 p r.flushed.sound g.0 (omega arith) in
          (d, rw goes e, Flushed-next r.flushed g.0 g.1 f)
    ]

-- handleWrite returns with fuel for one round more than bytes wait, whatever a POSIX socket
-- answers; nothing accepted is lost or reordered, the invariant and the state stay, and the writing
-- end is shut only in the state kDisconnecting with everything sent, and is shut if the connection
-- was waiting in that state and waits no more.
pub handle_write_total :
    (fuel : ℕ) (w : World) (c : Connection)
    → Posix w
    → IsSound c
    → length (contents c.output) < fuel
    → (d : Connection) × (handle_write fuel w c ≡ some d) × Flushed c d
unfolding handle_write
handle_write_total fuel w c p s h =
    let test = λ (t : Bool). if t then write_loop fuel w c else some c in
    elim (Bool-cases (writing c)) [
      | inl busy ↦ let (d, e, f) = write_loop_total fuel w c p s busy h in (d, ap test busy ∙ e, f)
      | inr idle ↦ (
        c,
        ap test idle,
        record {
          sound = s;
          streamed = refl;
          same_state = refl;
          shut_last = inl refl;
          shuts = λ on _ _. cc;
        },
      )
    ]

pub handle_write-idle :
    (fuel : ℕ) (w : World) (c : Connection) → writing c ≡ false → handle_write fuel w c ≡ some c
unfolding handle_write
handle_write-idle fuel w c idle = ap (λ t. if t then write_loop fuel w c else some c) idle
