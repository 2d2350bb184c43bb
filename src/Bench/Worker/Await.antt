-- ===== src/Bench/Worker/Await.antt =====
-- The wait of `worker` (bench/bench_client.cc) for its own echo.
use reactor_chat_server.Common.{
  ℕ, zero, suc, ◌+◌, ◌-◌, ◌≤◌, ◌<◌, ◌≡◌, refl, ◌∙◌, Bool, true, false, Option, none, some, Bytes,
  leb, length, arith, inl, inr, Bool-cases, Option-cases, All,
}
use reactor_chat_server.Bench.{LineReader, read_line, stamped, is_echo}
use reactor_chat_server.Bench.Reading.{Dry, ReadLine, read_line_total, sooner}
use reactor_chat_server.Bench.Worker.{Host, Sample, Stat, Worker, count_line, await_echo}

-- No more latencies than lines, each of a line that came before the end.
pub record IsFair (end_ns : ℕ) (s : Stat) : Type 0 where
  pub samples : length s.latency_ns ≤ s.received
  pub in_time : All (λ (x : Sample). x.received_at < end_ns) s.latency_ns

-- A line is counted once, and has no part in what was sent.
pub record Counted (end_ns : ℕ) (s s' : Stat) : Type 0 where
  pub one : s'.received ≡ s.received + 1
  pub sent : s'.sent ≡ s.sent
  pub fair : IsFair end_ns s → IsFair end_ns s'

count_line-Counted :
    (end_ns recv_t : ℕ) (line : Bytes) (s : Stat)
    → recv_t < end_ns
    → Counted end_ns s (count_line recv_t line s)
unfolding count_line
count_line-Counted end_ns recv_t line s early = elim (Option-cases (stamped line)) [
  | inl e ↦
      rw (e, count_line)
        (record {
          one = refl;
          sent = refl;
          fair = λ f. record { samples = omega (arith, f.samples); in_time = f.in_time };
        })
  | inr (t, e) ↦
      rw (e, count_line)
        (record {
          one = refl;
          sent = refl;
          fair = λ f. record { samples = omega (arith, f.samples); in_time = (early, f.in_time) };
        })
]

-- What a wait does: it sends nothing, and has counted a line if the echo came.
pub record Awaited (end_ns : ℕ) (w : Worker) (out : Bool × Worker) : Type 0 where
  pub same_outlet : out.1.outlet ≡ w.outlet
  pub same_sent : out.1.stat.sent ≡ w.stat.sent
  pub more : w.stat.received ≤ out.1.stat.received
  pub echoed : out.0 ≡ true → w.stat.received < out.1.stat.received
  pub later : w.ticks ≤ out.1.ticks
  pub inside : out.1.reader.pos ≤ length out.1.reader.buf
  pub fair : IsFair end_ns w.stat → IsFair end_ns out.1.stat

module _ (k limit : ℕ) (h : Host) (room nick : Bytes) (end_ns : ℕ)
    (ends : (i : ℕ) → limit ≤ i → end_ns ≤ h.clock i) (dry : Dry h.recv limit)
    (enough : limit < k) where
  -- A wait behind a line that is counted, and a line that ends it.
  behind :
      (w w' : Worker) (out : Bool × Worker)
      → w'.outlet ≡ w.outlet
      → w'.ticks ≡ w.ticks + 1
      → Counted end_ns w.stat w'.stat
      → Awaited end_ns w' out
      → Awaited end_ns w out
  behind w w' out o t c a = record {
    same_outlet = a.same_outlet ∙ o;
    same_sent = a.same_sent ∙ c.sent;
    more = omega (arith, a.more, c.one);
    echoed = λ e. omega (arith, a.more, c.one);
    later = omega (arith, a.later, t);
    inside = a.inside;
    fair = λ f. a.fair (c.fair f);
  }

  pub await_echo_total :
      (fuel : ℕ) (w : Worker)
      → w.reader.pos ≤ length w.reader.buf
      → limit - w.ticks < fuel
      → (out : Bool × Worker) × (await_echo k fuel h room nick end_ns w ≡ some out)
        × Awaited end_ns w out
  unfolding await_echo
  await_echo_total zero w inside f = absurd (omega (arith, f))
  await_echo_total (suc fuel) w inside f =
      let (out, e, r) =
        read_line_total k limit h.recv w.reader dry inside (omega (arith, enough)) in
      by_line out e r (λ w'. await_echo_total fuel w')
    where
      by_line :
          (out : Option Bytes × LineReader)
          → read_line k h.recv w.reader ≡ some out
          → ReadLine h.recv w.reader out
          → ((w' : Worker)
              → w'.reader.pos ≤ length w'.reader.buf
              → limit - w'.ticks < fuel
              → (out : Bool × Worker) × (await_echo k fuel h room nick end_ns w' ≡ some out)
                × Awaited end_ns w' out)
          → (out : Bool × Worker) × (await_echo k (suc fuel) h room nick end_ns w ≡ some out)
            × Awaited end_ns w out
      by_line (none, r) e l again = (
        (false, record w { reader = r }),
        rw (e, await_echo),
        record {
          same_outlet = refl;
          same_sent = refl;
          more = omega arith;
          echoed = λ t. cc;
          later = omega arith;
          inside = l.inside;
          fair = λ f. f;
        },
      )
      by_line (some line, r) e l again =
          let recv_t = h.clock w.ticks in
          let timed : Worker = record w { reader = r; ticks = w.ticks + 1 } in
          let counted : Worker = record timed { stat = count_line recv_t line w.stat } in
          elim (Bool-cases (leb end_ns recv_t)) [
            | inl late ↦ (
              (false, timed),
              rw (e, await_echo, late),
              record {
                same_outlet = refl;
                same_sent = refl;
                more = omega arith;
                echoed = λ t. cc;
                later = omega arith;
                inside = l.inside;
                fair = λ f. f;
              },
            )
            | inr early ↦
                let before : recv_t < end_ns = ground (arith, early) in
                let c = count_line-Counted end_ns recv_t line w.stat before in
                elim (Bool-cases (is_echo room nick line)) [
                  | inl own ↦ (
                    (true, counted),
                    rw (e, await_echo, early, own),
                    record {
                      same_outlet = refl;
                      same_sent = c.sent;
                      more = omega (arith, c.one);
                      echoed = λ t. omega (arith, c.one);
                      later = omega arith;
                      inside = l.inside;
                      fair = c.fair;
                    },
                  )
                  | inr other ↦
                      let soon : w.ticks < limit =
                        sooner w.ticks limit (λ late. omega (arith, ends w.ticks late, before)) in
                      let (out, g, a) = again counted l.inside (omega (arith, f, soon)) in
                      (out, rw (e, await_echo, early, other) g, behind w counted out refl refl c a)
                ]
          ]
