-- ===== src/Bench/Worker/Measure.antt =====
-- The measurement of `worker` (bench/bench_client.cc), and the whole of it.
use reactor_chat_server.Common.{
  ℕ, zero, suc, ◌+◌, ◌-◌, ◌≤◌, ◌<◌, ◌≡◌, refl, sym, ap, ◌∙◌, Bool, true, false, List, [], ◌∷◌, ◌++◌,
  map, some, Bytes, ltb, length, take, arith, inl, inr, Bool-cases, append-nil, append_assoc,
}
use reactor_chat_server.Codec.Stream.{concat}
use reactor_chat_server.Bench.{Outlet, send_all}
use reactor_chat_server.Bench.Sending.{SendBounded, send_all_total}
use reactor_chat_server.Bench.Reading.{Dry, sooner}
use reactor_chat_server.Bench.Worker.{Host, Worker, await_echo, message, measure}
use reactor_chat_server.Bench.Worker.Await.{IsFair, Awaited, await_echo_total}

-- The messages for readings of the clock.
abbrev pub messages : (ℕ → ℕ) → List ℕ → Bytes
messages clock reads = concat (map (λ i. message (clock i)) reads)

-- What a measurement does: whole messages, and then a front of one.
pub record Measured (clock : ℕ → ℕ) (end_ns : ℕ) (w w' : Worker) : Type 0 where
  pub reads : List ℕ
  pub last : ℕ
  pub cut : ℕ
  pub taken :
      w'.outlet.taken ≡ w.outlet.taken ++ (messages clock reads ++ take cut (message (clock last)))
  pub sent : w'.stat.sent ≡ w.stat.sent + length reads
  pub answered : w.stat.sent ≤ w.stat.received → w'.stat.sent ≤ w'.stat.received + 1
  pub fair : IsFair end_ns w.stat → IsFair end_ns w'.stat

-- One message more in front.
one_more :
    (clock : ℕ → ℕ) (i : ℕ) (reads : List ℕ) (xs ys zs rest : Bytes)
    → ys ≡ xs ++ message (clock i)
    → zs ≡ ys ++ (messages clock reads ++ rest)
    → zs ≡ xs ++ (messages clock (i ∷ reads) ++ rest)
one_more clock i reads xs ys zs rest e f =
    f
    ∙ ap (λ (l : Bytes). l ++ (messages clock reads ++ rest)) e
    ∙ append_assoc xs (message (clock i)) (messages clock reads ++ rest)
    ∙ ap (◌++◌ xs) (sym (append_assoc (message (clock i)) (messages clock reads) rest))

module _ (k limit : ℕ) (h : Host) (end_ns : ℕ) (ends : (i : ℕ) → limit ≤ i → end_ns ≤ h.clock i)
    (dry : Dry h.recv limit) (bounded : SendBounded h.send) (enough : limit < k)
    (short : (i : ℕ) → length (message (h.clock i)) < k) where
  pub measure_total :
      (room nick : Bytes) (fuel : ℕ) (w : Worker)
      → w.reader.pos ≤ length w.reader.buf
      → limit - w.ticks < fuel
      → (w' : Worker) × (measure k fuel h room nick end_ns w ≡ some w')
        × Measured h.clock end_ns w w'
  unfolding measure
  measure_total room nick zero w inside f = absurd (omega (arith, f))
  measure_total room nick (suc fuel) w inside f = elim (Bool-cases (ltb (h.clock w.ticks) end_ns)) [
    | inr over ↦ (
      record w { ticks = w.ticks + 1 },
      rw over,
      record {
        reads = [];
        last = 0;
        cut = 0;
        taken = sym (append-nil w.outlet.taken);
        sent = omega arith;
        answered = λ a. omega (arith, a);
        fair = λ a. a;
      },
    )
    | inl going ↦
        let (ok, o, cut, e, front, whole) =
          send_all_total k h.send (message (h.clock (w.ticks + 1))) w.outlet bounded
            (short (w.ticks + 1)) in
        by_sent ok o cut going e front whole (λ w'. measure_total room nick fuel w')
  ]
    where
      waiting : Outlet → Worker
      waiting o = record w {
        outlet = o;
        ticks = w.ticks + 2;
        stat = record w.stat { sent = w.stat.sent + 1 };
      }

      by_wait :
          (o : Outlet) (out : Bool × Worker)
          → ltb (h.clock w.ticks) end_ns ≡ true
          → send_all k h.send (message (h.clock (w.ticks + 1))) w.outlet ≡ some (true, o)
          → o.taken ≡ w.outlet.taken ++ message (h.clock (w.ticks + 1))
          → await_echo k k h room nick end_ns (waiting o) ≡ some out
          → Awaited end_ns (waiting o) out
          → ((w' : Worker)
              → w'.reader.pos ≤ length w'.reader.buf
              → limit - w'.ticks < fuel
              → (w'' : Worker) × (measure k fuel h room nick end_ns w' ≡ some w'')
                × Measured h.clock end_ns w' w'')
          → (w' : Worker) × (measure k (suc fuel) h room nick end_ns w ≡ some w')
            × Measured h.clock end_ns w w'
      by_wait o (false, w') going e whole g a again = (
        w',
        rw (going, e, measure, g),
        record {
          reads = (w.ticks + 1) ∷ [];
          last = 0;
          cut = 0;
          taken =
              one_more h.clock (w.ticks + 1) [] w.outlet.taken o.taken w'.outlet.taken [] whole
                (ap (λ (x : Outlet). x.taken) a.same_outlet ∙ sym (append-nil o.taken));
          sent = omega (arith, a.same_sent);
          answered = λ b. omega (arith, a.same_sent, a.more, b);
          fair = λ b. a.fair (record { samples = b.samples; in_time = b.in_time });
        },
      )
      by_wait o (true, w') going e whole g a again =
          let early : w.ticks < limit =
            sooner w.ticks limit (λ late. omega (arith, ends w.ticks late, going_lt going)) in
          let (w'', r, m) = again w' a.inside (omega (arith, f, early, a.later)) in
          (
            w'',
            rw (going, e, measure, g) r,
            record {
              reads = (w.ticks + 1) ∷ m.reads;
              last = m.last;
              cut = m.cut;
              taken =
                  one_more h.clock (w.ticks + 1) m.reads w.outlet.taken o.taken w''.outlet.taken _
                    whole
                    (m.taken
                      ∙ ap
                          (λ (x : Outlet).
                            x.taken
                            ++ (messages h.clock m.reads ++ take m.cut (message (h.clock m.last))))
                          a.same_outlet);
              sent = omega (arith, a.same_sent, m.sent);
              answered = λ b. m.answered (omega (arith, a.same_sent, a.echoed refl, b));
              fair = λ b. m.fair (a.fair (record { samples = b.samples; in_time = b.in_time }));
            },
          )
        where
          going_lt : ltb (h.clock w.ticks) end_ns ≡ true → h.clock w.ticks < end_ns
          going_lt g = ground (arith, g)

      by_sent :
          (ok : Bool) (o : Outlet) (cut : ℕ)
          → ltb (h.clock w.ticks) end_ns ≡ true
          → send_all k h.send (message (h.clock (w.ticks + 1))) w.outlet ≡ some (ok, o)
          → o.taken ≡ w.outlet.taken ++ take cut (message (h.clock (w.ticks + 1)))
          → (ok ≡ true → o.taken ≡ w.outlet.taken ++ message (h.clock (w.ticks + 1)))
          → ((w' : Worker)
              → w'.reader.pos ≤ length w'.reader.buf
              → limit - w'.ticks < fuel
              → (w'' : Worker) × (measure k fuel h room nick end_ns w' ≡ some w'')
                × Measured h.clock end_ns w' w'')
          → (w' : Worker) × (measure k (suc fuel) h room nick end_ns w ≡ some w')
            × Measured h.clock end_ns w w'
      by_sent false o cut going e front whole again = (
        record w { outlet = o; ticks = w.ticks + 2 },
        rw (going, e, measure),
        record {
          reads = [];
          last = w.ticks + 1;
          cut = cut;
          taken = front;
          sent = omega arith;
          answered = λ a. omega (arith, a);
          fair = λ a. a;
        },
      )
      by_sent true o cut going e front whole again =
          let (out, g, a) =
            await_echo_total k limit h room nick end_ns ends dry enough k (waiting o) inside
              (omega (arith, enough)) in
          by_wait o out going e (whole refl) g a again
