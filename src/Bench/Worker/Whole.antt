-- ===== src/Bench/Worker/Whole.antt =====
-- `worker` (bench/bench_client.cc) from its greeting to its end.
use reactor_chat_server.Common.{
  ℕ, zero, suc, ◌+◌, ◌-◌, ◌≤◌, ◌<◌, ◌≡◌, refl, sym, ap, ◌∙◌, Bool, true, false, List, [], ◌∷◌, ◌++◌,
  Option, none, some, Bytes, ltb, length, take, arith, inl, inr, Bool-cases, append-nil,
}
use reactor_chat_server.Bench.{Outlet, send_all, nick_of, room_of}
use reactor_chat_server.Bench.Sending.{SendBounded, send_all_total}
use reactor_chat_server.Bench.Reading.{Dry, sooner}
use reactor_chat_server.Bench.Worker.{Host, Worker, new_stat, message, warm_up, greeting, worker}
use reactor_chat_server.Bench.Worker.Await.{IsFair}
use reactor_chat_server.Bench.Worker.Measure.{messages, measure_total}

-- What a worker has done at its end.
pub record Worked (clock : ℕ → ℕ) (end_ns : ℕ) (hello : Bytes) (w : Worker) : Type 0 where
  pub greeted : ℕ
  pub reads : List ℕ
  pub last : ℕ
  pub cut : ℕ
  pub taken :
      w.outlet.taken
      ≡ take greeted hello ++ (messages clock reads ++ take cut (message (clock last)))
  pub sent : w.stat.sent ≡ length reads
  pub answered : w.stat.sent ≤ w.stat.received + 1
  pub fair : IsFair end_ns w.stat

warm_up_total :
    (fuel limit : ℕ) (h : Host) (start_ns ticks calls : ℕ)
    → ((i : ℕ) → limit ≤ i → start_ns ≤ h.clock i)
    → limit - ticks < fuel
    → (out : Bool × ℕ × ℕ) × (warm_up fuel h start_ns ticks calls ≡ some out)
unfolding warm_up
warm_up_total zero limit h start_ns ticks calls starts f = absurd (omega (arith, f))
warm_up_total (suc fuel) limit h start_ns ticks calls starts f =
    elim (Bool-cases (ltb (h.clock ticks) start_ns)) [
      | inr begun ↦ ((true, ticks + 1, calls), rw begun refl)
      | inl early ↦
          by_answer (h.recv calls) refl early
            (λ g. warm_up_total fuel limit h start_ns (ticks + 1) (calls + 1) starts g)
    ]
  where
    left : ltb (h.clock ticks) start_ns ≡ true → limit - (ticks + 1) < fuel
    left early =
        let before : h.clock ticks < start_ns = ground (arith, early) in
        let soon : ticks < limit =
          sooner ticks limit (λ late. omega (arith, starts ticks late, before)) in
        omega (arith, f, soon)

    by_answer :
        (r : Option Bytes)
        → h.recv calls ≡ r
        → ltb (h.clock ticks) start_ns ≡ true
        → (limit - (ticks + 1) < fuel
            → (out : Bool × ℕ × ℕ) × (warm_up fuel h start_ns (ticks + 1) (calls + 1) ≡ some out))
        → (out : Bool × ℕ × ℕ) × (warm_up (suc fuel) h start_ns ticks calls ≡ some out)
    by_answer none e early again =
        let (out, g) = again (left early) in (out, rw (early, e, warm_up) g)
    by_answer (some []) e early again = ((false, ticks + 1, calls + 1), rw (early, e, warm_up))
    by_answer (some (x ∷ xs)) e early again =
        let (out, g) = again (left early) in (out, rw (early, e, warm_up) g)

module _ (k limit : ℕ) (h : Host) (id rooms start_ns end_ns : ℕ)
    (starts : (i : ℕ) → limit ≤ i → start_ns ≤ h.clock i)
    (ends : (i : ℕ) → limit ≤ i → end_ns ≤ h.clock i) (dry : Dry h.recv limit)
    (bounded : SendBounded h.send) (enough : limit < k)
    (short : (i : ℕ) → length (message (h.clock i)) < k)
    (polite : length (greeting (nick_of id) (room_of rooms id)) < k) where
  -- A worker of the benchmark, with a clock that is past the start and the end from some reading
  -- on, a socket that brings no bytes from some call on and reports no more than it was given, and
  -- fuel above these and above the length of each message, returns; what the socket took is a front
  -- of the greeting, one whole message for each that is counted as sent, with the time at which the
  -- clock was read, and a front of one more; at most one message more is sent than lines are
  -- counted; and there is at most one latency for each line counted, each of a line that came
  -- before the end.
  pub worker_total :
      (w : Worker) × (worker k h id rooms start_ns end_ns ≡ some w)
      × Worked h.clock end_ns (greeting (nick_of id) (room_of rooms id)) w
  unfolding worker
  worker_total =
      let (ok, o, cut, e, front, _) =
        send_all_total k h.send hello (record { taken = []; calls = 0 }) bounded polite in
      let (out, f) = warm_up_total k limit h start_ns 0 0 starts (omega (arith, enough)) in
      by_start ok o cut e front out f
    where
      hello : Bytes
      hello = greeting (nick_of id) (room_of rooms id)

      beginning : Outlet → ℕ → ℕ → Worker
      beginning o ticks calls = record {
        outlet = o;
        reader = record { buf = []; pos = 0; calls = calls };
        ticks = ticks;
        stat = new_stat;
      }

      by_start :
          (ok : Bool) (o : Outlet) (cut : ℕ)
          → send_all k h.send hello (record { taken = []; calls = 0 }) ≡ some (ok, o)
          → o.taken ≡ take cut hello
          → (out : Bool × ℕ × ℕ) → warm_up k h start_ns 0 0 ≡ some out
          → (w : Worker) × (worker k h id rooms start_ns end_ns ≡ some w)
            × Worked h.clock end_ns hello w
      by_start ok o cut e front (false, ticks, calls) f = (
        beginning o ticks calls,
        rw (e, worker, f),
        record {
          greeted = cut;
          reads = [];
          last = 0;
          cut = 0;
          taken = front ∙ sym (append-nil (take cut hello));
          sent = refl;
          answered = omega arith;
          fair = record { samples = omega arith; in_time = tt };
        },
      )
      by_start ok o cut e front (true, ticks, calls) f =
          let (w, g, m) =
            measure_total k limit h end_ns ends dry bounded enough short (room_of rooms id)
              (nick_of id) k (beginning o ticks calls) (omega arith) (omega (arith, enough)) in
          (
            w,
            rw (e, worker, f) g,
            record {
              greeted = cut;
              reads = m.reads;
              last = m.last;
              cut = m.cut;
              taken =
                  m.taken
                  ∙ ap
                      (λ (l : Bytes).
                        l ++ (messages h.clock m.reads ++ take m.cut (message (h.clock m.last))))
                      front;
              sent = omega (arith, m.sent);
              answered = m.answered (omega arith);
              fair = m.fair (record { samples = omega arith; in_time = tt });
            },
          )
