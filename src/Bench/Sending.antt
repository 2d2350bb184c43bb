-- ===== src/Bench/Sending.antt =====
-- `sendAll` of bench/bench_client.cc.
use reactor_chat_server.Common.{
  ℕ, zero, suc, ◌+◌, ◌-◌, ◌≤◌, ◌<◌, ◌≡◌, refl, sym, ap, ◌∙◌, Bool, true, false, [], ◌++◌, Option,
  none, some, Bytes, ltb, length, take, drop, arith, inl, inr, Bool-cases, append-nil, append_assoc,
  take-append-drop, drop-drop, drop_all, take-take-drop,
}
use reactor_chat_server.Bench.{Outlet, send_from, send_all}

-- `send` reports no more bytes than it was given.
abbrev pub SendBounded : (ℕ → Bytes → Option ℕ) → Type 0
SendBounded send = (i : ℕ) (bytes : Bytes) (n : ℕ) → send i bytes ≡ some n → n ≤ length bytes

-- What a call leaves, from an offset on: all of the rest with true, and a front of it with false.
pub record SentRest (s : Bytes) (off : ℕ) (o : Outlet) (out : Bool × Outlet) : Type 0 where
  pub cut : ℕ
  pub taken : out.1.taken ≡ o.taken ++ take cut (drop off s)
  pub whole : out.0 ≡ true → take cut (drop off s) ≡ drop off s

nothing_taken : (o : Bytes) → o ≡ o ++ []
nothing_taken o = sym (append-nil o)

-- A piece, and what is taken behind it.
pieces :
    (s : Bytes) (off n k : ℕ)
    → n ≤ length (drop off s)
    → take n (drop off s) ++ take k (drop (off + n) s) ≡ take (n + k) (drop off s)
pieces s off n k h =
    ap (λ l. take n (drop off s) ++ take k l) (sym (drop-drop n off s))
    ∙ take-take-drop n k (drop off s) h

send_from_total :
    (fuel : ℕ) (send : ℕ → Bytes → Option ℕ) (s : Bytes) (off : ℕ) (o : Outlet)
    → SendBounded send
    → length s - off < fuel
    → (out : Bool × Outlet) × (send_from fuel send s off o ≡ some out) × SentRest s off o out
unfolding send_from
send_from_total zero send s off o b h = absurd (omega (arith, h))
send_from_total (suc fuel) send s off o b h = elim (Bool-cases (ltb off (length s))) [
  | inr done ↦
      let none_left : drop off s ≡ [] = drop_all off s (ground (arith, done)) in
      (
        (true, o),
        rw done,
        record { cut = 0; taken = nothing_taken o.taken; whole = λ e. sym none_left },
      )
  | inl more ↦
      by_answer (send o.calls (drop off s)) refl more
        (λ n o'. send_from_total fuel send s (off + suc n) o' b)
]
  where
    by_answer :
        (r : Option ℕ)
        → send o.calls (drop off s) ≡ r
        → ltb off (length s) ≡ true
        → ((n : ℕ) (o' : Outlet)
            → length s - (off + suc n) < fuel
            → (out : Bool × Outlet) × (send_from fuel send s (off + suc n) o' ≡ some out)
              × SentRest s (off + suc n) o' out)
        → (out : Bool × Outlet) × (send_from (suc fuel) send s off o ≡ some out)
          × SentRest s off o out
    by_answer none e more again = (
      (false, record o { calls = o.calls + 1 }),
      rw (more, e, send_from),
      record { cut = 0; taken = nothing_taken o.taken; whole = λ f. cc },
    )
    by_answer (some zero) e more again = (
      (false, record o { calls = o.calls + 1 }),
      rw (more, e, send_from),
      record { cut = 0; taken = nothing_taken o.taken; whole = λ f. cc },
    )
    by_answer (some (suc n)) e more again =
        let o' = record o { taken = o.taken ++ take (suc n) (drop off s); calls = o.calls + 1 } in
        let bound = b o.calls (drop off s) (suc n) e in
        let (out, f, r) = again n o' (ground (arith, h, more)) in
        let joined = pieces s off (suc n) r.cut bound in
        (
          out,
          rw (more, e, send_from) f,
          record {
            cut = suc n + r.cut;
            taken =
                r.taken
                ∙ append_assoc o.taken (take (suc n) (drop off s))
                    (take r.cut (drop (off + suc n) s))
                ∙ ap (◌++◌ o.taken) joined;
            whole = λ t.
                sym joined
                ∙ ap (◌++◌ (take (suc n) (drop off s))) (r.whole t ∙ sym (drop-drop (suc n) off s))
                ∙ take-append-drop (suc n) (drop off s);
          },
        )

-- sendAll, with a socket that reports no more bytes than it was given and fuel above the number of
-- bytes, returns; the socket has then taken a front of the bytes, in order, and all of them if the
-- result is true.
pub send_all_total :
    (fuel : ℕ) (send : ℕ → Bytes → Option ℕ) (s : Bytes) (o : Outlet)
    → SendBounded send
    → length s < fuel
    → (ok : Bool) × (o' : Outlet) × (cut : ℕ) × (send_all fuel send s o ≡ some (ok, o'))
      × (o'.taken ≡ o.taken ++ take cut s)
      × (ok ≡ true → o'.taken ≡ o.taken ++ s)
unfolding send_all
send_all_total fuel send s o b h =
    let (out, e, r) = send_from_total fuel send s 0 o b (omega (arith, h)) in
    (out.0, out.1, r.cut, e, r.taken, λ t. r.taken ∙ ap (◌++◌ o.taken) (r.whole t))
