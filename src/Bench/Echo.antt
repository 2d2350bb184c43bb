-- ===== src/Bench/Echo.antt =====
-- The echo that a worker of bench/bench_client.cc waits for, and the time in it.
use reactor_chat_server.Common.{
  ℕ, ◌+◌, ◌-◌, ◌*◌, ◌≡◌, refl, sym, ap, ◌∙◌, true, false, [], ◌∷◌, ◌++◌, none, some, Bytes, ◌==◌,
  All, arith, inl, inr, Bool-cases, starts_with, ==-self, ==_iff, ◌⊎◌, append_assoc,
}
use reactor_chat_server.Buffer.Search.{Free}
use reactor_chat_server.Codec.Stream.{broadcast_line}
use reactor_chat_server.Server.{to_string}
use reactor_chat_server.Server.Names.{value, is_digit, to_string-digits, value-to_string}
use reactor_chat_server.Bench.{
  nick_of, echo_prefix, stamp, behind_last, digits_value, stamped, is_echo,
}

-- ": t"
abbrev mark : Bytes
mark = b':' ∷ b' ' ∷ b't' ∷ []

digits-Free : (ds : Bytes) → All (λ c. is_digit c ≡ true) ds → Free b':' ds
digits-Free [] f = tt
digits-Free (c ∷ ds) f = (ground (arith, f.0), digits-Free ds f.1)

behind_last-Free : (ds : Bytes) → Free b':' ds → behind_last mark ds ≡ none
unfolding behind_last starts_with
behind_last-Free [] f = refl
behind_last-Free (c ∷ ds) f =
    let other : (b':' == c) ≡ false = ground arith in
    rw (behind_last-Free ds f.1, other, behind_last)

-- The last mark, with digits behind it.
behind_last-mark : (xs ds : Bytes) → Free b':' ds → behind_last mark (xs ++ (mark ++ ds)) ≡ some ds
unfolding behind_last starts_with
behind_last-mark [] ds f = rw (behind_last-Free ds f, behind_last)
behind_last-mark (x ∷ xs) ds f = rw (behind_last-mark xs ds f, behind_last)

digits_value-digits :
    (n : ℕ) (ds : Bytes) → All (λ c. is_digit c ≡ true) ds → digits_value n ds ≡ value n ds
unfolding digits_value
digits_value-digits n [] f = refl
digits_value-digits n (c ∷ ds) f = rw f.0 (digits_value-digits (n * 10 + (c - b'0')) ds f.1)

-- A broadcast of a stamp, around the mark.
stamp_line :
    (room nick : Bytes) (now : ℕ)
    → broadcast_line room nick (stamp now)
      ≡ (b'[' ∷ (room ++ (b']' ∷ b' ' ∷ nick))) ++ (mark ++ to_string now)
unfolding stamp
stamp_line room nick now =
    ap (◌∷◌ b'[') (sym (append_assoc room (b']' ∷ b' ' ∷ nick) (mark ++ to_string now)))

stamped_lem :
    (room nick : Bytes) (now : ℕ) → stamped (broadcast_line room nick (stamp now)) ≡ some now
unfolding stamped
stamped_lem room nick now =
    let digits = to_string-digits now in
    let found =
      ap (behind_last mark) (stamp_line room nick now)
      ∙ behind_last-mark (b'[' ∷ (room ++ (b']' ∷ b' ' ∷ nick))) (to_string now)
          (digits-Free (to_string now) digits) in
    rw (found, stamped)
      (ap some (digits_value-digits 0 (to_string now) digits ∙ value-to_string now))

starts_with-append : (p q s : Bytes) → starts_with (p ++ q) (p ++ s) ≡ starts_with q s
unfolding starts_with
starts_with-append [] q s = refl
starts_with-append (c ∷ p) q s = rw (==-self c, starts_with-append p q s)

-- Names that end at a colon are compared to their ends.
starts_with-name :
    (ds es u v : Bytes)
    → Free b':' ds
    → Free b':' es
    → starts_with (ds ++ b':' ∷ u) (es ++ b':' ∷ v) ≡ true
    → ds ≡ es
unfolding starts_with
starts_with-name [] [] u v f g h = refl
starts_with-name [] (e ∷ es) u v f g h = absurd (ground (arith, h))
starts_with-name (d ∷ ds) [] u v f g h = absurd (ground (arith, h))
starts_with-name (d ∷ ds) (e ∷ es) u v f g h =
    let tails = starts_with-name ds es u v f.1 g.1 (ground (arith, h)) in
    let heads : d ≡ e = ground (arith, h) in cc

module _ (room : Bytes) (i j now : ℕ) where
  -- The front of the line is the same up to the nick.
  cut_front :
      is_echo room (nick_of i) (broadcast_line room (nick_of j) (stamp now))
      ≡ starts_with (to_string i ++ mark) (to_string j ++ (mark ++ to_string now))
  unfolding is_echo echo_prefix nick_of stamp starts_with
  cut_front =
      starts_with-append room (b']' ∷ b' ' ∷ b'u' ∷ (to_string i ++ mark))
        (b']' ∷ b' ' ∷ b'u' ∷ (to_string j ++ (mark ++ to_string now)))

  same_number :
      starts_with (to_string i ++ mark) (to_string j ++ (mark ++ to_string now)) ≡ true → i ≡ j
  same_number h =
      let names =
        starts_with-name (to_string i) (to_string j) (b' ' ∷ b't' ∷ [])
          (b' ' ∷ b't' ∷ to_string now) (digits-Free (to_string i) (to_string-digits i))
          (digits-Free (to_string j) (to_string-digits j)) h in
      sym (value-to_string i) ∙ ap (value 0) names ∙ value-to_string j

  own_front :
      i ≡ j → starts_with (to_string i ++ mark) (to_string j ++ (mark ++ to_string now)) ≡ true
  unfolding starts_with
  own_front e =
      ap (λ (k : ℕ). starts_with (to_string k ++ mark) (to_string j ++ (mark ++ to_string now))) e
      ∙ starts_with-append (to_string j) mark (mark ++ to_string now)

  is_echo_lem : is_echo room (nick_of i) (broadcast_line room (nick_of j) (stamp now)) ≡ (i == j)
  is_echo_lem = elim (Bool-cases (i == j)) [
    | inl hit ↦ cut_front ∙ own_front ((==_iff i j).0 hit) ∙ sym hit
    | inr other ↦ cut_front ∙ refused (Bool-cases _) other ∙ sym other
  ]
    where
      refused :
          let t = starts_with (to_string i ++ mark) (to_string j ++ (mark ++ to_string now)) in
          (t ≡ true) ⊎ (t ≡ false) → (i == j) ≡ false → t ≡ false
      refused (inl echo) other = absurd (ground (arith, same_number echo, other))
      refused (inr none_of_ours) other = none_of_ours

  -- The broadcast of a worker's message, in any room, gives back the time at which it was sent, and
  -- another worker takes it for its own echo exactly if both have the same number.
  pub echo_lem :
      let line = broadcast_line room (nick_of j) (stamp now) in
      (stamped line ≡ some now) × (is_echo room (nick_of i) line ≡ (i == j))
  echo_lem = (stamped_lem room (nick_of j) now, is_echo_lem)
