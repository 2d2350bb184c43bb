-- ===== src/Server/Tasks.antt =====
-- Counting the tasks that src/net/TcpServer.cc has posted.
use reactor_chat_server.Common.{
  ◌+◌, ◌≤◌, ◌≡◌, refl, sym, ap, ◌∙◌, true, ◌&&◌, List, [], ◌∷◌, ◌++◌, Bytes, arith, inl, inr,
  Bool-cases, bytes_eq, bytes_eq→≡, bytes_eq_refl, if◌then◌else◌,
}
use reactor_chat_server.Server.{Kind, establish, remove, destroy, Member, Posting}
use reactor_chat_server.Server.Life.{
  Stage, unborn, opening, opened, closing, dying, gone, same_kind, count, due, Served, IsOrderly,
}

pub count-snoc :
    (k : Kind) (n : Bytes) (ps : List Posting) (p : Posting)
    → count k n (ps ++ p ∷ [])
      ≡ count k n ps + (if same_kind k p.kind && bytes_eq n p.member.name then 1 else 0)
unfolding count
count-snoc k n [] p = ground arith
count-snoc k n (q ∷ ps) p = ground (arith, count-snoc k n ps p)

count-cut :
    (k : Kind) (n : Bytes) (front : List Posting) (p : Posting) (back : List Posting)
    → count k n (front ++ p ∷ back)
      ≡ count k n (front ++ back)
        + (if same_kind k p.kind && bytes_eq n p.member.name then 1 else 0)
unfolding count
count-cut k n [] p back = ground arith
count-cut k n (q ∷ front) p back = ground (arith, count-cut k n front p back)

-- Which stage a posted task shows.
pub at_establish : (st : Stage) → 1 ≤ due st establish → st ≡ opening
at_establish opening h = refl
at_establish unborn h = absurd (omega (arith, h))
at_establish opened h = absurd (omega (arith, h))
at_establish closing h = absurd (omega (arith, h))
at_establish dying h = absurd (omega (arith, h))
at_establish gone h = absurd (omega (arith, h))

pub at_remove : (st : Stage) → 1 ≤ due st remove → st ≡ closing
at_remove closing h = refl
at_remove unborn h = absurd (omega (arith, h))
at_remove opened h = absurd (omega (arith, h))
at_remove opening h = absurd (omega (arith, h))
at_remove dying h = absurd (omega (arith, h))
at_remove gone h = absurd (omega (arith, h))

pub at_destroy : (st : Stage) → 1 ≤ due st destroy → st ≡ dying
at_destroy dying h = refl
at_destroy unborn h = absurd (omega (arith, h))
at_destroy opened h = absurd (omega (arith, h))
at_destroy opening h = absurd (omega (arith, h))
at_destroy closing h = absurd (omega (arith, h))
at_destroy gone h = absurd (omega (arith, h))

same_kind_refl : (k : Kind) → same_kind k k ≡ true
same_kind_refl establish = refl
same_kind_refl remove = refl
same_kind_refl destroy = refl

-- A task of a kind for a name is posted where one stands in the list.
pub posted_one :
    (x : Served) (kind : Kind) (m : Member) (front back : List Posting)
    → IsOrderly x
    → x.server.posted ≡ front ++ record { kind = kind; member = m } ∷ back
    → 1 ≤ due (x.stage m.name) kind
posted_one x kind m front back o e =
    let p : Posting = record { kind = kind; member = m } in
    let cut = count-cut kind m.name front p back in
    ground (
      arith,
      o.tasks kind m.name,
      ap (count kind m.name) e,
      cut,
      same_kind_refl kind,
      bytes_eq_refl m.name,
    )

-- The tasks left when the only one for a name is taken.
pub taken :
    (x : Served) (kind : Kind) (m : Member) (st : Stage) (front back : List Posting)
    → IsOrderly x
    → x.server.posted ≡ front ++ record { kind = kind; member = m } ∷ back
    → x.stage m.name ≡ st
    → ((k : Kind) → due st k ≡ (if same_kind k kind then 1 else 0))
    → (k : Kind) (n : Bytes)
    → count k n (front ++ back) ≡ (if bytes_eq n m.name then 0 else due (x.stage n) k)
taken x kind m st front back o e at only k n =
    let p : Posting = record { kind = kind; member = m } in
    let total = sym (count-cut k n front p back) ∙ sym (ap (count k n) e) ∙ o.tasks k n in
    elim (Bool-cases (bytes_eq n m.name)) [
      | inl hit ↦
          let here_st : x.stage n ≡ st = ap x.stage (bytes_eq→≡ n m.name hit) ∙ at in
          ground (arith, total, hit, ap (λ t. due t k) here_st, only k)
      | inr miss ↦ ground (arith, total, miss)
    ]

pub opening_due : (k : Kind) → due opening k ≡ (if same_kind k establish then 1 else 0)
opening_due establish = refl
opening_due remove = refl
opening_due destroy = refl

pub closing_due : (k : Kind) → due closing k ≡ (if same_kind k remove then 1 else 0)
closing_due establish = refl
closing_due remove = refl
closing_due destroy = refl

pub dying_due : (k : Kind) → due dying k ≡ (if same_kind k destroy then 1 else 0)
dying_due establish = refl
dying_due remove = refl
dying_due destroy = refl
