-- ===== src/Server/Burst.antt =====
-- A burst of connections: `Acceptor::handleRead` (src/net/Acceptor.cc) with `TcpServer::newConnection`
-- (src/net/TcpServer.cc) as its callback.
use reactor_chat_server.Common.{
  ℕ, ◌+◌, ◌≤◌, ◌<◌, ◌≡◌, ◌==◌, refl, sym, ap, ap₂, ◌∙◌, subst, true, List, [], ◌∷◌, ◌++◌, map,
  Option, some, Bytes, arith, ltb, length, append-nil, append_assoc, Bool-cases, inl, inr,
  if◌then◌else◌,
}
use reactor_chat_server.Pool.{EventLoopThreadPool, get_next_loop, get_next_loops}
use reactor_chat_server.Pool.Turns.{
  IsInside, get_next_loop-IsInside, get_next_loop-base, get_next_loops-zero, get_next_loops-cons,
}
use reactor_chat_server.Server.{
  establish, Member, Posting, TcpServer, conn_name, int_max, new_member, new_connection_on,
  accept_connection,
}
use reactor_chat_server.Server.Life.{
  Stage, stage_of_new, set_stage, Served, Step, accepted, Reach, here, next,
}
use reactor_chat_server.Acceptor.{Door, handle_read}
use reactor_chat_server.Acceptor.Drain.{Brings, handle_read_lem, hand_all, after_calls}

-- A connection is accepted, with a number left.
pub accept_connection_lem :
    (fd loop : ℕ) (s : TcpServer) (pool : EventLoopThreadPool)
    → s.next_conn_id < int_max
    → get_next_loop s.pool ≡ some (loop, pool)
    → accept_connection fd s ≡ some (new_connection_on fd loop pool s)
unfolding accept_connection
accept_connection_lem fd loop s pool small taken =
    let left : ltb s.next_conn_id int_max ≡ true = ground (arith, small) in
    rw (left, taken, accept_connection)

-- The tasks that establish the connections of other loops than the base loop.
abbrev pub establishes : ℕ → List Member → List Posting
establishes base [] = []
establishes base (m ∷ ms) =
    if m.loop == base
    then establishes base ms
    else record { kind = establish; member = m } ∷ establishes base ms

abbrev pub names : Bytes → ℕ → List ℕ → List Bytes
names name id [] = []
names name id (fd ∷ fds) = conn_name name id ∷ names name (id + 1) fds

-- What descriptors make of a server.
pub record Burst (fds : List ℕ) (s t : TcpServer) : Type 0 where
  pub made : List Member
  pub sockets : map (λ (m : Member). m.sockfd) made ≡ fds
  pub named : map (λ (m : Member). m.name) made ≡ names s.name s.next_conn_id fds
  pub dealt : get_next_loops (length fds) s.pool ≡ some (map (λ (m : Member). m.loop) made, t.pool)
  pub posted : t.posted ≡ s.posted ++ establishes s.pool.base_loop made
  pub numbered : t.next_conn_id ≡ s.next_conn_id + length fds
  pub inside : IsInside t.pool
  pub history :
      (stage : Bytes → Stage)
      → (stage' : Bytes → Stage) × Reach
          (record { server = s; stage = stage })
          (record { server = t; stage = stage' })

after : {x y z : Served} → Step x y → Reach y z → Reach x z
after s here = next here s
after s (next r t) = next (after s r) t

-- The tasks behind one connection, on the base loop or on another.
new_connection_on-posted :
    (fd loop base : ℕ) (pool : EventLoopThreadPool) (s : TcpServer) (ms : List Member)
    → pool.base_loop ≡ base
    → (new_connection_on fd loop pool s).posted ++ establishes base ms
      ≡ s.posted ++ establishes base (new_member fd loop s ∷ ms)
unfolding new_connection_on new_member
new_connection_on-posted fd loop base pool s ms same =
    let by_base =
      subst
        (λ (b : ℕ).
          (new_connection_on fd loop pool s).posted ++ establishes b ms
          ≡ s.posted ++ establishes b (new_member fd loop s ∷ ms))
        same in
    by_base (elim (Bool-cases (loop == pool.base_loop)) [
      | inl own ↦ rw own
      | inr other ↦ rw other (
          append_assoc s.posted (record { kind = establish; member = new_member fd loop s } ∷ [])
            (establishes pool.base_loop ms))
    ])

new_connection_on-pool :
    (fd loop : ℕ) (pool : EventLoopThreadPool) (s : TcpServer)
    → let t = new_connection_on fd loop pool s in
      (t.pool ≡ pool) × (t.next_conn_id ≡ s.next_conn_id + 1) × (t.name ≡ s.name)
unfolding new_connection_on new_member
new_connection_on-pool fd loop pool s = elim (Bool-cases (loop == pool.base_loop)) [
  | inl own ↦ rw own (refl, refl, refl)
  | inr other ↦ rw other (refl, refl, refl)
]

hand_all-Burst :
    (fds : List ℕ) (s : TcpServer) (closed : List ℕ)
    → IsInside s.pool
    → s.next_conn_id + length fds ≤ int_max
    → (t : TcpServer) × (hand_all (some accept_connection) fds s closed ≡ some (t, closed))
      × Burst fds s t
unfolding new_member
hand_all-Burst [] s closed h small = (
  s,
  refl,
  record {
    made = [];
    sockets = refl;
    named = refl;
    dealt = get_next_loops-zero s.pool;
    posted = sym (append-nil s.posted);
    numbered = omega arith;
    inside = h;
    history = λ stage. (stage, here);
  },
)
hand_all-Burst (fd ∷ fds) s closed h small =
    let (loop, pool, taken, k) = get_next_loop-IsInside s.pool h in
    let base = get_next_loop-base s.pool pool loop taken in
    let s' = new_connection_on fd loop pool s in
    let (at, count, same_name) = new_connection_on-pool fd loop pool s in
    let (t, f, b) =
      hand_all-Burst fds s' closed (subst IsInside (sym at) k) (omega (arith, small, count)) in
    let m = new_member fd loop s in
    (
      t,
      rw (accept_connection_lem fd loop s pool (omega (arith, small)) taken, hand_all) f,
      record {
        made = m ∷ b.made;
        sockets = ap (◌∷◌ fd) b.sockets;
        named =
            ap (◌∷◌ m.name)
              (b.named ∙ ap₂ (λ (n : Bytes) (id : ℕ). names n id fds) same_name count);
        dealt =
            get_next_loops-cons (length fds) loop _ s.pool pool t.pool taken
              (ap (get_next_loops (length fds)) (sym at) ∙ b.dealt);
        posted =
            b.posted
            ∙ ap (λ (l : ℕ). s'.posted ++ establishes l b.made)
                (ap (λ (p : EventLoopThreadPool). p.base_loop) at ∙ base)
            ∙ new_connection_on-posted fd loop s.pool.base_loop pool s b.made base;
        numbered = omega (arith, b.numbered, count);
        inside = b.inside;
        history = λ stage.
            let (stage', r) = b.history (set_stage m.name (stage_of_new loop pool) stage) in
            (stage', after (accepted fd loop pool (omega (arith, small))) r);
      },
    )

-- When the acceptor of a server is readable, with a pool whose index lies in its vector, or without
-- loops, fuel above the number of descriptors that accept brings before its first error, and
-- nextConnId_ at most 2^31 - 1 behind them: handleRead returns, closes none of them, and hands each
-- to newConnection, in order, which names it by the next number and gives it the next loop of the
-- pool; exactly one task, to establish it, is posted for each connection of a loop other than the
-- base loop, in order, and none for a connection of the base loop; and that is a history of the
-- server.
pub handle_read-Burst :
    (accept : ℕ → Option ℕ) (fuel : ℕ) (fds : List ℕ) (d : Door TcpServer)
    → IsInside d.owner.pool
    → d.owner.next_conn_id + length fds ≤ int_max
    → Brings accept d.calls fds
    → length fds < fuel
    → (t : TcpServer) × (handle_read fuel accept (some accept_connection) d
        ≡ some (record { owner = t; closed = d.closed; calls = d.calls + length fds + 1 }))
      × Burst fds d.owner t
handle_read-Burst accept fuel fds d h small b enough =
    let (t, f, burst) = hand_all-Burst fds d.owner d.closed h small in
    (
      t,
      handle_read_lem accept (some accept_connection) fuel fds d b enough
          ∙ ap (after_calls (d.calls + length fds + 1)) f,
      burst,
    )
