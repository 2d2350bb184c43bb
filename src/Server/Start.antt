-- ===== src/Server/Start.antt =====
-- `TcpServer::start` (src/net/TcpServer.cc), and the first connections behind it.
use reactor_chat_server.Common.{
  ℕ, ◌+◌, ◌≤◌, ◌<◌, ◌==◌, ◌≢◌, ==_iff, subst, All, arith, inl, inr, Bool-cases, ◌^◌, ◌≡◌, refl, sym,
  ap, ◌∙◌, Bool, true, List, [], ◌∷◌, ◌++◌, map, Option, none, some, length, append-nil,
  append_assoc,
}
use reactor_chat_server.Pool.{EventLoopThreadPool, start_pool, get_next_loops}
use reactor_chat_server.Pool.Turns.{
  get_next_loops-round, get_next_loops-suc, get_next_loops-zero, get_next_loop-base,
}
use reactor_chat_server.Server.{
  establish, Posting, TcpServer, new_member, new_connection_on, accept_connection, int_max,
}
use reactor_chat_server.Server.Burst.{accept_connection_lem}
use reactor_chat_server.Channel.Registered.{Attached, Synced}
use reactor_chat_server.Acceptor.{Acceptor, handle_read, listen}
use reactor_chat_server.Acceptor.Drain.{Brings, handle_read_lem, hand_all, after_calls, listen_lem}

-- On the thread of the base loop, which calls `listen` at once; the loops are those of the pool's new
-- threads, and `listens` says whether the socket may listen. `none` is `abort()`.
pub start_server : Bool → ℕ → List ℕ → TcpServer → Acceptor → Option (TcpServer × Acceptor)
start_server listens base loops t a =
    let started = record t { pool = start_pool base loops } in
    elim (listen listens a) [ none ↦ none | some b ↦ some (started, b) ]

-- The tasks that descriptors make, on the loops that they are given to.
pub record Spread (fds loops : List ℕ) (s t : TcpServer) : Type 0 where
  pub tasks : List Posting
  pub posted : t.posted ≡ s.posted ++ tasks
  pub on_loops : map (λ (p : Posting). p.member.loop) tasks ≡ loops
  pub sockets : map (λ (p : Posting). p.member.sockfd) tasks ≡ fds
  pub kinds : All (λ (p : Posting). p.kind ≡ establish) tasks

-- A connection on another loop than the base loop.
posted_on :
    (fd loop : ℕ) (pool : EventLoopThreadPool) (s : TcpServer)
    → loop ≢ pool.base_loop
    → let t = new_connection_on fd loop pool s in
      (t.posted ≡ s.posted ++ record { kind = establish; member = new_member fd loop s } ∷ [])
      × (t.pool ≡ pool)
      × (t.next_conn_id ≡ s.next_conn_id + 1)
unfolding new_connection_on
posted_on fd loop pool s apart = elim (Bool-cases (loop == pool.base_loop)) [
  | inl own ↦ absurd (apart ((==_iff loop pool.base_loop).0 own))
  | inr other ↦ rw other (refl, refl, refl)
]

hand_all-Spread :
    (fds loops : List ℕ) (s : TcpServer) (pool : EventLoopThreadPool) (closed : List ℕ)
    → get_next_loops (length fds) s.pool ≡ some (loops, pool)
    → All (λ l. l ≢ s.pool.base_loop) loops
    → s.next_conn_id + length fds ≤ int_max
    → (t : TcpServer) × (hand_all (some accept_connection) fds s closed ≡ some (t, closed))
      × Spread fds loops s t
unfolding new_member
hand_all-Spread [] loops s pool closed e apart small =
    let whole = sym (get_next_loops-zero s.pool) ∙ e in
    let none_given : [] ≡ loops = cc in
    (
      s,
      refl,
      record {
        tasks = [];
        posted = sym (append-nil s.posted);
        on_loops = none_given;
        sockets = refl;
        kinds = tt;
      },
    )
hand_all-Spread (fd ∷ fds) loops s pool closed e apart small =
    let (loop, p, rest, taken, others, same) =
      get_next_loops-suc (length fds) s.pool pool loops e in
    let away = subst (All (λ l. l ≢ s.pool.base_loop)) (sym same) apart in
    let base = get_next_loop-base s.pool p loop taken in
    let s' = new_connection_on fd loop p s in
    let task : Posting = record { kind = establish; member = new_member fd loop s } in
    let (posted, at, count) = posted_on fd loop p s (λ q. away.0 (q ∙ base)) in
    let (t, f, b) =
      hand_all-Spread fds rest s' pool closed (ap (get_next_loops (length fds)) at ∙ others)
        (subst (λ (k : ℕ). All (λ l. l ≢ k) rest)
          (sym (ap (λ (q : EventLoopThreadPool). q.base_loop) at ∙ base)) away.1)
        (omega (arith, small, count)) in
    (
      t,
      rw (accept_connection_lem fd loop s p (omega (arith, small)) taken, hand_all) f,
      record {
        tasks = task ∷ b.tasks;
        posted =
            b.posted
            ∙ ap (λ (l : List Posting). l ++ b.tasks) posted
            ∙ append_assoc s.posted (task ∷ []) b.tasks;
        on_loops = ap (◌∷◌ loop) b.on_loops ∙ same;
        sockets = ap (◌∷◌ fd) b.sockets;
        kinds = (refl, b.kinds);
      },
    )

-- Start, on the base loop's thread, with an acceptor whose channel is in agreement with its poller
-- and a socket that may listen, at least one loop and fewer than 2^64, none of them the base loop,
-- and nextConnId_ at most 2^31 - 1 behind the connections to come: the acceptor listens, and the
-- kernel waits for what its channel asks for; and when as many connections come as there are loops,
-- before an error of accept, handleRead returns with fuel above their number, and has posted
-- exactly one task for each loop, in order, the one that establishes the connection of the next
-- socket.
pub start_server_lem :
    (accept : ℕ → Option ℕ) (fuel base l : ℕ) (ls fds : List ℕ) (t : TcpServer) (a : Acceptor)
    → Attached a.channel a.poller
    → length (l ∷ ls) < 2 ^ 64
    → All (λ k. k ≢ base) (l ∷ ls)
    → t.next_conn_id + length fds ≤ int_max
    → Brings accept 0 fds
    → length fds ≡ length (l ∷ ls)
    → length fds < fuel
    → (t' : TcpServer) × (a' : Acceptor) × (start_server true base (l ∷ ls) t a ≡ some (t', a'))
      × (a'.listening ≡ true)
      × Synced a'.channel a'.poller
      × (t'' : TcpServer) × (handle_read fuel accept
            (some accept_connection)
            (record { owner = t'; closed = []; calls = 0 })
          ≡ some (record { owner = t''; closed = []; calls = 0 + length fds + 1 }))
      × Spread fds (l ∷ ls) t t''
unfolding start_server start_pool
start_server_lem accept fuel base l ls fds t a attached small apart numbers brings many enough =
    let (a', e, on, synced) = listen_lem a attached in
    let t' : TcpServer = record t { pool = start_pool base (l ∷ ls) } in
    let given =
      ap (λ (n : ℕ). get_next_loops n (start_pool base (l ∷ ls))) many
      ∙ get_next_loops-round base l ls small in
    let (t'', f, b) =
      hand_all-Spread fds (l ∷ ls) t' (start_pool base (l ∷ ls)) [] given apart numbers in
    (
      t',
      a',
      rw (e, start_server),
      on,
      synced,
      t'',
      handle_read_lem accept (some accept_connection) fuel fds
            (record { owner = t'; closed = []; calls = 0 }) brings enough
          ∙ ap (after_calls (0 + length fds + 1)) f,
      record {
        tasks = b.tasks;
        posted = b.posted;
        on_loops = b.on_loops;
        sockets = b.sockets;
        kinds = b.kinds;
      },
    )
