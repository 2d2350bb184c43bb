-- ===== src/Server.antt =====
-- src/net/TcpServer.h and src/net/TcpServer.cc: the connection table, and the tasks that the server
-- hands to the loops for each connection. `nextConnId_` is an `int`, and stays below its maximum.
pub mod Names
pub mod Life
pub mod Tasks
pub mod Orderly
pub mod Burst
pub mod Start
mod Tests
use reactor_chat_server.Common.{
  ◌==◌, ℕ, zero, suc, ◌+◌, ◌/◌, ◌%◌, Bool, true, false, List, [], ◌∷◌, ◌++◌, Option, none, some,
  Bytes, ltb, bytes_eq, if◌then◌else◌,
}
use reactor_chat_server.Pool.{EventLoopThreadPool, get_next_loop}

-- `std::to_string` of a number: its decimal digits. A number has fewer digits than the fuel.
unfoldable pub to_digits : ℕ → ℕ → Bytes
to_digits zero n = []
to_digits (suc fuel) n =
    let front = to_digits fuel (n / 10) in
    if ltb n 10 then (b'0' + n) ∷ [] else front ++ (b'0' + n % 10) ∷ []

unfoldable pub to_string : ℕ → Bytes
to_string n = to_digits (suc n) n

-- `name_ + "#" + std::to_string(nextConnId_)`
pub conn_name : Bytes → ℕ → Bytes
conn_name name id = name ++ b'#' ∷ to_string id

-- What the server knows of a connection that it has made.
pub record Member : Type 0 where
  pub name : Bytes
  pub loop : ℕ
  pub sockfd : ℕ
  pub et : Bool

-- The tasks handed to loops: `connectEstablished` to the connection's loop, the change of the table to
-- the base loop, and `connectDestroyed` to the connection's loop.
pub data Kind : Type 0 where
  establish remove destroy : Kind

pub record Posting : Type 0 where
  pub kind : Kind
  pub member : Member

-- The members of `class TcpServer` that change, and the tasks handed over and not run yet.
pub record TcpServer : Type 0 where
  pub name : Bytes
  pub edge_triggered : Bool
  pub pool : EventLoopThreadPool
  pub connections : Bytes → Option Member
  pub next_conn_id : ℕ
  pub posted : List Posting

pub new_server : Bytes → Bool → EventLoopThreadPool → TcpServer
new_server name et pool = record {
  name = name;
  edge_triggered = et;
  pool = pool;
  connections = λ _. none;
  next_conn_id = 1;
  posted = [];
}

abbrev pub set_connection : Bytes → Option Member → TcpServer → TcpServer
set_connection name m s = record s {
  connections = λ n. if bytes_eq n name then m else s.connections n;
}

abbrev pub post : Kind → Member → TcpServer → TcpServer
post kind m s = record s { posted = s.posted ++ record { kind = kind; member = m } ∷ [] }

-- The connection that `newConnection` makes, on the loop that the pool gives.
pub new_member : ℕ → ℕ → TcpServer → Member
new_member sockfd loop s = record {
  name = conn_name s.name s.next_conn_id;
  loop = loop;
  sockfd = sockfd;
  et = s.edge_triggered;
}

-- The largest `int`, as `nextConnId_` is one.
abbrev pub int_max : ℕ
int_max = 2147483647

-- `newConnection`, on the thread of the base loop: `runInLoop` establishes a connection of that loop at
-- once, and hands the task to any other.
pub new_connection_on : ℕ → ℕ → EventLoopThreadPool → TcpServer → TcpServer
unfolding new_member
new_connection_on sockfd loop pool s =
    let m = new_member sockfd loop s in
    let made =
      set_connection m.name (some m)
        (record s { pool = pool; next_conn_id = s.next_conn_id + 1 }) in
    if loop == pool.base_loop then made else post establish m made

-- `none` is an overflow of `nextConnId_`, or the pool's index outside its vector.
pub accept_connection : ℕ → TcpServer → Option TcpServer
unfolding new_connection_on
accept_connection sockfd s =
    if ltb s.next_conn_id int_max
    then elim (get_next_loop s.pool) [
      | none ↦ none
      | some (loop, pool) ↦ some (new_connection_on sockfd loop pool s)
    ]
    else none

-- The task of `removeConnection`, on the base loop. `queueInLoop` posts, on whatever thread.
pub run_remove : Member → TcpServer → TcpServer
run_remove m s = post destroy m (set_connection m.name none s)

-- The close callback, on the connection's loop: `runInLoop` runs the task at once if that is the base
-- loop.
pub remove_connection : Member → TcpServer → TcpServer
unfolding run_remove
remove_connection m s = if m.loop == s.pool.base_loop then run_remove m s else post remove m s
