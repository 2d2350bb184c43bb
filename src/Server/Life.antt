-- ===== src/Server/Life.antt =====
-- The steps of src/net/TcpServer.cc in whatever order the loops run their tasks, and the stages of
-- a connection. A connection closes once.
use reactor_chat_server.Common.{
  ℕ, ◌+◌, ◌≤◌, ◌<◌, ◌==◌, ◌≡◌, Bool, true, false, ◌&&◌, List, [], ◌∷◌, ◌++◌, Option, none, some,
  Bytes, bytes_eq, if◌then◌else◌,
}
use reactor_chat_server.Pool.{EventLoopThreadPool}
use reactor_chat_server.Server.{
  Kind, establish, remove, destroy, Member, Posting, TcpServer, conn_name, new_member,
  new_connection_on, remove_connection, run_remove, int_max,
}

-- The stages: not made, made and not yet established, established, closed, out of the table, and
-- destroyed.
pub data Stage : Type 0 where
  unborn opening opened closing dying gone : Stage

abbrev pub same_kind : Kind → Kind → Bool
same_kind establish establish = true
same_kind remove remove = true
same_kind destroy destroy = true
same_kind _ _ = false

-- How many tasks of a kind are posted for a name.
unfoldable pub count : Kind → Bytes → List Posting → ℕ
count k n [] = 0
count k n (p ∷ ps) =
    let rest = count k n ps in
    if same_kind k p.kind && bytes_eq n p.member.name then 1 + rest else rest

-- How many there are in a stage.
abbrev pub due : Stage → Kind → ℕ
due opening establish = 1
due closing remove = 1
due dying destroy = 1
due _ _ = 0

-- Whether the table has the connection in a stage.
abbrev pub is_listed : Stage → Bool
is_listed opening = true
is_listed opened = true
is_listed closing = true
is_listed _ = false

abbrev pub is_some : Option Member → Bool
is_some none = false
is_some (some m) = true

-- A server, and the stage of each name.
pub record Served : Type 0 where
  pub server : TcpServer
  pub stage : Bytes → Stage

abbrev pub set_stage : Bytes → Stage → (Bytes → Stage) → Bytes → Stage
set_stage name st stage n = if bytes_eq n name then st else stage n

-- A posted task is taken out of the list.
abbrev pub take_task : List Posting → TcpServer → TcpServer
take_task rest s = record s { posted = rest }

-- On the base loop a connection is established, and taken out of the table, without a task.
abbrev pub stage_of_new : ℕ → EventLoopThreadPool → Stage
stage_of_new loop pool = if loop == pool.base_loop then opened else opening

abbrev pub stage_of_closed : Member → TcpServer → Stage
stage_of_closed m s = if m.loop == s.pool.base_loop then dying else closing

-- A step: the acceptor brings a socket, a connection closes, or a loop runs one of the tasks posted.
pub data Step (x : Served) : Served → Type 0 where
  accepted :
      (sockfd loop : ℕ) (pool : EventLoopThreadPool)
      → x.server.next_conn_id < int_max
      → Step x (record {
        server = new_connection_on sockfd loop pool x.server;
        stage = set_stage (new_member sockfd loop x.server).name (stage_of_new loop pool) x.stage;
      })
  established :
      (m : Member) (front back : List Posting)
      → x.server.posted ≡ front ++ record { kind = establish; member = m } ∷ back
      → Step x (record {
        server = take_task (front ++ back) x.server;
        stage = set_stage m.name opened x.stage;
      })
  closed :
      (m : Member)
      → x.stage m.name ≡ opened
      → Step x (record {
        server = remove_connection m x.server;
        stage = set_stage m.name (stage_of_closed m x.server) x.stage;
      })
  removed :
      (m : Member) (front back : List Posting)
      → x.server.posted ≡ front ++ record { kind = remove; member = m } ∷ back
      → Step x (record {
        server = run_remove m (take_task (front ++ back) x.server);
        stage = set_stage m.name dying x.stage;
      })
  destroyed :
      (m : Member) (front back : List Posting)
      → x.server.posted ≡ front ++ record { kind = destroy; member = m } ∷ back
      → Step x (record {
        server = take_task (front ++ back) x.server;
        stage = set_stage m.name gone x.stage;
      })

pub data Reach (x : Served) : Served → Type 0 where
  here : Reach x x
  next : {y z : Served} → Reach x y → Step y z → Reach x z

-- The tasks posted and the table are what the stages say, and the names to come are unborn.
pub record IsOrderly (x : Served) : Type 0 where
  pub tasks : (k : Kind) (n : Bytes) → count k n x.server.posted ≡ due (x.stage n) k
  pub table : (n : Bytes) → is_some (x.server.connections n) ≡ is_listed (x.stage n)
  pub fresh : (id : ℕ) → x.server.next_conn_id ≤ id → x.stage (conn_name x.server.name id) ≡ unborn
