-- ===== src/Server/Tests.antt =====
-- src/net/TcpServer.cc after it has accepted a connection.
use reactor_chat_server.Common.{ℕ, List, Bytes, [], ◌∷◌, true, false, length, ◌+◌, ◌≡◌, some, arith}
use reactor_chat_server.Pool.{EventLoopThreadPool, start_pool}
use reactor_chat_server.Server.{
  new_connection_on, new_member, new_server, TcpServer, accept_connection,
}
use reactor_chat_server.Pool.Turns.{start_pool-IsInside}
use reactor_chat_server.Acceptor.{Acceptor, Door, handle_read}
use reactor_chat_server.Channel.{new_channel, new_poller}
use reactor_chat_server.Channel.Registered.{Synced}
use reactor_chat_server.Channel.Requests.{new-Attached}
use reactor_chat_server.Server.Start.{Spread, start_server, start_server_lem}
use reactor_chat_server.Acceptor.Tests.{two, two-Brings}
use reactor_chat_server.Server.Burst.{Burst, handle_read-Burst}
use reactor_chat_server.Server.Life.{
  Served, stage_of_new, set_stage, here, next, accepted, IsOrderly,
}
use reactor_chat_server.Server.Orderly.{first, Reach-IsOrderly}

abbrev chat : Bytes
chat = b'c' ∷ []

abbrev pool : EventLoopThreadPool
pool = start_pool 0 (1 ∷ 2 ∷ [])

abbrev empty_server : Served
empty_server = first chat false pool

abbrev one_connection : Served
one_connection = record {
  server = new_connection_on 7 1 pool empty_server.server;
  stage =
      set_stage (new_member 7 1 empty_server.server).name (stage_of_new 1 pool) empty_server.stage;
}

history_of_server_example : IsOrderly one_connection
unfolding new_server
history_of_server_example =
    Reach-IsOrderly chat false pool (next here (accepted 7 1 pool (omega arith)))

abbrev door : Door TcpServer
door = record { owner = empty_server.server; closed = []; calls = 0 }

newcomers_example :
    (t : TcpServer) × (handle_read 3 two (some accept_connection) door
      ≡ some (record { owner = t; closed = []; calls = 3 }))
    × Burst (7 ∷ 8 ∷ []) empty_server.server t
unfolding new_server start_pool
newcomers_example =
    handle_read-Burst two 3 (7 ∷ 8 ∷ []) door (start_pool-IsInside 0 (1 ∷ 2 ∷ [])) (omega arith)
      two-Brings (omega arith)

-- The descriptors of two connections.
abbrev sockets : List ℕ
sockets = 7 ∷ 8 ∷ []

-- The acceptor as its constructor leaves it.
abbrev acceptor : Acceptor
acceptor = record {
  channel = new_channel 4096 6;
  poller = new_poller;
  bound = true;
  listening = false;
}

start_server_example :
    (t' : TcpServer) × (a' : Acceptor) × (start_server true 0
        (1 ∷ 2 ∷ [])
        empty_server.server
        acceptor
      ≡ some (t', a'))
    × (a'.listening ≡ true)
    × Synced a'.channel a'.poller
    × (t'' : TcpServer) × (handle_read 3 two
          (some accept_connection)
          (record { owner = t'; closed = []; calls = 0 })
        ≡ some (record { owner = t''; closed = []; calls = 0 + length sockets + 1 }))
    × Spread sockets (1 ∷ 2 ∷ []) empty_server.server t''
unfolding new_server
start_server_example =
    start_server_lem two 3 0 1 (2 ∷ []) sockets empty_server.server acceptor (new-Attached 4096 6)
      (omega arith) (omega arith) (omega arith) two-Brings (omega arith) (omega arith)
