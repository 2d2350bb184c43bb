-- ===== src/Loop/Tests.antt =====
-- A loop of src/net/EventLoop.cc that another thread hands a task.
use reactor_chat_server.Common.{false, ◌==◌, if◌then◌else◌, ◌+◌, List, [], ◌∷◌, ◌++◌}
use reactor_chat_server.Loop.{quit, Task, push_back}
use reactor_chat_server.Loop.Turns.{handling, Turn, first_turn, here, next, pushed}
use reactor_chat_server.Loop.Order.{InOrder, Reach-InOrder}
use reactor_chat_server.Loop.Awake.{IsAwake, Reach-IsAwake}

-- Task 1 queues task 2.
abbrev asks : Task → List Task
asks t = if t == 1 then 2 ∷ [] else []

abbrev handed : Turn
handed = record first_turn {
  loop = push_back 1 first_turn.loop;
  owed = first_turn.owed + 1;
  queued = first_turn.queued ++ 1 ∷ [];
}

history_example : InOrder handed
history_example = Reach-InOrder asks (next here (pushed 1))

alert_example : IsAwake handed
alert_example = Reach-IsAwake asks (next here (pushed 1))

abbrev handler : Turn
handler = record handed { phase = handling }

abbrev quitting : Turn
quitting = record handler { loop = quit false handler.loop }
