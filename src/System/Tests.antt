-- ===== src/System/Tests.antt =====
-- A chat server with one client, who comes, and leaves when it is heard.
mod Line
use reactor_chat_server.Common.{
  ◌≤◌, ◌≡◌, refl, sym, ◌∙◌, subst, true, [], some, Bytes, length, arith, ◌==◌, inl, inr, Bool-cases,
}
use reactor_chat_server.Buffer.{new_buffer}
use reactor_chat_server.Codec.Split.{split}
use reactor_chat_server.Connection.{k_connected, World, new_connection, arrived}
use reactor_chat_server.Connection.Invariant.{Posix, stream}
use reactor_chat_server.Connection.Life.{opened, new_connection-IsSound}
use reactor_chat_server.Connection.Tests.Scene.{world, world-Posix, fresh, fresh-state}
use reactor_chat_server.Rooms.{ConnectionId, empty_house}
use reactor_chat_server.Rooms.Invariant.{empty_house-IsConsistent}
use reactor_chat_server.Chat.{on_connection}
use reactor_chat_server.Delivery.{set_connection}
use reactor_chat_server.Delivery.Lines.{Whole}
use reactor_chat_server.System.{System, open_event, read_event}
use reactor_chat_server.System.Healthy.{IsHealthy, Roomy}
use reactor_chat_server.System.Opening.{open_event-IsHealthy, open_event-state}
use reactor_chat_server.System.Reach.{
  HasRoom, opening, reading, Reach, here, next, read_event_total, Reach-IsHealthy,
}

-- The peer closes at once.
abbrev quiet : ConnectionId → World
quiet c = record world { readv = λ i room. arrived [] }

quiet-Posix : (c : ConnectionId) → Posix (quiet c)
quiet-Posix c = record {
  write_bounded = world-Posix.write_bounded;
  readv_bounded = λ i room bs e.
      let none_came : [] ≡ bs = cc in
      subst (λ (l : Bytes). length l ≤ room) none_came (omega arith);
}

-- No connection is established yet.
abbrev empty_system : System
empty_system = record { network = λ c. fresh; house = empty_house }

pub fresh-Whole : Whole (stream fresh)
unfolding new_connection new_buffer split
fresh-Whole = refl

empty_system-IsHealthy : IsHealthy empty_system
unfolding empty_house
empty_system-IsHealthy = record {
  consistent = empty_house-IsConsistent;
  clean = λ c s e. cc;
  fine = λ c. record {
    sound = new_connection-IsSound true 4096 7;
    whole = fresh-Whole;
    guest = record {
      fresh = λ e. refl;
      known = λ e. absurd (e fresh-state);
      gone = λ e r. cc (sym fresh-state ∙ e);
    };
  };
}

greeting-Roomy :
    Roomy quiet
      (on_connection 1 true 5 0 empty_house).1
      (set_connection 1 (opened fresh) (λ c. fresh))
unfolding on_connection new_connection new_buffer opened
greeting-Roomy c = elim (Bool-cases (c == 1)) [
  | inl hit ↦ rw hit (omega arith, tt)
  | inr apart ↦ rw apart tt
]

abbrev greeted : System
greeted = open_event quiet 0 1 5 empty_system

greeted-IsHealthy : IsHealthy greeted
greeted-IsHealthy =
    open_event-IsHealthy quiet 0 1 5 quiet-Posix empty_system empty_system-IsHealthy fresh-state
      greeting-Roomy

greeted-state : (greeted.network 1).state ≡ k_connected
greeted-state =
    open_event-state quiet 0 1 5 quiet-Posix empty_system empty_system-IsHealthy fresh-state
      greeting-Roomy

greeted-HasRoom : HasRoom quiet 1 9 greeted
greeted-HasRoom = record {
  fits = λ bytes e some_came. absurd (some_came (cc e));
  room = λ bytes h done e some_came q. absurd (some_came (cc e));
}

-- The client comes, and is gone at the first reading.
visit : (y : System) × Reach quiet 0 empty_system y
visit =
    let (y, e, _) =
      read_event_total quiet 0 quiet-Posix 1 9 greeted greeted-IsHealthy
        (λ e. cc (sym greeted-state ∙ e)) (λ e. cc (sym greeted-state ∙ e)) greeted-HasRoom in
    (
      y,
      next (next here (opening 1 5 fresh-state greeting-Roomy)) (
          reading 1 9 y (λ e. cc (sym greeted-state ∙ e)) (λ e. cc (sym greeted-state ∙ e))
            greeted-HasRoom e),
    )

visit_example : IsHealthy visit.0
visit_example = Reach-IsHealthy quiet 0 quiet-Posix empty_system-IsHealthy visit.1
