-- ===== src/Channel/Events.antt =====
-- The calls of a channel's interface (src/net/Channel.h), one by one, as a connection makes them.
use reactor_chat_server.Common.{true, false, ◌≡◌, refl, arith, ap}
use reactor_chat_server.Channel.{
  Channel, Poller, with_writing, with_reading, k_none_event, enable_et, enable_reading,
  enable_writing, disable_writing, disable_all, remove_channel, update_channel, add_channel,
  is_writing, tie,
}
use reactor_chat_server.Channel.Registered.{Attached}
use reactor_chat_server.Channel.Requests.{
  request, request-Attached, edge_triggered, reading, writing, disabled, removed,
}

-- The poller changes no events.
events-update : (ch : Channel) (p : Poller) → (update_channel ch p).0.events ≡ ch.events
unfolding update_channel add_channel
events-update ch p = ground arith

module _ (ch : Channel) (p : Poller) where
  pub is_writing-enable_writing : is_writing (enable_writing ch p).0 ≡ true
  unfolding enable_writing
  is_writing-enable_writing =
      ap (λ m. m.epollout) (events-update (record ch { events = with_writing true ch.events }) p)

  pub is_writing-disable_writing : is_writing (disable_writing ch p).0 ≡ false
  unfolding disable_writing
  is_writing-disable_writing =
      ap (λ m. m.epollout) (events-update (record ch { events = with_writing false ch.events }) p)

  pub is_writing-disable_all : is_writing (disable_all ch p).0 ≡ false
  unfolding disable_all
  is_writing-disable_all =
      ap (λ m. m.epollout) (events-update (record ch { events = k_none_event }) p)

  pub is_writing-enable_reading : is_writing (enable_reading ch p).0 ≡ is_writing ch
  unfolding enable_reading
  is_writing-enable_reading =
      ap (λ m. m.epollout) (events-update (record ch { events = with_reading true ch.events }) p)

  pub is_writing-remove_channel : is_writing (remove_channel ch p).0 ≡ is_writing ch
  unfolding remove_channel
  is_writing-remove_channel = refl

  pub enable_writing-Attached :
      Attached ch p → Attached (enable_writing ch p).0 (enable_writing ch p).1
  unfolding request
  enable_writing-Attached = request-Attached (writing true) ch p

  pub disable_writing-Attached :
      Attached ch p → Attached (disable_writing ch p).0 (disable_writing ch p).1
  unfolding request
  disable_writing-Attached = request-Attached (writing false) ch p

  pub enable_reading-Attached :
      Attached ch p → Attached (enable_reading ch p).0 (enable_reading ch p).1
  unfolding request
  enable_reading-Attached = request-Attached (reading true) ch p

  pub disable_all-Attached : Attached ch p → Attached (disable_all ch p).0 (disable_all ch p).1
  unfolding request
  disable_all-Attached = request-Attached disabled ch p

  pub remove_channel-Attached :
      Attached ch p → Attached (remove_channel ch p).0 (remove_channel ch p).1
  unfolding request
  remove_channel-Attached = request-Attached removed ch p

  pub enable_et-Attached : Attached ch p → Attached (enable_et ch) p
  unfolding request
  enable_et-Attached = request-Attached edge_triggered ch p

  pub tie-Attached : Attached ch p → Attached (tie ch) p
  unfolding tie
  tie-Attached a = record { listed = a.listed; table = a.table }

pub enable_et-is_writing : (ch : Channel) → is_writing (enable_et ch) ≡ is_writing ch
unfolding enable_et
enable_et-is_writing ch = refl

pub tie-is_writing : (ch : Channel) → is_writing (tie ch) ≡ is_writing ch
unfolding tie
tie-is_writing ch = refl
