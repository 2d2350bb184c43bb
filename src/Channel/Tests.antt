-- ===== src/Channel/Tests.antt =====
-- src/net/Channel.h and src/net/EPollPoller.cc at concrete descriptors.
use reactor_chat_server.Common.{◌≢◌, true, false, List, [], ◌∷◌, none}
use reactor_chat_server.Channel.{Channel, new_channel, new_poller, update_channel}
use reactor_chat_server.Channel.Kernel.{interest}
use reactor_chat_server.Channel.Registered.{Attached, Synced, update_channel-Synced}
use reactor_chat_server.Channel.Requests.{
  Request, requests, edge_triggered, reading, writing, disabled, removed, new-Attached,
  requests-Attached, requests_accepted,
}

abbrev connection : Channel
connection = new_channel 4096 7

connection-Attached : Attached connection new_poller
connection-Attached = new-Attached 4096 7

-- What a connection does in its life.
abbrev life : List Request
life = edge_triggered ∷ reading true ∷ writing true ∷ writing false ∷ disabled ∷ removed ∷ []

update_channel_example :
    Synced (update_channel connection new_poller).0 (update_channel connection new_poller).1
update_channel_example = update_channel-Synced connection new_poller connection-Attached

requests_example :
    Attached (requests life connection new_poller).0 (requests life connection new_poller).1
requests_example = requests-Attached life connection new_poller connection-Attached

requests_accepted_example :
    interest 7 (requests life (new_channel 4096 7) new_poller).1.calls ≢ none
requests_accepted_example = requests_accepted life 4096 7
