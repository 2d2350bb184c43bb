-- ===== src/Channel/Requests.antt =====
-- Histories of calls of a channel's interface (src/net/Channel.h).
use reactor_chat_server.Common.{
  ℕ, Bool, true, false, List, [], ◌∷◌, Option, none, ◌≡◌, ◌≢◌, refl, arith, ap, ◌∙◌,
}
use reactor_chat_server.Channel.{
  Mask, Index, k_new, k_added, k_deleted, Channel, Poller, add_channel, update_channel,
  remove_channel, enable_et, enable_reading, disable_reading, enable_writing, disable_writing,
  disable_all, new_channel, new_poller,
}
use reactor_chat_server.Channel.Kernel.{interest, interest_nil}
use reactor_chat_server.Channel.Registered.{
  Attached, Synced, IsListed, Synced-Attached, update_channel-Synced, remove_channel-Synced,
}

pub new-Attached : (address fd : ℕ) → Attached (new_channel address fd) new_poller
unfolding new_channel new_poller
new-Attached address fd = record { listed = interest_nil fd; table = refl }

new-fd : (address fd : ℕ) → (new_channel address fd).fd ≡ fd
unfolding new_channel
new-fd address fd = refl

-- A call of a channel's interface.
pub data Request : Type 0 where
  edge_triggered : Request
  reading : Bool → Request
  writing : Bool → Request
  disabled : Request
  removed : Request

unfoldable pub request : Request → Channel → Poller → Channel × Poller
request edge_triggered ch p = (enable_et ch, p)
request (reading true) ch p = enable_reading ch p
request (reading false) ch p = disable_reading ch p
request (writing true) ch p = enable_writing ch p
request (writing false) ch p = disable_writing ch p
request disabled ch p = disable_all ch p
request removed ch p = remove_channel ch p

pub requests : List Request → Channel → Poller → Channel × Poller
requests [] ch p = (ch, p)
requests (r ∷ rs) ch p = let (ch', p') = request r ch p in requests rs ch' p'

changed-Synced :
    (m : Mask) (ch : Channel) (p : Poller)
    → Attached ch p
    → Synced
        (update_channel (record ch { events = m }) p).0
        (update_channel (record ch { events = m }) p).1
changed-Synced m ch p a =
    update_channel-Synced (record ch { events = m }) p
      (record { listed = a.listed; table = a.table })

-- On a channel that the poller's table and the kernel's list agree with, each call of the channel's
-- interface but enableET leaves the kernel with exactly the channel's present events and the table
-- in step.
pub request-Synced :
    (r : Request) (ch : Channel) (p : Poller)
    → Attached ch p
    → r ≢ edge_triggered
    → Synced (request r ch p).0 (request r ch p).1
unfolding request enable_reading disable_reading enable_writing disable_writing disable_all
request-Synced edge_triggered ch p a ne = absurd (ne refl)
request-Synced (reading true) ch p a ne = changed-Synced _ ch p a
request-Synced (reading false) ch p a ne = changed-Synced _ ch p a
request-Synced (writing true) ch p a ne = changed-Synced _ ch p a
request-Synced (writing false) ch p a ne = changed-Synced _ ch p a
request-Synced disabled ch p a ne = changed-Synced _ ch p a
request-Synced removed ch p a ne = remove_channel-Synced ch p a

pub request-Attached :
    (r : Request) (ch : Channel) (p : Poller)
    → Attached ch p
    → Attached (request r ch p).0 (request r ch p).1
unfolding request enable_et
request-Attached edge_triggered ch p a = record { listed = a.listed; table = a.table }
request-Attached (reading on) ch p a =
    Synced-Attached _ _ (request-Synced (reading on) ch p a (λ e. cc))
request-Attached (writing on) ch p a =
    Synced-Attached _ _ (request-Synced (writing on) ch p a (λ e. cc))
request-Attached disabled ch p a = Synced-Attached _ _ (request-Synced disabled ch p a (λ e. cc))
request-Attached removed ch p a = Synced-Attached _ _ (request-Synced removed ch p a (λ e. cc))

-- From an attached channel every history of calls keeps it attached.
pub requests-Attached :
    (rs : List Request) (ch : Channel) (p : Poller)
    → Attached ch p
    → Attached (requests rs ch p).0 (requests rs ch p).1
unfolding requests
requests-Attached [] ch p a = a
requests-Attached (r ∷ rs) ch p a = requests-Attached rs _ _ (request-Attached r ch p a)

listed-ne-none : (i : Index) (r : Option (Option Mask)) → IsListed i r → r ≢ none
listed-ne-none k_added r (m, h) e = cc
listed-ne-none k_new r h e = cc
listed-ne-none k_deleted r h e = cc

update-fd :
    (i : Index) (ch : Channel) (p : Poller) → ch.index ≡ i → (update_channel ch p).0.fd ≡ ch.fd
unfolding update_channel add_channel
update-fd i ch p e = ground arith

request-fd : (r : Request) (ch : Channel) (p : Poller) → (request r ch p).0.fd ≡ ch.fd
unfolding request enable_reading disable_reading enable_writing disable_writing disable_all
    enable_et remove_channel
request-fd edge_triggered ch p = refl
request-fd (reading true) ch p = update-fd _ _ p refl
request-fd (reading false) ch p = update-fd _ _ p refl
request-fd (writing true) ch p = update-fd _ _ p refl
request-fd (writing false) ch p = update-fd _ _ p refl
request-fd disabled ch p = update-fd _ _ p refl
request-fd removed ch p = refl

requests-fd : (rs : List Request) (ch : Channel) (p : Poller) → (requests rs ch p).0.fd ≡ ch.fd
unfolding requests
requests-fd [] ch p = refl
requests-fd (r ∷ rs) ch p = requests-fd rs _ _ ∙ request-fd r ch p

-- No history of calls on a new channel makes an epoll_ctl call that the kernel refuses.
pub requests_accepted :
    (rs : List Request) (address fd : ℕ)
    → interest fd (requests rs (new_channel address fd) new_poller).1.calls ≢ none
requests_accepted rs address fd e =
    let a = requests-Attached rs (new_channel address fd) new_poller (new-Attached address fd) in
    listed-ne-none _ _ a.listed (
      ap (λ (k : ℕ). interest k (requests rs (new_channel address fd) new_poller).1.calls)
        (requests-fd rs (new_channel address fd) new_poller ∙ new-fd address fd)
      ∙ e)
