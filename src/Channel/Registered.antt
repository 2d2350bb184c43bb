-- ===== src/Channel/Registered.antt =====
-- A channel's `index_`, the table of src/net/EPollPoller.cc, and the kernel's interest list.
use reactor_chat_server.Common.{
  ℕ, Option, none, some, if◌then◌else◌, ◌≡◌, ◌≢◌, refl, Bool-cases, inl, inr, subst, ap, ◌∙◌, sym,
  ==_iff, ==-ne,
}
use reactor_chat_server.Channel.{
  Mask, Index, k_new, k_added, k_deleted, Channel, Poller, Operation, epoll_ctl_add, epoll_ctl_mod,
  epoll_ctl_del, is_none, set_entry, add_channel, ctl, update_channel, remove_channel,
}
use reactor_chat_server.Channel.Kernel.{interest, replay-last, accept}

-- The entry that the kernel should hold for a channel.
abbrev pub kernel_view : Index → Mask → Option Mask
kernel_view k_added m = some m
kernel_view k_new m = none
kernel_view k_deleted m = none

-- The entry of the poller's table.
abbrev pub table_view : Index → ℕ → Option ℕ
table_view k_new a = none
table_view k_added a = some a
table_view k_deleted a = some a

-- The kernel has an entry exactly if the index says so; its events may be out of date.
abbrev pub IsListed : Index → Option (Option Mask) → Type 0
IsListed k_added r = (m : Mask) × (r ≡ some (some m))
IsListed k_new r = r ≡ some none
IsListed k_deleted r = r ≡ some none

pub record Attached (ch : Channel) (p : Poller) : Type 0 where
  pub listed : IsListed ch.index (interest ch.fd p.calls)
  pub table : p.channels ch.fd ≡ table_view ch.index ch.address

-- The kernel's events are the channel's too.
pub record Synced (ch : Channel) (p : Poller) : Type 0 where
  pub view : interest ch.fd p.calls ≡ some (kernel_view ch.index ch.events)
  pub table : p.channels ch.fd ≡ table_view ch.index ch.address

IsListed-of_view :
    (i : Index) (m : Mask) (r : Option (Option Mask)) → r ≡ some (kernel_view i m) → IsListed i r
IsListed-of_view k_added m r e = (m, e)
IsListed-of_view k_new m r e = e
IsListed-of_view k_deleted m r e = e

pub Synced-Attached : (ch : Channel) (p : Poller) → Synced ch p → Attached ch p
Synced-Attached ch p s = record {
  listed = IsListed-of_view ch.index ch.events _ s.view;
  table = s.table;
}

-- What one call does to the entry of its own channel, and to that of another descriptor.
ctl-interest :
    (op : Operation) (ch : Channel) (p : Poller) (entry : Option Mask)
    → interest ch.fd p.calls ≡ some entry
    → interest ch.fd (ctl op ch p).calls ≡ accept op ch.events entry
ctl-interest op ch p entry e =
    replay-last ch.fd p.calls _ entry e
    ∙ ap (λ t. if t then accept op ch.events entry else some entry) ((==_iff ch.fd ch.fd).1 refl)

ctl-interest_other :
    (op : Operation) (ch : Channel) (p : Poller) (fd : ℕ) (entry : Option Mask)
    → ch.fd ≢ fd
    → interest fd p.calls ≡ some entry
    → interest fd (ctl op ch p).calls ≡ some entry
ctl-interest_other op ch p fd entry ne e =
    replay-last fd p.calls _ entry e
    ∙ ap (λ t. if t then accept op ch.events entry else some entry) (==-ne ne)

-- A new or deleted channel is added.
add_channel-Synced :
    (ch : Channel) (p : Poller)
    → interest ch.fd p.calls ≡ some none
    → Synced (add_channel ch p).0 (add_channel ch p).1
unfolding add_channel
add_channel-Synced ch p e = record {
  view = ctl-interest epoll_ctl_add ch p none e;
  table = ap (λ t. if t then some ch.address else p.channels ch.fd) ((==_iff ch.fd ch.fd).1 refl);
}

update-Synced :
    (i : Index) (ch : Channel) (p : Poller)
    → ch.index ≡ i
    → Attached ch p
    → Synced (update_channel ch p).0 (update_channel ch p).1
unfolding update_channel
update-Synced k_new ch p e a =
    rw (e, update_channel)
      (add_channel-Synced ch p (subst (λ i. IsListed i (interest ch.fd p.calls)) e a.listed))
update-Synced k_deleted ch p e a =
    rw (e, update_channel)
      (add_channel-Synced ch p (subst (λ i. IsListed i (interest ch.fd p.calls)) e a.listed))
update-Synced k_added ch p e a =
    let (m, h) = subst (λ i. IsListed i (interest ch.fd p.calls)) e a.listed in
    let table = a.table ∙ ap (λ i. table_view i ch.address) e in
    elim (Bool-cases (is_none ch.events)) [
      | inl idle ↦
          rw (e, update_channel, idle)
            (record { view = ctl-interest epoll_ctl_del ch p (some m) h; table = table })
      | inr busy ↦
          rw (e, update_channel, busy)
            (record {
              view =
                  ctl-interest epoll_ctl_mod ch p (some m) h
                  ∙ ap (λ i. some (kernel_view i ch.events)) (sym e);
              table = a.table;
            })
    ]

-- `updateChannel` brings the kernel's entry up to date; none of its calls fails.
pub update_channel-Synced :
    (ch : Channel) (p : Poller)
    → Attached ch p
    → Synced (update_channel ch p).0 (update_channel ch p).1
update_channel-Synced ch p a = update-Synced ch.index ch p refl a

erased_entry : (ch : Channel) (p : Poller) → set_entry ch.fd none p.channels ch.fd ≡ none
erased_entry ch p = ap (λ t. if t then none else p.channels ch.fd) ((==_iff ch.fd ch.fd).1 refl)

remove-Synced :
    (i : Index) (ch : Channel) (p : Poller)
    → ch.index ≡ i
    → Attached ch p
    → Synced (remove_channel ch p).0 (remove_channel ch p).1
unfolding remove_channel
remove-Synced k_new ch p e a =
    let h = subst (λ i. IsListed i (interest ch.fd p.calls)) e a.listed in
    rw (e, remove_channel) (record { view = h; table = erased_entry ch p })
remove-Synced k_deleted ch p e a =
    let h = subst (λ i. IsListed i (interest ch.fd p.calls)) e a.listed in
    rw (e, remove_channel) (record { view = h; table = erased_entry ch p })
remove-Synced k_added ch p e a =
    let (m, h) = subst (λ i. IsListed i (interest ch.fd p.calls)) e a.listed in
    rw (e, remove_channel)
      (record { view = ctl-interest epoll_ctl_del ch p (some m) h; table = erased_entry ch p })

-- `removeChannel` takes the channel out of the table and of the kernel's list, and may be repeated.
pub remove_channel-Synced :
    (ch : Channel) (p : Poller)
    → Attached ch p
    → Synced (remove_channel ch p).0 (remove_channel ch p).1
remove_channel-Synced ch p a = remove-Synced ch.index ch p refl a
