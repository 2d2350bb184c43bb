-- ===== src/Channel/Kernel.antt =====
-- The documented behaviour of `epoll_ctl`, as src/net/EPollPoller.cc calls it: what a sequence of
-- calls leaves in the interest list.
use reactor_chat_server.Common.{
  ℕ, List, [], ◌∷◌, ◌++◌, Option, none, some, ◌==◌, if◌then◌else◌, ◌≡◌, refl,
}
use reactor_chat_server.Channel.{Mask, Operation, Ctl, epoll_ctl_add, epoll_ctl_mod, epoll_ctl_del}

-- One call on the entry of its descriptor; `none` for a call that fails, with EEXIST or ENOENT.
abbrev pub accept : Operation → Mask → Option Mask → Option (Option Mask)
accept epoll_ctl_add m none = some (some m)
accept epoll_ctl_add m (some old) = none
accept epoll_ctl_mod m none = none
accept epoll_ctl_mod m (some old) = some (some m)
accept epoll_ctl_del m none = none
accept epoll_ctl_del m (some old) = some none

-- The entry of descriptor `fd` after a sequence of calls, from an entry; `none` if a call on it failed.
pub replay : ℕ → Option (Option Mask) → List Ctl → Option (Option Mask)
replay fd entry [] = entry
replay fd none (c ∷ cs) = none
replay fd (some entry) (c ∷ cs) =
    replay fd (if c.fd == fd then accept c.operation c.events entry else some entry) cs

-- The interest list's entry for `fd`, if every call so far succeeded.
abbrev pub interest : ℕ → List Ctl → Option (Option Mask)
interest fd cs = replay fd (some none) cs

pub replay-append :
    (fd : ℕ) (entry : Option (Option Mask)) (cs ds : List Ctl)
    → replay fd entry (cs ++ ds) ≡ replay fd (replay fd entry cs) ds
unfolding replay
replay-append fd entry [] ds = refl
replay-append fd none (c ∷ cs) [] = refl
replay-append fd none (c ∷ cs) (d ∷ ds) = refl
replay-append fd (some e) (c ∷ cs) ds =
    replay-append fd (if c.fd == fd then accept c.operation c.events e else some e) cs ds

-- The last call decides, from what was there.
pub replay-last :
    (fd : ℕ) (cs : List Ctl) (c : Ctl) (entry : Option Mask)
    → interest fd cs ≡ some entry
    → interest fd (cs ++ c ∷ [])
      ≡ (if c.fd == fd then accept c.operation c.events entry else some entry)
unfolding replay
replay-last fd cs c entry h = rw (replay-append fd (some none) cs (c ∷ []), h)

pub interest_nil : (fd : ℕ) → interest fd [] ≡ some none
unfolding replay
interest_nil fd = refl
