-- ===== src/Channel.antt =====
-- src/net/Channel.h, src/net/Channel.cc, src/net/EPollPoller.h and src/net/EPollPoller.cc: what a
-- descriptor waits for, how a ready event is dispatched, and the poller's calls of `epoll_ctl`.
pub mod Kernel
pub mod Registered
pub mod Requests
pub mod Events
mod Tests
use reactor_chat_server.Common.{
  ℕ, ◌+◌, ◌*◌, Bool, true, false, not, ◌&&◌, ◌||◌, List, [], ◌∷◌, ◌++◌, Option, none, some, ◌==◌,
  if◌then◌else◌, length,
}

-- A set of event bits: `EPOLLIN`, `EPOLLPRI`, `EPOLLOUT`, `EPOLLERR`, `EPOLLHUP`, `EPOLLRDHUP`,
-- `EPOLLET`, a field for each bit that the code names.
pub record Mask : Type 0 where
  pub epollin : Bool
  pub epollpri : Bool
  pub epollout : Bool
  pub epollerr : Bool
  pub epollhup : Bool
  pub epollrdhup : Bool
  pub epollet : Bool

abbrev pub k_none_event : Mask
k_none_event = record {
  epollin = false;
  epollpri = false;
  epollout = false;
  epollerr = false;
  epollhup = false;
  epollrdhup = false;
  epollet = false;
}

-- `m == kNoneEvent`.
abbrev pub is_none : Mask → Bool
is_none m =
    not (
      m.epollin || m.epollpri || m.epollout || m.epollerr || m.epollhup || m.epollrdhup
      || m.epollet)

-- `Channel::index_`: `kNew`, `kAdded` and `kDeleted`.
pub data Index : Type 0 where
  k_new k_added k_deleted : Index

-- The members of `class Channel` but the callbacks. `address` is the object's own, which goes into
-- `epoll_event::data`.
pub record Channel : Type 0 where
  pub address : ℕ
  pub fd : ℕ
  pub events : Mask
  pub revents : Mask
  pub index : Index
  pub tied : Bool

unfoldable pub new_channel : ℕ → ℕ → Channel
new_channel address fd = record {
  address = address;
  fd = fd;
  events = k_none_event;
  revents = k_none_event;
  index = k_new;
  tied = false;
}

pub data Operation : Type 0 where
  epoll_ctl_add epoll_ctl_mod epoll_ctl_del : Operation

-- A call of `epoll_ctl`.
pub record Ctl : Type 0 where
  pub operation : Operation
  pub fd : ℕ
  pub events : Mask
  pub ptr : ℕ

-- `class EPollPoller`: the table from descriptors to channels, the size of the array for
-- `epoll_wait`, and the `epoll_ctl` calls made so far, oldest first.
pub record Poller : Type 0 where
  pub channels : ℕ → Option ℕ
  pub slots : ℕ
  pub calls : List Ctl

pub new_poller : Poller
new_poller = record { channels = λ _. none; slots = 16; calls = [] }

-- `EPollPoller::update`. A refused call is logged, and nothing else happens.
abbrev pub ctl : Operation → Channel → Poller → Poller
ctl op ch p = record p {
  calls =
      p.calls ++ record { operation = op; fd = ch.fd; events = ch.events; ptr = ch.address } ∷ [];
}

abbrev pub set_entry : ℕ → Option ℕ → (ℕ → Option ℕ) → ℕ → Option ℕ
set_entry fd v table k = if k == fd then v else table k

-- A channel that is not in the kernel's list is added, with whatever events it has.
add_channel : Channel → Poller → Channel × Poller
add_channel ch p = (
  record ch { index = k_added },
  ctl epoll_ctl_add ch (record p { channels = set_entry ch.fd (some ch.address) p.channels }),
)

pub update_channel : Channel → Poller → Channel × Poller
unfolding add_channel
update_channel ch p = elim ch.index [
  | k_new ↦ add_channel ch p
  | k_deleted ↦ add_channel ch p
  | k_added ↦
      if is_none ch.events
      then (record ch { index = k_deleted }, ctl epoll_ctl_del ch p)
      else (ch, ctl epoll_ctl_mod ch p)
]

pub remove_channel : Channel → Poller → Channel × Poller
remove_channel ch p =
    let erased = record p { channels = set_entry ch.fd none p.channels } in
    (
      record ch { index = k_new },
      elim ch.index [ k_added ↦ ctl epoll_ctl_del ch erased | _ ↦ erased ],
    )

-- What `epoll_wait` returns: the ready channels with their events, or an error.
pub data WaitResult : Type 0 where
  ready : List (ℕ × Mask) → WaitResult
  wait_failed : WaitResult

-- `EPollPoller::poll`: the active channels, each with its `revents`; a full array is doubled.
pub poll : WaitResult → Poller → List (ℕ × Mask) × Poller
poll wait_failed p = ([], p)
poll (ready found) p =
    (found, if length found == p.slots then record p { slots = p.slots * 2 } else p)

pub enable_et : Channel → Channel
enable_et ch = record ch { events = record (ch.events) { epollet = true } }

abbrev pub with_reading : Bool → Mask → Mask
with_reading on m = record m { epollin = on; epollpri = on }

abbrev pub with_writing : Bool → Mask → Mask
with_writing on m = record m { epollout = on }

pub enable_reading : Channel → Poller → Channel × Poller
enable_reading ch = update_channel (record ch { events = with_reading true ch.events })

pub disable_reading : Channel → Poller → Channel × Poller
disable_reading ch = update_channel (record ch { events = with_reading false ch.events })

pub enable_writing : Channel → Poller → Channel × Poller
enable_writing ch = update_channel (record ch { events = with_writing true ch.events })

pub disable_writing : Channel → Poller → Channel × Poller
disable_writing ch = update_channel (record ch { events = with_writing false ch.events })

pub disable_all : Channel → Poller → Channel × Poller
disable_all ch = update_channel (record ch { events = k_none_event })

abbrev pub is_writing : Channel → Bool
is_writing ch = ch.events.epollout

abbrev pub is_reading : Channel → Bool
is_reading ch = ch.events.epollin || ch.events.epollpri

-- The four callbacks of a channel; an empty `std::function` is `none`.
pub record Callbacks (S : Type 0) : Type 0 where
  pub on_read : Option (S → S)
  pub on_write : Option (S → S)
  pub on_close : Option (S → S)
  pub on_error : Option (S → S)

abbrev pub call : {S : Type 0} → Option (S → S) → S → S
call none s = s
call (some f) s = f s

unfoldable pub handle_event_guarded : {S : Type 0} → Mask → Callbacks S → S → S
handle_event_guarded revents cb s =
    let s₁ = if revents.epollhup && not revents.epollin then call cb.on_close s else s in
    let s₂ = if revents.epollerr then call cb.on_error s₁ else s₁ in
    let s₃ =
      if revents.epollin || revents.epollpri || revents.epollrdhup
      then call cb.on_read s₂
      else s₂ in
    if revents.epollout then call cb.on_write s₃ else s₃

-- `alive` says whether `tie_.lock()` finds the object.
unfoldable pub handle_event : {S : Type 0} → Channel → Bool → Callbacks S → S → S
handle_event ch alive cb s =
    if ch.tied
    then (if alive then handle_event_guarded ch.revents cb s else s)
    else handle_event_guarded ch.revents cb s

-- `Channel::tie`: from now on an event needs the object that owns the channel.
pub tie : Channel → Channel
tie ch = record ch { tied = true }
