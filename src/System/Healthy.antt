-- ===== src/System/Healthy.antt =====
-- What holds of a connection in the chat (src/chat/ChatServer.cc), whatever its state.
use reactor_chat_server.Common.{
  ℕ, ◌≡◌, ◌≢◌, sym, ◌∙◌, subst, Bool, true, false, List, none, some, Bytes, ◌==◌, inl, inr,
}
use reactor_chat_server.Buffer.{Buffer}
use reactor_chat_server.Buffer.Invariant.{IsValid}
use reactor_chat_server.Connection.{State, k_connecting, k_disconnected, World, Connection, Notice}
use reactor_chat_server.Connection.Invariant.{Posix, IsSound, State-cases, stream}
use reactor_chat_server.Connection.Perform.{Room}
use reactor_chat_server.Connection.Asked.{Left, ends, perform-Left}
use reactor_chat_server.Rooms.{ConnectionId, Session, House}
use reactor_chat_server.Rooms.Invariant.{in_room, IsConsistent}
use reactor_chat_server.Chat.{Effect}
use reactor_chat_server.Chat.Commands.{Handled}
use reactor_chat_server.Chat.OneLine.{SendsLines, IsClean}
use reactor_chat_server.Delivery.{Network, carry_out, calls_on}
use reactor_chat_server.Delivery.Carried.{carry_out-perform, carry_out-closed}
use reactor_chat_server.Delivery.Lines.{Whole, carried_Whole}
use reactor_chat_server.System.{System}

-- A connection has a session exactly from its opening on, and once it is closed it is in no room.
pub record IsGuest (h : House) (conn : ConnectionId) (st : State) : Type 0 where
  pub fresh : st ≡ k_connecting → h.sessions conn ≡ none
  pub known : st ≢ k_connecting → (s : Session) × (h.sessions conn ≡ some s)
  pub gone : st ≡ k_disconnected → (r : Bytes) → in_room r conn h ≡ false

pub record IsFine (h : House) (conn : ConnectionId) (c : Connection) : Type 0 where
  pub sound : IsSound c
  pub whole : Whole (stream c)
  pub guest : IsGuest h conn c.state

pub record IsHealthy (x : System) : Type 0 where
  pub consistent : IsConsistent x.house
  pub clean : IsClean x.house
  pub fine : (conn : ConnectionId) → IsFine x.house conn (x.network conn)

-- The arrays of the output buffers have room for what calls send.
abbrev pub Roomy : (ConnectionId → World) → List Effect → Network → Type 0
Roomy w done n = (c : ConnectionId) → Room (w c) (calls_on c done) (n c)

pub live-IsGuest :
    (h : House) (conn : ConnectionId) (st : State)
    → st ≢ k_connecting
    → st ≢ k_disconnected
    → ((s : Session) × (h.sessions conn ≡ some s))
    → IsGuest h conn st
live-IsGuest h conn st begun not_closed s = record {
  fresh = λ e. absurd (begun e);
  known = λ _. s;
  gone = λ e. absurd (not_closed e);
}

-- A live connection behind calls on it is live.
Left-IsGuest :
    (h : House) (conn : ConnectionId) (end : Bool) (d : Connection)
    → Left end d
    → ((s : Session) × (h.sessions conn ≡ some s))
    → IsGuest h conn d.state
Left-IsGuest h conn true d l s = live-IsGuest h conn d.state (λ e. cc (l.0)) (λ e. cc (l.0)) s
Left-IsGuest h conn false d l s = live-IsGuest h conn d.state (λ e. cc) (λ e. cc) s

-- Calls that send lines leave each connection as it should be.
pub carry_out-IsFine :
    (w : ConnectionId → World) (done : List Effect) (n : Network) (h : House) (conn : ConnectionId)
    → Posix (w conn)
    → Room (w conn) (calls_on conn done) (n conn)
    → SendsLines done
    → IsFine h conn (n conn)
    → IsFine h conn (carry_out w done n conn)
carry_out-IsFine w done n h conn p r lines f =
    let (sound, whole) = carried_Whole w done n conn p f.sound r lines f.whole in
    record {
      sound = sound;
      whole = whole;
      guest = elim (State-cases (n conn).state) [
        | inr off ↦
            subst (λ (k : Connection). IsGuest h conn k.state)
              (sym (carry_out-closed w done n conn off)) f.guest
        | inl on ↦
            subst (λ (k : Connection). IsGuest h conn k.state)
              (sym (carry_out-perform w done n conn))
              (Left-IsGuest h conn (ends (calls_on conn done)) _
                (perform-Left (w conn) (calls_on conn done) (n conn) p f.sound on r)
                (f.guest.known (λ e. cc)))
      ];
    }

-- A handler of one connection does not touch the others.
pub Handled-IsGuest :
    (conn other : ConnectionId) (h h' : House) (st : State)
    → (other == conn) ≡ false
    → Handled conn h h'
    → IsGuest h other st
    → IsGuest h' other st
Handled-IsGuest conn other h h' st apart d g =
    let same = d.others other apart in
    record {
      fresh = λ e. same ∙ g.fresh e;
      known = λ e. let (s, f) = g.known e in (s, same ∙ f);
      gone = λ e r. d.other_rooms r other apart ∙ g.gone e r;
    }

-- A valid input buffer, the numbers of calls and the notices are nothing that matters to it.
pub touched-IsFine :
    (h : House) (conn : ConnectionId) (c : Connection) (input : Buffer) (calls : ℕ)
    (notices : List Notice)
    → IsValid input
    → IsFine h conn c
    → IsFine h conn (record c { input = input; calls = calls; notices = notices })
touched-IsFine h conn c input calls notices v f = record {
  sound = record {
    input_valid = v;
    output_valid = f.sound.output_valid;
    attached = f.sound.attached;
    waiting = f.sound.waiting;
    closed = f.sound.closed;
  };
  whole = f.whole;
  guest = f.guest;
}
