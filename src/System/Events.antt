-- ===== src/System/Events.antt =====
-- The handlers of src/net/TcpConnection.cc with the callbacks of src/chat/ChatServer.cc behind them.
use reactor_chat_server.Common.{
  ℕ, ◌≡◌, ◌≢◌, sym, ap, ◌∙◌, subst, false, not, ◌&&◌, List, [], ◌∷◌, some, ◌==◌, inl, inr,
  Bool-cases, ==_iff, ==-self,
}
use reactor_chat_server.Codec.{take_lines}
use reactor_chat_server.Codec.Lines.{take_lines-Took}
use reactor_chat_server.Connection.{
  k_connecting, k_disconnected, World, Connection, message_notice, handle_close,
}
use reactor_chat_server.Connection.Invariant.{Posix}
use reactor_chat_server.Connection.Events.{handle_close-Closed}
use reactor_chat_server.Rooms.{ConnectionId, Session, House, leave}
use reactor_chat_server.Rooms.Invariant.{in_room, IsConsistent}
use reactor_chat_server.Rooms.Effects.{leave_lem, leave-sessions}
use reactor_chat_server.Chat.{Effect, on_message, on_connection}
use reactor_chat_server.Chat.Commands.{Handled, on_message-Succeeds}
use reactor_chat_server.Chat.Clean.{on_message-Clean}
use reactor_chat_server.Chat.OneLine.{SendsLines, IsClean}
use reactor_chat_server.Delivery.{Network, set_connection, carry_out}
use reactor_chat_server.Delivery.Lines.{Whole}
use reactor_chat_server.System.{System, put, close_event, message_event}
use reactor_chat_server.System.Healthy.{
  IsFine, IsHealthy, Roomy, live-IsGuest, carry_out-IsFine, Handled-IsGuest, touched-IsFine,
}

-- A connection in its place, among others.
pub set_connection-IsFine :
    (h : House) (n : Network) (conn : ConnectionId) (d : Connection)
    → IsFine h conn d
    → ((other : ConnectionId) → (other == conn) ≡ false → IsFine h other (n other))
    → (c : ConnectionId) → IsFine h c (set_connection conn d n c)
set_connection-IsFine h n conn d f others c = elim (Bool-cases (c == conn)) [
  | inl hit ↦ rw hit (subst (λ (k : ConnectionId). IsFine h k d) (sym ((==_iff c conn).0 hit)) f)
  | inr apart ↦ rw apart (others c apart)
]

-- Calls that send lines, in a house in order.
pub carried_Healthy :
    (w : ConnectionId → World) (done : List Effect) (n : Network) (h : House)
    → ((c : ConnectionId) → Posix (w c))
    → Roomy w done n
    → SendsLines done
    → IsConsistent h
    → IsClean h
    → ((c : ConnectionId) → IsFine h c (n c))
    → IsHealthy (record { network = carry_out w done n; house = h })
carried_Healthy w done n h p r lines k clean fine = record {
  consistent = k;
  clean = clean;
  fine = λ c. carry_out-IsFine w done n h c (p c) (r c) lines (fine c);
}

pub put-IsHealthy :
    (conn : ConnectionId) (d : Connection) (x : System)
    → IsHealthy x
    → IsFine x.house conn d
    → IsHealthy (put conn d x)
put-IsHealthy conn d x s f = record {
  consistent = s.consistent;
  clean = s.clean;
  fine = set_connection-IsFine x.house x.network conn d f (λ other apart. s.fine other);
}

module _ (w : ConnectionId → World) (timeout : ℕ) (conn : ConnectionId) (now : ℕ)
    (p : (c : ConnectionId) → Posix (w c)) (x : System) (s : IsHealthy x) where
  others_stay :
      (h : House)
      → Handled conn x.house h
      → (other : ConnectionId) → (other == conn) ≡ false
      → IsFine h other (x.network other)
  others_stay h d other apart =
      let f = s.fine other in
      record {
        sound = f.sound;
        whole = f.whole;
        guest = Handled-IsGuest conn other x.house h (x.network other).state apart d f.guest;
      }

  leave-Handled :
      ((t : Session) × (x.house.sessions conn ≡ some t)) → Handled conn x.house (leave conn x.house)
  leave-Handled (t, e) =
      let (k, out) = leave_lem conn x.house s.consistent in
      let same = leave-sessions conn x.house in
      record {
        consistent = k;
        session = (t, ap (λ f. f conn) same ∙ e);
        others = λ c apart. ap (λ f. f c) same;
        other_rooms = λ r c apart. out r c ∙ ap (λ b. not b && in_room r c x.house) apart;
      }

  pub close_event-IsHealthy :
      (c : Connection)
      → IsFine x.house conn c
      → c.state ≢ k_connecting
      → IsHealthy (close_event w timeout conn now c x)
  unfolding close_event on_connection
  close_event-IsHealthy c f begun =
      let h = leave conn x.house in
      let d = leave-Handled (f.guest.known begun) in
      let (_, out) = leave_lem conn x.house s.consistent in
      let (sound, closed) = handle_close-Closed (w conn) c f.sound in
      let closed_fine : IsFine h conn (handle_close (w conn) c) = record {
        sound = sound;
        whole = subst Whole (sym closed.streamed) f.whole;
        guest = record {
          fresh = λ e. cc (closed.state);
          known = λ _. d.session;
          gone = λ e r. out r conn ∙ ap (λ b. not b && in_room r conn x.house) (==-self conn);
        };
      } in
      carried_Healthy w [] (set_connection conn (handle_close (w conn) c) x.network) h p (λ c. tt)
        tt d.consistent
        (λ c t found. s.clean c t (sym (ap (λ g. g c) (leave-sessions conn x.house)) ∙ found))
        (set_connection-IsFine h x.network conn (handle_close (w conn) c) closed_fine
          (others_stay h d))

  pub message_event-IsHealthy :
      (c : Connection)
      → IsFine x.house conn c
      → c.state ≢ k_connecting
      → c.state ≢ k_disconnected
      → ((h : House) (done : List Effect)
          → on_message conn now c.input x.house ≡ some (h, done, (take_lines c.input).1)
          → Roomy w done (
              set_connection conn
                (record c { input = (take_lines c.input).1; notices = message_notice ∷ c.notices })
                x.network))
      → (y : System) × (message_event w conn now c x ≡ some y) × IsHealthy y
  unfolding message_event
  message_event-IsHealthy c f begun not_closed room =
      let (t, e) = f.guest.known begun in
      let (h, done, g, d) = on_message-Succeeds conn now c.input x.house t s.consistent e in
      let (h₂, done₂, g₂, clean₂, lines₂) =
        on_message-Clean conn now c.input x.house t f.sound.input_valid s.consistent e s.clean in
      let same_house : h₂ ≡ h = cc (sym g₂ ∙ g) in
      let same_calls : done₂ ≡ done = cc (sym g₂ ∙ g) in
      let left = (take_lines c.input).1 in
      let told : Connection = record c { input = left; notices = message_notice ∷ c.notices } in
      let open_fine : IsFine h conn c = record {
        sound = f.sound;
        whole = f.whole;
        guest = live-IsGuest h conn c.state begun not_closed d.session;
      } in
      let told_fine : IsFine h conn told =
        touched-IsFine h conn c left c.calls _ (take_lines-Took c.input f.sound.input_valid).valid
          open_fine in
      (
        record { network = carry_out w done (set_connection conn told x.network); house = h },
        rw (g, message_event),
        carried_Healthy w done (set_connection conn told x.network) h p (room h done g)
            (subst SendsLines same_calls lines₂) d.consistent (subst IsClean same_house clean₂)
            (set_connection-IsFine h x.network conn told told_fine (others_stay h d)),
      )
