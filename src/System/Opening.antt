-- ===== src/System/Opening.antt =====
-- The opening of a connection and its idle timer, with the callbacks of src/chat/ChatServer.cc.
use reactor_chat_server.Common.{
  ℕ, ◌-◌, ◌≡◌, refl, sym, ap, ◌∙◌, subst, Bool, true, false, List, [], ◌∷◌, none, some, Bytes, ◌==◌,
  inl, inr, Bool-cases, ==_iff, ==-self, if◌then◌else◌, arith, leb, ltb, length,
}
use reactor_chat_server.Buffer.{newline}
use reactor_chat_server.Buffer.Search.{Free}
use reactor_chat_server.Connection.{
  k_connecting, k_connected, World, Connection, is_connected, connect_established,
  notify_connection, perform,
}
use reactor_chat_server.Connection.Invariant.{Posix, IsSound}
use reactor_chat_server.Connection.Life.{opened, opened-IsSound}
use reactor_chat_server.Connection.Asked.{Left, ends, perform-Left}
use reactor_chat_server.Rooms.{ConnectionId, Session, House, set_session}
use reactor_chat_server.Rooms.Invariant.{in_room, IsConsistent, Seated}
use reactor_chat_server.Rooms.Effects.{absent}
use reactor_chat_server.Chat.{Effect, send, shutdown, run_after, on_connection, on_idle_timer}
use reactor_chat_server.Chat.Texts.{welcome_text, idle_text}
use reactor_chat_server.Chat.Commands.{Handled}
use reactor_chat_server.Chat.OneLine.{OneLine, SendsLines, IsClean}
use reactor_chat_server.Delivery.{set_connection, carry_out, calls_on}
use reactor_chat_server.Delivery.Carried.{carry_out-perform}
use reactor_chat_server.System.{System, open_event, idle_event}
use reactor_chat_server.System.Healthy.{IsHealthy, Roomy, live-IsGuest, Handled-IsGuest}
use reactor_chat_server.System.Events.{set_connection-IsFine, carried_Healthy}

welcome-OneLine : OneLine welcome_text
welcome-OneLine = (
  (230 ∷ 172 ∷ 162 ∷ 232 ∷ 191 ∷ 142 ∷ 239 ∷ 188 ∷ 129 ∷ 231 ∷ 148 ∷ 168 ∷ 32 ∷ 47 ∷ 110 ∷ 105 ∷ 99
      ∷ 107 ∷ 32 ∷ 60 ∷ 229 ∷ 144 ∷ 141 ∷ 62 ∷ 32 ∷ 232 ∷ 174 ∷ 190 ∷ 230 ∷ 152 ∷ 181 ∷ 231 ∷ 167
      ∷ 176 ∷ 239 ∷ 188 ∷ 140 ∷ 47 ∷ 106 ∷ 111 ∷ 105 ∷ 110 ∷ 32 ∷ 60 ∷ 230 ∷ 136 ∷ 191 ∷ 233 ∷ 151
      ∷ 180 ∷ 62 ∷ 32 ∷ 232 ∷ 191 ∷ 155 ∷ 230 ∷ 136 ∷ 191 ∷ 239 ∷ 188 ∷ 140 ∷ 47 ∷ 119 ∷ 104 ∷ 111
      ∷ 32 ∷ 231 ∷ 156 ∷ 139 ∷ 229 ∷ 156 ∷ 168 ∷ 231 ∷ 186 ∷ 191 ∷ 239 ∷ 188 ∷ 140 ∷ 47 ∷ 113 ∷ 117
      ∷ 105 ∷ 116 ∷ 32 ∷ 233 ∷ 128 ∷ 128 ∷ 229 ∷ 135 ∷ 186 ∷ 227 ∷ 128 ∷ 130 ∷ []),
  refl,
  omega arith,
)

idle-OneLine : OneLine idle_text
idle-OneLine = (
  (226 ∷ 143 ∷ 177 ∷ 32 ∷ 231 ∷ 169 ∷ 186 ∷ 233 ∷ 151 ∷ 178 ∷ 232 ∷ 182 ∷ 133 ∷ 230 ∷ 151 ∷ 182
      ∷ 239 ∷ 188 ∷ 140 ∷ 230 ∷ 150 ∷ 173 ∷ 229 ∷ 188 ∷ 128 ∷ 232 ∷ 191 ∷ 158 ∷ 230 ∷ 142 ∷ 165
      ∷ 227 ∷ 128 ∷ 130 ∷ []),
  refl,
  omega arith,
)

welcome-SendsLines :
    (conn : ConnectionId) (timeout : ℕ)
    → SendsLines
        (send conn welcome_text ∷ (if ltb 0 timeout then run_after conn timeout ∷ [] else []))
welcome-SendsLines conn timeout = elim (Bool-cases (ltb 0 timeout)) [
  | inl timed ↦ rw timed (welcome-OneLine, tt)
  | inr untimed ↦ rw untimed (welcome-OneLine, tt)
]

-- A first session, in no room.
module _ (h : House) (conn : ConnectionId) (t : Session) (k : IsConsistent h)
    (new : h.sessions conn ≡ none) where
  stranger : (c : ConnectionId) (r : Bytes) → in_room r c h ≡ true → (c == conn) ≡ false
  stranger c r sits = elim (Bool-cases (c == conn)) [
    | inr apart ↦ apart
    | inl hit ↦
        let stands = absent conn h k new r in
        let same = ap (λ (i : ℕ). in_room r i h) ((==_iff c conn).0 hit) in
        absurd (ground (arith, stands, same, sits))
  ]

  first-IsConsistent : IsConsistent (set_session conn t h)
  first-IsConsistent = record { seated = seat; ordered = k.ordered }
    where
      seat :
          (r : Bytes) (c : ConnectionId) → in_room r c h ≡ true → Seated (set_session conn t h) r c
      seat r c sits =
          let (u, found, at, named) = k.seated r c sits in
          (u, rw (stranger c r sits) found, at, named)

  first-Handled : Handled conn h (set_session conn t h)
  first-Handled = record {
    consistent = first-IsConsistent;
    session = (t, ap (λ b. if b then some t else h.sessions conn) (==-self conn));
    others = λ c apart. ap (λ b. if b then some t else h.sessions c) apart;
    other_rooms = λ r c apart. refl;
  }

module _ (w : ConnectionId → World) (timeout : ℕ) (conn : ConnectionId) (now : ℕ)
    (p : (c : ConnectionId) → Posix (w c)) (x : System) (s : IsHealthy x) where
  nameless : Session
  nameless = record { nick = []; room = []; last_active = now }

  pub open_event-IsHealthy :
      (x.network conn).state ≡ k_connecting
      → Roomy w
          (on_connection conn true now timeout x.house).1
          (set_connection conn (opened (x.network conn)) x.network)
      → IsHealthy (open_event w timeout conn now x)
  unfolding open_event on_connection opened nameless
  open_event-IsHealthy e room =
      let f = s.fine conn in
      let new = f.guest.fresh e in
      let h = set_session conn nameless x.house in
      let d = first-Handled x.house conn nameless s.consistent new in
      let c = opened (x.network conn) in
      let clean : IsClean h = λ c t found. elim (Bool-cases (c == conn)) [
        | inl hit ↦
            let own : h.sessions c ≡ some nameless =
              ap (λ b. if b then some nameless else x.house.sessions c) hit in
            let same : nameless ≡ t = cc in
            subst (λ (q : Session). Free newline q.nick × Free newline q.room) same (tt, tt)
        | inr apart ↦ s.clean c t (sym (d.others c apart) ∙ found)
      ] in
      carried_Healthy w _ (set_connection conn c x.network) h p room
        (welcome-SendsLines conn timeout) d.consistent clean
        (set_connection-IsFine h x.network conn c
          (record {
            sound = opened-IsSound (x.network conn) f.sound e;
            whole = f.whole;
            guest = live-IsGuest h conn k_connected (λ q. cc) (λ q. cc) d.session;
          })
          (λ other apart. record {
            sound = (s.fine other).sound;
            whole = (s.fine other).whole;
            guest =
                Handled-IsGuest conn other x.house h (x.network other).state apart d
                  (s.fine other).guest;
          }))

  -- What the idle timer calls.
  on_idle_timer_lem :
      (on : Bool)
      → (on ≡ true → (t : Session) × (x.house.sessions conn ≡ some t))
      → (done : List Effect) × (on_idle_timer conn on now timeout x.house ≡ some done)
        × SendsLines done
  unfolding on_idle_timer
  on_idle_timer_lem false known = ([], refl, tt)
  on_idle_timer_lem true known =
      let (t, e) = known refl in
      elim (Bool-cases (leb timeout (now - t.last_active))) [
        | inl idle ↦ (
          send conn idle_text ∷ shutdown conn ∷ [],
          rw (e, on_idle_timer, idle),
          (idle-OneLine, tt),
        )
        | inr active ↦ (
          run_after conn (timeout - (now - t.last_active)) ∷ [],
          rw (e, on_idle_timer, active),
          tt,
        )
      ]

  pub idle_event-IsHealthy :
      ((done : List Effect)
        → on_idle_timer conn (is_connected (x.network conn).state) now timeout x.house ≡ some done
        → Roomy w done x.network)
      → (y : System) × (idle_event w timeout conn now x ≡ some y) × IsHealthy y
  unfolding idle_event
  idle_event-IsHealthy room =
      let f = s.fine conn in
      let begun = λ (on : is_connected (x.network conn).state ≡ true).
        f.guest.known
          (λ e. let off : is_connected (x.network conn).state ≡ false = ap is_connected e in cc) in
      let (done, g, lines) = on_idle_timer_lem (is_connected (x.network conn).state) begun in
      (
        record x { network = carry_out w done x.network },
        rw (g, idle_event),
        carried_Healthy w done x.network x.house p (room done g) lines s.consistent s.clean s.fine,
      )

  -- It is `connectEstablished`, if the connection callback is the chat's.
  open_event-established :
      (w conn).on_connection (length (x.network conn).notices) k_connected
        ≡ calls_on conn (on_connection conn true now timeout x.house).1
      → (open_event w timeout conn now x).network conn
        ≡ connect_established (w conn) (x.network conn)
  unfolding open_event connect_established notify_connection opened
  open_event-established e =
      let done = (on_connection conn true now timeout x.house).1 in
      carry_out-perform w done (set_connection conn (opened (x.network conn)) x.network) conn
      ∙ ap
          (λ (t : Bool).
            perform (w conn) (calls_on conn done)
              (if t then opened (x.network conn) else x.network conn))
          (==-self conn)
      ∙ ap (λ l. perform (w conn) l (opened (x.network conn))) (sym e)

  greeting_ends : ends (calls_on conn (on_connection conn true now timeout x.house).1) ≡ false
  unfolding on_connection
  greeting_ends = elim (Bool-cases (ltb 0 timeout)) [
    | inl timed ↦ rw (==-self conn, timed)
    | inr untimed ↦ rw (==-self conn, untimed)
  ]

  -- The connection is connected behind it.
  pub open_event-state :
      (x.network conn).state ≡ k_connecting
      → Roomy w
          (on_connection conn true now timeout x.house).1
          (set_connection conn (opened (x.network conn)) x.network)
      → ((open_event w timeout conn now x).network conn).state ≡ k_connected
  unfolding open_event opened
  open_event-state e room =
      let done = (on_connection conn true now timeout x.house).1 in
      let n = set_connection conn (opened (x.network conn)) x.network in
      let opened_here : n conn ≡ opened (x.network conn) =
        ap (λ (t : Bool). if t then opened (x.network conn) else x.network conn) (==-self conn) in
      let sound =
        subst IsSound (sym opened_here) (opened-IsSound (x.network conn) (s.fine conn).sound e) in
      let state : (n conn).state ≡ k_connected = ap (λ (k : Connection). k.state) opened_here in
      let left =
        perform-Left (w conn) (calls_on conn done) (n conn) (p conn) sound state (room conn) in
      subst (λ (k : Connection). k.state ≡ k_connected) (sym (carry_out-perform w done n conn))
        (subst (λ t. Left t (perform (w conn) (calls_on conn done) (n conn))) greeting_ends left)
