-- ===== src/System/Reach.antt =====
-- All that can happen to a chat server with no IO threads (src/chat/ChatServer.cc on
-- src/net/TcpConnection.cc), in any order.
use reactor_chat_server.Common.{
  ℕ, ◌+◌, ◌≤◌, ◌<◌, ◌≡◌, ◌≢◌, refl, sym, ◌∙◌, subst, true, List, [], ◌∷◌, some, Bytes, length,
}
use reactor_chat_server.Buffer.{received, read_fd, offered}
use reactor_chat_server.Buffer.Invariant.{max_size}
use reactor_chat_server.Buffer.Contents.{contents}
use reactor_chat_server.Buffer.Receive.{read_fd-received}
use reactor_chat_server.Codec.{take_lines}
use reactor_chat_server.Connection.{
  k_connecting, k_disconnected, World, Connection, message_notice, arrived, read_failed, eagain,
  other_errno, Arrival, handle_write, handle_error, is_connected,
}
use reactor_chat_server.Connection.Invariant.{Posix}
use reactor_chat_server.Connection.Life.{opened}
use reactor_chat_server.Connection.WriteLoop.{handle_write_total}
use reactor_chat_server.Rooms.{ConnectionId, House}
use reactor_chat_server.Chat.{Effect, on_message, on_connection, on_idle_timer}
use reactor_chat_server.Delivery.{set_connection}
use reactor_chat_server.Delivery.Lines.{Whole}
use reactor_chat_server.System.{System, put, open_event, close_event, read_event, idle_event}
use reactor_chat_server.System.Healthy.{IsGuest, IsFine, IsHealthy, Roomy, touched-IsFine}
use reactor_chat_server.System.Events.{
  put-IsHealthy, close_event-IsHealthy, message_event-IsHealthy,
}
use reactor_chat_server.System.Opening.{open_event-IsHealthy, idle_event-IsHealthy}

-- Arrays within their maximum, in a round of reading.
abbrev pub with_input : Bytes → Connection → Connection
with_input bytes c = record c { calls = c.calls + 1; input = read_fd (received bytes) c.input }

pub record HasRoom (w : ConnectionId → World) (conn : ConnectionId) (now : ℕ) (x : System)
    : Type 0 where
  pub fits :
      (bytes : Bytes)
      → (w conn).readv (x.network conn).calls (offered (x.network conn).input) ≡ arrived bytes
      → bytes ≢ []
      → length (x.network conn).input.buf + length bytes ≤ max_size
  pub room :
      (bytes : Bytes) (h : House) (done : List Effect)
      → (w conn).readv (x.network conn).calls (offered (x.network conn).input) ≡ arrived bytes
      → bytes ≢ []
      → let c = with_input bytes (x.network conn) in
        on_message conn now c.input x.house ≡ some (h, done, (take_lines c.input).1)
        → Roomy w done (
            set_connection conn
              (record c { input = (take_lines c.input).1; notices = message_notice ∷ c.notices })
              x.network)

-- What can happen; reading is for a connection that is there and not closed, as its channel has it.
pub data Step (w : ConnectionId → World) (timeout : ℕ) (x : System) : System → Type 0 where
  opening :
      (conn : ConnectionId) (now : ℕ)
      → (x.network conn).state ≡ k_connecting
      → Roomy w
          (on_connection conn true now timeout x.house).1
          (set_connection conn (opened (x.network conn)) x.network)
      → Step w timeout x (open_event w timeout conn now x)
  reading :
      (conn : ConnectionId) (now : ℕ) (y : System)
      → (x.network conn).state ≢ k_connecting
      → (x.network conn).state ≢ k_disconnected
      → HasRoom w conn now x
      → read_event w timeout conn now x ≡ some y
      → Step w timeout x y
  flushing :
      (conn : ConnectionId) (fuel : ℕ) (d : Connection)
      → length (contents (x.network conn).output) < fuel
      → handle_write fuel (w conn) (x.network conn) ≡ some d
      → Step w timeout x (put conn d x)
  failing : (conn : ConnectionId) → Step w timeout x (put conn (handle_error (x.network conn)) x)
  closing :
      (conn : ConnectionId) (now : ℕ)
      → (x.network conn).state ≢ k_connecting
      → Step w timeout x (close_event w timeout conn now (x.network conn) x)
  idling :
      (conn : ConnectionId) (now : ℕ) (y : System)
      → ((done : List Effect)
          → on_idle_timer conn (is_connected (x.network conn).state) now timeout x.house ≡ some done
          → Roomy w done x.network)
      → idle_event w timeout conn now x ≡ some y
      → Step w timeout x y

pub data Reach (w : ConnectionId → World) (timeout : ℕ) (x : System) : System → Type 0 where
  here : Reach w timeout x x
  next : {y z : System} → Reach w timeout x y → Step w timeout y z → Reach w timeout x z

module _ (w : ConnectionId → World) (timeout : ℕ) (p : (c : ConnectionId) → Posix (w c)) where
  error-IsFine :
      (h : House) (conn : ConnectionId) (c : Connection)
      → IsFine h conn c
      → IsFine h conn (handle_error c)
  unfolding handle_error
  error-IsFine h conn c f = touched-IsFine h conn c c.input c.calls _ f.sound.input_valid f

  counted-IsFine :
      (h : House) (conn : ConnectionId) (c : Connection)
      → IsFine h conn c
      → IsFine h conn (record c { calls = c.calls + 1 })
  counted-IsFine h conn c f =
      touched-IsFine h conn c c.input (c.calls + 1) c.notices f.sound.input_valid f

  -- In a chat server in order, with POSIX sockets, a round of handleRead of a connection that is
  -- established and not closed, with room in the arrays for what arrives and what its handler
  -- sends, does not dereference a null session, and leaves the server in order.
  pub read_event_total :
      (conn : ConnectionId) (now : ℕ) (x : System)
      → IsHealthy x
      → (x.network conn).state ≢ k_connecting
      → (x.network conn).state ≢ k_disconnected
      → HasRoom w conn now x
      → (y : System) × (read_event w timeout conn now x ≡ some y) × IsHealthy y
  unfolding read_event
  read_event_total conn now x s begun not_closed room =
      by_answer ((w conn).readv (x.network conn).calls (offered (x.network conn).input)) refl
    where
      c : Connection
      c = x.network conn

      counted : Connection
      counted = record c { calls = c.calls + 1 }

      by_answer :
          (a : Arrival)
          → (w conn).readv c.calls (offered c.input) ≡ a
          → (y : System) × (read_event w timeout conn now x ≡ some y) × IsHealthy y
      by_answer (arrived []) e = (
        close_event w timeout conn now counted x,
        rw (e, read_event),
        close_event-IsHealthy w timeout conn now p x s counted
            (counted-IsFine x.house conn c (s.fine conn)) begun,
      )
      by_answer (arrived (b ∷ bs)) e =
          let f = s.fine conn in
          let (_, valid) =
            read_fd-received (b ∷ bs) c.input f.sound.input_valid
              ((p conn).readv_bounded _ _ (b ∷ bs) e) (room.fits (b ∷ bs) e (λ q. cc)) in
          let (y, g, t) =
            message_event-IsHealthy w timeout conn now p x s (with_input (b ∷ bs) c)
              (touched-IsFine x.house conn c _ (c.calls + 1) c.notices valid f) begun not_closed
              (λ h done q. room.room (b ∷ bs) h done e (λ q'. cc) q) in
          (y, rw (e, read_event) g, t)
      by_answer (read_failed eagain) e = (
        put conn counted x,
        rw (e, read_event),
        put-IsHealthy conn counted x s (counted-IsFine x.house conn c (s.fine conn)),
      )
      by_answer (read_failed other_errno) e = (
        put conn (handle_error counted) x,
        rw (e, read_event),
        put-IsHealthy conn (handle_error counted) x s
            (error-IsFine x.house conn counted (counted-IsFine x.house conn c (s.fine conn))),
      )

  Step-IsHealthy : {x y : System} → IsHealthy x → Step w timeout x y → IsHealthy y
  Step-IsHealthy {x} s (opening conn now e r) = open_event-IsHealthy w timeout conn now p x s e r
  Step-IsHealthy {x} s (reading conn now y begun not_closed r e) =
      let (z, f, t) = read_event_total conn now x s begun not_closed r in
      let same : z ≡ y = cc (sym f ∙ e) in subst IsHealthy same t
  Step-IsHealthy {x} s (flushing conn fuel d h e) =
      let f = s.fine conn in
      let (k, g, t) = handle_write_total fuel (w conn) (x.network conn) (p conn) f.sound h in
      let same : k ≡ d = cc (sym g ∙ e) in
      put-IsHealthy conn d x s (
        subst (IsFine x.house conn) same (record {
          sound = t.sound;
          whole = subst Whole (sym t.streamed) f.whole;
          guest = subst (IsGuest x.house conn) (sym t.same_state) f.guest;
        }))
  Step-IsHealthy {x} s (failing conn) =
      put-IsHealthy conn _ x s (error-IsFine x.house conn (x.network conn) (s.fine conn))
  Step-IsHealthy {x} s (closing conn now begun) =
      close_event-IsHealthy w timeout conn now p x s (x.network conn) (s.fine conn) begun
  Step-IsHealthy {x} s (idling conn now y r e) =
      let (z, f, t) = idle_event-IsHealthy w timeout conn now p x s r in
      let same : z ≡ y = cc (sym f ∙ e) in subst IsHealthy same t

  -- In every history of a chat server with no IO threads, in which connections open, their handlers
  -- read, write, close and fail, and their idle timers fire, in any order, each reading only while
  -- it is open and closing only once it was opened, with POSIX sockets and arrays within their
  -- maximum: from a system in order, the rooms agree with the sessions; each connection is sound,
  -- has no line half sent, has a session exactly from its opening on, and is in no room once it is
  -- closed; and no name holds a newline.
  pub Reach-IsHealthy : {x y : System} → IsHealthy x → Reach w timeout x y → IsHealthy y
  Reach-IsHealthy s here = s
  Reach-IsHealthy s (next r t) = Step-IsHealthy (Reach-IsHealthy s r) t
