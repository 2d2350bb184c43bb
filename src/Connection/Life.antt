-- ===== src/Connection/Life.antt =====
-- The constructor and `connectEstablished` of src/net/TcpConnection.cc.
use reactor_chat_server.Common.{
  ℕ, ◌≡◌, refl, sym, ap, ◌∙◌, subst, Bool, false, [], ◌∷◌, ◌++◌, length, ltb, arith, inl, inr,
  Bool-cases, if◌then◌else◌,
}
use reactor_chat_server.Buffer.Contents.{contents}
use reactor_chat_server.Channel.{Channel, enable_reading, enable_et, tie, is_writing}
use reactor_chat_server.Channel.Registered.{Attached}
use reactor_chat_server.Channel.Requests.{new-Attached}
use reactor_chat_server.Channel.{new_channel, new_poller}
use reactor_chat_server.Buffer.{new_buffer, k_initial}
use reactor_chat_server.Buffer.Invariant.{new_buffer-IsValid}
use reactor_chat_server.Connection.{new_connection}
use reactor_chat_server.Channel.Events.{
  is_writing-enable_reading, enable_reading-Attached, enable_et-Attached, tie-Attached,
  enable_et-is_writing, tie-is_writing,
}
use reactor_chat_server.Connection.{
  k_connecting, k_connected, World, Connection, writing, connection_notice, notify_connection,
  connect_established,
}
use reactor_chat_server.Connection.Invariant.{Posix, stream, Waiting, IsSound, is_ending, not_shut}
use reactor_chat_server.Connection.Perform.{Room, perform-Performed, accepted}

new_idle : (address sockfd : ℕ) → is_writing (new_channel address sockfd) ≡ false
unfolding new_channel
new_idle address sockfd = refl

new_empty : contents (new_buffer k_initial) ≡ []
unfolding new_buffer
new_empty = refl

-- A connection as the constructor leaves it.
pub new_connection-IsSound :
    (et : Bool) (address sockfd : ℕ) → IsSound (new_connection et address sockfd new_poller)
unfolding new_connection
new_connection-IsSound et address sockfd = record {
  input_valid = new_buffer-IsValid k_initial (omega arith);
  output_valid = new_buffer-IsValid k_initial (omega arith);
  attached = new-Attached address sockfd;
  waiting = (new_idle address sockfd, new_empty);
  closed = refl;
}

-- The connection that `connectEstablished` shows to its callback.
module _ (c : Connection) where
  registered : Channel
  registered = if c.et then enable_et (tie c.channel) else tie c.channel

  unfoldable pub opened : Connection
  unfolding registered
  opened = record c {
    state = k_connected;
    channel = (enable_reading registered c.poller).0;
    poller = (enable_reading registered c.poller).1;
    notices = connection_notice k_connected ∷ c.notices;
  }

  registered-Attached : Attached c.channel c.poller → Attached registered c.poller
  unfolding registered
  registered-Attached a = elim (Bool-cases c.et) [
    | inl on ↦
        rw on (enable_et-Attached (tie c.channel) c.poller (tie-Attached c.channel c.poller a))
    | inr off ↦ rw off (tie-Attached c.channel c.poller a)
  ]

  registered-is_writing : is_writing registered ≡ is_writing c.channel
  unfolding registered
  registered-is_writing = elim (Bool-cases c.et) [
    | inl on ↦ rw on (enable_et-is_writing (tie c.channel) ∙ tie-is_writing c.channel)
    | inr off ↦ rw off (tie-is_writing c.channel)
  ]

  pub opened-IsSound : IsSound c → c.state ≡ k_connecting → IsSound opened
  unfolding opened
  opened-IsSound s e =
      let (idle, none_waits) =
        subst (λ st. Waiting st (writing c) (contents c.output)) e s.waiting in
      record {
        input_valid = s.input_valid;
        output_valid = s.output_valid;
        attached = enable_reading-Attached registered c.poller (registered-Attached s.attached);
        waiting =
            is_writing-enable_reading registered c.poller
            ∙ registered-is_writing
            ∙ idle
            ∙ sym (ap (λ l. ltb 0 (length l)) none_waits);
        closed = ground (arith, not_shut c s (ap is_ending e));
      }

-- connectEstablished on a sound connection in the state kConnecting, with a POSIX socket and room
-- for what the connection callback sends, keeps the invariant and accepts exactly what the callback
-- sends before a shutdown.
pub connect_established-IsSound :
    (w : World) (c : Connection)
    → Posix w
    → IsSound c
    → c.state ≡ k_connecting
    → Room w (w.on_connection (length c.notices) k_connected) (opened c)
    → IsSound (connect_established w c)
      × (stream (connect_established w c)
          ≡ stream c ++ accepted (w.on_connection (length c.notices) k_connected))
unfolding connect_established notify_connection opened registered
connect_established-IsSound w c p s e r =
    let q =
      perform-Performed w (w.on_connection (length c.notices) k_connected) (opened c) p
        (opened-IsSound c s e) refl r in
    (q.sound, q.streamed)
