-- ===== src/Connection/Events.antt =====
-- `handleClose` and `connectDestroyed` of src/net/TcpConnection.cc.
use reactor_chat_server.Common.{
  ◌≡◌, refl, sym, ap, subst, false, ◌∷◌, arith, inl, inr, Bool-cases, if◌then◌else◌,
}
use reactor_chat_server.Channel.{disable_all}
use reactor_chat_server.Channel.Events.{
  is_writing-disable_all, disable_all-Attached, remove_channel-Attached, is_writing-remove_channel,
}
use reactor_chat_server.Connection.{
  k_disconnected, World, Connection, writing, connection_notice, close_notice, notify_connection,
  handle_close, connect_destroyed, is_connected, disconnect, unregister,
}
use reactor_chat_server.Connection.Invariant.{stream, IsSound}
use reactor_chat_server.Connection.Perform.{perform-closed}

-- A close, from whatever state: the connection ends disconnected and waits for nothing, the owner
-- is told of it and then asked to remove the connection, and what the callback asks is ignored.
pub record Closed (c d : Connection) : Type 0 where
  pub state : d.state ≡ k_disconnected
  pub idle : writing d ≡ false
  pub notices : d.notices ≡ close_notice ∷ connection_notice k_disconnected ∷ c.notices
  pub streamed : stream d ≡ stream c
  pub sent : d.sent ≡ c.sent
  pub shut : d.shut ≡ c.shut

-- The connection without interest in events, when its owner has been told.
pub record Gone (c d : Connection) : Type 0 where
  pub sound : IsSound c → IsSound d
  pub state : d.state ≡ k_disconnected
  pub idle : writing d ≡ false
  pub notices : d.notices ≡ connection_notice k_disconnected ∷ c.notices
  pub streamed : stream d ≡ stream c
  pub sent : d.sent ≡ c.sent
  pub shut : d.shut ≡ c.shut

module _ (w : World) (c : Connection) where
  told : Connection
  told = record c {
    state = k_disconnected;
    channel = (disable_all c.channel c.poller).0;
    poller = (disable_all c.channel c.poller).1;
    notices = connection_notice k_disconnected ∷ c.notices;
  }

  told-IsSound : IsSound c → IsSound told
  unfolding told
  told-IsSound s = record {
    input_valid = s.input_valid;
    output_valid = s.output_valid;
    attached = disable_all-Attached c.channel c.poller s.attached;
    waiting = is_writing-disable_all c.channel c.poller;
    closed = ground (arith, is_writing-disable_all c.channel c.poller);
  }

  pub disconnect-Gone : Gone c (disconnect w c)
  unfolding disconnect notify_connection told
  disconnect-Gone = subst (Gone c) (sym (perform-closed w _ told refl)) (record {
    sound = told-IsSound;
    state = refl;
    idle = is_writing-disable_all c.channel c.poller;
    notices = refl;
    streamed = refl;
    sent = refl;
    shut = refl;
  })

  -- handleClose on a sound connection keeps the invariant, leaves it disconnected and waiting for
  -- nothing, notifies the connection callback and then the close callback, sends nothing, accepts
  -- nothing, and shuts nothing, whatever the callback asks.
  pub handle_close-Closed : IsSound c → IsSound (handle_close w c) × Closed c (handle_close w c)
  unfolding handle_close
  handle_close-Closed s =
      let g = disconnect-Gone in
      let t = g.sound s in
      (
        record {
          input_valid = t.input_valid;
          output_valid = t.output_valid;
          attached = t.attached;
          waiting = t.waiting;
          closed = t.closed;
        },
        record {
          state = g.state;
          idle = g.idle;
          notices = ap (λ l. close_notice ∷ l) g.notices;
          streamed = g.streamed;
          sent = g.sent;
          shut = g.shut;
        },
      )

-- `channel_->remove()` leaves all but the channel and the poller.
pub unregister-IsSound : (c : Connection) → IsSound c → IsSound (unregister c)
unfolding unregister
unregister-IsSound c s = record {
  input_valid = s.input_valid;
  output_valid = s.output_valid;
  attached = remove_channel-Attached c.channel c.poller s.attached;
  waiting = rw (is_writing-remove_channel c.channel c.poller) s.waiting;
  closed = rw (is_writing-remove_channel c.channel c.poller) s.closed;
}

-- connectDestroyed on a sound connection keeps the invariant, leaves it not connected, sends,
-- accepts and shuts nothing, and notifies the connection callback once exactly if the connection
-- was still connected.
pub connect_destroyed-IsSound :
    (w : World) (c : Connection)
    → IsSound c
    → IsSound (connect_destroyed w c)
      × (is_connected (connect_destroyed w c).state ≡ false)
      × ((connect_destroyed w c).sent ≡ c.sent)
      × ((connect_destroyed w c).shut ≡ c.shut)
      × (stream (connect_destroyed w c) ≡ stream c)
      × ((connect_destroyed w c).notices ≡ (
          if is_connected c.state then connection_notice k_disconnected ∷ c.notices else c.notices))
unfolding connect_destroyed unregister
connect_destroyed-IsSound w c s = elim (Bool-cases (is_connected c.state)) [
  | inl on ↦
      let g = disconnect-Gone w c in
      rw on (
        unregister-IsSound (disconnect w c) (g.sound s),
        ap is_connected g.state,
        g.sent,
        g.shut,
        g.streamed,
        g.notices,
      )
  | inr off ↦ rw off (unregister-IsSound c s, off, refl, refl, refl, refl)
]
