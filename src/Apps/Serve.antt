-- ===== src/Apps/Serve.antt =====
-- A round of `handleRead` (src/net/TcpConnection.cc) under the message callback of an application.
use reactor_chat_server.Common.{
  ℕ, ◌+◌, ◌≤◌, ◌≡◌, ◌≢◌, sym, ap, subst, ◌∙◌, List, [], ◌++◌, Bytes, length,
}
use reactor_chat_server.Buffer.{Buffer, offered}
use reactor_chat_server.Buffer.Invariant.{IsValid, max_size}
use reactor_chat_server.Buffer.Contents.{contents}
use reactor_chat_server.Buffer.Receive.{read_fd-received}
use reactor_chat_server.Connection.{k_connected, World, Connection, Api, arrived, read_round}
use reactor_chat_server.Connection.Invariant.{Posix, IsSound, stream}
use reactor_chat_server.Connection.Perform.{Room, accepted, perform-Performed}
use reactor_chat_server.Connection.Asked.{ends, Left, perform-input, perform-Left}
use reactor_chat_server.Connection.Hear.{
  Polite, Bounded, heard, reply, delivered, delivered-IsSound, read_round-Heard,
}
use reactor_chat_server.Apps.{Application}

-- What a round makes of a connection, by the bytes left over and what was asked.
pub record Served (c : Connection) (left : Bytes) (asked : List Api) (d : Connection) : Type 0 where
  pub sound : IsSound d
  pub streamed : stream d ≡ stream c ++ accepted asked
  pub input : contents d.input ≡ left
  pub state : Left (ends asked) d

module _ (w : World) (app : Application)
    (runs : (i : ℕ) (b : Buffer) → w.on_message i b ≡ app.handle b) where
  pub application-Polite : Polite w
  application-Polite = record {
    keeps = λ i b v. subst (λ r. IsValid r.0) (sym (runs i b)) (app.keeps b v);
  }

  -- Room for what the application answers is room for the round.
  pub application-Bounded :
      (c : Connection) (bytes : Bytes)
      → Posix w
      → IsSound c
      → w.readv c.calls (offered c.input) ≡ arrived bytes
      → length c.input.buf + length bytes ≤ max_size
      → Room w (app.answer (contents c.input ++ bytes)).1 (delivered w c bytes)
      → Bounded w c bytes
  application-Bounded c bytes p s arrives fits room =
      let got = heard w c bytes in
      let (seen, valid) =
        read_fd-received bytes c.input s.input_valid (p.readv_bounded _ _ bytes arrives) fits in
      let asked : (reply w c bytes).1 ≡ (app.answer (contents c.input ++ bytes)).1 =
        ap (λ r. r.1) (runs (length c.notices) got)
        ∙ app.asks got valid
        ∙ ap (λ l. (app.answer l).1) seen in
      record { fits = fits; room = subst (λ l. Room w l (delivered w c bytes)) (sym asked) room }

  -- A round that reads bytes, on a sound connected connection, with a POSIX socket and arrays
  -- within their maximum, serves the application's answer to all the unread bytes.
  pub read_round-Served :
      (c : Connection) (bytes : Bytes)
      → Posix w
      → IsSound c
      → c.state ≡ k_connected
      → w.readv c.calls (offered c.input) ≡ arrived bytes
      → bytes ≢ []
      → Bounded w c bytes
      → let (left, asked) = app.answer (contents c.input ++ bytes) in
        Served c left asked (read_round w c).0
  unfolding delivered
  read_round-Served c bytes p s e arrives some_read b =
      let bounded = λ (bs : Bytes) (h : w.readv c.calls (offered c.input) ≡ arrived bs).
        let same : bytes ≡ bs = cc (sym arrives ∙ h) in subst (Bounded w c) same b in
      let h = read_round-Heard w c p application-Polite s bounded in
      let (seen, out) = h.on_data bytes arrives some_read in
      let got = heard w c bytes in
      let (_, valid) =
        read_fd-received bytes c.input s.input_valid (p.readv_bounded _ _ bytes arrives) b.fits in
      let ran = runs (length c.notices) got in
      let asked : (reply w c bytes).1 ≡ (app.answer (contents c.input ++ bytes)).1 =
        ap (λ r. r.1) ran ∙ app.asks got valid ∙ ap (λ l. (app.answer l).1) seen in
      let left : contents (reply w c bytes).0 ≡ (app.answer (contents c.input ++ bytes)).0 =
        ap (λ r. contents r.0) ran ∙ app.leaves got valid ∙ ap (λ l. (app.answer l).0) seen in
      let sound = delivered-IsSound w c bytes s (application-Polite.keeps _ _ valid) in
      let d = perform-Performed w (reply w c bytes).1 (delivered w c bytes) p sound e b.room in
      let st = perform-Left w (reply w c bytes).1 (delivered w c bytes) p sound e b.room in
      let same = ap (λ r. r.0) out in
      record {
        sound = h.sound;
        streamed = ap stream same ∙ d.streamed ∙ ap (λ l. stream c ++ accepted l) asked;
        input =
            ap (λ (k : Connection). contents k.input) same
            ∙ ap contents (perform-input w (reply w c bytes).1 (delivered w c bytes))
            ∙ left;
        state =
            subst (λ l. Left (ends l) (read_round w c).0) asked
              (subst (Left (ends (reply w c bytes).1)) (sym same) st);
      }
