-- ===== src/Delivery/Carried.antt =====
-- One connection among those that a handler's calls name.
use reactor_chat_server.Common.{
  ◌≡◌, refl, sym, ap, ◌∙◌, subst, Bool, false, List, [], ◌∷◌, ◌==◌, if◌then◌else◌, inl, inr,
  Bool-cases, ==_iff,
}
use reactor_chat_server.Connection.{
  k_connected, World, Connection, Api, sends, shuts, perform, is_connected,
}
use reactor_chat_server.Connection
use reactor_chat_server.Connection.Invariant.{Posix, IsSound}
use reactor_chat_server.Connection.Perform.{Room, Performed, perform-Performed, perform-closed}
use reactor_chat_server.Rooms.{ConnectionId}
use reactor_chat_server.Chat.{Effect, send, shutdown, run_after}
use reactor_chat_server.Delivery.{Network, set_connection, carry_out, calls_on}

-- A call on one connection, seen from another or from itself.
one_call :
    (w : ConnectionId → World) (es : List Effect) (n : Network) (c d : ConnectionId) (a : Api)
    (f : World → Connection → Connection)
    → ((rest : List Api) (k : Connection)
        → perform (w c) (a ∷ rest) k ≡ perform (w c) rest (f (w c) k))
    → carry_out w es (set_connection d (f (w d) (n d)) n) c
      ≡ perform (w c) (calls_on c es) (set_connection d (f (w d) (n d)) n c)
    → carry_out w es (set_connection d (f (w d) (n d)) n) c
      ≡ perform (w c) (if c == d then a ∷ calls_on c es else calls_on c es) (n c)
one_call w es n c d a f does rest = elim (Bool-cases (c == d)) [
  | inl hit ↦
      let same : d ≡ c = sym ((==_iff c d).0 hit) in
      let changed =
        λ (t : Bool). perform (w c) (calls_on c es) (if t then f (w d) (n d) else n c) in
      let asked =
        λ (t : Bool). perform (w c) (if t then a ∷ calls_on c es else calls_on c es) (n c) in
      rest
      ∙ ap changed hit
      ∙ ap (λ (k : ConnectionId). perform (w c) (calls_on c es) (f (w k) (n k))) same
      ∙ sym (ap asked hit ∙ does (calls_on c es) (n c))
  | inr other ↦
      let changed =
        λ (t : Bool). perform (w c) (calls_on c es) (if t then f (w d) (n d) else n c) in
      let asked =
        λ (t : Bool). perform (w c) (if t then a ∷ calls_on c es else calls_on c es) (n c) in
      rest ∙ ap changed other ∙ sym (ap asked other)
]

-- What happens to a connection is what the calls that name it do.
pub carry_out-perform :
    (w : ConnectionId → World) (es : List Effect) (n : Network) (c : ConnectionId)
    → carry_out w es n c ≡ perform (w c) (calls_on c es) (n c)
unfolding carry_out perform
carry_out-perform w [] n c = refl
carry_out-perform w (send d msg ∷ es) n c =
    one_call w es n c d (sends msg) (λ u. Connection.send u msg) (λ rest k. refl)
      (carry_out-perform w es (set_connection d (Connection.send (w d) msg (n d)) n) c)
carry_out-perform w (shutdown d ∷ es) n c =
    one_call w es n c d shuts (λ u. Connection.shutdown) (λ rest k. refl)
      (carry_out-perform w es (set_connection d (Connection.shutdown (n d)) n) c)
carry_out-perform w (run_after d ticks ∷ es) n c = carry_out-perform w es n c

-- A connected connection takes what is sent to it before it is shut down.
pub carry_out-Performed :
    (w : ConnectionId → World) (es : List Effect) (n : Network) (c : ConnectionId)
    → Posix (w c)
    → IsSound (n c)
    → (n c).state ≡ k_connected
    → Room (w c) (calls_on c es) (n c)
    → Performed (calls_on c es) (n c) (carry_out w es n c)
carry_out-Performed w es n c p s e r =
    subst (Performed (calls_on c es) (n c)) (sym (carry_out-perform w es n c))
      (perform-Performed (w c) (calls_on c es) (n c) p s e r)

-- Any other takes nothing.
pub carry_out-closed :
    (w : ConnectionId → World) (es : List Effect) (n : Network) (c : ConnectionId)
    → is_connected (n c).state ≡ false
    → carry_out w es n c ≡ n c
carry_out-closed w es n c off =
    carry_out-perform w es n c ∙ perform-closed (w c) (calls_on c es) (n c) off
