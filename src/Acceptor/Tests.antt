-- ===== src/Acceptor/Tests.antt =====
-- src/net/Acceptor.cc with two connections waiting.
use reactor_chat_server.Common.{ℕ, zero, suc, refl, [], ◌∷◌, Option, none, some}
use reactor_chat_server.Acceptor.Drain.{Brings, nothing, another}

-- Two descriptors, and then nothing yet.
abbrev pub two : ℕ → Option ℕ
two zero = some 7
two (suc zero) = some 8
two (suc (suc n)) = none

pub two-Brings : Brings two 0 (7 ∷ 8 ∷ [])
two-Brings = another 7 refl (another 8 refl (nothing refl))
