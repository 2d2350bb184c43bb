-- ===== src/Apps.antt =====
-- The programs of examples/ that serve one connection at a time, as message callbacks of
-- src/net/TcpConnection.h: an interface for such a callback, and its clients.
pub mod Serve
pub mod Echo
pub mod Http
use reactor_chat_server.Common.{◌≡◌, List, Bytes}
use reactor_chat_server.Buffer.{Buffer}
use reactor_chat_server.Buffer.Invariant.{IsValid}
use reactor_chat_server.Buffer.Contents.{contents}
use reactor_chat_server.Connection.{Api}

-- A message callback that looks at the readable bytes only: `handle` is the code, and `answer` says
-- what it makes of those bytes, the bytes that it leaves and what it asks of the connection.
pub record Application : Type 0 where
  pub handle : Buffer → Buffer × List Api
  pub answer : Bytes → Bytes × List Api
  pub keeps : (b : Buffer) → IsValid b → IsValid (handle b).0
  pub leaves : (b : Buffer) → IsValid b → contents (handle b).0 ≡ (answer (contents b)).0
  pub asks : (b : Buffer) → IsValid b → (handle b).1 ≡ (answer (contents b)).1
