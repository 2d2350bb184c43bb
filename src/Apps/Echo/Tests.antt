-- ===== src/Apps/Echo/Tests.antt =====
-- examples/echo_server.cc at a concrete socket.
use reactor_chat_server.Common.{◌≡◌, refl, [], ◌∷◌, ◌++◌, Bytes, arith}
use reactor_chat_server.Buffer.{new_buffer, offered, writable_bytes}
use reactor_chat_server.Buffer.Contents.{contents}
use reactor_chat_server.Connection.{World, arrived, wrote, new_connection, read_round}
use reactor_chat_server.Connection.Invariant.{Posix}
use reactor_chat_server.Connection.Hear.{Bounded, delivered}
use reactor_chat_server.Connection.Tests.Scene.{
  one_byte, one_byte_bounded, first, take_bounded, plain, plain-IsSound,
}
use reactor_chat_server.Apps.Serve.{application-Bounded}
use reactor_chat_server.Apps.Echo.{echo, echo_application}
use reactor_chat_server.Apps.Echo.Stream.{unfed, fed, Echoed, Fed-Echoed}

-- A peer that sends one byte at every call.
abbrev peer : World
peer = record {
  write = λ i bs. wrote (one_byte bs);
  readv = λ i room. arrived (first room);
  on_connection = λ i st. [];
  on_message = λ i b. echo b;
}

peer-Posix : Posix peer
peer-Posix = record {
  write_bounded = λ i bs n e. one_byte_bounded bs n e;
  readv_bounded = λ i room bs e. take_bounded room bs e;
}

abbrev letter : Bytes
letter = b'x' ∷ []

arrives : peer.readv plain.calls (offered plain.input) ≡ arrived letter
unfolding new_connection new_buffer offered writable_bytes
arrives = refl

letter-Bounded : Bounded peer plain letter
unfolding echo_application new_connection new_buffer delivered
letter-Bounded =
    application-Bounded peer echo_application (λ i b. refl) plain letter peer-Posix plain-IsSound
      arrives (omega arith) (omega arith, tt)

plain-empty : contents plain.input ≡ []
unfolding new_connection new_buffer
plain-empty = refl

Fed-Echoed_example : Echoed plain ([] ++ letter) (read_round peer plain).0
Fed-Echoed_example =
    Fed-Echoed peer (λ i b. refl) peer-Posix plain-IsSound refl plain-empty
      (fed letter unfed arrives (λ e. cc) letter-Bounded)
