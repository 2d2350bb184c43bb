-- ===== src/Apps/Echo.antt =====
-- examples/echo_server.cc: what comes in goes out.
pub mod Stream
mod Tests
use reactor_chat_server.Common.{◌≡◌, ap, List, [], ◌∷◌, Bytes}
use reactor_chat_server.Buffer.{Buffer, retrieve_all_as_string}
use reactor_chat_server.Buffer.Invariant.{IsValid}
use reactor_chat_server.Buffer.Contents.{
  contents, retrieve_all_as_string_lem, retrieve_all_as_string-IsValid,
}
use reactor_chat_server.Connection.{Api, sends}
use reactor_chat_server.Apps.{Application}

-- The message callback.
pub echo : Buffer → Buffer × List Api
echo buf = let (text, buf') = retrieve_all_as_string buf in (buf', sends text ∷ [])

pub echo_application : Application
unfolding echo
echo_application = record {
  handle = echo;
  answer = λ bytes. ([], sends bytes ∷ []);
  keeps = retrieve_all_as_string-IsValid;
  leaves = λ b v. (retrieve_all_as_string_lem b v).1;
  asks = λ b v. ap (λ t. sends t ∷ []) (retrieve_all_as_string_lem b v).0;
}
