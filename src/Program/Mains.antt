-- ===== src/Program/Mains.antt =====
-- src/goa_server.cpp and src/goa_client.cpp: the two mains, `SayHelloHandler::Request` and the
-- other methods of the credentials. ggrpc, gRPC and the generated stubs are not in the repository,
-- so a main is the calls that it makes of them, in order.
use grpc_over_ayame.Base.{ℕ, Option, none, List, [], ◌∷◌, Bytes, codes}
use grpc_over_ayame.Stream.{Action}
use grpc_over_ayame.Program.{Program, create_channel_with_interceptors}

-- Credentials, by the class that implements them.
pub data Credentials : Type 0 where
  ayame_server_credentials ayame_channel_credentials : Credentials

-- A completion queue or a tag is the number that gRPC hands to `Request`.
pub data Call : Type 0 where
  add_listening_port : Bytes → Credentials → Call
  register_service add_response_writer_handler : Call
  -- `server.Start(builder, threads)` and `server.Wait()`.
  start_server : ℕ → Call
  wait : Call
  -- `service_->RequestSayHello(context, request, writer, cq, cq, tag)`.
  request_say_hello : (new_call_cq notification_cq tag : ℕ) → Call
  -- `ClientManager(threads)` and `Start()`.
  client_manager : ℕ → Call
  start_manager : Call
  create_channel : Bytes → Credentials → Call
  new_stub create_response_reader set_on_finish : Call
  -- `client->Connect(req)`, with the request's name.
  connect : Bytes → Call
  sleep_for_seconds : ℕ → Call

-- `AyameServerCredentials()` and `AyameChannelCredentials()`.
abbrev pub server_credentials : Credentials
server_credentials = ayame_server_credentials

abbrev pub channel_credentials : Credentials
channel_credentials = ayame_channel_credentials

abbrev signaling_url : Bytes
signaling_url = codes "wss://ayame-lite.shiguredo.jp/signaling"

-- The main of the server.
abbrev pub server_main : List Call
server_main =
    add_listening_port signaling_url server_credentials
    ∷ register_service
    ∷ add_response_writer_handler
    ∷ start_server 1
    ∷ wait
    ∷ []

-- `SayHelloHandler::Request`: one queue serves for both.
abbrev pub request : ℕ → ℕ → List Call
request cq tag = request_say_hello cq cq tag ∷ []

-- `AsSecureCredentials`, which gives null.
unfoldable pub as_secure_credentials : Option Credentials
as_secure_credentials = none

-- `CreateChannelImpl(target, args)`.
unfoldable pub create_channel_impl : Bytes → Action Program
create_channel_impl target = create_channel_with_interceptors target

-- The main of the client.
abbrev pub client_main : List Call
client_main =
    client_manager 1
    ∷ start_manager
    ∷ create_channel signaling_url channel_credentials
    ∷ new_stub
    ∷ create_response_reader
    ∷ set_on_finish
    ∷ connect (codes "melpon")
    ∷ sleep_for_seconds 1
    ∷ []
