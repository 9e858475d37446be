-- ===== src/Rock/Serving/Tests.antt =====
-- Servers of rockfmw with their routes, and a message of a client, at concrete inputs.
use hggutils.Common.{
  List, List, inr, some, ◌≡◌, refl, Bool, true, false, [], ◌∷◌, none, some, ◌==◌, if◌then◌else◌,
}
use hggutils.Common.Text.{Text, codes, text_key, text_beq, text_beq_iff, to_lower}
use hggutils.Common.Dict.{find}
use hggutils.Common.Int.{pos}
use hggutils.Rpc.Message.{Raw, plain, Result, ok, err, Value, json_value}
use hggutils.Rock.Registry.{suitable, is_exported, is_exported_or_builtin, service_name}
use hggutils.Rock.Dispatch.{
  ServerRequest, HttpEffect, http_handler, write_json, response_to, on_message,
}
use hggutils.Rock.Dispatch.Tests.{
  echo, echo_service, receiver, demo, lacks-Lacks, decode_args, no_text, registers_demo,
  no_services-NeverPanics, no_services,
}
use hggutils.Rock.Serving.{
  register_http, Server, new_server, register_service, service_pattern, ws_pattern, serve_ws,
  upgraded, WsClient, new_ws_client, run, send,
}
use hggutils.Rock.Serving.Routes.{IsRouter, serve-crashes}
use hggutils.Rock.Dispatch.Panics.{crashes}
use hggutils.Rock.Serving.Sends.{send-register}

-- A router with one path for the pattern of services
abbrev matches : Text → Text → Bool
matches pattern path =
    if pattern == codes "/ws" then path == codes "/ws" else path == codes "/demo/Echo"

abbrev decode_message : Raw → Result ServerRequest
decode_message (c ∷ raw) =
    ok (record { method = codes "demo.Echo"; id = codes "1"; params = some raw })
decode_message [] = err (plain (codes "unexpected end of JSON input"))

matches-IsRouter : IsRouter matches
unfolding service_pattern text_beq
matches-IsRouter path h = (
  codes "demo",
  codes "Echo",
  (text_beq_iff path (codes "/demo/Echo")).0 h,
  lacks-Lacks b'/' (codes "demo") refl,
  lacks-Lacks b'/' (codes "Echo") refl,
)

abbrev routed : List HttpEffect
routed =
    http_handler no_text decode_args decode_message (some no_services) (codes "POST")
      (codes "/demo/Echo") (ok (1 ∷ 7 ∷ []))

serve-crashes_example : crashes routed ≡ false
unfolding new_server serve_ws service_pattern text_beq
serve-crashes_example =
    serve-crashes matches no_text decode_args decode_message new_server (codes "POST")
      (codes "/demo/Echo") (ok (1 ∷ 7 ∷ [])) routed matches-IsRouter no_services-NeverPanics
      (inr refl)

-- RegisterService of a server with no services panics at its first method.
nil_register_run : register_http none receiver (codes "demo") ≡ none
unfolding register_http
nil_register_run = rw (registers_demo, register_http) refl

upgraded_run :
    serve_ws matches no_text decode_args decode_message new_server
      (codes "GET")
      (codes "/ws")
      (ok [])
    ≡ upgraded
unfolding serve_ws service_pattern ws_pattern text_beq
upgraded_run = refl

abbrev demo_server : Server
demo_server = record {
  services = demo;
  mct = [];
  alive_time = pos 0;
  has_open_handle = false;
  has_close_handle = false;
  conns = [];
}

registered : register_service new_server receiver (codes "demo") ≡ ok demo_server
unfolding register_service new_server
registered = rw (registers_demo, register_service) refl

abbrev message_of : Text → Value → Raw
message_of method (json_value raw) = 1 ∷ raw
message_of method _ = []

abbrev client : WsClient
client = record { url = codes "ws://demo/ws"; connected = true }

-- A client that has not run has no connection to write to.
unconnected :
    send message_of (new_ws_client (codes "ws://demo/ws")) (codes "demo.Echo") (json_value [])
    ≡ none
unfolding send new_ws_client
unconnected = refl

send-register_example :
    (msg : Raw) × (send message_of client (codes "demo.Echo") (json_value (7 ∷ [])) ≡ some msg)
    × (on_message no_text decode_args decode_message (some demo) [] msg
        ≡ (write_json (response_to no_text (codes "1") (json_value (7 ∷ []), none)) ∷ [], none))
unfolding run new_ws_client service_name suitable is_exported is_exported_or_builtin text_beq
    to_lower find
send-register_example =
    send-register no_text decode_args decode_message message_of client (codes "ws://demo/ws")
      new_server demo_server receiver (codes "demo") (codes "demo") (codes "Echo") [] [] echo
      echo_service (json_value (7 ∷ [])) (json_value (7 ∷ [])) (json_value (7 ∷ [])) none
      (record { method = codes "demo.Echo"; id = codes "1"; params = some (7 ∷ []) }) (7 ∷ []) refl
      refl registered refl refl tt refl (lacks-Lacks b'.' (codes "demo") refl)
      (lacks-Lacks b'.' (codes "Echo") refl) refl refl refl refl refl refl
