-- ===== src/Rock/Serving.antt =====
-- rockfmw/rpc_ws_server.go, rpc_abstract.go and rpc_ws_client.go: the servers with their settings and
-- their routes, and the client over a websocket. The router's match of a pattern is an argument.
pub mod Routes
pub mod Sends
pub mod Tests
use hggutils.Common.{ℕ, Bool, true, false, List, [], ◌∷◌, ◌++◌, Option, none, some, if◌then◌else◌}
use hggutils.Common.Int.{ℤ, pos}
use hggutils.Common.Text.{Text, codes, text_key}
use hggutils.Common.Dict.{Dict, put}
use hggutils.Rpc.Message.{Raw, Fault, Result, ok, err, Value}
use hggutils.Rock.Registry.{ArgType, Receiver, ServiceMap, register}
use hggutils.Rock.Dispatch.{
  ServerRequest, HttpEffect, WsMethodHandle, WsEffect, http_handler, on_message,
}

-- RPCWServer as NewRPCWServer makes it, with what it takes from rpcWSAbstract and RPCHTTPServer; a handler of openings or
-- closings is there or not.
pub record Server : Type 0 where
  pub services : ServiceMap
  pub mct : Dict Text (Option WsMethodHandle)
  pub alive_time : ℤ
  pub has_open_handle : Bool
  pub has_close_handle : Bool
  pub conns : Dict ℕ Bool

-- NewRPCWServer
unfoldable pub new_server : Server
new_server = record {
  services = [];
  mct = [];
  alive_time = pos 0;
  has_open_handle = false;
  has_close_handle = false;
  conns = [];
}

unfoldable pub set_alive_time : Server → ℤ → Server
set_alive_time s ms = record s { alive_time = ms }

unfoldable pub set_open_handle : Server → Bool → Server
set_open_handle s is_given = record s { has_open_handle = is_given }

unfoldable pub set_close_handle : Server → Bool → Server
set_close_handle s is_given = record s { has_close_handle = is_given }

-- RegisterWsHandler
unfoldable pub register_ws_handler : Server → Text → Option WsMethodHandle → Server
register_ws_handler s method f = record s { mct = put method f s.mct }

-- RegisterService
unfoldable pub register_service : Server → Receiver → Text → Result Server
register_service s receiver name = elim (register s.services receiver name) [
  | err f ↦ err f
  | ok services ↦ ok (record s { services = services })
]

-- RegisterService of an RPCHTTPServer, by its services: where they are nil, register panics (none) once it
-- has found a name and a method.
unfoldable pub register_http : Option ServiceMap → Receiver → Text → Option (Result ServiceMap)
register_http (some services) receiver name = some (register services receiver name)
register_http none receiver name = elim (register [] receiver name) [
  | err f ↦ some (err f)
  | ok _ ↦ none
]

-- The routes of ListenAndServe, in their order
unfoldable pub service_pattern : Text
service_pattern = codes "/{server:[a-zA-Z0-9]+}/{method:[a-zA-Z0-9]+}"

unfoldable pub ws_pattern : Text
ws_pattern = codes "/ws"

-- What a request leads to: HTTPHandler, websocketHandler, or the router's own answer
pub data Routed : Type 0 where
  handled : List HttpEffect → Routed
  upgraded not_found : Routed

module _ (matches : Text → Text → Bool) (text_of : Fault → Text)
    (decode_args : ArgType → Raw → Result Value) (decode_request : Raw → Result ServerRequest) where
  -- The handler that ListenAndServe of an RPCWServer gives to the HTTP server
  unfoldable pub serve_ws : Server → Text → Text → Result Raw → Routed
  unfolding service_pattern ws_pattern
  serve_ws s method path body =
      if matches service_pattern path
      then handled
          (http_handler text_of decode_args decode_request (some s.services) method path body)
      else if matches ws_pattern path
      then upgraded
      else not_found

  -- That of an RPCHTTPServer, by its services
  unfoldable pub serve_http : Option ServiceMap → Text → Text → Result Raw → Routed
  unfolding service_pattern
  serve_http services method path body =
      if matches service_pattern path
      then handled (http_handler text_of decode_args decode_request services method path body)
      else not_found

-- RPCWSClient: its address and whether Run has connected it
pub record WsClient : Type 0 where
  pub url : Text
  pub connected : Bool

unfoldable pub new_ws_client : Text → WsClient
new_ws_client url = record { url = url; connected = false }

-- Run, by the outcome of the dial
unfoldable pub run : WsClient → Option Fault → Result WsClient
run c (some f) = err f
run c none = ok (record c { connected = true })

-- Send: the text that is written to the connection; on a client that Run has not connected the
-- connection is nil, and the call panics.
unfoldable pub send : (Text → Value → Raw) → WsClient → Text → Value → Option Raw
send encode_message c method params =
    if c.connected then some (encode_message method params) else none
