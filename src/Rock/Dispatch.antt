-- ===== src/Rock/Dispatch.antt =====
-- rockfmw/rpc_abstract.go, rpc_json.go and rpc_http_client.go: one request, over HTTP or websocket, and
-- the client's call. The JSON codecs, the texts of errors and the transport are arguments.
pub mod Calls
pub mod Panics
pub mod Tests
use hggutils.Common.{
  ℕ, Bool, true, false, List, [], ◌∷◌, ◌++◌, map, Option, none, some, ◌==◌, eqb, length,
  if◌then◌else◌,
}
use hggutils.Common.Text.{Text, codes, text_key, split}
use hggutils.Common.Dict.{Dict, find}
use hggutils.Rpc.Message.{
  Raw, Fault, plain, finding_method, reading_params, params_miss, ill_formed, Result, ok, err,
  Value, nil_value,
}
use hggutils.Rock.Registry.{ArgType, Ran, Service, ServiceMethod, ServiceMap, get}

pub record ServerRequest : Type 0 where
  pub method : Text
  pub id : Text
  pub params : Option Raw

-- RPCRsp
pub record RpcRsp : Type 0 where
  pub id : Text
  pub msg : Text
  pub payload : Value

pub data HttpEffect : Type 0 where
  -- the status and the text of writeError
  write_error : ℕ → Text → HttpEffect
  write_response : RpcRsp → HttpEffect
  crash : HttpEffect

pub data WsEffect : Type 0 where
  write_msg : Text → WsEffect
  write_json : RpcRsp → WsEffect
  -- the call of a handler that is registered for the method
  special : ServerRequest → WsEffect
  crash : WsEffect

-- WSMethodHandle, by the error that it returns
abbrev pub WsMethodHandle : Type 0
WsMethodHandle = ServerRequest → Option Fault

abbrev failed : Fault → Ran
failed f = record { done_calls = (nil_value, some f) ∷ []; panicked = false }

-- get on the services of a server, which are nil in an RPCHTTPServer that no constructor of the package has
-- made: the mutex of nil is a panic (none), for every name of two parts.
unfoldable pub get_from : Option ServiceMap → Text → Option (Result (Service × ServiceMethod))
unfolding get
get_from (some services) dotted = some (get services dotted)
get_from none dotted =
    if eqb (length (split b'.' dotted)) 2 then none else some (err (ill_formed dotted))

module _ (decode_args : ArgType → Raw → Result Value) where
  -- ServerRequest.ReadRequest
  unfoldable pub read_request : ArgType → ServerRequest → Result Value
  read_request t req = elim req.params [ none ↦ err params_miss | some raw ↦ decode_args t raw ]

  abbrev call_found : Service → ServiceMethod → ServerRequest → Ran
  call_found s m req = elim (read_request m.args_type req) [
    | err f ↦ failed (reading_params f)
    | ok args ↦ m.method.body s.rcvr args
  ]

  abbrev pub call_got : ServerRequest → Option (Result (Service × ServiceMethod)) → Ran
  call_got req none = record { done_calls = []; panicked = true }
  call_got req (some (err f)) = failed (finding_method f)
  call_got req (some (ok (s, m))) = call_found s m req

  -- callRPC
  unfoldable pub call_rpc : Option ServiceMap → ServerRequest → Ran
  unfolding read_request get_from
  call_rpc services req = call_got req (get_from services req.method)

module _ (text_of : Fault → Text) where
  -- What done makes of its arguments.
  unfoldable pub response_to : Text → Value × Option Fault → RpcRsp
  response_to id (v, e) = record {
    id = id;
    msg = elim e [ none ↦ [] | some f ↦ text_of f ];
    payload = v;
  }

  abbrev http_ran : Text → Ran → List HttpEffect
  http_ran id ran =
      map (λ d. write_response (response_to id d)) ran.done_calls
      ++ (if ran.panicked then crash ∷ [] else [])

  abbrev pub ws_ran : Text → Ran → List WsEffect
  ws_ran id ran =
      map (λ d. write_json (response_to id d)) ran.done_calls
      ++ (if ran.panicked then crash ∷ [] else [])

  abbrev bad_request : Fault → List HttpEffect
  bad_request f = write_error 400 (codes "rpc: ioutil.ReadAll " ++ text_of f) ∷ []

  module _ (decode_args : ArgType → Raw → Result Value)
      (decode_request : Raw → Result ServerRequest) (services : Option ServiceMap) where
    -- From the splitting of the path on; on another number of parts the code dereferences a nil error.
    unfoldable pub route : ServerRequest → List Text → List HttpEffect
    unfolding call_rpc response_to
    route req (_ ∷ server ∷ method ∷ []) =
        http_ran req.id
          (call_rpc decode_args services (record req { method = server ++ b'.' ∷ method }))
    route req _ = crash ∷ []

    -- HTTPHandler
    unfoldable pub http_handler : Text → Text → Result Raw → List HttpEffect
    unfolding route
    http_handler method path body =
        if method == codes "POST"
        then elim body [
          | err f ↦ bad_request f
          | ok msg ↦ elim (decode_request msg) [
            | err f ↦ bad_request f
            | ok req ↦ route req (split b'/' path)
          ]
        ]
        else write_error 405 (codes "rpc: POST method required, received " ++ method) ∷ []

    abbrev run_rpc : ServerRequest → List WsEffect × Option Fault
    run_rpc req = (ws_ran req.id (call_rpc decode_args services req), none)

    -- From the lookup of the handler on; a nil handler counts as none.
    unfoldable pub handle_message :
        Dict Text (Option WsMethodHandle) → ServerRequest → List WsEffect × Option Fault
    unfolding call_rpc response_to
    handle_message mct req = elim (find req.method mct) [
      | none ↦ run_rpc req
      | some none ↦ run_rpc req
      | some (some f) ↦ (special req ∷ [], f req)
    ]

    -- OnMessage: its effects, and the error that it returns
    unfoldable pub on_message :
        Dict Text (Option WsMethodHandle) → Raw → List WsEffect × Option Fault
    unfolding handle_message
    on_message mct msg = elim (decode_request msg) [
      | err f ↦ (write_msg (text_of f) ∷ [], none)
      | ok req ↦ handle_message mct req
    ]

-- strings.Join(vs, "/")
unfoldable pub join : List Text → Text
join [] = []
join (p ∷ []) = p
join (p ∷ q ∷ ps) = p ++ b'/' ∷ join (q ∷ ps)

-- The path of Call
unfoldable pub call_path : Text → Text
unfolding join
call_path method = b'/' ∷ join (split b'.' method)

abbrev read_response : RpcRsp → Result Value
read_response out = if out.msg == [] then ok out.payload else err (plain out.msg)

module _ (encode_params : Value → Raw) (decode_response : Raw → Result RpcRsp)
    (transport : Text → Raw → Result (ℕ × Result Raw)) where
  -- Call, with the reply as its result
  unfoldable pub client_call : Text → Value → Result Value
  unfolding call_path
  client_call method arg = elim (transport (call_path method) (encode_params arg)) [
    | err f ↦ err f
    | ok (status, body) ↦ elim body [
      | err f ↦ err f
      | ok msg ↦
          if eqb status 200
          then elim (decode_response msg) [ err f ↦ err f | ok out ↦ read_response out ]
          else err (plain msg)
    ]
  ]
