-- ===== src/Rpc/Server/Tests.antt =====
-- Runs of the server at concrete requests, and its theorems at them.
use hggutils.Common.{
  inr, zero, suc, if◌then◌else◌, ap, is_some, Option-cases, ℕ, ◌≡◌, refl, subst, inl, ◌↔◌, Bool,
  true, false, List, [], ◌∷◌, Option, none, some, arith, length,
}
use Prim.Native.String.{String}
use hggutils.Common.Int.{pos, negsuc}
use hggutils.Common.Text.{codes, text_beq, to_lower, contains}
use hggutils.Common.Dict.{find, put, delete}
use hggutils.Rpc.Message.{
  err, Result, Response, RespError, Raw, plain, rpc_error_text, method_not_found, ok, version,
  Value, nil_value, chan_value, context_value, receiver_value, json_value, Request, error_text,
  GoType, error_type, context_type, chan_type, named, type_beq,
}
use hggutils.Rpc.Server.{
  returned, RpcHandler, RpcServer, ParamDecoder, Effect, write, header, stat, finish, invoke,
  register_chan, invalid_method, rpc_error, ChanOut, error_response, resolve, is_out_chan, handle,
  handle_found, handle_params, call_method, decode_params, decode_param, do_call, respond,
}
use hggutils.Rpc.Conn.{ClientResponse}
use hggutils.Rpc.Client.{CallRequest}
use hggutils.Rpc.Client.Http.{http_request, body_of, Carries, ReadsBack, http_request-answered}
use hggutils.Rpc.Server.Answers.{IsExclusive}
use hggutils.Rpc.Server.Effects.{responses, finishes, crashes, rpc_error-IsErrFunc}
use hggutils.Rpc.Server.Register.{
  Method, new_server, register, IsTyped, FitsAll, Built, made, registers,
}
use hggutils.Rpc.Server.Answers.{Answered}
use hggutils.Rpc.Server.Safety.{handle-safe, handle-answers}
use hggutils.Rpc.Server.Calls.{Reaches}
use hggutils.Rpc.Server.Outcomes.{handle-finishes}
use hggutils.Rpc.Server.Http.{
  Body, RequestDecoder, http_error, handle_reader, serve_http, websocket, handle_reader_limit,
}

abbrev pub decode_all : GoType → ParamDecoder
decode_all t p = ok (json_value p)

-- func (r) Add(a, b int) (int, error)
abbrev add_method : Method
add_method = record {
  name = codes "Add";
  func = record {
    typ = record {
      ins = named (codes "T") ∷ named (codes "int") ∷ named (codes "int") ∷ [];
      outs = named (codes "int") ∷ error_type ∷ [];
    };
    body = λ args. returned (json_value (7 ∷ []) ∷ nil_value ∷ []);
  };
}

-- func (r) Watch(ctx) (chan int, error)
abbrev watch_method : Method
watch_method = record {
  name = codes "Watch";
  func = record {
    typ = record {
      ins = named (codes "T") ∷ context_type ∷ [];
      outs = chan_type (named (codes "int")) ∷ error_type ∷ [];
    };
    body = λ args. returned (chan_value 4 ∷ nil_value ∷ []);
  };
}

abbrev or_else : Option RpcServer → RpcServer → RpcServer
or_else (some s) t = s
or_else none t = t

abbrev empty_server : RpcServer
empty_server = new_server [] (pos 8)

abbrev pub demo : RpcServer
demo =
    or_else
      (register empty_server (codes "Demo") (receiver_value 0) (add_method ∷ watch_method ∷ []))
      empty_server

add_method-IsTyped : IsTyped add_method.func
add_method-IsTyped args outs e =
    let same : (json_value (7 ∷ []) ∷ nil_value ∷ []) ≡ outs = cc e in
    subst (FitsAll add_method.func.typ.outs) same (tt, (inl refl, tt))

watch_method-IsTyped : IsTyped watch_method.func
watch_method-IsTyped args outs e =
    let same : (chan_value 4 ∷ nil_value ∷ []) ≡ outs = cc e in
    subst (FitsAll watch_method.func.typ.outs) same (tt, (inl refl, tt))

demo_registers :
    register empty_server (codes "Demo") (receiver_value 0) (add_method ∷ watch_method ∷ [])
    ≡ some demo
unfolding register new_server put delete type_beq text_beq
demo_registers = refl

demo-Built : Built demo
demo-Built =
    registers (codes "Demo") (receiver_value 0) (add_method ∷ watch_method ∷ []) (made [] (pos 8))
      (add_method-IsTyped, (watch_method-IsTyped, tt)) demo_registers

abbrev ask : String → Option ℕ → List Raw → Request
ask method id params = record {
  jsonrpc = version;
  id = id;
  method = codes method;
  params = params;
  meta = none;
}

abbrev add_request : Request
add_request = ask "Demo.Add" (some 5) ((1 ∷ []) ∷ (2 ∷ []) ∷ [])

abbrev pub watch_request : Request
watch_request = ask "Demo.Watch" (some 6) []

-- The forwarder that accepts every channel.
abbrev pub accepting : Option ChanOut
accepting = some (λ v i. none)

abbrev run : Request → List Effect
run req = handle decode_all demo (context_value 1) req rpc_error accepting

-- The definitions that a run goes through.
unfoldable pub server_run : Unit {0}
unfolding register new_server put delete type_beq text_beq find handle handle_found handle_params
    call_method decode_params decode_param do_call respond resolve rpc_error
server_run = tt

add_runs :
    run add_request
    ≡ invoke (codes "Demo.Add") (receiver_value 0 ∷ json_value (1 ∷ []) ∷ json_value (2 ∷ []) ∷ [])
      ∷ write
          (record { jsonrpc = version; result = some (json_value (7 ∷ [])); id = 5; error = none })
      ∷ finish false
      ∷ []
unfolding server_run
add_runs = refl

watch_runs :
    run watch_request
    ≡ invoke (codes "Demo.Watch") (receiver_value 0 ∷ context_value 1 ∷ [])
      ∷ register_chan (chan_value 4) 6
      ∷ finish true
      ∷ []
unfolding server_run
watch_runs = refl

unknown_runs :
    run (ask "Demo.Sub" (some 1) [])
    ≡ write (error_response 1 (negsuc 32600) (method_not_found (codes "Demo.Sub")))
      ∷ stat invalid_method
      ∷ finish false
      ∷ []
unfolding server_run
unknown_runs = refl

handle-safe_example : crashes (run add_request) ≡ false
handle-safe_example =
    handle-safe decode_all demo rpc_error rpc_error-IsErrFunc (context_value 1) add_request
      accepting demo-Built

handle-answers_example : Answered (some 6) accepting (run watch_request)
handle-answers_example =
    handle-answers decode_all demo rpc_error rpc_error-IsErrFunc (context_value 1) watch_request
      accepting demo-Built

handle-finishes_example :
    (b : Bool) × (finishes (run watch_request) ≡ b ∷ [])
    × ((b ≡ true) ↔ (
        (h : RpcHandler) × Reaches decode_all demo
          (context_value 1)
          watch_request
          rpc_error
          accepting
          h
        × (is_out_chan h ≡ true)))
handle-finishes_example =
    handle-finishes rpc_error rpc_error-IsErrFunc decode_all demo (context_value 1) watch_request
      accepting

abbrev add_args : List Value
add_args = receiver_value 0 ∷ json_value (1 ∷ []) ∷ json_value (2 ∷ []) ∷ []

-- A decoder of requests that knows one text.
abbrev decode_one : RequestDecoder
decode_one raw = (ask "Demo.Add" (some (length raw)) ((1 ∷ []) ∷ (2 ∷ []) ∷ []), none)

abbrev short_body : Body
short_body = record { bytes = 1 ∷ 2 ∷ 3 ∷ []; broken = none }

abbrev long_body : Body
long_body = record { bytes = 1 ∷ 2 ∷ 3 ∷ 4 ∷ 5 ∷ 6 ∷ 7 ∷ 8 ∷ 9 ∷ []; broken = none }

handle_reader_limit_example :
    handle_reader decode_all decode_one demo (context_value 1) http_error long_body
    ≡ header 500 ∷ []
unfolding server_run
handle_reader_limit_example =
    handle_reader_limit decode_all decode_one demo (context_value 1) 8 long_body refl (omega arith)
      refl

abbrev unlimited : RpcServer
unlimited = record demo { max_request_size = pos 9_223_372_036_854_775_807 }

-- An upgrade is recognised whatever its case.
upgrade_served :
    serve_http decode_all decode_one demo (context_value 1) (codes "keep-alive, Upgrade") short_body
    ≡ websocket
unfolding serve_http contains to_lower
upgrade_served = refl

error_text_in_range :
    error_text (record { code = negsuc 32600; message = plain (codes "m") })
    ≡ rpc_error_text (negsuc 32600) (plain (codes "m"))
unfolding error_text
error_text_in_range = refl

-- A client whose POST reaches the demonstration server; the text of its request is three bytes long.
abbrev add_call : CallRequest
add_call = record { jsonrpc = version; id = 3; method = codes "Demo.Add"; params = [] }

abbrev three_bytes : CallRequest → Result Raw
three_bytes req = ok (1 ∷ 2 ∷ 3 ∷ [])

-- The text of a response: its identifier, and whether it has an error.
abbrev id_text : Response → Raw
id_text r = r.id ∷ (if is_some r.error then 1 else 0) ∷ []

abbrev reply_of : ℕ → Option RespError → ClientResponse
reply_of i e = record { jsonrpc = version; result = none; id = i; error = e }

abbrev read_id : Raw → Result ClientResponse
read_id (i ∷ zero ∷ []) = ok (reply_of i none)
read_id (i ∷ suc n ∷ []) = ok (reply_of i (some (record { code = pos 0; message = plain [] })))
read_id _ = err (plain (codes "not a response"))

abbrev first_response : List Response → Result Raw
first_response (r ∷ []) = ok (id_text r)
first_response _ = err (plain (codes "no response"))

abbrev demo_post : Raw → Result Raw
demo_post bytes = first_response (
    responses
      (handle_reader decode_all decode_one demo (context_value 1) http_error (body_of bytes)))

demo_post-Carries :
    Carries decode_all decode_one demo (context_value 1) three_bytes demo_post read_id id_text
demo_post-Carries bytes r e = ap first_response e

read_id-ReadsBack :
    ReadsBack decode_all decode_one demo (context_value 1) three_bytes demo_post read_id id_text
read_id-ReadsBack r = elim (Option-cases r.error) [
  | inl e ↦ rw e (reply_of r.id none, refl, refl, refl)
  | inr (f, e) ↦
      rw e (reply_of r.id (some (record { code = pos 0; message = plain [] })), refl, refl, refl)
]

http_request-answered_example :
    (r : Response) × (resp : ClientResponse) × (responses (
        handle_reader decode_all decode_one demo
          (context_value 1)
          http_error
          (body_of (1 ∷ 2 ∷ 3 ∷ [])))
      ≡ r ∷ [])
    × IsExclusive r
    × (http_request three_bytes demo_post read_id add_call ≡ ok resp)
    × (resp.id ≡ 3)
    × (is_some resp.error ≡ is_some r.error)
unfolding server_run
http_request-answered_example =
    http_request-answered decode_all decode_one demo (context_value 1) three_bytes demo_post read_id
      id_text add_call (1 ∷ 2 ∷ 3 ∷ []) (ask "Demo.Add" (some 3) ((1 ∷ []) ∷ (2 ∷ []) ∷ [])) 8
      demo-Built refl (omega arith) (omega arith) refl refl refl demo_post-Carries read_id-ReadsBack
