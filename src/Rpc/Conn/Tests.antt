-- ===== src/Rpc/Conn/Tests.antt =====
-- Runs of a connection of jsonrpc/websocket.go at concrete frames, and its theorems at them.
use hggutils.Common.{
  ℕ, ◌+◌, ◌≤◌, ◌≡◌, refl, ◌↔◌, true, false, List, [], ◌∷◌, ◌++◌, Option, none, some, arith, nat_key,
}
use Prim.Native.String.{String}
use hggutils.Common.Int.{pos}
use hggutils.Common.Text.{codes, text_beq}
use hggutils.Common.Dict.{find, put, delete}
use hggutils.Rpc.Message.{
  Raw, plain, Result, ok, err, version, receiver_value, Request, GoType, chan_type, named,
  error_type,
}
use hggutils.Rpc.Server.{returned, RpcHandler, RpcServer, ParamDecoder, ChanOut}
use hggutils.Rpc.Conn.{
  message_kind, Frame, ClientRequest, Conn, Action, send, deliver, open_sink, sink_value,
  sink_close, watch_ctx, spawn_call, cancel, idle, open_conn, accept_request, request_of,
  respond_chan, respond_to, handle_response, cancel_ctx, handle_chan_message, handle_chan_close,
  value_to, handle_call, handle_kind, handle_frame, call_done, tear_down, ws_cancel, ws_ping,
  ws_pong, ch_value, ch_close,
}
use hggutils.Rpc.Conn.Step.{accepts, receives, step, Runs, start, next, AllFresh, AllNew}
use hggutils.Rpc.Conn.Requests.{delivered, pending, all_asked, responses-requests}
use hggutils.Rpc.Conn.Sinks.{opened, closed}
use hggutils.Rpc.Conn.SinkRuns.{sinks_closed_once, values_to_open}
use hggutils.Rpc.Conn.Calls.{call-cancel}
use hggutils.Rpc.Conn.Crash.{Malformed, handle_frame-none}

-- A raw value of one number decodes to it.
abbrev number : Raw → Result ℕ
number (n ∷ []) = ok n
number _ = err (plain (codes "not a number"))

abbrev frame : String → Option ℕ → List Raw → Option Raw → Frame
frame method id params result = record {
  jsonrpc = version;
  id = id;
  meta = none;
  method = codes method;
  params = params;
  result = result;
  error = none;
}

abbrev watch_call : ClientRequest
watch_call = record {
  req = record {
    jsonrpc = version;
    id = some 1;
    method = codes "Demo.Watch";
    params = [];
    meta = none;
  };
  ready = 10;
  ret_ch = some 20;
  ret_ctx = true;
}

abbrev opens_chan : Frame
opens_chan = frame "" (some 1) [] (some (3 ∷ []))

abbrev value_frame : Frame
value_frame = frame "xrpc.ch.val" none ((3 ∷ []) ∷ (9 ∷ []) ∷ []) none

abbrev close_frame : Frame
close_frame = frame "xrpc.ch.close" none ((3 ∷ []) ∷ []) none

abbrev fresh_conn : Conn
fresh_conn = record {
  has_handler = true;
  inflight = [];
  chan_handlers = [];
  handling = [];
  next_ctx = 100;
  next_sink = 200;
}

abbrev asking : Conn
asking = record fresh_conn { inflight = (1, watch_call) ∷ [] }

abbrev streaming : Conn
streaming = record fresh_conn { chan_handlers = (3, 200) ∷ []; next_sink = 201 }

abbrev opening_actions : List Action
opening_actions =
    open_sink 20 200
    ∷ watch_ctx 200 1
    ∷ deliver 10 (record { jsonrpc = version; result = some (3 ∷ []); id = 1; error = none })
    ∷ []

-- The definitions that a run goes through.
conn_run : Unit {0}
unfolding open_conn step accept_request handle_frame handle_kind message_kind handle_response
    respond_to respond_chan handle_chan_message value_to handle_chan_close handle_call cancel_ctx
    call_done find put delete text_beq ws_cancel ws_ping ws_pong ch_value ch_close
conn_run = tt

abbrev asked_for_stream :
    Runs number number
      (open_conn true 100 200)
      (accepts watch_call ∷ [])
      asking
      (send watch_call.req ∷ [])
unfolding conn_run
asked_for_stream = next start (accepts watch_call) (send watch_call.req ∷ []) refl

abbrev streamed :
    Runs number number
      (open_conn true 100 200)
      (receives opens_chan ∷ accepts watch_call ∷ [])
      streaming
      ((send watch_call.req ∷ []) ++ opening_actions)
unfolding conn_run
streamed = next asked_for_stream (receives opens_chan) opening_actions refl

streamed-AllFresh : AllFresh number number streamed
unfolding conn_run
streamed-AllFresh = ((tt, λ i e. refl), tt)

streamed-AllNew : AllNew number number streamed
unfolding conn_run
streamed-AllNew = ((tt, tt), λ i r m raw chid kind id found ret e d. refl)

closed_run :
    step number number streaming (receives close_frame)
    ≡ some (record streaming { chan_handlers = [] }, sink_close 200 ∷ [])
unfolding conn_run
closed_run = refl

value_run :
    step number number streaming (receives value_frame)
    ≡ some (streaming, sink_value 200 (9 ∷ []) ∷ [])
unfolding conn_run
value_run = refl

responses-requests_example :
    (delivered 10 ((send watch_call.req ∷ []) ++ opening_actions) + pending 10 streaming
      ≡ all_asked 10 (receives opens_chan ∷ accepts watch_call ∷ []))
    × (delivered 10 (((send watch_call.req ∷ []) ++ opening_actions) ++ (tear_down streaming).1)
        ≡ all_asked 10 (receives opens_chan ∷ accepts watch_call ∷ []))
    × (pending 10 (tear_down streaming).0 ≡ 0)
responses-requests_example =
    responses-requests 10 number number true 100 200 (receives opens_chan ∷ accepts watch_call ∷ [])
      streaming ((send watch_call.req ∷ []) ++ opening_actions) streamed streamed-AllFresh

sinks_closed_once_example :
    (opened 200 ((send watch_call.req ∷ []) ++ opening_actions) ≤ 1)
    × (closed 200 ((send watch_call.req ∷ []) ++ opening_actions)
        ≤ opened 200 ((send watch_call.req ∷ []) ++ opening_actions))
    × (closed 200 (((send watch_call.req ∷ []) ++ opening_actions) ++ (tear_down streaming).1)
        ≡ opened 200 ((send watch_call.req ∷ []) ++ opening_actions))
sinks_closed_once_example =
    sinks_closed_once 200 number number true 100 200 (receives opens_chan ∷ accepts watch_call ∷ [])
      streaming ((send watch_call.req ∷ []) ++ opening_actions) streamed streamed-AllNew

values_to_open_example :
    (opened 200 ((send watch_call.req ∷ []) ++ opening_actions) ≡ 1)
    × (closed 200 ((send watch_call.req ∷ []) ++ opening_actions) ≡ 0)
unfolding conn_run
values_to_open_example =
    values_to_open 200 number number true 100 200 (receives opens_chan ∷ accepts watch_call ∷ [])
      streaming ((send watch_call.req ∷ []) ++ opening_actions) (receives value_frame) streaming
      (sink_value 200 (9 ∷ []) ∷ []) streamed streamed-AllNew value_run (λ raw chid e d. cc)
      (omega arith)

abbrev call_frame : Frame
call_frame = frame "Demo.Add" (some 5) [] none

abbrev cancel_frame : Frame
cancel_frame = frame "xrpc.cancel" none ((5 ∷ []) ∷ []) none

call-cancel_example :
    (d : Conn) × (handle_frame number number fresh_conn call_frame
      ≡ some (d, spawn_call 100 (request_of call_frame) ∷ []))
    × (handle_frame number number d cancel_frame ≡ some (d, cancel 100 ∷ []))
    × (find 6 d.handling ≡ find 6 fresh_conn.handling)
    × ((call_done d 100 (some 5) false).1 ≡ cancel 100 ∷ [])
    × (handle_frame number number (call_done d 100 (some 5) false).0 cancel_frame
        ≡ idle (call_done d 100 (some 5) false).0)
unfolding conn_run
call-cancel_example =
    call-cancel number number fresh_conn call_frame cancel_frame 5 6 (5 ∷ []) [] refl refl refl refl
      refl refl (λ h. omega arith)

-- func (r) Watch(n int) (chan int, error), whose parameter does not decode
abbrev stuck_handler : RpcHandler
stuck_handler = record {
  param_receivers = named (codes "int") ∷ [];
  n_params = 1;
  receiver = receiver_value 0;
  handler_func = record {
    typ = record {
      ins = named (codes "T") ∷ named (codes "int") ∷ [];
      outs = chan_type (named (codes "int")) ∷ error_type ∷ [];
    };
    body = λ args. returned [];
  };
  has_ctx = 0;
  err_out = some 1;
  val_out = some 0;
}

abbrev stuck_server : RpcServer
stuck_server = record {
  methods = (codes "Demo.Watch", stuck_handler) ∷ [];
  aliased_methods = [];
  param_decoders = [];
  max_request_size = pos 8;
}

abbrev stuck_request : Request
stuck_request = record {
  jsonrpc = version;
  id = some 5;
  method = codes "Demo.Watch";
  params = (1 ∷ []) ∷ [];
  meta = none;
}

abbrev no_int : GoType → ParamDecoder
no_int t p = err (plain (codes "not an int"))

abbrev accepting : ChanOut
accepting v i = none

-- A response with no identifier.
handle_frame-none_example :
    (handle_frame number number fresh_conn (frame "" none [] none) ≡ none)
    ↔ Malformed number number fresh_conn (frame "" none [] none) (message_kind (codes ""))
handle_frame-none_example = handle_frame-none number number fresh_conn (frame "" none [] none)

crash_run : handle_frame number number fresh_conn (frame "" none [] none) ≡ none
unfolding conn_run
crash_run = refl

-- A channel for a call that was made without a context.
no_context_run :
    step number number
      (record fresh_conn { inflight = (1, record watch_call { ret_ctx = false }) ∷ [] })
      (receives opens_chan)
    ≡ none
unfolding conn_run
no_context_run = refl
