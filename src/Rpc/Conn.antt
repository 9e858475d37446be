-- ===== src/Rpc/Conn.antt =====
-- jsonrpc/websocket.go: the state of a connection, and what each event does to it.
-- A step returns the new state and its actions in order; `none` is a run-time panic, which ends the
-- process. Contexts and channel sinks are named by counters.
pub mod Step
pub mod Requests
pub mod Sinks
pub mod SinkRuns
pub mod Calls
pub mod Crash
pub mod Tests
use hggutils.Common.{
  ℕ, suc, ◌+◌, Bool, true, false, List, [], ◌∷◌, ◌++◌, Option, none, some, ◌==◌, if◌then◌else◌, map,
  nat_key,
}
use hggutils.Common.Int.{ℤ, pos}
use hggutils.Common.Text.{Text, codes, text_key}
use hggutils.Common.Dict.{Dict, find, delete, put}
use hggutils.Rpc.Message.{
  Raw, Fault, connection_closed, Result, ok, err, version, RespError, Request,
}

unfoldable pub ws_cancel : Text
ws_cancel = codes "xrpc.cancel"

unfoldable pub ch_value : Text
ch_value = codes "xrpc.ch.val"

unfoldable pub ch_close : Text
ch_close = codes "xrpc.ch.close"

unfoldable pub ws_ping : Text
ws_ping = codes "xrpc.ping"

unfoldable pub ws_pong : Text
ws_pong = codes "xrpc.pong"

-- The switch of handleFrame on the name of the method.
pub data Kind : Type 0 where
  reply cancelling ping pong chan_value chan_closing remote_call : Kind

unfoldable pub message_kind : Text → Kind
message_kind m =
    if m == []
    then reply
    else if m == ws_cancel
    then cancelling
    else if m == ws_ping
    then ping
    else if m == ws_pong
    then pong
    else if m == ch_value
    then chan_value
    else if m == ch_close
    then chan_closing
    else remote_call

pub record Frame : Type 0 where
  pub jsonrpc : Text
  pub id : Option ℕ
  pub meta : Option (Dict Text Text)
  pub method : Text
  pub params : List Raw
  pub result : Option Raw
  pub error : Option RespError

pub record ClientResponse : Type 0 where
  pub jsonrpc : Text
  pub result : Option Raw
  pub id : ℕ
  pub error : Option RespError

-- `ready` names the channel of the waiting caller, `ret_ch` its maker of a sink, and `ret_ctx` says whether
-- the context that this returns with the sink is there: a function that takes none leaves it nil.
pub record ClientRequest : Type 0 where
  pub req : Request
  pub ready : ℕ
  pub ret_ch : Option ℕ
  pub ret_ctx : Bool

pub record Conn : Type 0 where
  pub has_handler : Bool
  pub inflight : Dict ℕ ClientRequest
  pub chan_handlers : Dict ℕ ℕ
  pub handling : Dict ℕ ℕ
  pub next_ctx : ℕ
  pub next_sink : ℕ

pub data Action : Type 0 where
  -- c.writeChan <- a request; c.keepAliveChan <- a pong
  send : Request → Action
  send_pong : Action
  -- req.ready <- a response
  deliver : ℕ → ClientResponse → Action
  -- req.retCh(), which makes the sink; its calls; and the goroutine that waits for its context
  open_sink : ℕ → ℕ → Action
  sink_value : ℕ → Raw → Action
  sink_close : ℕ → Action
  watch_ctx : ℕ → ℕ → Action
  -- the goroutine of a call, under its context; a cancel function
  spawn_call : ℕ → Request → Action
  cancel : ℕ → Action

abbrev pub Run : Type 0
Run = Option (Conn × List Action)

abbrev pub idle : Conn → Run
idle c = some (c, [])

-- handleWsConn: the fresh maps of a connection
unfoldable pub open_conn : Bool → ℕ → ℕ → Conn
open_conn has_handler next_ctx next_sink = record {
  has_handler = has_handler;
  inflight = [];
  chan_handlers = [];
  handling = [];
  next_ctx = next_ctx;
  next_sink = next_sink;
}

-- The branch `req := <-c.requests` of the sender: a request with an identifier awaits its response.
unfoldable pub accept_request : Conn → ClientRequest → Conn × List Action
accept_request c r = elim r.req.id [
  | none ↦ (c, send r.req ∷ [])
  | some i ↦ (record c { inflight = put i r c.inflight }, send r.req ∷ [])
]

abbrev pub response_of : Frame → ℕ → ClientResponse
response_of f i = record { jsonrpc = f.jsonrpc; result = f.result; id = i; error = f.error }

-- The end of handleResponse: the caller gets the response, and the request is forgotten.
abbrev pub answer : Conn → Frame → ℕ → ClientRequest → List Action → Run
answer c f i r before =
    some (
      record c { inflight = delete i c.inflight },
      before ++ deliver r.ready (response_of f i) ∷ [],
    )

-- The first step of handleResponse for a request whose result is a channel.
abbrev pub open_chan : Conn → ℕ → Conn
open_chan c chid = record c {
  chan_handlers = put chid c.next_sink c.chan_handlers;
  next_sink = suc c.next_sink;
}

abbrev pub request_of : Frame → Request
request_of f = record {
  jsonrpc = f.jsonrpc;
  id = f.id;
  method = f.method;
  params = f.params;
  meta = f.meta;
}

abbrev pub started : Conn → Option ℕ → Conn
started c none = record c { next_ctx = suc c.next_ctx }
started c (some i) = record c { next_ctx = suc c.next_ctx; handling = put i c.next_ctx c.handling }

abbrev pub close_chan : Conn → ℕ → ℕ → Run
close_chan c chid sink =
    some (record c { chan_handlers = delete chid c.chan_handlers }, sink_close sink ∷ [])

-- hnd(frame.Params[1].data, true)
unfoldable pub value_to : Conn → ℕ → List Raw → Run
value_to c sink [] = none
value_to c sink (v ∷ _) = some (c, sink_value sink v ∷ [])

module _ (decode_int64 decode_uint64 : Raw → Result ℕ) where
  -- The goroutines of handleCtxAsync and of the sink's buffer ask a context that is nil for its end, which
  -- is a panic outside every recover.
  unfoldable pub respond_chan : Conn → Frame → ℕ → ClientRequest → ℕ → Raw → Run
  respond_chan c f i r maker raw = elim (decode_uint64 raw) [
    | err _ ↦ idle c
    | ok chid ↦
        if r.ret_ctx
        then answer (open_chan c chid) f i r
            (open_sink maker c.next_sink ∷ watch_ctx c.next_sink i ∷ [])
        else none
  ]

  -- handleResponse, once the request is found
  unfoldable pub respond_to : Conn → Frame → ℕ → ClientRequest → Run
  unfolding respond_chan
  respond_to c f i r = elim r.ret_ch [
    | none ↦ answer c f i r []
    | some maker ↦ elim f.result [
      | none ↦ answer c f i r []
      | some raw ↦ respond_chan c f i r maker raw
    ]
  ]

  unfoldable pub handle_response : Conn → Frame → Run
  handle_response c f = elim f.id [
    | none ↦ none
    | some i ↦ elim (find i c.inflight) [ none ↦ idle c | some r ↦ respond_to c f i r ]
  ]

  -- cancelCtx
  unfoldable pub cancel_ctx : Conn → Frame → Run
  cancel_ctx c f = elim f.params [
    | [] ↦ none
    | p ∷ _ ↦ elim (decode_int64 p) [
      | err _ ↦ idle c
      | ok i ↦ elim (find i c.handling) [ none ↦ idle c | some ctx ↦ some (c, cancel ctx ∷ []) ]
    ]
  ]

  unfoldable pub handle_chan_message : Conn → Frame → Run
  unfolding value_to
  handle_chan_message c f = elim f.params [
    | [] ↦ none
    | p ∷ rest ↦ elim (decode_uint64 p) [
      | err _ ↦ idle c
      | ok chid ↦ elim (find chid c.chan_handlers) [
        | none ↦ idle c
        | some sink ↦ value_to c sink rest
      ]
    ]
  ]

  unfoldable pub handle_chan_close : Conn → Frame → Run
  handle_chan_close c f = elim f.params [
    | [] ↦ none
    | p ∷ _ ↦ elim (decode_uint64 p) [
      | err _ ↦ idle c
      | ok chid ↦ elim (find chid c.chan_handlers) [
        | none ↦ idle c
        | some sink ↦ close_chan c chid sink
      ]
    ]
  ]

  unfoldable pub handle_call : Conn → Frame → Run
  handle_call c f =
      if c.has_handler
      then some (started c f.id, spawn_call c.next_ctx (request_of f) ∷ [])
      else idle c

  unfoldable pub handle_kind : Kind → Conn → Frame → Run
  handle_kind reply c f = handle_response c f
  handle_kind cancelling c f = cancel_ctx c f
  handle_kind ping c f = some (c, send_pong ∷ [])
  handle_kind pong c f = idle c
  handle_kind chan_value c f = handle_chan_message c f
  handle_kind chan_closing c f = handle_chan_close c f
  handle_kind remote_call c f = handle_call c f

  unfoldable pub handle_frame : Conn → Frame → Run
  unfolding handle_kind
  handle_frame c f = handle_kind (message_kind f.method) c f

-- The callback done of handleCall, when the call under `ctx` ends.
unfoldable pub call_done : Conn → ℕ → Option ℕ → Bool → Conn × List Action
call_done c ctx id true = (c, [])
call_done c ctx none false = (c, cancel ctx ∷ [])
call_done c ctx (some i) false = (record c { handling = delete i c.handling }, cancel ctx ∷ [])

abbrev closed_response : ℕ → ClientResponse
closed_response i = record {
  jsonrpc = version;
  result = none;
  id = i;
  error = some (record { code = pos 2; message = connection_closed });
}

abbrev pub closed_deliveries : Dict ℕ ClientRequest → List Action
closed_deliveries = map λ e. deliver e.1.ready (closed_response e.0)

unfoldable pub close_in_flight : Conn → Conn × List Action
close_in_flight c = (
  record c { inflight = []; handling = [] },
  closed_deliveries c.inflight ++ map (λ e. cancel e.1) c.handling,
)

unfoldable pub close_chans : Conn → Conn × List Action
close_chans c = (record c { chan_handlers = [] }, map (λ e. sink_close e.1) c.chan_handlers)

-- The deferred calls of handleWsConn, last one first.
unfoldable pub tear_down : Conn → Conn × List Action
unfolding close_in_flight close_chans
tear_down c =
    let (c', closes) = close_chans c in
    let (c'', rest) = close_in_flight c' in (c'', closes ++ rest)
