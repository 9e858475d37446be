-- ===== src/Rpc/Client/Tests.antt =====
-- Runs of the client of jsonrpc/client.go, and its theorems at them.
use hggutils.Common.{
  nat_key, ℕ, zero, suc, ◌+◌, ◌≡◌, refl, true, false, List, [], ◌∷◌, none, some, arith, length, All,
}
use hggutils.Common.Int.{ℤ, pos, ◌≤ℤ◌}
use hggutils.Common.Text.{codes, text_beq}
use hggutils.Rpc.Message.{
  Raw, err, plain, connection_closed, Result, ok, version, Value, nil_value, json_value, GoType,
  named, error_type, type_beq, FuncType, process_func_out, out_places,
}
use hggutils.Common.Dict.{find}
use hggutils.Rpc.Client.Wait.{
  answered, context_done, cancel_request, do_request, do_request-cancels,
}
use hggutils.Rpc.Conn.{
  Frame, Conn, send, cancel, ws_cancel, accept_request, handle_frame, ClientResponse,
}
use hggutils.Rpc.Client.{
  next_delay, StructField, RpcFunc, made, make_rpc_func, Client, CallRequest, Returned, judge,
  result_value, process_response, process_error, encode_params, next_id, handle_rpc_call, attempts,
}
use hggutils.Rpc.Client.Retry.{IsRetried, handle_rpc_call-ends}
use hggutils.Rpc.Client.Buffer.{
  arrives, taken, incoming_closed, round, start, after, Plays, begins, steps, stops, IsFifo,
  Plays-IsFifo,
}

-- Add func(int, int) (int, error), with the tag retry:"true"
abbrev add_type : FuncType
add_type = record {
  ins = named (codes "int") ∷ named (codes "int") ∷ [];
  outs = named (codes "int") ∷ error_type ∷ [];
}

abbrev add_field : StructField
add_field = record {
  name = codes "Add";
  typ = some add_type;
  alias_tag = [];
  retry_tag = codes "true";
}

abbrev add_func : RpcFunc
add_func = record {
  ftyp = add_type;
  name = codes "Add";
  nout = 2;
  val_out = some 0;
  err_out = some 1;
  has_ctx = 0;
  returns_chan = false;
  retry = true;
}

add_func_made : make_rpc_func add_field ≡ made add_func
unfolding make_rpc_func process_func_out out_places text_beq type_beq
add_func_made = refl

abbrev zero_int : GoType → Value
zero_int t = json_value (0 ∷ [])

abbrev decode_all : GoType → Raw → Result Value
decode_all t raw = ok (json_value raw)

abbrev demo_client : Client
demo_client = record { namespace = codes "Demo"; param_encoders = []; id_ctr = 0 }

abbrev closed_reply : ClientResponse
closed_reply = record {
  jsonrpc = version;
  result = none;
  id = 1;
  error = some (record { code = pos 2; message = connection_closed });
}

abbrev seven_reply : ClientResponse
seven_reply = record { jsonrpc = version; result = some (7 ∷ []); id = 1; error = none }

-- The connection is closed twice before the answer comes.
abbrev flaky : CallRequest → ℕ → Result ClientResponse
flaky req zero = ok closed_reply
flaky req (suc zero) = ok closed_reply
flaky req (suc (suc a)) = ok seven_reply

abbrev doubling : ℕ → ℤ
doubling n = pos (100_000_000 + n)

abbrev seven : List Value
seven = json_value (7 ∷ []) ∷ nil_value ∷ []

-- The definitions that a call goes through.
call_run : Unit {0}
unfolding handle_rpc_call attempts judge result_value process_response process_error encode_params
    next_id next_delay
call_run = tt

flaky_run :
    handle_rpc_call zero_int decode_all doubling flaky (λ a. nil_value) 5 demo_client add_func []
    ≡ some (record { outs = seven; sleeps = pos 100_000_000 ∷ pos 100_000_001 ∷ [] })
unfolding call_run
flaky_run = refl

closed_IsRetried : IsRetried zero_int add_func decode_all 1 (ok closed_reply) nil_value
unfolding call_run
closed_IsRetried = (
  closed_reply,
  record { code = pos 2; message = connection_closed },
  json_value (0 ∷ []),
  refl,
  refl,
  refl,
  refl,
  refl,
  refl,
)

handle_rpc_call-ends_example :
    (r : Returned) × (handle_rpc_call zero_int decode_all doubling flaky
        (λ a. nil_value)
        5
        demo_client
        add_func
        []
      ≡ some r)
    × (r.outs ≡ seven)
    × (length r.sleeps ≡ 2)
    × All (λ d. d ≤ℤ pos 600_000_000_000) r.sleeps
unfolding call_run
handle_rpc_call-ends_example =
    handle_rpc_call-ends zero_int decode_all doubling flaky (λ a. nil_value) demo_client add_func []
      [] 2 5 seven refl (closed_IsRetried, (closed_IsRetried, refl)) (omega arith)

abbrev one : Value
one = json_value (1 ∷ [])

-- A value arrives, the caller takes it, and the connection ends the channel.
abbrev played : Plays start (incoming_closed ∷ taken ∷ arrives one ∷ []) none (one ∷ [])
unfolding start round after
played =
    stops
      (steps
        (steps {d = record { buf = one ∷ []; incoming_open = true }} begins (arrives one) [] refl)
        taken (one ∷ []) refl)
      incoming_closed [] refl

Plays-IsFifo_example : IsFifo (incoming_closed ∷ taken ∷ arrives one ∷ []) none (one ∷ [])
Plays-IsFifo_example = Plays-IsFifo played

-- The text of an identifier is the identifier itself.
abbrev one_number : ℕ → Raw
one_number i = i ∷ []

abbrev read_one : Raw → Result ℕ
read_one (i ∷ []) = ok i
read_one _ = err (plain (codes "not a number"))

abbrev peer : Conn
peer = record {
  has_handler = true;
  inflight = [];
  chan_handlers = [];
  handling = (1, 100) ∷ [];
  next_ctx = 101;
  next_sink = 200;
}

abbrev cancel_frame : Frame
cancel_frame = record {
  jsonrpc = version;
  id = none;
  meta = none;
  method = codes "xrpc.cancel";
  params = (1 ∷ []) ∷ [];
  result = none;
  error = none;
}

-- The end of the context is seen twice before the response.
do_request-cancels_example :
    (do_request one_number true 1 false
        (context_done false ∷ context_done false ∷ answered seven_reply ∷ [])
      ≡ ok (record { response = some seven_reply; sent = cancel_request one_number 1 ∷ [] }))
    × (accept_request peer
          (record { req = cancel_request one_number 1; ready = 9; ret_ch = none; ret_ctx = true })
        ≡ (peer, send (cancel_request one_number 1) ∷ []))
    × (handle_frame read_one read_one peer cancel_frame ≡ some (peer, cancel 100 ∷ []))
unfolding cancel_request ws_cancel find
do_request-cancels_example =
    do_request-cancels one_number read_one read_one true 1 (false ∷ false ∷ []) seven_reply [] peer
      peer 9 100 cancel_frame refl refl refl refl
