-- ===== src/Rpc/Server.antt =====
-- jsonrpc/server.go and handler.go: the registry of methods, and the handling of one request.
-- A handler returns the list of its effects, in order. The methods, the decoders of the options and
-- package json are arguments.
pub mod Effects
pub mod Register
pub mod Answers
pub mod Safety
pub mod Http
pub mod Params
pub mod Calls
pub mod Outcomes
pub mod Tests
use hggutils.Common.{
  ℕ, zero, suc, ◌+◌, ◌≡◌, refl, ◌⊎◌, inl, inr, Bool, true, false, not, ◌&&◌, List, [], ◌∷◌, ◌++◌,
  Option, none, some, ◌==◌, eqb, if◌then◌else◌, length, get_elem?, is_some,
}
use hggutils.Common.Int.{ℤ, pos}
use hggutils.Common.Text.{Text, text_key}
use hggutils.Common.Dict.{Dict, find, put}
use hggutils.Rpc.Message.{
  Raw, Fault, method_not_found, no_out_channel, wrong_param_count, unmarshaling_params,
  decoding_params, fatal_call, panic_in_method, Result, ok, err, parse_error_code,
  method_not_found_code, invalid_params_code, version, RespError, Value, nil_value, error_value,
  context_value, Request, Response, GoType, is_chan_type, FuncType, type_key,
}

-- What a method does when it is called.
pub data Outcome : Type 0 where
  returned : List Value → Outcome
  panicked : Text → Outcome

pub record Func : Type 0 where
  pub typ : FuncType
  pub body : List Value → Outcome

-- `has_ctx` is 0 or 1; a place is `none` for the code's -1.
pub record RpcHandler : Type 0 where
  pub param_receivers : List GoType
  pub n_params : ℕ
  pub receiver : Value
  pub handler_func : Func
  pub has_ctx : ℕ
  pub err_out : Option ℕ
  pub val_out : Option ℕ

-- A decoder is taken to return, with a value or an error.
abbrev pub ParamDecoder : Type 0
ParamDecoder = Raw → Result Value

pub record RpcServer : Type 0 where
  pub methods : Dict Text RpcHandler
  pub aliased_methods : Dict Text Text
  pub param_decoders : Dict GoType ParamDecoder
  pub max_request_size : ℤ

pub data Metric : Type 0 where
  invalid_method request_error response_error : Metric

pub data Effect : Type 0 where
  -- wrtfun(resp); w.WriteHeader(status)
  write : Response → Effect
  header : ℕ → Effect
  stat : Metric → Effect
  -- done(keepCtx)
  finish : Bool → Effect
  -- the call of a method; chOut(ch, id)
  invoke : Text → List Value → Effect
  register_chan : Value → ℕ → Effect
  -- a run-time panic, which ends the process
  crash : Effect

-- rpcErrFunc, which looks at no more of the request than its identifier
abbrev pub RpcErrFunc : Type 0
RpcErrFunc = Option ℕ → ℤ → Fault → List Effect

-- chanOut, with `none` for its error nil
abbrev pub ChanOut : Type 0
ChanOut = Value → ℕ → Option Fault

abbrev pub error_response : ℕ → ℤ → Fault → Response
error_response i code f = record {
  jsonrpc = version;
  result = none;
  id = i;
  error = some (record { code = code; message = f });
}

-- rpcError: a notification is not answered.
unfoldable pub rpc_error : RpcErrFunc
rpc_error none code f = []
rpc_error (some i) code f = write (error_response i code f) ∷ []

-- The method of that name, else the one that its alias names.
unfoldable pub resolve : RpcServer → Text → Option RpcHandler
resolve s name = elim (find name s.methods) [
  | some h ↦ some h
  | none ↦ elim (find name s.aliased_methods) [ none ↦ none | some other ↦ find other s.methods ]
]

pub data Decoded : Type 0 where
  decoded : List Value → Decoded
  failed : Fault → Decoded
  out_of_range : Decoded

Decoded-cases :
    (d : Decoded)
    → ((vs : List Value) × (d ≡ decoded vs)) ⊎ ((f : Fault) × (d ≡ failed f)) ⊎ (d ≡ out_of_range)
Decoded-cases (decoded vs) = inl (vs, refl)
Decoded-cases (failed f) = inr (inl (f, refl))
Decoded-cases out_of_range = inr (inr refl)

abbrev add_param : Value → Decoded → Decoded
add_param v (decoded vs) = decoded (v ∷ vs)
add_param v (failed f) = failed f
add_param v out_of_range = out_of_range

abbrev pub is_out_chan : RpcHandler → Bool
is_out_chan h = elim h.val_out [
  | none ↦ false
  | some k ↦ elim (get_elem? h.handler_func.typ.outs k) [ none ↦ false | some t ↦ is_chan_type t ]
]

-- doCall: a panic of the method becomes an error.
unfoldable pub do_call : Text → Func → List Value → Result (List Value)
do_call name f params = elim (f.body params) [
  | returned outs ↦ ok outs
  | panicked why ↦ err (panic_in_method name why)
]

pub data ErrorOut : Type 0 where
  no_error no_such_error not_an_error : ErrorOut
  an_error : Fault → ErrorOut

abbrev as_error : Value → ErrorOut
as_error nil_value = no_error
as_error (error_value f) = an_error f
as_error _ = not_an_error

-- callResult[handler.errOut].Interface(), and the assertion that it is an error
unfoldable pub error_at : Option ℕ → List Value → ErrorOut
error_at none outs = no_error
error_at (some k) outs = elim (get_elem? outs k) [ none ↦ no_such_error | some v ↦ as_error v ]

pub data ValueOut : Type 0 where
  no_value no_such_value : ValueOut
  a_value : Value → ValueOut

-- callResult[handler.valOut]
unfoldable pub value_at : Option ℕ → List Value → ValueOut
value_at none outs = no_value
value_at (some k) outs = elim (get_elem? outs k) [ none ↦ no_such_value | some v ↦ a_value v ]

abbrev result_response : ℕ → Option Value → Response
result_response i res = record { jsonrpc = version; result = res; id = i; error = none }

abbrev fail_response : ℕ → Fault → List Effect
fail_response i f = stat response_error ∷ write (error_response i (pos 1) f) ∷ []

-- An interface that holds nil is left out of the JSON text.
abbrev as_result : Value → Option Value
as_result nil_value = none
as_result v = some v

-- A channel is handed to the goroutine that forwards it, which answers the request.
respond_value : RpcHandler → Option ChanOut → ℕ → ValueOut → List Effect
respond_value h ch_out i no_such_value = crash ∷ []
respond_value h ch_out i no_value = write (result_response i none) ∷ []
respond_value h ch_out i (a_value v) =
    if is_out_chan h
    then elim ch_out [
      | none ↦ crash ∷ []
      | some reg ↦ elim (reg v i) [
        | none ↦ register_chan v i ∷ []
        | some f ↦ register_chan v i ∷ fail_response i f
      ]
    ]
    else write (result_response i (as_result v)) ∷ []

-- JSON-RPC allows no value beside an error.
respond_error : RpcHandler → Option ChanOut → ℕ → ErrorOut → ValueOut → List Effect
respond_error h ch_out i no_such_error res = crash ∷ []
respond_error h ch_out i not_an_error res = stat response_error ∷ crash ∷ []
respond_error h ch_out i (an_error f) no_such_value = stat response_error ∷ crash ∷ []
respond_error h ch_out i (an_error f) res = fail_response i f
respond_error h ch_out i no_error res = respond_value h ch_out i res

unfoldable pub respond : RpcHandler → Option ChanOut → Option ℕ → List Value → List Effect
unfolding respond_error respond_value error_at value_at
respond h ch_out none outs = []
respond h ch_out (some i) outs =
    respond_error h ch_out i (error_at h.err_out outs) (value_at h.val_out outs)

module _ (decode_value : GoType → ParamDecoder) (s : RpcServer) where
  -- One round of the loop over the parameters, with the decoder of the options or json's.
  unfoldable pub decode_param : Text → ℕ → GoType → Raw → Result Value
  decode_param name i typ p = elim (find typ s.param_decoders) [
    | none ↦ elim (decode_value typ p) [ ok v ↦ ok v | err f ↦ err (unmarshaling_params name f) ]
    | some dec ↦ elim (dec p) [ ok v ↦ ok v | err f ↦ err (decoding_params name i f) ]
  ]

  -- `i` counts the rounds, and the first argument those that are left.
  unfoldable pub decode_params : ℕ → Text → ℕ → List GoType → List Raw → Decoded
  decode_params zero name i types params = decoded []
  decode_params (suc n) name i (t ∷ types) (p ∷ params) =
      let rest = decode_params n name (i + 1) types params in
      elim (decode_param name i t p) [ err f ↦ failed f | ok v ↦ add_param v rest ]
  decode_params (suc n) name i [] params = out_of_range
  decode_params (suc n) name i (_ ∷ _) [] = out_of_range

  -- The parameters of the call: the receiver, the context if it is wanted, and the rest.
  abbrev call_params : RpcHandler → Value → List Value → List Value
  call_params h ctx vs = h.receiver ∷ (if eqb h.has_ctx 1 then ctx ∷ vs else vs)

  -- From the call on.
  unfoldable pub call_method :
      RpcHandler → Value → Request → RpcErrFunc → Option ChanOut → List Value → List Effect
  call_method h ctx req rpc_err ch_out vs =
      invoke req.method (call_params h ctx vs)
      ∷ elim (do_call req.method h.handler_func (call_params h ctx vs)) [
        | err f ↦ rpc_err req.id (pos 0) (fatal_call req.method f) ++ stat request_error ∷ []
        | ok outs ↦ respond h ch_out req.id outs
      ]

  -- Behind `defer done(outCh)`.
  unfoldable pub handle_params :
      RpcHandler → Value → Request → RpcErrFunc → Option ChanOut → List Effect
  handle_params h ctx req rpc_err ch_out =
      if not (is_some ch_out) && is_out_chan h
      then rpc_err req.id method_not_found_code (no_out_channel req.method)
        ++ stat request_error ∷ []
      else elim (decode_params h.n_params req.method 0 h.param_receivers req.params) [
        | out_of_range ↦ crash ∷ []
        | failed f ↦ rpc_err req.id parse_error_code f ++ stat request_error ∷ []
        | decoded vs ↦ call_method h ctx req rpc_err ch_out vs
      ]

  unfoldable pub handle_found :
      RpcHandler → Value → Request → RpcErrFunc → Option ChanOut → List Effect
  handle_found h ctx req rpc_err ch_out =
      if eqb (length req.params) h.n_params
      then handle_params h ctx req rpc_err ch_out ++ finish (is_out_chan h) ∷ []
      else rpc_err req.id invalid_params_code
          (wrong_param_count req.method (length req.params) h.n_params)
        ++ stat request_error ∷ finish false ∷ []

  -- RPCServer.handle, behind its span
  unfoldable pub handle : Value → Request → RpcErrFunc → Option ChanOut → List Effect
  handle ctx req rpc_err ch_out = elim (resolve s req.method) [
    | none ↦
        rpc_err req.id method_not_found_code (method_not_found req.method)
        ++ stat invalid_method ∷ finish false ∷ []
    | some h ↦ handle_found h ctx req rpc_err ch_out
  ]
