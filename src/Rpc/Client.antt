-- ===== src/Rpc/Client.antt =====
-- jsonrpc/client.go and the backoff of util.go: how a function of the client's struct is made, and one
-- call of it. The transport, the encoders, json's decoding and the float arithmetic of the backoff are
-- arguments; the loop of the attempts takes fuel.
pub mod Retry
pub mod Results
pub mod Functions
pub mod Buffer
pub mod Wait
pub mod Http
pub mod Options
pub mod Setup
pub mod Provide
pub mod SetupTests
pub mod Tests
use hggutils.Common.{
  ℕ, zero, suc, ◌+◌, ◌%◌, ◌^◌, Bool, true, false, not, ◌&&◌, List, [], ◌∷◌, ◌++◌, Option, none,
  some, ◌==◌, eqb, ltb, if◌then◌else◌, length, get_elem?, set, drop, replicate, is_some,
}
use hggutils.Common.Int.{ℤ, pos, negsuc, ltb_ℤ, eqb_ℤ}
use hggutils.Common.Text.{Text, codes, text_key}
use hggutils.Common.Dict.{Dict, find}
use hggutils.Rpc.Message.{
  Raw, Fault, send_request_failed, unmarshaling_result, err_client, id_mismatch, Result, ok, err,
  version, RespError, error_text, Value, nil_value, error_value, GoType, context_type, is_chan_type,
  type_key, FuncType, process_func_out,
}
use hggutils.Rpc.Conn.{ClientResponse}

pub record Backoff : Type 0 where
  pub min_delay : ℤ
  pub max_delay : ℤ

-- backoff.next; `durf` is the duration that the float arithmetic comes to.
unfoldable pub next_delay : (ℕ → ℤ) → Backoff → ℤ → ℤ
next_delay durf b (negsuc _) = b.min_delay
next_delay durf b (pos n) = if ltb_ℤ b.max_delay (durf n) then b.max_delay else durf n

-- A field of the struct: its type, if that is a function's, and its tags.
pub record StructField : Type 0 where
  pub name : Text
  pub typ : Option FuncType
  pub alias_tag : Text
  pub retry_tag : Text

pub record RpcFunc : Type 0 where
  pub ftyp : FuncType
  pub name : Text
  pub nout : ℕ
  pub val_out : Option ℕ
  pub err_out : Option ℕ
  pub has_ctx : ℕ
  pub returns_chan : Bool
  pub retry : Bool

pub data Made : Type 0 where
  made : RpcFunc → Made
  not_a_func panics : Made

abbrev pub takes_context : List GoType → ℕ
takes_context [] = 0
takes_context (t ∷ _) = if t == context_type then 1 else 0

abbrev pub is_chan_at : List GoType → Option ℕ → Bool
is_chan_at outs none = false
is_chan_at outs (some k) = elim (get_elem? outs k) [ none ↦ false | some t ↦ is_chan_type t ]

-- client.makeRpcFunc
unfoldable pub make_rpc_func : StructField → Made
make_rpc_func f = elim f.typ [
  | none ↦ not_a_func
  | some ftyp ↦ elim (process_func_out ftyp) [
    | none ↦ panics
    | some (val_out, err_out, nout) ↦ made (record {
      ftyp = ftyp;
      name = if f.alias_tag == [] then f.name else f.alias_tag;
      nout = nout;
      val_out = val_out;
      err_out = err_out;
      has_ctx = takes_context ftyp.ins;
      returns_chan = is_chan_at ftyp.outs val_out;
      retry = f.retry_tag == codes "true";
    })
  ]
]

-- An argument with its type, and an encoder of the options.
abbrev pub Arg : Type 0
Arg = GoType × Value

abbrev pub ParamEncoder : Type 0
ParamEncoder = Value → Result Value

pub record Client : Type 0 where
  pub namespace : Text
  pub param_encoders : Dict GoType ParamEncoder
  pub id_ctr : ℕ

pub record CallRequest : Type 0 where
  pub jsonrpc : Text
  pub id : ℕ
  pub method : Text
  pub params : List Value

-- atomic.AddInt64(&fn.client.idCtr, 1), as a bit pattern
unfoldable pub next_id : Client → ℕ
next_id c = (c.id_ctr + 1) % 2 ^ 64

unfoldable pub encode_params : Dict GoType ParamEncoder → List Arg → Result (List Value)
encode_params encoders [] = ok []
encode_params encoders ((t, v) ∷ args) =
    let rest = encode_params encoders args in
    let encoded : Result Value = elim (find t encoders) [ none ↦ ok v | some enc ↦ enc v ] in
    elim encoded [ err f ↦ err f | ok w ↦ elim rest [ err f ↦ err f | ok ws ↦ ok (w ∷ ws) ] ]

unfoldable pub method_name : Client → RpcFunc → Text
method_name c fn = if c.namespace == [] then fn.name else c.namespace ++ codes "." ++ fn.name

abbrev set_at : List Value → Option ℕ → Value → List Value
set_at out none v = out
set_at out (some k) v = set out k v

-- What the caller gets, and the waits between the attempts.
pub record Returned : Type 0 where
  pub outs : List Value
  pub sleeps : List ℤ

pub data Verdict : Type 0 where
  final : List Value → Verdict
  again : Verdict

module _ (zero_of : GoType → Value) (fn : RpcFunc) where
  abbrev zero_at : Option ℕ → Value
  zero_at none = nil_value
  zero_at (some k) = elim (get_elem? fn.ftyp.outs k) [ none ↦ nil_value | some t ↦ zero_of t ]

  -- processResponse
  unfoldable pub process_response : Option RespError → Value → List Value
  process_response e rval =
      set_at (set_at (replicate fn.nout nil_value) fn.val_out rval) fn.err_out
        (elim e [ none ↦ nil_value | some e ↦ error_value (error_text e) ])

  -- processError
  unfoldable pub process_error : Fault → List Value
  process_error f =
      set_at (set_at (replicate fn.nout nil_value) fn.val_out (zero_at fn.val_out)) fn.err_out
        (error_value (err_client f))

  module _ (decode_value : GoType → Raw → Result Value) where
    -- The value of the result: the decoded one, the zero value, or the channel of makeOutChan.
    unfoldable pub result_value : ClientResponse → Value → Result Value
    result_value resp ch = elim fn.val_out [
      | none ↦ ok nil_value
      | some k ↦ if fn.returns_chan then ok ch else elim resp.result [
        | none ↦ ok (zero_at (some k))
        | some raw ↦ elim (get_elem? fn.ftyp.outs k) [
          | none ↦ ok nil_value
          | some t ↦ decode_value t raw
        ]
      ]
    ]

    abbrev is_closed : Option RespError → Bool
    is_closed none = false
    is_closed (some e) = eqb_ℤ e.code (pos 2)

    abbrev judged : Option RespError → Result Value → Verdict
    judged e (err f) = final (process_error (unmarshaling_result f))
    judged e (ok v) = if is_closed e && fn.retry then again else final (process_response e v)

    -- One round of the loop: what the attempt with this outcome leads to.
    unfoldable pub judge : ℕ → Result ClientResponse → Value → Verdict
    judge id (err f) ch = final (process_error (send_request_failed f))
    judge id (ok resp) ch =
        if eqb resp.id id
        then judged resp.error (result_value resp ch)
        else final (process_error id_mismatch)

    -- The loop; `reply` gives each attempt's outcome, `chan` the channel that is there after it.
    module _ (durf : ℕ → ℤ) (b : Backoff) (id : ℕ) (reply : ℕ → Result ClientResponse)
        (chan : ℕ → Value) where
      unfoldable pub attempts : ℕ → ℕ → Option Returned
      attempts zero attempt = none
      attempts (suc fuel) attempt =
          let rest = attempts fuel (attempt + 1) in
          elim (judge id (reply attempt) (chan attempt)) [
            | final outs ↦ some (record { outs = outs; sleeps = [] })
            | again ↦ elim rest [
              | none ↦ none
              | some r ↦ some (record r { sleeps = next_delay durf b (pos attempt) ∷ r.sleeps })
            ]
          ]

abbrev pub call_backoff : Backoff
call_backoff = record { min_delay = pos 100_000_000; max_delay = pos 600_000_000_000 }

abbrev pub Transport : Type 0
Transport = CallRequest → ℕ → Result ClientResponse

-- handleRpcCall, without its span
unfoldable pub handle_rpc_call :
    (GoType → Value)
    → (GoType → Raw → Result Value)
    → (ℕ → ℤ)
    → Transport
    → (ℕ → Value)
    → ℕ
    → Client
    → RpcFunc
    → List Arg
    → Option Returned
unfolding attempts
handle_rpc_call zero_of decode_value durf transport chan fuel c fn args =
    let id = next_id c in
    elim (encode_params c.param_encoders (drop fn.has_ctx args)) [
      | err f ↦
          some (record { outs = process_error zero_of fn (send_request_failed f); sleeps = [] })
      | ok params ↦
          let req : CallRequest = record {
            jsonrpc = version;
            id = id;
            method = method_name c fn;
            params = params;
          } in
          attempts zero_of fn decode_value durf call_backoff id (transport req) chan fuel 0
    ]
