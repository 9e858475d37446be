-- ===== src/Rpc/Client/SetupTests.antt =====
-- The options and the set-up of a client of jsonrpc/client.go at concrete inputs, and the theorems at
-- them.
use hggutils.Common.{ℕ, ◌≡◌, ◌↔◌, refl, true, false, List, [], ◌∷◌, ◌++◌, none, some}
use hggutils.Common.Int.{pos}
use hggutils.Common.Text.{codes, text_beq}
use hggutils.Common.Dict.{find, put, delete}
use hggutils.Rpc.Message.{
  Raw, plain, Result, ok, err, unknown_scheme, named, error_type, FuncType, type_key, Request,
  type_beq, process_func_out, out_places,
}
use hggutils.Rpc.Client.{ParamEncoder, StructField, RpcFunc, make_rpc_func}
use hggutils.Rpc.Client.Options.{
  ClientOption, with_ping_interval, with_timeout, with_reconnect_backoff, with_param_encoder,
  configure, default_config, apply_option, with_max_request_size, make_server,
  default_server_config, apply_server_option,
}
use hggutils.Rpc.Client.Setup.{
  Handler, nil_struct, provide_nil, crashes, not_a_struct, struct, provide, provide_fields,
  is_exported_field, failed, http_client, client_link, websocket_client, connect, new_merge_client,
}
use hggutils.Rpc.Client.Provide.{Makes, all_fields, provide_iff, no_reconnect-Settled}
use hggutils.Rpc.Server.Register.{new_server}
use hggutils.Rpc.Link.{Link, new_link, cancels_ctx}
use hggutils.Rpc.Link.Step.{step, start, next}
use hggutils.Rpc.Link.Final.{IsSettled}

abbrev ask_type : FuncType
ask_type = record { ins = []; outs = named (codes "string") ∷ error_type ∷ [] }

abbrev ask_field : StructField
ask_field = record { name = codes "Ask"; typ = some ask_type; alias_tag = []; retry_tag = [] }

abbrev ask_func : RpcFunc
ask_func = record {
  ftyp = ask_type;
  name = codes "Ask";
  nout = 2;
  val_out = some 0;
  err_out = some 1;
  has_ctx = 0;
  returns_chan = false;
  retry = false;
}

setup_run : Unit {0}
unfolding make_rpc_func process_func_out out_places text_beq type_beq configure default_config
    apply_option provide provide_fields is_exported_field http_client client_link websocket_client
    connect new_merge_client new_link find put delete make_server default_server_config
    apply_server_option new_server step
setup_run = tt

abbrev encoder : ParamEncoder
encoder v = ok v

abbrev options : List ClientOption
options =
    with_ping_interval (pos 5)
    ∷ with_param_encoder error_type encoder
    ∷ with_reconnect_backoff (pos 1) (pos 2)
    ∷ with_ping_interval (pos 0)
    ∷ []

configured : (configure options).ping_interval ≡ pos 0
unfolding setup_run
configured = refl

-- The options of a server
server_size : (make_server (with_max_request_size (pos 7) ∷ [])).max_request_size ≡ pos 7
unfolding setup_run
server_size = refl

abbrev handlers : List Handler
handlers = struct (ask_field ∷ []) ∷ struct [] ∷ struct (ask_field ∷ []) ∷ []

provide_iff_example :
    (provide handlers ≡ record { functions = ask_func ∷ ask_func ∷ []; failure = none }) ↔ (
      (fields : List StructField) × (all_fields handlers ≡ some fields)
      × Makes fields (ask_func ∷ ask_func ∷ []))
provide_iff_example = provide_iff handlers (ask_func ∷ ask_func ∷ [])

-- A nil pointer to a struct with a field is a panic.
nil_run : (provide (nil_struct (ask_field ∷ []) ∷ [])).failure ≡ some crashes
unfolding setup_run provide_nil
nil_run = refl

-- A handler that is refused leaves the connection open whose goroutines have started.
refused_open :
    new_merge_client (ok (codes "ws")) none [] (struct (ask_field ∷ []) ∷ not_a_struct ∷ []) []
    ≡ failed (plain (codes "handler should be a struct")) (some (new_link true false true false))
unfolding setup_run
refused_open = refl

unknown :
    new_merge_client (ok (codes "ftp")) none [] [] [] ≡ failed (unknown_scheme (codes "ftp")) none
unfolding setup_run
unknown = refl

abbrev number : Raw → Result ℕ
number (n ∷ []) = ok n
number _ = err (plain (codes "not a number"))

abbrev text_of : Request → Raw
text_of r = r.method

abbrev once_link : Link
once_link = new_link true true true false

no_reconnect-Settled_example : IsSettled (record once_link { ctx_done = true })
unfolding setup_run
no_reconnect-Settled_example =
    no_reconnect-Settled number number text_of (codes "wss") (codes "Demo") none handlers
      (with_timeout (pos 1) ∷ []) (with_ping_interval (pos 9) ∷ [])
      (record { namespace = codes "Demo"; param_encoders = []; id_ctr = 0 }) once_link
      (record once_link { ctx_done = true }) (ask_func ∷ ask_func ∷ []) ([] ++ []) refl
      (next start cancels_ctx [] refl)
