-- ===== src/Rock/Dispatch/Tests.antt =====
-- Runs of package rockfmw: a service, its registration, a call over HTTP and a message.
use hggutils.Common.{
  ℕ, ap, Bool-cases, eqb, eqb_iff, ◌≡◌, refl, ◌↔◌, inl, inr, Bool, true, false, List, [], ◌∷◌,
  Option, none, some, if◌then◌else◌,
}
use hggutils.Common.Text.{Text, codes, text_key, text_beq, to_lower, split, Lacks}
use hggutils.Common.Dict.{Dict, find, delete, put}
use hggutils.Rpc.Message.{
  Raw, Fault, plain, already_defined, Result, ok, err, Value, json_value, receiver_value,
}
use hggutils.Rock.Registry.{
  ArgType, pointer, done_handle, named, Method, Receiver, ServiceMethod, ServiceMap, suitable,
  collect, is_exported, is_exported_or_builtin, service_name, register, get, find_parts,
}
use hggutils.Rock.Dispatch.{
  ServerRequest, RpcRsp, HttpEffect, write_response, WsMethodHandle, http_handler, route, call_rpc,
  get_from, crash, read_request, response_to, client_call,
}
use hggutils.Rock.Dispatch.Calls.{Delivers, client_call-register}
use hggutils.Rock.Dispatch.Panics.{NeverPanics, PanicsAt, crashes, http_handler-crashes}

-- func (r) Echo(args *Args, done DoneHandle), which calls done(args, nil)
abbrev pub echo : Method
echo = record {
  name = codes "Echo";
  pkg_path = [];
  ins =
      pointer (named (codes "T") (codes "p"))
      ∷ pointer (named (codes "Args") (codes "p"))
      ∷ done_handle
      ∷ [];
  body = λ r args. record { done_calls = (args, none) ∷ []; panicked = false };
}

abbrev pub echo_service : ServiceMethod
echo_service = record { method = echo; args_type = named (codes "Args") (codes "p") }

abbrev pub receiver : Receiver
receiver = record { value = receiver_value 0; type_name = codes "T"; methods = echo ∷ [] }

abbrev pub no_services : ServiceMap
no_services = []

abbrev pub demo : ServiceMap
demo =
    (
      codes "demo",
      record {
        name = codes "demo";
        rcvr = receiver_value 0;
        methods = (codes "echo", echo_service) ∷ [];
      },
    )
    ∷ []

abbrev pub lacks : ℕ → Text → Bool
lacks sep [] = true
lacks sep (c ∷ s) = if eqb c sep then false else lacks sep s

pub lacks-Lacks : (sep : ℕ) (s : Text) → lacks sep s ≡ true → Lacks sep s
lacks-Lacks sep [] h = tt
lacks-Lacks sep (c ∷ s) h = elim (Bool-cases (eqb c sep)) [
  | inl e ↦ cc (rw e at h)
  | inr e ↦ ((λ same. cc ((eqb_iff c sep).1 same)), lacks-Lacks sep s (rw e at h))
]

-- The definitions of a registration.
registry_run : Unit {0}
unfolding register service_name collect suitable is_exported is_exported_or_builtin text_beq
    to_lower find put delete
registry_run = tt

pub registers_demo : register [] receiver (codes "demo") ≡ ok demo
unfolding registry_run
registers_demo = refl

twice_run : register demo receiver (codes "demo") ≡ err (already_defined (codes "demo"))
unfolding registry_run
twice_run = refl

-- A body is the argument itself, and so is the JSON text of a response's value.
abbrev decode_request : Raw → Result ServerRequest
decode_request raw = ok (record { method = []; id = []; params = some raw })

abbrev pub decode_args : ArgType → Raw → Result Value
decode_args t raw = ok (json_value raw)

abbrev pub no_text : Fault → Text
no_text f = []

abbrev raw_of : Value → Raw
raw_of (json_value raw) = raw
raw_of _ = []

http_run :
    http_handler no_text decode_args decode_request
      (some demo)
      (codes "POST")
      (codes "/demo/Echo")
      (ok (7 ∷ []))
    ≡ write_response (record { id = []; msg = []; payload = json_value (7 ∷ []) }) ∷ []
unfolding registry_run http_handler route call_rpc get_from read_request response_to get split
http_run = refl

find_parts-no_services :
    (dotted : Text) (parts : List Text)
    → (f : Fault) × (find_parts no_services dotted parts ≡ err f)
unfolding find
find_parts-no_services dotted [] = (_, refl)
find_parts-no_services dotted (a ∷ []) = (_, refl)
find_parts-no_services dotted (a ∷ b ∷ []) = (_, refl)
find_parts-no_services dotted (a ∷ b ∷ c ∷ rest) = (_, refl)

pub no_services-NeverPanics : NeverPanics no_text decode_args decode_request no_services
unfolding call_rpc get_from get
no_services-NeverPanics req =
    let (f, e) = find_parts-no_services req.method (split b'.' req.method) in
    rw (call_rpc, get_from, get, e)

-- The services of a server over HTTP that the package has not made
http_handler-crashes_example :
    (crashes (
        http_handler no_text decode_args decode_request none
          (codes "POST")
          (codes "/demo/Echo")
          (ok (7 ∷ [])))
      ≡ true)
    ↔ ((codes "POST" ≡ codes "POST")
        × ((raw : Raw) × (req : ServerRequest) × (ok (7 ∷ []) ≡ ok raw)
            × (decode_request raw ≡ ok req)
            × PanicsAt no_text decode_args decode_request none (split b'/' (codes "/demo/Echo"))))
http_handler-crashes_example =
    http_handler-crashes no_text decode_args decode_request none (codes "POST") (codes "/demo/Echo")
      (ok (7 ∷ [])) (λ m e. cc e)

nil_services_run :
    http_handler no_text decode_args decode_request none
      (codes "POST")
      (codes "/demo/Echo")
      (ok (7 ∷ []))
    ≡ crash ∷ []
unfolding registry_run http_handler route call_rpc get_from split
nil_services_run = refl

-- A handler for the method "", which fails.
abbrev failing : Dict Text (Option WsMethodHandle)
failing = ([], some (λ req. some (plain (codes "no")))) ∷ []

abbrev encode_response : RpcRsp → Raw
encode_response rsp = raw_of rsp.payload

abbrev decode_response : Raw → Result RpcRsp
decode_response raw = ok (record { id = []; msg = []; payload = json_value raw })

abbrev deliver : List HttpEffect → Result (ℕ × Result Raw)
deliver (write_response rsp ∷ []) = ok (200, ok (encode_response rsp))
deliver _ = err (plain (codes "no response"))

abbrev transport : Text → Raw → Result (ℕ × Result Raw)
transport path body =
    deliver
      (http_handler no_text decode_args decode_request (some demo) (codes "POST") path (ok body))

transport-Delivers :
    Delivers no_text decode_args decode_request raw_of decode_response transport encode_response
      demo
transport-Delivers path body rsp e = ap deliver e

client_call-register_example :
    client_call raw_of decode_response transport (codes "demo.echo") (json_value (7 ∷ []))
    ≡ ok (json_value (7 ∷ []))
unfolding registry_run response_to
client_call-register_example =
    client_call-register no_text decode_args decode_request raw_of decode_response transport
      encode_response demo [] receiver (codes "demo") (codes "demo") (codes "echo") [] [] echo
      echo_service (json_value (7 ∷ [])) (json_value (7 ∷ [])) (json_value (7 ∷ [])) none
      (record { method = []; id = []; params = some (7 ∷ []) }) (7 ∷ []) refl registers_demo refl
      refl tt refl (lacks-Lacks b'.' (codes "demo") refl) (lacks-Lacks b'.' (codes "echo") refl)
      (lacks-Lacks b'/' (codes "demo") refl) (lacks-Lacks b'/' (codes "echo") refl) refl refl refl
      refl transport-Delivers refl
