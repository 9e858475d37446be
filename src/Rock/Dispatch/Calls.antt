-- ===== src/Rock/Dispatch/Calls.antt =====
-- A call of the HTTP client against the HTTP handler, and when the handler panics (rockfmw).
use mathlib.Core.Option.{some-injective}
use hggutils.Common.{
  ℕ, ◌≡◌, refl, sym, ap, ◌∙◌, inl, inr, false, List, [], ◌∷◌, ◌++◌, Option, none, some,
  Option-cases, ◌==◌, if◌then◌else◌, All,
}
use hggutils.Common.Text.{
  Text, codes, text_key, text_beq, to_lower, split, Lacks, split-lacking, split-sep,
}
use hggutils.Rpc.Message.{Raw, Fault, plain, Result, ok, err, Value}
use hggutils.Rock.Registry.{
  ArgType, Method, Receiver, ServiceMethod, Service, ServiceMap, suitable, service_name, register,
  get,
}
use hggutils.Rock.Registry.Lookup.{LeavesAlone, service_of, get-register_self}
use hggutils.Rock.Dispatch.{
  ServerRequest, RpcRsp, write_response, read_request, call_found, call_rpc, get_from, response_to,
  http_ran, route, http_handler, join, call_path, read_response, client_call,
}

call_path-dotted :
    (n x : Text) → Lacks b'.' n → Lacks b'.' x → call_path (n ++ b'.' ∷ x) ≡ b'/' ∷ n ++ b'/' ∷ x
unfolding call_path join
call_path-dotted n x ln lx = rw (split-sep b'.' n x ln, split-lacking b'.' x lx)

split-path :
    (n x : Text) → Lacks b'/' n → Lacks b'/' x → split b'/' (b'/' ∷ n ++ b'/' ∷ x) ≡ [] ∷ n ∷ x ∷ []
split-path n x ln lx =
    split-sep b'/' [] (n ++ b'/' ∷ x) tt
    ∙ ap (◌∷◌ []) (split-sep b'/' n x ln ∙ ap (◌∷◌ n) (split-lacking b'/' x lx))

read_response-response_to :
    (text_of : Fault → Text) (id : Text) (w : Value) (e : Option Fault)
    → read_response (response_to text_of id (w, e))
      ≡ elim e [ none ↦ ok w | some f ↦ if text_of f == [] then ok w else err (plain (text_of f)) ]
unfolding response_to text_beq
read_response-response_to text_of id w none = refl
read_response-response_to text_of id w (some f) = refl

module _ (text_of : Fault → Text) (decode_args : ArgType → Raw → Result Value)
    (decode_request : Raw → Result ServerRequest) where
  -- The request that a path makes of a decoded body.
  http_handler-posted :
      (services : ServiceMap) (n x : Text) (body : Raw) (req : ServerRequest)
      → decode_request body ≡ ok req
      → Lacks b'/' n
      → Lacks b'/' x
      → http_handler text_of decode_args decode_request
          (some services)
          (codes "POST")
          (b'/' ∷ n ++ b'/' ∷ x)
          (ok body)
        ≡ http_ran text_of req.id
            (call_rpc decode_args (some services) (record req { method = n ++ b'.' ∷ x }))
  unfolding http_handler route text_beq
  http_handler-posted services n x body req e ln lx = rw (e, split-path n x ln lx, route)

  read_request-some :
      (t : ArgType) (req : ServerRequest) (raw : Raw) (args : Value)
      → req.params ≡ some raw
      → decode_args t raw ≡ ok args
      → read_request decode_args t req ≡ ok args
  unfolding read_request
  read_request-some t req raw args p d = elim (Option-cases req.params) [
    | inl e ↦ cc
    | inr (other, e) ↦
        rw (e, read_request) (ap (decode_args t) (some-injective _ _ (sym e ∙ p)) ∙ d)
  ]

  call_found-read :
      (t : Service) (s : ServiceMethod) (req : ServerRequest) (args : Value)
      → read_request decode_args s.args_type req ≡ ok args
      → call_found decode_args t s req ≡ s.method.body t.rcvr args
  call_found-read t s req args e = rw (call_found, e)

  pub call_rpc-found :
      (services : ServiceMap) (req : ServerRequest) (t : Service) (s : ServiceMethod) (raw : Raw)
      (args : Value)
      → get services req.method ≡ ok (t, s)
      → req.params ≡ some raw
      → decode_args s.args_type raw ≡ ok args
      → call_rpc decode_args (some services) req ≡ s.method.body t.rcvr args
  unfolding call_rpc get_from read_request
  call_rpc-found services req t s raw args g p d =
      rw (g, call_rpc, get_from)
        (call_found-read t s req args (read_request-some s.args_type req raw args p d))

  module _ (encode_params : Value → Raw) (decode_response : Raw → Result RpcRsp)
      (transport : Text → Raw → Result (ℕ × Result Raw)) (encode_response : RpcRsp → Raw)
      (services : ServiceMap) where
    -- The transport carries a single response of the handler to the client, with the status 200.
    abbrev pub Delivers : Type 0
    Delivers =
        (path : Text) (body : Raw) (rsp : RpcRsp)
        → http_handler text_of decode_args decode_request (some services) (codes "POST") path
            (ok body)
          ≡ write_response rsp ∷ []
        → transport path body ≡ ok (200, ok (encode_response rsp))

    -- A call of the client reaches the registered method and brings its answer. The services are those
    -- after the receiver is registered under n, with a suitable method m of the name x that no later
    -- one replaces; the method calls done once. Then Call("n.x") returns the value that done was given,
    -- or, if its error has a text, an error with just that text. The names have neither dots nor
    -- slashes, the codecs undo each other on the request and the response, the decoder reads the
    -- arguments, and the transport delivers a single response.
    pub client_call-register :
        (old_services : ServiceMap) (r : Receiver) (name n x : Text) (before after : List Method)
        (m : Method) (s : ServiceMethod) (arg args w : Value) (e : Option Fault)
        (req : ServerRequest) (raw : Raw)
        → service_name r name ≡ ok n
        → register old_services r name ≡ ok services
        → r.methods ≡ before ++ m ∷ after
        → suitable m ≡ some s
        → All (LeavesAlone (to_lower m.name)) after
        → to_lower x ≡ to_lower m.name
        → Lacks b'.' n
        → Lacks b'.' x
        → Lacks b'/' n
        → Lacks b'/' x
        → decode_request (encode_params arg) ≡ ok req
        → req.params ≡ some raw
        → decode_args s.args_type raw ≡ ok args
        → s.method.body r.value args ≡ record { done_calls = (w, e) ∷ []; panicked = false }
        → Delivers
        → decode_response (encode_response (response_to text_of req.id (w, e)))
          ≡ ok (response_to text_of req.id (w, e))
        → client_call encode_params decode_response transport (n ++ b'.' ∷ x) arg ≡ elim e [
          | none ↦ ok w
          | some f ↦ if text_of f == [] then ok w else err (plain (text_of f))
        ]
    unfolding client_call response_to text_beq
    client_call-register old_services r name n x before after m s arg args w e req raw en reg ms es
          later low ln lx sn sx dreq dparams dargs ran delivers undo =
        let found =
          get-register_self old_services services r name n x before after m s en reg ms es later low
            ln lx in
        let served =
          http_handler-posted services n x (encode_params arg) req dreq sn sx
          ∙ ap (http_ran text_of req.id) (
              call_rpc-found services (record req { method = n ++ b'.' ∷ x }) (service_of r n) s raw
                args found dparams dargs
              ∙ ran) in
        let got =
          delivers (b'/' ∷ n ++ b'/' ∷ x) (encode_params arg) (response_to text_of req.id (w, e))
            served in
        rw (call_path-dotted n x ln lx, client_call, got, undo)
          (read_response-response_to text_of req.id w e)
