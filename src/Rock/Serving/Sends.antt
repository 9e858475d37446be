-- ===== src/Rock/Serving/Sends.antt =====
-- A message of the websocket client against the server's OnMessage (rockfmw/rpc_ws_client.go,
-- rpc_abstract.go).
use hggutils.Common.{
  ◌≡◌, refl, sym, ap, ◌∙◌, inl, inr, Bool, true, false, List, [], ◌∷◌, ◌++◌, Option, none, some,
  All,
}
use hggutils.Common.Text.{Text, text_key, to_lower, Lacks}
use hggutils.Common.Dict.{find}
use hggutils.Rpc.Message.{Raw, Fault, Result, ok, err, Result-cases, Value}
use hggutils.Rock.Registry.{
  ArgType, Method, Receiver, ServiceMethod, ServiceMap, suitable, service_name, register, get,
}
use hggutils.Rock.Registry.Lookup.{LeavesAlone, service_of, get-register_self}
use hggutils.Rock.Dispatch.{
  ServerRequest, write_json, response_to, call_rpc, handle_message, on_message, ws_ran,
}
use hggutils.Rock.Dispatch.Calls.{call_rpc-found}
use hggutils.Rock.Serving.{Server, register_service, WsClient, new_ws_client, run, send}

abbrev services_of : Result Server → ServiceMap
services_of (ok s) = s.services
services_of (err _) = []

registered-services :
    (old s : Server) (r : Receiver) (name : Text)
    → register_service old r name ≡ ok s
    → register old.services r name ≡ ok s.services
unfolding register_service
registered-services old s r name h = elim (Result-cases (register old.services r name)) [
  | inr (f, e) ↦ absurd (cc (rw (e, register_service) at h))
  | inl (services, e) ↦ e ∙ ap ok (ap services_of (rw (e, register_service) at h))
]

abbrev connected_of : Result WsClient → Bool
connected_of (ok c) = c.connected
connected_of (err _) = true

run-connected : (c client : WsClient) → run c none ≡ ok client → client.connected ≡ true
unfolding run
run-connected c client h = sym (ap connected_of h)

module _ (text_of : Fault → Text) (decode_args : ArgType → Raw → Result Value)
    (decode_request : Raw → Result ServerRequest) (encode_message : Text → Value → Raw) where
  handle_message-unhandled :
      (s : Server) (req : ServerRequest)
      → find req.method s.mct ≡ none
      → handle_message text_of decode_args decode_request (some s.services) s.mct req
        ≡ (ws_ran text_of req.id (call_rpc decode_args (some s.services) req), none)
  unfolding handle_message
  handle_message-unhandled s req e = rw (e, handle_message) refl

  -- A message of a client reaches the registered method and is answered once. The server has registered
  -- the receiver under n, with a suitable method m of the name x that no later one replaces, and no
  -- special handler for "n.x"; the method calls done once. Then what Send writes on a connected client
  -- for "n.x" makes OnMessage write one response, with the value and the error that done was given,
  -- and return no error. The names have no dots, and the server decodes what the client encodes.
  pub send-register :
      (client : WsClient) (url : Text) (old s : Server) (r : Receiver) (name n x : Text)
      (before after : List Method) (m : Method) (t : ServiceMethod) (arg args w : Value)
      (e : Option Fault) (req : ServerRequest) (raw : Raw)
      → run (new_ws_client url) none ≡ ok client
      → service_name r name ≡ ok n
      → register_service old r name ≡ ok s
      → r.methods ≡ before ++ m ∷ after
      → suitable m ≡ some t
      → All (LeavesAlone (to_lower m.name)) after
      → to_lower x ≡ to_lower m.name
      → Lacks b'.' n
      → Lacks b'.' x
      → find (n ++ b'.' ∷ x) s.mct ≡ none
      → decode_request (encode_message (n ++ b'.' ∷ x) arg) ≡ ok req
      → req.method ≡ n ++ b'.' ∷ x
      → req.params ≡ some raw
      → decode_args t.args_type raw ≡ ok args
      → t.method.body r.value args ≡ record { done_calls = (w, e) ∷ []; panicked = false }
      → (msg : Raw) × (send encode_message client (n ++ b'.' ∷ x) arg ≡ some msg)
        × (on_message text_of decode_args decode_request (some s.services) s.mct msg
            ≡ (write_json (response_to text_of req.id (w, e)) ∷ [], none))
  unfolding send on_message
  send-register client url old s r name n x before after m t arg args w e req raw c en reg ms es
        later low ln lx special dreq dmethod dparams dargs ran =
      let found =
        get-register_self old.services s.services r name n x before after m t en
          (registered-services old s r name reg) ms es later low ln lx in
      let called =
        call_rpc-found text_of decode_args decode_request s.services req (service_of r n) t raw args
          (ap (get s.services) dmethod ∙ found) dparams dargs
        ∙ ran in
      (
        encode_message (n ++ b'.' ∷ x) arg,
        rw (run-connected (new_ws_client url) client c) refl,
        rw (dreq, on_message)
            (handle_message-unhandled s req (ap (λ k. find k s.mct) dmethod ∙ special)
              ∙ ap (λ ran. (ws_ran text_of req.id ran, none)) called),
      )
