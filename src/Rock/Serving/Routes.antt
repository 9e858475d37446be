-- ===== src/Rock/Serving/Routes.antt =====
-- What the routes of rockfmw's servers let through to HTTPHandler (rpc_abstract.go, rpc_ws_server.go).
use hggutils.Common.{
  ◌≡◌, ◌≢◌, ◌⊎◌, inl, inr, sym, subst, List, some, ap, ◌∙◌, Bool, true, false, [], ◌∷◌, ◌++◌,
  length, if◌then◌else◌, Bool-cases,
}
use mathlib.Core.Option.{some-injective}
use hggutils.Common.Text.{Text, text_key, split, Lacks, split-sep, split-lacking}
use hggutils.Rpc.Message.{Raw, Fault, Result, Value}
use hggutils.Rock.Registry.{ArgType, ServiceMap}
use hggutils.Rock.Dispatch.{ServerRequest, HttpEffect, http_handler}
use hggutils.Rock.Dispatch.Panics.{crashes, NeverPanics, http_handler-crashes}
use hggutils.Rock.Serving.{
  Server, service_pattern, ws_pattern, handled, upgraded, not_found, serve_ws, serve_http,
}

-- A path of a service and a method
abbrev pub IsServicePath : Text → Type 0
IsServicePath path =
    (server : Text) × (method : Text) × (path ≡ b'/' ∷ server ++ b'/' ∷ method)
    × Lacks b'/' server
    × Lacks b'/' method

-- The router matches the pattern of services with such paths alone.
abbrev pub IsRouter : (Text → Text → Bool) → Type 0
IsRouter matches = (path : Text) → matches service_pattern path ≡ true → IsServicePath path

split-IsServicePath : (path : Text) → IsServicePath path → length (split b'/' path) ≡ 3
split-IsServicePath path (server, method, e, l, l') =
    ap (λ p. length (split b'/' p)) e
    ∙ ap length (
        split-sep b'/' [] (server ++ b'/' ∷ method) tt
        ∙ ap (λ p. [] ∷ p)
            (split-sep b'/' server method l ∙ ap (λ p. server ∷ p) (split-lacking b'/' method l')))

module _ (matches : Text → Text → Bool) (text_of : Fault → Text)
    (decode_args : ArgType → Raw → Result Value) (decode_request : Raw → Result ServerRequest) where
  matched-crashes :
      (services : ServiceMap) (method path : Text) (body : Result Raw)
      → IsServicePath path
      → NeverPanics text_of decode_args decode_request services
      → crashes (http_handler text_of decode_args decode_request (some services) method path body)
        ≡ false
  matched-crashes services method path body served never =
      elim (Bool-cases (
        crashes
          (http_handler text_of decode_args decode_request (some services) method path body))) [
            | inr e ↦ e
            | inl e ↦
                let (_, (_, _, _, _, n)) =
                  (http_handler-crashes text_of decode_args decode_request (some services) method
                      path body
                      (λ m e.
                        subst (NeverPanics text_of decode_args decode_request)
                          (some-injective services m e) never)).0
                    e in
                elim n [ inl n ↦ absurd (n (split-IsServicePath path served)) | inr (nil, _) ↦ cc ]
          ]

  handled_of : (es fs : List HttpEffect) → handled es ≡ handled fs → es ≡ fs
  handled_of es fs h = cc

  unrouted : (b : Bool) (es : List HttpEffect) → (if b then upgraded else not_found) ≢ handled es
  unrouted true es h = cc
  unrouted false es h = cc

  -- HTTPHandler does not panic behind the routes of a server that has its services. Where the router
  -- matches the pattern of services only with paths of a service and a method, and no registered method
  -- panics, what HTTPHandler does for a request that is routed to it, with any method, path and
  -- body, is no panic, for a server over HTTP and for one over HTTP and websocket: the router keeps the
  -- paths away for which HTTPHandler asks a nil error for its text. The services of a server over HTTP
  -- are not nil here; websocketHandler is not looked at.
  pub serve-crashes :
      (s : Server) (method path : Text) (body : Result Raw) (es : List HttpEffect)
      → IsRouter matches
      → NeverPanics text_of decode_args decode_request s.services
      → (serve_http matches text_of decode_args decode_request (some s.services) method path body
          ≡ handled es)
        ⊎ (serve_ws matches text_of decode_args decode_request s method path body ≡ handled es)
      → crashes es ≡ false
  unfolding serve_http serve_ws
  serve-crashes s method path body es router never h =
      elim (Bool-cases (matches service_pattern path)) [
        | inl e ↦
            let fine = matched-crashes s.services method path body (router path e) never in
            elim h [
              | inl q ↦ ap crashes (sym (handled_of _ es (rw (e, serve_http) at q))) ∙ fine
              | inr q ↦ ap crashes (sym (handled_of _ es (rw (e, serve_ws) at q))) ∙ fine
            ]
        | inr e ↦ elim h [
          | inl q ↦ cc (rw (e, serve_http) at q)
          | inr q ↦ absurd (unrouted (matches ws_pattern path) es (rw (e, serve_ws) at q))
        ]
      ]
