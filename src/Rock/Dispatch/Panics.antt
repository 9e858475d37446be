-- ===== src/Rock/Dispatch/Panics.antt =====
-- Which requests make HTTPHandler panic, and which messages OnMessage returns an error for
-- (rockfmw/rpc_abstract.go).
use hggutils.Common.{
  ◌≡◌, refl, ap, ◌∙◌, ◌≢◌, ◌↔◌, ◌⊎◌, inl, inr, Bool, true, false, List, [], ◌∷◌, ◌++◌, map, Option,
  none, some, eqb, eqb_iff, arith, Option-cases, Bool-cases, ◌==◌, length,
}
use hggutils.Common.Text.{Text, codes, text_key, text_beq_iff, split}
use hggutils.Common.Dict.{Dict, find}
use hggutils.Rpc.Message.{Raw, Fault, Result, ok, Result-cases, Value}
use hggutils.Rock.Registry.{ArgType, Ran, ServiceMap}
use hggutils.Rock.Dispatch.{
  ServerRequest, HttpEffect, write_response, crash, WsMethodHandle, call_rpc, response_to, http_ran,
  get_from, route, http_handler, handle_message, on_message,
}

abbrev pub crashes : List HttpEffect → Bool
crashes [] = false
crashes (crash ∷ es) = true
crashes (_ ∷ es) = crashes es

written-crashes :
    (text_of : Fault → Text) (id : Text) (ds : List (Value × Option Fault))
    → crashes (map (λ d. write_response (response_to text_of id d)) ds ++ []) ≡ false
written-crashes text_of id [] = refl
written-crashes text_of id (d ∷ ds) = written-crashes text_of id ds

http_ran-crashes :
    (text_of : Fault → Text) (id : Text) (ran : Ran)
    → ran.panicked ≡ false
    → crashes (http_ran text_of id ran) ≡ false
http_ran-crashes text_of id ran h = rw h (written-crashes text_of id ran.done_calls)

panicked-crashes :
    (text_of : Fault → Text) (id : Text) (ds : List (Value × Option Fault))
    → crashes (map (λ d. write_response (response_to text_of id d)) ds ++ crash ∷ []) ≡ true
panicked-crashes text_of id [] = refl
panicked-crashes text_of id (d ∷ ds) = panicked-crashes text_of id ds

module _ (text_of : Fault → Text) (decode_args : ArgType → Raw → Result Value)
    (decode_request : Raw → Result ServerRequest) where
  -- The methods of these services return.
  abbrev pub NeverPanics : ServiceMap → Type 0
  NeverPanics services =
      (req : ServerRequest) → (call_rpc decode_args (some services) req).panicked ≡ false

  module _ (services : Option ServiceMap) where
    -- The parts of a path for which HTTPHandler panics: not three of them; or, where the services are nil,
    -- three with a method's name that has no further dots.
    abbrev pub PanicsAt : List Text → Type 0
    PanicsAt parts =
        (length parts ≢ 3)
        ⊎ ((services ≡ none)
            × ((before : Text) × (server : Text) × (method : Text) × (parts
                  ≡ before ∷ server ∷ method ∷ [])
                × (length (split b'.' (server ++ b'.' ∷ method)) ≡ 2)))

    abbrev pub MethodsReturn : Type 0
    MethodsReturn = (m : ServiceMap) → services ≡ some m → NeverPanics m

    abbrev asked : ServerRequest → Text → Text → ServerRequest
    asked req server method = record req { method = server ++ b'.' ∷ method }

    three_parts : {a b c d e f : Text} → a ∷ b ∷ c ∷ [] ≡ d ∷ e ∷ f ∷ [] → (b ≡ e) × (c ≡ f)
    three_parts h = (cc, cc)

    returned-crashes :
        (req : ServerRequest) (m : ServiceMap)
        → services ≡ some m
        → NeverPanics m
        → crashes (http_ran text_of req.id (call_rpc decode_args services req)) ≡ false
    returned-crashes req m e never =
        http_ran-crashes text_of req.id (call_rpc decode_args services req)
          (ap (λ s. (call_rpc decode_args s req).panicked) e ∙ never req)

    nil-crashes :
        (req : ServerRequest)
        → services ≡ none
        → (crashes (http_ran text_of req.id (call_rpc decode_args services req)) ≡ true)
          ↔ (length (split b'.' req.method) ≡ 2)
    unfolding call_rpc get_from
    nil-crashes req e = elim (Bool-cases (eqb (length (split b'.' req.method)) 2)) [
      | inl q ↦ (
        (λ h. (eqb_iff (length (split b'.' req.method)) 2).0 q),
        λ h. rw (e, call_rpc, get_from, q) refl,
      )
      | inr q ↦ (
        (λ h. cc (rw (e, call_rpc, get_from, q) at h)),
        λ h. cc ((eqb_iff (length (split b'.' req.method)) 2).1 h),
      )
    ]

    route-three :
        (req : ServerRequest) (a b c : Text)
        → MethodsReturn
        → (crashes (http_ran text_of req.id (call_rpc decode_args services (asked req b c))) ≡ true)
          ↔ PanicsAt (a ∷ b ∷ c ∷ [])
    route-three req a b c return = elim (Option-cases services) [
      | inl e ↦ (
        (λ h. inr (e, (a, b, c, refl, (nil-crashes (asked req b c) e).0 h))),
        λ h. elim h [
          | inl n ↦ absurd (n refl)
          | inr (_, (a', b', c', same, two)) ↦
              let (p, q) = three_parts same in
              (nil-crashes (asked req b c) e).1 (
                ap (λ b. length (split b'.' (b ++ b'.' ∷ c))) p
                ∙ ap (λ c. length (split b'.' (b' ++ b'.' ∷ c))) q
                ∙ two)
        ],
      )
      | inr (m, e) ↦ (
        (λ h. cc (returned-crashes (asked req b c) m e (return m e))),
        λ h. elim h [ inl n ↦ absurd (n refl) | inr (e', _) ↦ cc ],
      )
    ]

    route-crashes :
        (req : ServerRequest) (parts : List Text)
        → MethodsReturn
        → (crashes (route text_of decode_args decode_request services req parts) ≡ true)
          ↔ PanicsAt parts
    unfolding route
    route-crashes req [] return = ((λ h. inl λ e. omega arith), λ h. refl)
    route-crashes req (a ∷ []) return = ((λ h. inl λ e. omega arith), λ h. refl)
    route-crashes req (a ∷ b ∷ []) return = ((λ h. inl λ e. omega arith), λ h. refl)
    route-crashes req (a ∷ b ∷ c ∷ []) return = route-three req a b c return
    route-crashes req (a ∷ b ∷ c ∷ d ∷ rest) return = ((λ h. inl λ e. omega arith), λ h. refl)

    -- Where no registered method panics, HTTPHandler panics exactly on a POST with a body that is read and
    -- decodes, and either a path that is not of three parts, for which it asks a nil error for its
    -- text, or, if the services of the server are nil, one of three parts that name a method with no
    -- further dot.
    pub http_handler-crashes :
        (method path : Text) (body : Result Raw)
        → MethodsReturn
        → (crashes (http_handler text_of decode_args decode_request services method path body)
            ≡ true)
          ↔ ((method ≡ codes "POST")
              × ((raw : Raw) × (req : ServerRequest) × (body ≡ ok raw)
                  × (decode_request raw ≡ ok req)
                  × PanicsAt (split b'/' path)))
    unfolding http_handler
    http_handler-crashes method path body return = elim (Bool-cases (method == codes "POST")) [
      | inr e ↦ (
        (λ h. cc (rw (e, http_handler) at h)),
        λ h. cc ((text_beq_iff method (codes "POST")).1 h.0),
      )
      | inl e ↦ elim (Result-cases body) [
        | inr (f, b) ↦ ((λ h. cc (rw (e, b, http_handler) at h)), λ (p, (raw, req, b', d, n)). cc)
        | inl (raw, b) ↦ elim (Result-cases (decode_request raw)) [
          | inr (f, d) ↦
              ((λ h. cc (rw (e, b, d, http_handler) at h)), λ (p, (raw', req, b', d', n)). cc)
          | inl (req, d) ↦ (
            (λ h. (
              (text_beq_iff method (codes "POST")).0 e,
              (
                raw,
                req,
                b,
                d,
                (route-crashes req (split b'/' path) return).0 (rw (e, b, d, http_handler) at h),
              ),
            )),
            λ (p, (raw', req', b', d', n)).
                rw (e, b, d, http_handler) ((route-crashes req (split b'/' path) return).1 n),
          )
        ]
      ]
    ]

    -- OnMessage returns an error exactly when the handler that is registered for the message's method
    -- does: a message that does not decode, and a call of a service, give none.
    pub on_message-error :
        (mct : Dict Text (Option WsMethodHandle)) (msg : Raw) (f : Fault)
        → ((on_message text_of decode_args decode_request services mct msg).1 ≡ some f) ↔ (
            (req : ServerRequest) × (h : WsMethodHandle) × (decode_request msg ≡ ok req)
            × (find req.method mct ≡ some (some h))
            × (h req ≡ some f))
    unfolding on_message handle_message
    on_message-error mct msg f = elim (Result-cases (decode_request msg)) [
      | inr (g, d) ↦ ((λ h. cc (rw (d, on_message) at h)), λ (req, h, d', n', r). cc)
      | inl (req, d) ↦ elim (Option-cases (find req.method mct)) [
        | inl n ↦
            ((λ h. cc (rw (d, on_message, n, handle_message) at h)), λ (req', h, d', n', r). cc)
        | inr (o, n) ↦ elim (Option-cases o) [
          | inl q ↦ (
            (λ h. cc (rw (d, on_message, n, q, handle_message) at h)),
            λ (req', h, d', n', r). cc,
          )
          | inr (k, q) ↦ (
            (λ h. (req, k, d, rw q at n, rw (d, on_message, n, q, handle_message) at h)),
            λ (req', h, d', n', r). rw (d, on_message, n, q, handle_message) cc,
          )
        ]
      ]
    ]
