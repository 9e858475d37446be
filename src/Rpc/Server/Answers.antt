-- ===== src/Rpc/Server/Answers.antt =====
-- Which answer a request gets: handler.go, from the look-up of the method to the response.
use hggutils.Common.{
  ℕ, ◌≡◌, refl, ◌⊎◌, inl, inr, Bool, false, not, ◌&&◌, ◌||◌, List, [], ◌∷◌, ◌++◌, Option, none,
  some, arith, Bool-cases, Option-cases, eqb, length, is_some,
}
use hggutils.Common.Int.{ℤ, pos}
use hggutils.Common.Text.{Text}
use hggutils.Rpc.Message.{Fault, Result-cases, Value, Request, Response, GoType, fatal_call}
use hggutils.Rpc.Server.{
  RpcHandler, ParamDecoder, RpcServer, Effect, RpcErrFunc, ChanOut, resolve, ErrorOut, no_error,
  no_such_error, not_an_error, an_error, ValueOut, no_value, no_such_value, a_value, Decoded-cases,
  do_call, is_out_chan, respond, respond_error, respond_value, call_params, decode_params,
  call_method, handle_params, handle_found, handle, invoke,
}
use hggutils.Rpc.Server.Effects.{
  responses, registered, crashes, IsErrFunc, responses-append, registered-append, crashes-append,
}

-- A response holds a value or an error, never both.
abbrev pub IsExclusive : Response → Type 0
IsExclusive r = (r.result ≡ none) ⊎ (r.error ≡ none)

-- The one answer to request `i`: a response, or a channel that its forwarder has accepted.
abbrev pub AnsweredOnce : ℕ → Option ChanOut → List Effect → Type 0
AnsweredOnce i ch_out es =
    ((r : Response) × (responses es ≡ r ∷ []) × (r.id ≡ i) × IsExclusive r)
    ⊎ ((v : Value) × (reg : ChanOut) × (responses es ≡ [])
        × (registered es ≡ (v, i) ∷ [])
        × (ch_out ≡ some reg)
        × (reg v i ≡ none))

abbrev pub Answered : Option ℕ → Option ChanOut → List Effect → Type 0
Answered none ch_out es = (responses es ≡ []) × (registered es ≡ [])
Answered (some i) ch_out es = AnsweredOnce i ch_out es

respond_value-AnsweredOnce :
    (h : RpcHandler) (ch_out : Option ChanOut) (i : ℕ) (v : Value)
    → crashes (respond_value h ch_out i (a_value v)) ≡ false
    → AnsweredOnce i ch_out (respond_value h ch_out i (a_value v))
unfolding respond_value
respond_value-AnsweredOnce h none i v safe = elim (Bool-cases (is_out_chan h)) [
  | inl c ↦ cc (rw (c, respond_value) at safe)
  | inr c ↦ rw (c, respond_value) (inl (_, refl, refl, inr refl))
]
respond_value-AnsweredOnce h (some reg) i v safe = elim (Bool-cases (is_out_chan h)) [
  | inl c ↦ elim (Option-cases (reg v i)) [
    | inl e ↦ rw (c, e, respond_value) (inr (v, reg, refl, refl, refl, e))
    | inr (f, e) ↦ rw (c, e, respond_value) (inl (_, refl, refl, inl refl))
  ]
  | inr c ↦ rw (c, respond_value) (inl (_, refl, refl, inr refl))
]

respond_error-AnsweredOnce :
    (h : RpcHandler) (ch_out : Option ChanOut) (i : ℕ) (e : ErrorOut) (v : ValueOut)
    → crashes (respond_error h ch_out i e v) ≡ false
    → AnsweredOnce i ch_out (respond_error h ch_out i e v)
unfolding respond_error respond_value
respond_error-AnsweredOnce h ch_out i no_such_error v safe = cc
respond_error-AnsweredOnce h ch_out i not_an_error v safe = cc
respond_error-AnsweredOnce h ch_out i (an_error f) no_such_value safe = cc
respond_error-AnsweredOnce h ch_out i (an_error f) no_value safe = inl (_, refl, refl, inl refl)
respond_error-AnsweredOnce h ch_out i (an_error f) (a_value v) safe = inl (_, refl, refl, inl refl)
respond_error-AnsweredOnce h ch_out i no_error no_value safe = inl (_, refl, refl, inr refl)
respond_error-AnsweredOnce h ch_out i no_error no_such_value safe = cc
respond_error-AnsweredOnce h ch_out i no_error (a_value v) safe =
    respond_value-AnsweredOnce h ch_out i v safe

respond-Answered :
    (h : RpcHandler) (ch_out : Option ChanOut) (id : Option ℕ) (outs : List Value)
    → crashes (respond h ch_out id outs) ≡ false
    → Answered id ch_out (respond h ch_out id outs)
unfolding respond
respond-Answered h ch_out none outs safe = (refl, refl)
respond-Answered h ch_out (some i) outs safe = respond_error-AnsweredOnce h ch_out i _ _ safe

-- Effects behind an answer that hold none themselves.
Answered-append :
    (id : Option ℕ) (ch_out : Option ChanOut) (es fs : List Effect)
    → responses fs ≡ []
    → registered fs ≡ []
    → Answered id ch_out es
    → Answered id ch_out (es ++ fs)
Answered-append none ch_out es fs p q a =
    (rw (responses-append, p, a.0), rw (registered-append, q, a.1))
Answered-append (some i) ch_out es fs p q (inl (r, a, b, c)) =
    inl (r, rw (responses-append, p, a), b, c)
Answered-append (some i) ch_out es fs p q (inr (v, reg, a, b, c, d)) =
    inr (v, reg, rw (responses-append, p, a), rw (registered-append, q, b), c, d)

Answered-invoke :
    (id : Option ℕ) (ch_out : Option ChanOut) (m : Text) (vs : List Value) (es : List Effect)
    → Answered id ch_out es
    → Answered id ch_out (invoke m vs ∷ es)
Answered-invoke none ch_out m vs es a = a
Answered-invoke (some i) ch_out m vs es a = a

or-false_left : (a b : Bool) → (a || b) ≡ false → a ≡ false
or-false_left a b h = ground arith

module _ (rpc_err : RpcErrFunc) (laws : IsErrFunc rpc_err) (ch_out : Option ChanOut) where
  reported-Answered :
      (id : Option ℕ) (c : ℤ) (f : Fault) (fs : List Effect)
      → responses fs ≡ []
      → registered fs ≡ []
      → Answered id ch_out (rpc_err id c f ++ fs)
  reported-Answered none c f fs p q =
      Answered-append none ch_out (rpc_err none c f) fs p q
        (laws.silent c f, laws.no_registration none c f)
  reported-Answered (some i) c f fs p q =
      Answered-append (some i) ch_out (rpc_err (some i) c f) fs p q
        (inl (_, laws.answers i c f, refl, inl refl))

  module _ (decode_value : GoType → ParamDecoder) (s : RpcServer) (ctx : Value)
      (req : Request) where
    call_method-Answered :
        (h : RpcHandler) (vs : List Value)
        → crashes (call_method decode_value s h ctx req rpc_err ch_out vs) ≡ false
        → Answered req.id ch_out (call_method decode_value s h ctx req rpc_err ch_out vs)
    unfolding call_method
    call_method-Answered h vs safe =
        elim (Result-cases
          (do_call req.method h.handler_func (call_params decode_value s h ctx vs))) [
            | inl (outs, e) ↦
                rw (e, call_method)
                  (Answered-invoke req.id ch_out _ _ _
                    (respond-Answered h ch_out req.id outs (rw (e, call_method) at safe)))
            | inr (f, e) ↦
                rw (e, call_method)
                  (Answered-invoke req.id ch_out _ _ _
                    (reported-Answered req.id (pos 0) (fatal_call req.method f) _ refl refl))
          ]

    handle_params-Answered :
        (h : RpcHandler)
        → crashes (handle_params decode_value s h ctx req rpc_err ch_out) ≡ false
        → Answered req.id ch_out (handle_params decode_value s h ctx req rpc_err ch_out)
    unfolding handle_params
    handle_params-Answered h safe = elim (Bool-cases (not (is_some ch_out) && is_out_chan h)) [
      | inl e ↦ rw (e, handle_params) (reported-Answered req.id _ _ _ refl refl)
      | inr e ↦
          elim (Decoded-cases
            (decode_params decode_value s h.n_params req.method 0 h.param_receivers req.params)) [
              | inl (vs, d) ↦
                  rw (e, d, handle_params)
                    (call_method-Answered h vs (rw (e, d, handle_params) at safe))
              | inr (inl (f, d)) ↦
                  rw (e, d, handle_params) (reported-Answered req.id _ _ _ refl refl)
              | inr (inr d) ↦ cc (rw (e, d, handle_params) at safe)
            ]
    ]

    handle_found-Answered :
        (h : RpcHandler)
        → crashes (handle_found decode_value s h ctx req rpc_err ch_out) ≡ false
        → Answered req.id ch_out (handle_found decode_value s h ctx req rpc_err ch_out)
    unfolding handle_found
    handle_found-Answered h safe = elim (Bool-cases (eqb (length req.params) h.n_params)) [
      | inl e ↦
          rw (e, handle_found)
            (Answered-append req.id ch_out _ _ refl refl (
              handle_params-Answered h
                (or-false_left _ _ (rw (e, handle_found, crashes-append) at safe))))
      | inr e ↦ rw (e, handle_found) (reported-Answered req.id _ _ _ refl refl)
    ]

    pub handle-Answered :
        crashes (handle decode_value s ctx req rpc_err ch_out) ≡ false
        → Answered req.id ch_out (handle decode_value s ctx req rpc_err ch_out)
    unfolding handle
    handle-Answered safe = elim (Option-cases (resolve s req.method)) [
      | inl e ↦ rw (e, handle) (reported-Answered req.id _ _ _ refl refl)
      | inr (h, e) ↦ rw (e, handle) (handle_found-Answered h (rw (e, handle) at safe))
    ]
