-- ===== src/Rpc/Server/Safety.antt =====
-- No request makes a server panic outside its methods: the indices and the assertion of handler.go.
use hggutils.Common.{
  ℕ, zero, suc, ◌+◌, ◌≡◌, refl, subst, ◌∙◌, ◌≢◌, inl, inr, false, not, ◌&&◌, List, [], ◌∷◌, ◌++◌,
  Option, none, some, arith, Option-cases, Bool-cases, ◌==◌, eqb, eqb_iff, length, is_some,
}
use mathlib.Core.Option.{some-injective}
use hggutils.Common.Int.{ℤ}
use hggutils.Common.Dict.{find}
use hggutils.Common.Text.{Text, text_key}
use hggutils.Rpc.Message.{
  Raw, Fault, ok, Result-cases, Value, Request, GoType, error_type, type_key, type_beq_iff,
  process_func_out, out_places,
}
use hggutils.Rpc.Server.{
  returned, Func, RpcHandler, ParamDecoder, RpcServer, Effect, RpcErrFunc, ChanOut, resolve,
  Decoded-cases, out_of_range, do_call, ErrorOut, no_error, no_such_error, not_an_error, an_error,
  error_at, ValueOut, no_value, no_such_value, a_value, value_at, is_out_chan, respond,
  respond_error, respond_value, call_params, decode_params, call_method, handle_params,
  handle_found, handle, as_error,
}
use hggutils.Rpc.Server.Effects.{crashes, IsErrFunc, crashes-append}
use hggutils.Rpc.Server.Answers.{Answered, handle-Answered}
use hggutils.Rpc.Server.Register.{
  Fits, FitsAll, IsWellFormed, find-IsWellFormed, Built, Built-AllWellFormed,
}

abbrev IsErrorOk : ErrorOut → Type 0
IsErrorOk no_such_error = ⊥
IsErrorOk not_an_error = ⊥
IsErrorOk _ = Unit {0}

abbrev IsValueOk : ValueOut → Type 0
IsValueOk no_such_value = ⊥
IsValueOk _ = Unit {0}

Fits-error : (v : Value) → Fits error_type v → IsErrorOk (as_error v)
Fits-error v (inl e) = rw e tt
Fits-error v (inr (f, e)) = rw e tt

abbrev IsPlacesOk : List Value → Option ℕ × Option ℕ × ℕ → Type 0
IsPlacesOk outs p = IsErrorOk (error_at p.1 outs) × IsValueOk (value_at p.0 outs)

-- The places that processFuncOut finds hold an error and a value.
out_places_ok :
    (ts : List GoType) (outs : List Value) (p : Option ℕ × Option ℕ × ℕ)
    → out_places ts ≡ some p
    → FitsAll ts outs
    → IsPlacesOk outs p
unfolding out_places error_at value_at
out_places_ok [] [] p e f = subst (IsPlacesOk []) (some-injective _ _ e) (tt, tt)
out_places_ok (t ∷ []) (v ∷ []) p e f = elim (Bool-cases (t == error_type)) [
  | inl same ↦
      subst (IsPlacesOk (v ∷ [])) (some-injective _ _ (rw same at e))
        (Fits-error v (subst (λ t. Fits t v) ((type_beq_iff t error_type).0 same) f.0), tt)
  | inr other ↦ subst (IsPlacesOk (v ∷ [])) (some-injective _ _ (rw other at e)) (tt, tt)
]
out_places_ok (t ∷ u ∷ []) (v ∷ w ∷ []) p e f = elim (Bool-cases (u == error_type)) [
  | inl same ↦
      subst (IsPlacesOk (v ∷ w ∷ [])) (some-injective _ _ (rw same at e))
        (Fits-error w (subst (λ t. Fits t w) ((type_beq_iff u error_type).0 same) f.1.0), tt)
  | inr other ↦ cc (rw other at e)
]
out_places_ok [] (_ ∷ _) p e f = absurd f
out_places_ok (_ ∷ []) [] p e f = absurd f
out_places_ok (_ ∷ []) (_ ∷ _ ∷ _) p e f = absurd f.1
out_places_ok (_ ∷ _ ∷ []) [] p e f = absurd f
out_places_ok (_ ∷ _ ∷ []) (_ ∷ []) p e f = absurd f.1
out_places_ok (_ ∷ _ ∷ []) (_ ∷ _ ∷ _ ∷ _) p e f = absurd f.1.1
out_places_ok (_ ∷ _ ∷ _ ∷ _) outs p e f = cc

abbrev HasRoom : RpcHandler → Option ChanOut → Type 0
HasRoom h ch_out = (not (is_some ch_out) && is_out_chan h) ≡ false

respond_error-safe :
    (h : RpcHandler) (ch_out : Option ChanOut) (i : ℕ) (e : ErrorOut) (v : ValueOut)
    → HasRoom h ch_out
    → IsErrorOk e
    → IsValueOk v
    → crashes (respond_error h ch_out i e v) ≡ false
unfolding respond_error respond_value
respond_error-safe h ch_out i no_such_error v r p q = absurd p
respond_error-safe h ch_out i not_an_error v r p q = absurd p
respond_error-safe h ch_out i (an_error f) no_such_value r p q = absurd q
respond_error-safe h ch_out i (an_error f) no_value r p q = refl
respond_error-safe h ch_out i (an_error f) (a_value v) r p q = refl
respond_error-safe h ch_out i no_error no_such_value r p q = absurd q
respond_error-safe h ch_out i no_error no_value r p q = refl
respond_error-safe h none i no_error (a_value v) r p q = rw r
respond_error-safe h (some reg) i no_error (a_value v) r p q = ground arith

respond-safe :
    (h : RpcHandler) (ch_out : Option ChanOut) (id : Option ℕ) (outs : List Value)
    → HasRoom h ch_out
    → IsPlacesOk outs (h.val_out, h.err_out, 0)
    → crashes (respond h ch_out id outs) ≡ false
unfolding respond
respond-safe h ch_out none outs r p = refl
respond-safe h ch_out (some i) outs r p = respond_error-safe h ch_out i _ _ r p.0 p.1

returned_of_ok :
    (name : Text) (f : Func) (args outs : List Value)
    → do_call name f args ≡ ok outs
    → f.body args ≡ returned outs
unfolding do_call
returned_of_ok name f args outs e = ground arith

module _ (decode_value : GoType → ParamDecoder) (s : RpcServer) where
  decode_params-in_range :
      (n : ℕ) (name : Text) (i : ℕ) (ts : List GoType) (ps : List Raw)
      → n ≡ length ts
      → length ps ≡ n
      → decode_params decode_value s n name i ts ps ≢ out_of_range
  unfolding decode_params
  decode_params-in_range zero name i ts ps p q = cc
  decode_params-in_range (suc n) name i [] ps p q = absurd (omega arith)
  decode_params-in_range (suc n) name i (t ∷ ts) [] p q = absurd (omega arith)
  decode_params-in_range (suc n) name i (t ∷ ts) (d ∷ ps) p q =
      ground (arith, decode_params-in_range n name (i + 1) ts ps)

  module _ (rpc_err : RpcErrFunc) (laws : IsErrFunc rpc_err) (ctx : Value) (req : Request)
      (ch_out : Option ChanOut) where
    reported-safe :
        (id : Option ℕ) (c : ℤ) (f : Fault) (fs : List Effect)
        → crashes fs ≡ false
        → crashes (rpc_err id c f ++ fs) ≡ false
    reported-safe id c f fs p = rw (crashes-append, laws.no_crash id c f, p)

    call_method-safe :
        (h : RpcHandler) (vs : List Value)
        → IsWellFormed h
        → HasRoom h ch_out
        → crashes (call_method decode_value s h ctx req rpc_err ch_out vs) ≡ false
    unfolding call_method process_func_out
    call_method-safe h vs w r =
        elim (Result-cases
          (do_call req.method h.handler_func (call_params decode_value s h ctx vs))) [
            | inl (outs, e) ↦
                rw (e, call_method)
                  (respond-safe h ch_out req.id outs r (
                    out_places_ok h.handler_func.typ.outs outs _ w.places
                      (w.typed _ outs (returned_of_ok req.method h.handler_func _ outs e))))
            | inr (f, e) ↦ rw (e, call_method) (reported-safe req.id _ _ _ refl)
          ]

    handle_params-safe :
        (h : RpcHandler)
        → IsWellFormed h
        → length req.params ≡ h.n_params
        → crashes (handle_params decode_value s h ctx req rpc_err ch_out) ≡ false
    unfolding handle_params
    handle_params-safe h w n = elim (Bool-cases (not (is_some ch_out) && is_out_chan h)) [
      | inl e ↦ rw (e, handle_params) (reported-safe req.id _ _ _ refl)
      | inr e ↦
          elim (Decoded-cases
            (decode_params decode_value s h.n_params req.method 0 h.param_receivers req.params)) [
              | inl (vs, d) ↦ rw (e, d, handle_params) (call_method-safe h vs w e)
              | inr (inl (f, d)) ↦ rw (e, d, handle_params) (reported-safe req.id _ _ _ refl)
              | inr (inr d) ↦ absurd (
                  decode_params-in_range h.n_params req.method 0 h.param_receivers req.params
                    w.counted n d)
            ]
    ]

    handle_found-safe :
        (h : RpcHandler)
        → IsWellFormed h
        → crashes (handle_found decode_value s h ctx req rpc_err ch_out) ≡ false
    unfolding handle_found
    handle_found-safe h w = elim (Bool-cases (eqb (length req.params) h.n_params)) [
      | inl e ↦ rw (
        e,
        handle_found,
        crashes-append,
        handle_params-safe h w ((eqb_iff (length req.params) h.n_params).0 e),
      )
      | inr e ↦ rw (e, handle_found) (reported-safe req.id _ _ _ refl)
    ]

    resolve-IsWellFormed :
        (h : RpcHandler) → Built s → resolve s req.method ≡ some h → IsWellFormed h
    unfolding resolve
    resolve-IsWellFormed h b e =
        let all = Built-AllWellFormed b in
        elim (Option-cases (find req.method s.methods)) [
          | inr (g, p) ↦ find-IsWellFormed s.methods req.method h all (p ∙ rw (p, resolve) at e)
          | inl p ↦ elim (Option-cases (find req.method s.aliased_methods)) [
            | inl q ↦ cc (rw (p, q, resolve) at e)
            | inr (other, q) ↦ find-IsWellFormed s.methods other h all (rw (p, q, resolve) at e)
          ]
        ]

    -- A server that was set up by NewServer, Register and AliasMethod handles any request without a
    -- run-time panic: every index is in range, and the assertion that the error result is an error
    -- holds. The methods return values of their result types, and may panic themselves; the error
    -- function is one like rpcError.
    pub handle-safe : Built s → crashes (handle decode_value s ctx req rpc_err ch_out) ≡ false
    unfolding handle
    handle-safe b = elim (Option-cases (resolve s req.method)) [
      | inl e ↦ rw (e, handle) (reported-safe req.id _ _ _ refl)
      | inr (h, e) ↦ rw (e, handle) (handle_found-safe h (resolve-IsWellFormed h b e))
    ]

    -- Every request with an identifier gets one answer: a response with that identifier, which holds
    -- a value or an error and not both, or the channel that it returned is accepted by the
    -- forwarder. A notification gets no response, and registers no channel. The server is one that
    -- was set up by NewServer, Register and AliasMethod, with methods that return values of their
    -- result types, and the error function answers a request with an identifier once and does
    -- nothing else, as rpcError does.
    pub handle-answers :
        Built s → Answered req.id ch_out (handle decode_value s ctx req rpc_err ch_out)
    handle-answers b = handle-Answered rpc_err laws ch_out decode_value s ctx req (handle-safe b)
