-- ===== src/Rpc/Server/Calls.antt =====
-- The courses that the handling of a request can take, and what follows for done, the method and the
-- error codes.
use mathlib.Core.List.{append_assoc}
use mathlib.Core.Option.{some-injective}
use hggutils.Common.{
  ◌≡◌, refl, sym, ap, ◌∙◌, ◌⊎◌, inl, inr, false, not, ◌&&◌, List, [], ◌∷◌, ◌++◌, Option, some,
  arith, Option-cases, Bool-cases, eqb, eqb_iff, length, is_some,
}
use hggutils.Common.Int.{ℤ}
use hggutils.Rpc.Message.{
  Fault, Value, Request, GoType, parse_error_code, method_not_found_code, invalid_params_code,
}
use hggutils.Rpc.Server.{
  RpcHandler, ParamDecoder, RpcServer, Metric, Effect, stat, finish, crash, RpcErrFunc, ChanOut,
  resolve, Decoded-cases, decoded, is_out_chan, decode_params, call_method, handle_params,
  handle_found, handle,
}

-- The codes that the server reports before a method has run.
abbrev pub IsRefusalCode : ℤ → Type 0
IsRefusalCode c = (c ≡ parse_error_code) ⊎ (c ≡ method_not_found_code) ⊎ (c ≡ invalid_params_code)

module _ (decode_value : GoType → ParamDecoder) (s : RpcServer) (ctx : Value) (req : Request)
    (rpc_err : RpcErrFunc) (ch_out : Option ChanOut) where
  -- The method is there and gets the right number of parameters.
  abbrev pub Reaches : RpcHandler → Type 0
  Reaches h = (resolve s req.method ≡ some h) × (length req.params ≡ h.n_params)

  abbrev pub Decodes : RpcHandler → List Value → Type 0
  Decodes h vs =
      decode_params decode_value s h.n_params req.method 0 h.param_receivers req.params ≡ decoded vs

  -- A method that returns a channel is called only where values of channels can be forwarded.
  abbrev pub IsForwarded : RpcHandler → Type 0
  IsForwarded h = (not (is_some ch_out) && is_out_chan h) ≡ false

  -- The method is not there, or gets a wrong number of parameters.
  abbrev pub Misses : Type 0
  Misses = (h : RpcHandler) → ¬ Reaches h

  pub data Course (es : List Effect) : Type 0 where
    missed :
        (c : ℤ) (f : Fault) (m : Metric)
        → IsRefusalCode c
        → Misses
        → es ≡ rpc_err req.id c f ++ stat m ∷ finish false ∷ []
        → Course es
    refused :
        (h : RpcHandler) (c : ℤ) (f : Fault) (m : Metric)
        → IsRefusalCode c
        → Reaches h
        → es ≡ rpc_err req.id c f ++ stat m ∷ finish (is_out_chan h) ∷ []
        → Course es
    crashed : (h : RpcHandler) → Reaches h → es ≡ crash ∷ finish (is_out_chan h) ∷ [] → Course es
    ran :
        (h : RpcHandler) (vs : List Value)
        → Reaches h
        → Decodes h vs
        → IsForwarded h
        → es ≡ call_method decode_value s h ctx req rpc_err ch_out vs ++ finish (is_out_chan h) ∷ []
        → Course es

  handle_params-Course :
      (h : RpcHandler)
      → Reaches h
      → Course
          (handle_params decode_value s h ctx req rpc_err ch_out ++ finish (is_out_chan h) ∷ [])
  unfolding handle_params
  handle_params-Course h r = elim (Bool-cases (not (is_some ch_out) && is_out_chan h)) [
    | inl e ↦
        rw (e, handle_params)
          (refused h _ _ _ (inr (inl refl)) r (append_assoc (rpc_err req.id _ _) _ _))
    | inr e ↦
        elim (Decoded-cases
          (decode_params decode_value s h.n_params req.method 0 h.param_receivers req.params)) [
            | inl (vs, d) ↦ rw (e, d, handle_params) (ran h vs r d e refl)
            | inr (inl (f, d)) ↦
                rw (e, d, handle_params)
                  (refused h _ _ _ (inl refl) r (append_assoc (rpc_err req.id _ _) _ _))
            | inr (inr d) ↦ rw (e, d, handle_params) (crashed h r refl)
          ]
  ]

  same_handler :
      (h g : RpcHandler)
      → resolve s req.method ≡ some g
      → Reaches h
      → length req.params ≡ g.n_params
  same_handler h g e r =
      r.1 ∙ ap (λ (k : RpcHandler). k.n_params) (some-injective h g (sym r.0 ∙ e))

  pub handle-Course : Course (handle decode_value s ctx req rpc_err ch_out)
  unfolding handle handle_found
  handle-Course = elim (Option-cases (resolve s req.method)) [
    | inl e ↦ rw (e, handle) (missed _ _ _ (inr (inl refl)) (λ h r. cc (sym r.0 ∙ e)) refl)
    | inr (h, e) ↦ elim (Bool-cases (eqb (length req.params) h.n_params)) [
      | inl n ↦
          rw (e, n, handle, handle_found)
            (handle_params-Course h (e, (eqb_iff (length req.params) h.n_params).0 n))
      | inr n ↦
          rw (e, n, handle, handle_found)
            (missed _ _ _ (inr (inr refl)) (λ g r. ground (arith, same_handler g h e r)) refl)
    ]
  ]

  pub handle-runs :
      (h : RpcHandler) (vs : List Value)
      → Reaches h
      → Decodes h vs
      → IsForwarded h
      → handle decode_value s ctx req rpc_err ch_out
        ≡ call_method decode_value s h ctx req rpc_err ch_out vs ++ finish (is_out_chan h) ∷ []
  unfolding handle handle_found handle_params
  handle-runs h vs (r, n) d g =
      rw
        (r, (eqb_iff (length req.params) h.n_params).1 n, g, d, handle, handle_found, handle_params)
        refl
