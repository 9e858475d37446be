-- ===== src/Rpc/Server/Params.antt =====
-- The parameters of a call, and the method that a name means (jsonrpc/handler.go).
use hggutils.Common.{
  ℕ, zero, suc, ◌+◌, ◌≡◌, ◌≢◌, ◌↔◌, ◌⊎◌, refl, sym, ap, ◌∙◌, subst, inl, inr, List, [], ◌∷◌, none,
  some, arith, Option-cases, Bool-cases, length, get_elem?, eqb, eqb_iff,
}
use mathlib.Core.Option.{some-injective}
use hggutils.Common.Text.{Text, text_key}
use hggutils.Common.Dict.{find}
use hggutils.Rpc.Message.{Raw, Value, GoType, type_key, ok, Result-cases}
use hggutils.Rpc.Server.{
  RpcHandler, ParamDecoder, RpcServer, resolve, Decoded-cases, decoded, decode_param, decode_params,
  call_params,
}

module _ (s : RpcServer) (name : Text) (h : RpcHandler) where
  -- The method has the name, or no method has it and it is an alias of the method's.
  abbrev pub IsNamed : Type 0
  IsNamed =
      (find name s.methods ≡ some h)
      ⊎ ((find name s.methods ≡ none)
          × ((other : Text) × (find name s.aliased_methods ≡ some other)
              × (find other s.methods ≡ some h)))

  pub resolve-IsNamed : (resolve s name ≡ some h) ↔ IsNamed
  unfolding resolve
  resolve-IsNamed = elim (Option-cases (find name s.methods)) [
    | inr (g, m) ↦ (
      (λ e. inl (m ∙ rw (m, resolve) at e)),
      λ e. elim e [ inl f ↦ rw (m, resolve) (sym m ∙ f) | inr (f, _) ↦ cc ],
    )
    | inl m ↦ elim (Option-cases (find name s.aliased_methods)) [
      | inl a ↦ (
        (λ e. cc (rw (m, a, resolve) at e)),
        λ e. elim e [ inl f ↦ cc | inr (_, (other, f, _)) ↦ cc ],
      )
      | inr (other, a) ↦ (
        (λ e. inr (m, (other, a, rw (m, a, resolve) at e))),
        λ e. elim e [
          | inl f ↦ cc
          | inr (_, (o, f, g)) ↦
              let same : other ≡ o = some-injective other o (sym a ∙ f) in
              rw (m, a, resolve) (ap (λ o. find o s.methods) same ∙ g)
        ],
      )
    ]
  ]

module _ (decode_value : GoType → ParamDecoder) (s : RpcServer) where
  -- The value of a parameter: by the decoder that the options have for its type, or else by json's.
  abbrev pub ReadAs : GoType → Raw → Value → Type 0
  ReadAs t p v =
      ((dec : ParamDecoder) × (find t s.param_decoders ≡ some dec) × (dec p ≡ ok v))
      ⊎ ((find t s.param_decoders ≡ none) × (decode_value t p ≡ ok v))

  decode_param-ReadAs :
      (name : Text) (i : ℕ) (t : GoType) (p : Raw) (v : Value)
      → (decode_param decode_value s name i t p ≡ ok v) ↔ ReadAs t p v
  unfolding decode_param
  decode_param-ReadAs name i t p v = elim (Option-cases (find t s.param_decoders)) [
    | inl e ↦ elim (Result-cases (decode_value t p)) [
      | inl (w, d) ↦ (
        (λ h. inr (e, d ∙ rw (e, d, decode_param) at h)),
        λ h. elim h [ inl (dec, f, _) ↦ cc | inr (_, g) ↦ rw (e, d, decode_param) (sym d ∙ g) ],
      )
      | inr (f, d) ↦ (
        (λ h. cc (rw (e, d, decode_param) at h)),
        λ h. elim h [ inl (dec, g, _) ↦ cc | inr (_, g) ↦ cc ],
      )
    ]
    | inr (dec, e) ↦ elim (Result-cases (dec p)) [
      | inl (w, d) ↦ (
        (λ h. inl (dec, e, d ∙ rw (e, d, decode_param) at h)),
        λ h. elim h [
          | inl (dec', f, g) ↦
              let same : dec ≡ dec' = some-injective dec dec' (sym e ∙ f) in
              rw (e, d, decode_param) (sym d ∙ ap (λ d. d p) same ∙ g)
          | inr (f, _) ↦ cc
        ],
      )
      | inr (f, d) ↦ (
        (λ h. cc (rw (e, d, decode_param) at h)),
        λ h. elim h [
          | inl (dec', f', g) ↦
              let same : dec ≡ dec' = some-injective dec dec' (sym e ∙ f') in
              cc (ap (λ d. d p) same ∙ g)
          | inr (f', _) ↦ cc
        ],
      )
    ]
  ]

  -- Each value is that of the parameter in its place, by the type in its place.
  abbrev pub AreRead : List GoType → List Raw → List Value → Type 0
  AreRead types params vs =
      (k : ℕ) (v : Value)
      → get_elem? vs k ≡ some v
      → (t : GoType) × (p : Raw) × (get_elem? types k ≡ some t)
        × (get_elem? params k ≡ some p)
        × ReadAs t p v

  AreRead-cons :
      (t : GoType) (p : Raw) (v : Value) (types : List GoType) (params : List Raw) (vs : List Value)
      → ReadAs t p v
      → AreRead types params vs
      → AreRead (t ∷ types) (p ∷ params) (v ∷ vs)
  AreRead-cons t p v types params vs r h zero w e =
      (t, p, refl, refl, subst (ReadAs t p) (some-injective v w e) r)
  AreRead-cons t p v types params vs r h (suc k) w e = h k w e

  decoded-injective : (vs ws : List Value) → decoded vs ≡ decoded ws → vs ≡ ws
  decoded-injective vs ws h = cc

  decode_params-AreRead :
      (n : ℕ) (name : Text) (i : ℕ) (types : List GoType) (params : List Raw) (vs : List Value)
      → decode_params decode_value s n name i types params ≡ decoded vs
      → (length vs ≡ n) × AreRead types params vs
  unfolding decode_params
  decode_params-AreRead zero name i types params vs h =
      subst (λ vs. (length vs ≡ 0) × AreRead types params vs) (decoded-injective [] vs h)
        (refl, λ k v e. cc e)
  decode_params-AreRead (suc n) name i [] params vs h = cc h
  decode_params-AreRead (suc n) name i (t ∷ types) [] vs h = cc h
  decode_params-AreRead (suc n) name i (t ∷ types) (p ∷ params) vs h =
      elim (Result-cases (decode_param decode_value s name i t p)) [
        | inr (f, d) ↦ cc (rw (d, decode_params) at h)
        | inl (v, d) ↦
            elim (Decoded-cases (decode_params decode_value s n name (i + 1) types params)) [
              | inl (ws, r) ↦
                  let (l, reads) = decode_params-AreRead n name (i + 1) types params ws r in
                  subst (λ vs. (length vs ≡ suc n) × AreRead (t ∷ types) (p ∷ params) vs)
                    (decoded-injective (v ∷ ws) vs (rw (d, r, decode_params) at h))
                    (
                      ap suc l,
                      AreRead-cons t p v types params ws ((decode_param-ReadAs name i t p v).0 d)
                          reads,
                    )
              | inr (inl (f, r)) ↦ cc (rw (d, r, decode_params) at h)
              | inr (inr r) ↦ cc (rw (d, r, decode_params) at h)
            ]
      ]

  AreRead-decode_params :
      (n : ℕ) (name : Text) (i : ℕ) (types : List GoType) (params : List Raw) (vs : List Value)
      → length vs ≡ n
      → AreRead types params vs
      → decode_params decode_value s n name i types params ≡ decoded vs
  unfolding decode_params
  AreRead-decode_params zero name i types params [] l h = refl
  AreRead-decode_params zero name i types params (v ∷ vs) l h = absurd (omega arith)
  AreRead-decode_params (suc n) name i types params [] l h = absurd (omega arith)
  AreRead-decode_params (suc n) name i [] params (v ∷ vs) l h =
      let (t, p, e, _, _) = h 0 v refl in cc e
  AreRead-decode_params (suc n) name i (t ∷ types) [] (v ∷ vs) l h =
      let (t, p, _, e, _) = h 0 v refl in cc e
  AreRead-decode_params (suc n) name i (t ∷ types) (p ∷ params) (v ∷ vs) l h =
      let (t', p', e, f, r) = h 0 v refl in
      let r' =
        subst (λ t. ReadAs t p v) (sym (some-injective t t' e))
          (subst (λ p. ReadAs t' p v) (sym (some-injective p p' f)) r) in
      rw
        (
          (decode_param-ReadAs name i t p v).1 r',
          decode_params,
          AreRead-decode_params n name (i + 1) types params vs (omega arith)
              (λ k w g. h (suc k) w g),
        )
        refl

  pub decode_params_iff :
      (n : ℕ) (name : Text) (types : List GoType) (params : List Raw) (vs : List Value)
      → (decode_params decode_value s n name 0 types params ≡ decoded vs)
        ↔ ((length vs ≡ n) × AreRead types params vs)
  decode_params_iff n name types params vs = (
    decode_params-AreRead n name 0 types params vs,
    λ (l, h). AreRead-decode_params n name 0 types params vs l h,
  )

  -- The arguments: the receiver, the context for a method that takes one, and the values.
  abbrev pub AreArgs : RpcHandler → Value → List Value → List Value → Type 0
  AreArgs h ctx vs args =
      ((h.has_ctx ≡ 1) × (args ≡ h.receiver ∷ ctx ∷ vs))
      ⊎ ((h.has_ctx ≢ 1) × (args ≡ h.receiver ∷ vs))

  pub call_params-AreArgs :
      (h : RpcHandler) (ctx : Value) (vs args : List Value)
      → (call_params decode_value s h ctx vs ≡ args) ↔ AreArgs h ctx vs args
  call_params-AreArgs h ctx vs args = elim (Bool-cases (eqb h.has_ctx 1)) [
    | inl e ↦
        let one : h.has_ctx ≡ 1 = (eqb_iff h.has_ctx 1).0 e in
        (
          (λ q. inl (one, sym (rw e at q))),
          λ q. elim q [ inl (_, a) ↦ rw e (sym a) | inr (n, _) ↦ absurd (n one) ],
        )
    | inr e ↦
        let not_one : h.has_ctx ≢ 1 = λ o. cc ((eqb_iff h.has_ctx 1).1 o) in
        (
          (λ q. inr (not_one, sym (rw e at q))),
          λ q. elim q [ inl (o, _) ↦ absurd (not_one o) | inr (_, a) ↦ rw e (sym a) ],
        )
  ]
