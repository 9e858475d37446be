-- ===== src/Rpc/Server/Outcomes.antt =====
-- What follows from the courses of a request: handler.go's done, the method's call, and the codes.
use mathlib.Core.Option.{some-injective}
use hggutils.Common.{
  ℕ, ◌≡◌, refl, sym, ap, ◌∙◌, ◌≢◌, ◌↔◌, ◌⊎◌, inl, inr, Bool, true, false, List, [], ◌∷◌, ◌++◌,
  Option, none, some, arith, Option-cases, Bool-cases, All, length, is_some,
}
use hggutils.Common.Int.{ℤ, pos}
use hggutils.Rpc.Message.{Fault, Result-cases, Value, Request, Response, GoType}
use hggutils.Rpc.Server.{
  RpcHandler, ParamDecoder, RpcServer, Metric, Effect, stat, finish, invoke, RpcErrFunc, ChanOut,
  do_call, is_out_chan, ErrorOut, no_error, no_such_error, not_an_error, an_error, ValueOut,
  no_value, no_such_value, a_value, respond, respond_error, respond_value, call_params, call_method,
  handle,
}
use hggutils.Rpc.Server.Effects.{
  responses, finishes, calls, IsErrFunc, responses-append, finishes-append, calls-append,
}
use hggutils.Rpc.Server.Calls.{
  IsRefusalCode, Reaches, Course, missed, refused, crashed, ran, handle-Course,
}
use hggutils.Rpc.Server.Params.{IsNamed, AreRead, AreArgs}

-- The code with which a client sees its connection close.
abbrev pub closed_code : ℤ
closed_code = pos 2

-- A response that does not look like a closed connection.
abbrev pub IsOpen : Response → Type 0
IsOpen r = elim r.error [ none ↦ Unit {0} | some e ↦ e.code ≢ closed_code ]

-- Effects that neither call a method nor finish, with such responses only.
abbrev IsQuiet : List Effect → Type 0
IsQuiet es = (finishes es ≡ []) × (calls es ≡ []) × All IsOpen (responses es)

respond_value-IsQuiet :
    (h : RpcHandler) (ch_out : Option ChanOut) (i : ℕ) (v : Value)
    → IsQuiet (respond_value h ch_out i (a_value v))
unfolding respond_value
respond_value-IsQuiet h none i v = elim (Bool-cases (is_out_chan h)) [
  | inl c ↦ rw (c, respond_value) (refl, refl, tt)
  | inr c ↦ rw (c, respond_value) (refl, refl, (tt, tt))
]
respond_value-IsQuiet h (some reg) i v = elim (Bool-cases (is_out_chan h)) [
  | inl c ↦ elim (Option-cases (reg v i)) [
    | inl e ↦ rw (c, e, respond_value) (refl, refl, tt)
    | inr (f, e) ↦ rw (c, e, respond_value) (refl, refl, ((λ p. ground arith), tt))
  ]
  | inr c ↦ rw (c, respond_value) (refl, refl, (tt, tt))
]

respond-IsQuiet :
    (h : RpcHandler) (ch_out : Option ChanOut) (i : ℕ) (e : ErrorOut) (v : ValueOut)
    → IsQuiet (respond_error h ch_out i e v)
unfolding respond_error respond_value
respond-IsQuiet h ch_out i no_such_error v = (refl, refl, tt)
respond-IsQuiet h ch_out i not_an_error v = (refl, refl, tt)
respond-IsQuiet h ch_out i (an_error f) no_such_value = (refl, refl, tt)
respond-IsQuiet h ch_out i (an_error f) no_value = (refl, refl, ((λ p. ground arith), tt))
respond-IsQuiet h ch_out i (an_error f) (a_value v) = (refl, refl, ((λ p. ground arith), tt))
respond-IsQuiet h ch_out i no_error no_such_value = (refl, refl, tt)
respond-IsQuiet h ch_out i no_error no_value = (refl, refl, (tt, tt))
respond-IsQuiet h ch_out i no_error (a_value v) = respond_value-IsQuiet h ch_out i v

All-append {ℓ κ} :
    {A : Type ℓ} (P : A → Type κ) (xs ys : List A) → All P xs → All P ys → All P (xs ++ ys)
All-append P [] ys p q = q
All-append P (x ∷ xs) ys p q = (p.0, All-append P xs ys p.1 q)

module _ (rpc_err : RpcErrFunc) (laws : IsErrFunc rpc_err) where
  error-IsOpen :
      (id : Option ℕ) (c : ℤ) (f : Fault)
      → c ≢ closed_code
      → All IsOpen (responses (rpc_err id c f))
  error-IsOpen none c f h = rw (laws.silent c f) tt
  error-IsOpen (some i) c f h = rw (laws.answers i c f) (h, tt)

  reported-IsQuiet :
      (id : Option ℕ) (c : ℤ) (f : Fault) (fs : List Effect)
      → c ≢ closed_code
      → IsQuiet fs
      → IsQuiet (rpc_err id c f ++ fs)
  reported-IsQuiet id c f fs h q = (
    rw (finishes-append, laws.no_finish id c f, q.0),
    rw (calls-append, laws.no_call id c f, q.1),
    rw (responses-append (rpc_err id c f) fs) (All-append IsOpen _ _ (error-IsOpen id c f h) q.2),
  )

  module _ (decode_value : GoType → ParamDecoder) (s : RpcServer) (ctx : Value) (req : Request)
      (ch_out : Option ChanOut) where
    -- A call is the one call, and then quiet.
    call_method-IsQuiet :
        (h : RpcHandler) (vs : List Value)
        → (es : List Effect) × (call_method decode_value s h ctx req rpc_err ch_out vs
            ≡ invoke req.method (call_params decode_value s h ctx vs) ∷ es)
          × IsQuiet es
    unfolding call_method respond
    call_method-IsQuiet h vs =
        elim (Result-cases
          (do_call req.method h.handler_func (call_params decode_value s h ctx vs))) [
            | inl (outs, e) ↦ rw (e, call_method) (_, refl, answered req.id outs)
            | inr (f, e) ↦
                rw (e, call_method)
                  (_, refl, reported-IsQuiet req.id _ _ _ (λ p. ground arith) (refl, refl, tt))
          ]
      where
        answered : (id : Option ℕ) (outs : List Value) → IsQuiet (respond h ch_out id outs)
        answered none outs = (refl, refl, tt)
        answered (some i) outs = respond-IsQuiet h ch_out i _ _

    refusal-ne-closed : (c : ℤ) → IsRefusalCode c → c ≢ closed_code
    refusal-ne-closed c h = ground arith

    abbrev KeepsContext : Bool → Type 0
    KeepsContext b = (b ≡ true) ↔ (
        (h : RpcHandler) × Reaches decode_value s ctx req rpc_err ch_out h × (is_out_chan h ≡ true))

    Reaches-KeepsContext :
        (h : RpcHandler)
        → Reaches decode_value s ctx req rpc_err ch_out h
        → KeepsContext (is_out_chan h)
    Reaches-KeepsContext h r =
        ((λ t. (h, r, t)), λ (g, q, t). ap is_out_chan (some-injective h g (sym r.0 ∙ q.0)) ∙ t)

    Course-finishes :
        (es : List Effect)
        → Course decode_value s ctx req rpc_err ch_out es
        → (b : Bool) × (finishes es ≡ b ∷ []) × KeepsContext b
    Course-finishes es (missed c f m _ misses e) = (
      false,
      rw (e, finishes-append, laws.no_finish req.id c f),
      ((λ t. cc), λ (h, r, t). absurd (misses h r)),
    )
    Course-finishes es (refused h c f m _ r e) =
        (_, rw (e, finishes-append, laws.no_finish req.id c f), Reaches-KeepsContext h r)
    Course-finishes es (crashed h r e) = (_, rw e, Reaches-KeepsContext h r)
    Course-finishes es (ran h vs r d g e) =
        let (fs, same, quiet) = call_method-IsQuiet h vs in
        (_, rw (e, same, finishes-append, quiet.0), Reaches-KeepsContext h r)

    -- done is called once, whatever the request. It keeps the context exactly when the method is
    -- there, gets the right number of parameters and returns a channel. The error function is one
    -- like rpcError, which calls neither done nor a method.
    pub handle-finishes :
        (b : Bool) × (finishes (handle decode_value s ctx req rpc_err ch_out) ≡ b ∷ [])
        × ((b ≡ true) ↔ (
            (h : RpcHandler) × Reaches decode_value s ctx req rpc_err ch_out h
            × (is_out_chan h ≡ true)))
    handle-finishes = Course-finishes _ (handle-Course decode_value s ctx req rpc_err ch_out)

    -- The call that a request makes: of the method that its name means, which gets a parameter for each
    -- that it declares and, if it returns a channel, can have its values forwarded; with these
    -- arguments.
    abbrev pub Invokes : List Value → Type 0
    Invokes args =
        (h : RpcHandler) × (vs : List Value) × IsNamed s req.method h
        × (length req.params ≡ h.n_params)
        × ((is_some ch_out ≡ true) ⊎ (is_out_chan h ≡ false))
        × (length vs ≡ h.n_params)
        × AreRead decode_value s h.param_receivers req.params vs
        × AreArgs decode_value s h ctx vs args

    abbrev MakesCall : List Effect → Type 0
    MakesCall es = (calls es ≡ []) ⊎ ((args : List Value) × (calls es ≡ args ∷ []) × Invokes args)

    refused-IsOpen :
        (c : ℤ) (f : Fault) (m : Metric) (b : Bool)
        → IsRefusalCode c
        → All IsOpen (responses (rpc_err req.id c f ++ stat m ∷ finish b ∷ []))
    refused-IsOpen c f m b k =
        rw (responses-append (rpc_err req.id c f) (stat m ∷ finish b ∷ []))
          (All-append IsOpen _ [] (error-IsOpen req.id c f (refusal-ne-closed c k)) tt)

    Course-IsOpen :
        (es : List Effect)
        → Course decode_value s ctx req rpc_err ch_out es
        → All IsOpen (responses es)
    Course-IsOpen es (missed c f m k misses e) = rw e (refused-IsOpen c f m false k)
    Course-IsOpen es (refused h c f m k r e) = rw e (refused-IsOpen c f m (is_out_chan h) k)
    Course-IsOpen es (crashed h r e) = rw e tt
    Course-IsOpen es (ran h vs r d g e) =
        let (fs, same, quiet) = call_method-IsQuiet h vs in
        rw (e, same, responses-append fs (finish (is_out_chan h) ∷ []))
          (All-append IsOpen (responses fs) [] quiet.2 tt)

    -- No response of a server has the code of a closed connection, for which a client calls again: a
    -- method that has run is not run again for its answer. The error function is one like rpcError,
    -- which answers with the code that it is given.
    pub handle-IsOpen : All IsOpen (responses (handle decode_value s ctx req rpc_err ch_out))
    handle-IsOpen = Course-IsOpen _ (handle-Course decode_value s ctx req rpc_err ch_out)
