-- ===== src/Rpc/Client/Results.antt =====
-- The results that a call hands to its caller: processResponse and processError.
use hggutils.Common.{
  ℕ, ◌≡◌, refl, sym, subst, ◌⊎◌, inl, inr, List, [], ◌∷◌, Option, none, some, Option-cases,
  Bool-cases, length, get_elem?, replicate, ◌==◌,
}
use mathlib.Core.Option.{some-injective}
use hggutils.Common.Text.{text_key}
use hggutils.Rpc.Message.{
  Fault, err_client, RespError, error_text, Value, nil_value, error_value, GoType, error_type,
  type_key, process_func_out, out_places,
}
use hggutils.Rpc.Client.{
  StructField, RpcFunc, made, make_rpc_func, process_response, process_error, set_at, zero_at,
}

-- The shapes that processFuncOut lets pass: the places of the value and the error, of n results.
abbrev IsShape : Option ℕ × Option ℕ × ℕ → Type 0
IsShape p =
    (p ≡ (none, none, 0))
    ⊎ (p ≡ (none, some 0, 1))
    ⊎ (p ≡ (some 0, none, 1))
    ⊎ (p ≡ (some 0, some 1, 2))

out_places-IsShape :
    (ts : List GoType) (p : Option ℕ × Option ℕ × ℕ) → out_places ts ≡ some p → IsShape p
unfolding out_places
out_places-IsShape [] p e = inl (sym (some-injective _ _ e))
out_places-IsShape (t ∷ []) p e = elim (Bool-cases (t == error_type)) [
  | inl q ↦ inr (inl (sym (some-injective _ _ (rw q at e))))
  | inr q ↦ inr (inr (inl (sym (some-injective _ _ (rw q at e)))))
]
out_places-IsShape (t ∷ u ∷ []) p e = elim (Bool-cases (u == error_type)) [
  | inl q ↦ inr (inr (inr (sym (some-injective _ _ (rw q at e)))))
  | inr q ↦ cc (rw q at e)
]
out_places-IsShape (_ ∷ _ ∷ _ ∷ _) p e = cc

abbrev pub shape : RpcFunc → Option ℕ × Option ℕ × ℕ
shape fn = (fn.val_out, fn.err_out, fn.nout)

-- Results of that shape, with the value and the error where the function has them.
abbrev pub Holds : Option ℕ × Option ℕ × ℕ → List Value → Value → Value → Type 0
Holds p outs v e =
    (length outs ≡ p.2)
    × ((p.0 ≡ none) ⊎ ((j : ℕ) × (p.0 ≡ some j) × (get_elem? outs j ≡ some v)))
    × ((p.1 ≡ none) ⊎ ((k : ℕ) × (p.1 ≡ some k) × (get_elem? outs k ≡ some e)))

abbrev filled : Option ℕ × Option ℕ × ℕ → Value → Value → List Value
filled p v e = set_at (set_at (replicate p.2 nil_value) p.0 v) p.1 e

filled-Holds : (p : Option ℕ × Option ℕ × ℕ) (v e : Value) → IsShape p → Holds p (filled p v e) v e
filled-Holds p v e (inl q) =
    subst (λ p. Holds p (filled p v e) v e) (sym q) (refl, inl refl, inl refl)
filled-Holds p v e (inr (inl q)) =
    subst (λ p. Holds p (filled p v e) v e) (sym q) (refl, inl refl, inr (0, refl, refl))
filled-Holds p v e (inr (inr (inl q))) =
    subst (λ p. Holds p (filled p v e) v e) (sym q) (refl, inr (0, refl, refl), inl refl)
filled-Holds p v e (inr (inr (inr q))) =
    subst (λ p. Holds p (filled p v e) v e) (sym q) (refl, inr (0, refl, refl), inr (1, refl, refl))

made_injective : (a b : RpcFunc) → made a ≡ made b → a ≡ b
made_injective a b h = cc

make_rpc_func-IsShape :
    (f : StructField) (fn : RpcFunc) → make_rpc_func f ≡ made fn → IsShape (shape fn)
unfolding make_rpc_func process_func_out
make_rpc_func-IsShape f fn h = elim (Option-cases f.typ) [
  | inl p ↦ cc (rw (p, make_rpc_func) at h)
  | inr (ftyp, p) ↦ elim (Option-cases (process_func_out ftyp)) [
    | inl q ↦ cc (rw (p, q, make_rpc_func) at h)
    | inr (t, q) ↦
        subst (λ fn. IsShape (shape fn)) (made_injective _ _ (rw (p, q, make_rpc_func) at h))
          (out_places-IsShape ftyp.outs t q)
  ]
]

-- What a call of a function that the client has made returns: as many results as its type has, with
-- the value of the response and its error, or nil, in their places; and where the call fails, the
-- zero value and the client's error.
pub results-places :
    (zero_of : GoType → Value) (f : StructField) (fn : RpcFunc) (e : Option RespError) (v : Value)
    (fault : Fault)
    → make_rpc_func f ≡ made fn
    → Holds
        (shape fn)
        (process_response zero_of fn e v)
        v
        (elim e [ none ↦ nil_value | some e ↦ error_value (error_text e) ])
      × Holds
          (shape fn)
          (process_error zero_of fn fault)
          (zero_at zero_of fn fn.val_out)
          (error_value (err_client fault))
unfolding process_response process_error
results-places zero_of f fn e v fault h =
    let s = make_rpc_func-IsShape f fn h in
    (filled-Holds (shape fn) v _ s, filled-Holds (shape fn) _ _ s)
