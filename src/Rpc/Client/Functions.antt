-- ===== src/Rpc/Client/Functions.antt =====
-- What makeRpcFunc makes of a field (jsonrpc/client.go).
use hggutils.Common.{
  ℕ, ◌≡◌, ◌≢◌, ◌↔◌, ◌⊎◌, refl, sym, ap, ◌∙◌, inl, inr, Bool, true, false, [], Option, some, ◌==◌,
  Option-cases, Bool-cases, if◌then◌else◌,
}
use hggutils.Common.Text.{Text, codes, text_key, text_beq_iff}
use hggutils.Rpc.Message.{FuncType, process_func_out}
use hggutils.Rpc.Client.{StructField, RpcFunc, made, make_rpc_func, takes_context, is_chan_at}

-- The name of the remote method: the alias that the tag gives, or else the field's.
abbrev pub IsName : StructField → Text → Type 0
IsName f n = ((f.alias_tag ≡ []) × (n ≡ f.name)) ⊎ ((f.alias_tag ≢ []) × (n ≡ f.alias_tag))

abbrev pub IsRetry : StructField → Bool → Type 0
IsRetry f r =
    ((f.retry_tag ≡ codes "true") × (r ≡ true)) ⊎ ((f.retry_tag ≢ codes "true") × (r ≡ false))

abbrev func_of : FuncType → Option ℕ × Option ℕ × ℕ → Text → Bool → RpcFunc
func_of t (v, e, k) n r = record {
  ftyp = t;
  name = n;
  nout = k;
  val_out = v;
  err_out = e;
  has_ctx = takes_context t.ins;
  returns_chan = is_chan_at t.outs v;
  retry = r;
}

-- The field is a function, whose results processFuncOut accepts, and the function that is made has its type,
-- the places of its results, and the name and the retries that its tags say.
abbrev pub IsMade : StructField → RpcFunc → Type 0
IsMade f fn =
    (t : FuncType) × (out : Option ℕ × Option ℕ × ℕ) × (n : Text) × (r : Bool) × (f.typ ≡ some t)
    × (process_func_out t ≡ some out)
    × IsName f n
    × IsRetry f r
    × (fn ≡ func_of t out n r)

name-IsName : (f : StructField) → IsName f (if f.alias_tag == [] then f.name else f.alias_tag)
name-IsName f = elim (Bool-cases (f.alias_tag == [])) [
  | inl e ↦ rw e (inl ((text_beq_iff f.alias_tag []).0 e, refl))
  | inr e ↦ rw e (inr ((λ q. cc ((text_beq_iff f.alias_tag []).1 q)), refl))
]

retry_tag-IsRetry : (f : StructField) → IsRetry f (f.retry_tag == codes "true")
retry_tag-IsRetry f = elim (Bool-cases (f.retry_tag == codes "true")) [
  | inl e ↦ rw e (inl ((text_beq_iff f.retry_tag (codes "true")).0 e, refl))
  | inr e ↦ rw e (inr ((λ q. cc ((text_beq_iff f.retry_tag (codes "true")).1 q)), refl))
]

IsName-same : (f : StructField) (m n : Text) → IsName f m → IsName f n → m ≡ n
IsName-same f m n (inl (_, p)) (inl (_, q)) = p ∙ sym q
IsName-same f m n (inl (e, p)) (inr (d, q)) = absurd (d e)
IsName-same f m n (inr (d, p)) (inl (e, q)) = absurd (d e)
IsName-same f m n (inr (_, p)) (inr (_, q)) = p ∙ sym q

IsRetry-same : (f : StructField) (r s : Bool) → IsRetry f r → IsRetry f s → r ≡ s
IsRetry-same f r s (inl (_, p)) (inl (_, q)) = p ∙ sym q
IsRetry-same f r s (inl (e, p)) (inr (d, q)) = absurd (d e)
IsRetry-same f r s (inr (d, p)) (inl (e, q)) = absurd (d e)
IsRetry-same f r s (inr (_, p)) (inr (_, q)) = p ∙ sym q

made-injective : (f g : RpcFunc) → made f ≡ made g → f ≡ g
made-injective f g h = cc

made_value :
    (f : StructField) (t : FuncType) (out : Option ℕ × Option ℕ × ℕ)
    → f.typ ≡ some t
    → process_func_out t ≡ some out
    → make_rpc_func f
      ≡ made (
          func_of t out
            (if f.alias_tag == [] then f.name else f.alias_tag)
            (f.retry_tag == codes "true"))
unfolding make_rpc_func
made_value f t (v, e, k) h p = simp (h, p, make_rpc_func) refl

pub make_rpc_func_iff : (f : StructField) (fn : RpcFunc) → (make_rpc_func f ≡ made fn) ↔ IsMade f fn
unfolding make_rpc_func
make_rpc_func_iff f fn = (
  λ h. elim (Option-cases f.typ) [
    | inl e ↦ cc (simp (e, make_rpc_func) at h)
    | inr (t, e) ↦ elim (Option-cases (process_func_out t)) [
      | inl p ↦ cc (simp (e, p, make_rpc_func) at h)
      | inr (out, p) ↦ (
        t,
        out,
        (if f.alias_tag == [] then f.name else f.alias_tag),
        (f.retry_tag == codes "true"),
        e,
        p,
        name-IsName f,
        retry_tag-IsRetry f,
        made-injective fn _ (sym h ∙ made_value f t out e p),
      )
    ]
  ],
  λ (t, out, n, r, e, p, name, retry, same).
      made_value f t out e p
      ∙ ap (λ n. made (func_of t out n (f.retry_tag == codes "true")))
          (IsName-same f _ n (name-IsName f) name)
      ∙ ap (λ r. made (func_of t out n r)) (IsRetry-same f _ r (retry_tag-IsRetry f) retry)
      ∙ ap made (sym same),
)
