-- ===== src/Auth/Proxy.antt =====
-- Which fields the proxy takes, and which calls of its functions it lets through (jsonrpc/auth/auth.go).
use hggutils.Common.{
  ℕ, ◌≡◌, refl, sym, ap, ◌∙◌, ◌<◌, ◌≢◌, ◌↔◌, ◌⊎◌, inl, inr, Bool, true, List, [], ◌∷◌, ◌++◌, arith,
  Bool-cases, List-cases, ◌==◌, length, All,
}
use hggutils.Common.Text.{Text, text_key, text_beq_iff}
use hggutils.Rpc.Message.{missing_permission, Value, error_value, GoType}
use hggutils.Auth.{
  Context, includes, caller_perms, has_perm, ProxyField, Proxied, missing_tag, unknown_tag, proxied,
  add_field, permissioned_proxy, Arg, context, invoked, denied, refusal, call_field,
}

abbrev pub IsIn : Text → List Text → Type 0
IsIn perm [] = ⊥
IsIn perm (p ∷ ps) = (p ≡ perm) ⊎ IsIn perm ps

includes-IsIn : (ps : List Text) (perm : Text) → (includes ps perm ≡ true) ↔ IsIn perm ps
unfolding includes
includes-IsIn [] perm = ((λ h. cc), λ h. absurd h)
includes-IsIn (p ∷ ps) perm = elim (Bool-cases (p == perm)) [
  | inl e ↦ ((λ h. inl ((text_beq_iff p perm).0 e)), λ h. rw e)
  | inr e ↦ (
    (λ h. inr ((includes-IsIn ps perm).0 (rw e at h))),
    λ h. elim h [
      | inl same ↦ rw ((text_beq_iff p perm).1 same)
      | inr later ↦ rw (e, (includes-IsIn ps perm).1 later)
    ],
  )
]

-- A tag that the proxy takes.
abbrev pub HasValidTag : List Text → ProxyField → Type 0
HasValidTag valid_perms f = (f.perm_tag ≢ []) × IsIn f.perm_tag valid_perms

valid-proxied :
    (valid_perms : List Text) (fs : List ProxyField)
    → All (HasValidTag valid_perms) fs
    → permissioned_proxy valid_perms fs ≡ proxied fs
unfolding permissioned_proxy
valid-proxied valid_perms [] h = refl
valid-proxied valid_perms (f ∷ fs) ((nonempty, valid), h) = elim (Bool-cases (f.perm_tag == [])) [
  | inl e ↦ absurd (nonempty ((text_beq_iff f.perm_tag []).0 e))
  | inr e ↦ rw (e, (includes-IsIn valid_perms f.perm_tag).1 valid, valid-proxied valid_perms fs h)
]

add_field-proxied :
    (f : ProxyField) (p : Proxied) (gs : List ProxyField)
    → add_field f p ≡ proxied gs
    → (fs : List ProxyField) × (p ≡ proxied fs) × (gs ≡ f ∷ fs)
add_field-proxied f (proxied fs) gs h = (fs, refl, cc)
add_field-proxied f (missing_tag n) gs h = cc
add_field-proxied f (unknown_tag n) gs h = cc

proxied-valid :
    (valid_perms : List Text) (fs gs : List ProxyField)
    → permissioned_proxy valid_perms fs ≡ proxied gs
    → (gs ≡ fs) × All (HasValidTag valid_perms) fs
unfolding permissioned_proxy
proxied-valid valid_perms [] gs h = (cc, tt)
proxied-valid valid_perms (f ∷ fs) gs h = elim (Bool-cases (f.perm_tag == [])) [
  | inl e ↦ cc (rw e at h)
  | inr e ↦ elim (Bool-cases (includes valid_perms f.perm_tag)) [
    | inr bad ↦ cc (rw (e, bad) at h)
    | inl good ↦
        let (later, q, same) = add_field-proxied f _ gs (rw (e, good) at h) in
        let (ih, valid) = proxied-valid valid_perms fs later q in
        (
          same ∙ ap (◌∷◌ f) ih,
          (
            (
              (λ empty. cc ((text_beq_iff f.perm_tag []).1 empty)),
              (includes-IsIn valid_perms f.perm_tag).0 good,
            ),
            valid,
          ),
        )
  ]
]

-- The proxy is made, with a function for each field of the struct, exactly when each field has a tag
-- perm that is one of the valid permissions; else it panics.
pub permissioned_proxy-proxied :
    (valid_perms : List Text) (fs gs : List ProxyField)
    → (permissioned_proxy valid_perms fs ≡ proxied gs)
      ↔ ((gs ≡ fs) × All (HasValidTag valid_perms) fs)
permissioned_proxy-proxied valid_perms fs gs =
    (proxied-valid valid_perms fs gs, λ h. valid-proxied valid_perms fs h.1 ∙ ap proxied (sym h.0))

-- The last of some results is the error of a missing permission, and there are as many as the type has.
abbrev pub IsRefusal : ProxyField → List Value → Type 0
IsRefusal f outs =
    (length outs ≡ length f.outs)
    × ((before : List Value) × (outs
          ≡ before ++ error_value (missing_permission f.name f.perm_tag) ∷ []))

one_or_two : (n : ℕ) → (n ≡ 1) ⊎ (n ≡ 2) → (n ≡ 0) ⊎ (2 < n) → ⊥
one_or_two n h k = ground arith

refusal-IsRefusal :
    (zero_of : GoType → Value) (f : ProxyField)
    → (length f.outs ≡ 1) ⊎ (length f.outs ≡ 2)
    → IsRefusal f (refusal zero_of f)
unfolding refusal
refusal-IsRefusal zero_of f h = elim (List-cases f.outs) [
  | inl e ↦ absurd (one_or_two _ (rw e at h) (inl refl))
  | inr (t, rest, e) ↦ elim (List-cases rest) [
    | inl e' ↦ rw (e, e', refusal) (refl, ([], refl))
    | inr (u, more, e') ↦ elim (List-cases more) [
      | inl e'' ↦ rw (e, e', e'', refusal) (refl, (zero_of t ∷ [], refl))
      | inr (v, _, e'') ↦ absurd (one_or_two _ (rw (e, e', e'') at h) (inr (omega arith)))
    ]
  ]
]

denied-injective : (a b : List Value) → denied a ≡ denied b → a ≡ b
denied-injective a b h = cc

module _ (zero_of : GoType → Value) (has_method : Text → Bool) (default_perms : List Text)
    (f : ProxyField) (c : Context) (args : List Arg) where
  -- A call of a function of the proxy, of one or two results and with the method behind it, invokes
  -- just that method, with the same arguments, exactly when the permissions of its context, or the
  -- default ones where the context has none, include the tag; it is denied exactly when they do not,
  -- and the caller then gets as many results as the type has, with the error of the missing permission
  -- as the last.
  pub call_field-invoked :
      (outs : List Value)
      → has_method f.name ≡ true
      → (length f.outs ≡ 1) ⊎ (length f.outs ≡ 2)
      → ((call_field zero_of has_method default_perms f (context c ∷ args)
            ≡ invoked f.name (context c ∷ args))
          ↔ IsIn f.perm_tag (caller_perms c default_perms))
        × ((call_field zero_of has_method default_perms f (context c ∷ args) ≡ denied outs)
            ↔ ((IsIn f.perm_tag (caller_perms c default_perms) → ⊥) × (outs ≡ refusal zero_of f)))
        × IsRefusal f (refusal zero_of f)
  unfolding call_field has_perm
  call_field-invoked outs m n =
      let member = includes-IsIn (caller_perms c default_perms) f.perm_tag in
      elim (Bool-cases (includes (caller_perms c default_perms) f.perm_tag)) [
        | inl e ↦ (
          ((λ h. member.0 e), λ i. rw (e, m)),
          ((λ h. cc (rw (e, m) at h)), λ h. absurd (h.0 (member.0 e))),
          refusal-IsRefusal zero_of f n,
        )
        | inr e ↦ (
          ((λ h. cc (rw e at h)), λ i. cc (member.1 i)),
          (
            (λ h. ((λ i. cc (member.1 i)), sym (denied-injective _ _ (rw e at h)))),
            λ h. rw e (ap denied (sym h.1)),
          ),
          refusal-IsRefusal zero_of f n,
        )
      ]

pub invoked-IsIn :
    (zero_of : GoType → Value) (has_method : Text → Bool) (default_perms : List Text)
    (f : ProxyField) (c : Context) (args : List Arg) (name : Text) (passed : List Arg)
    → call_field zero_of has_method default_perms f (context c ∷ args) ≡ invoked name passed
    → IsIn f.perm_tag (caller_perms c default_perms)
unfolding call_field has_perm
invoked-IsIn zero_of has_method default_perms f c args name passed h =
    elim (Bool-cases (includes (caller_perms c default_perms) f.perm_tag)) [
      | inl e ↦ (includes-IsIn (caller_perms c default_perms) f.perm_tag).0 e
      | inr e ↦ cc (rw e at h)
    ]
