-- ===== src/Auth/Tokens.antt =====
-- Which requests the handler lets pass, and with which permissions (jsonrpc/auth/handler.go).
use hggutils.Common.{
  ◌≡◌, refl, sym, ap, ◌∙◌, ◌≢◌, ◌↔◌, ◌⊎◌, inl, inr, List, [], ◌++◌, Bool-cases, if◌then◌else◌, ◌==◌,
}
use hggutils.Common.Text.{
  Text, text_key, text_beq, text_beq_iff, has_prefix, trim_prefix, has_prefix-append,
  trim_prefix-append, has_prefix-trim_prefix,
}
use hggutils.Rpc.Message.{Result, ok, err, Result-cases}
use hggutils.Auth.{Context, with_perm, Served, refused, next, bearer, find_token, serve_auth}

-- A token that a request presents, in its header or in its form.
abbrev pub Presents : Text → Text → Text → Type 0
Presents authorization form token =
    (authorization ≡ bearer ++ token) ⊎ ((authorization ≡ []) × (form ≡ token) × (token ≢ []))

-- What lets a request pass, and the context that it passes with.
abbrev pub Passes : (Text → Result (List Text)) → Context → Text → Text → Context → Type 0
Passes verify c authorization form d =
    ((authorization ≡ []) × (form ≡ []) × (d ≡ c))
    ⊎ ((token : Text) × (allow : List Text) × Presents authorization form token
        × (verify token ≡ ok allow)
        × (d ≡ with_perm c allow))

no_token : find_token [] [] ≡ []
unfolding find_token text_beq
no_token = refl

form_token : (form : Text) → form ≢ [] → find_token [] form ≡ bearer ++ form
unfolding find_token text_beq
form_token form n = elim (Bool-cases (form == [])) [
  | inl e ↦ absurd (n ((text_beq_iff form []).0 e))
  | inr e ↦ rw e
]

header_token : (token form : Text) → find_token (bearer ++ token) form ≡ bearer ++ token
unfolding find_token bearer text_beq
header_token token form = refl

module _ (verify : Text → Result (List Text)) (c : Context) where
  -- What the handler does with a token.
  abbrev check_token : Text → Served
  check_token token =
      if token == []
      then next c
      else if has_prefix token bearer
      then elim (verify (trim_prefix token bearer)) [
        | err _ ↦ refused
        | ok allow ↦ next (with_perm c allow)
      ]
      else refused

  bearer_next :
      (token : Text)
      → check_token (bearer ++ token)
        ≡ elim (verify token) [ err _ ↦ refused | ok allow ↦ next (with_perm c allow) ]
  unfolding bearer text_beq
  bearer_next token = rw (has_prefix-append bearer token, trim_prefix-append bearer token)

  verified_next :
      (token : Text) (d : Context)
      → elim (verify token) [ err _ ↦ refused | ok allow ↦ next (with_perm c allow) ] ≡ next d
      → (allow : List Text) × (verify token ≡ ok allow) × (d ≡ with_perm c allow)
  verified_next token d h = elim (Result-cases (verify token)) [
    | inl (allow, e) ↦ (allow, e, cc (rw e at h))
    | inr (f, e) ↦ cc (rw e at h)
  ]

  header_next :
      (token : Text) (d : Context)
      → token ≢ []
      → check_token token ≡ next d
      → (t : Text) × (token ≡ bearer ++ t) × (check_token (bearer ++ t) ≡ next d)
  header_next token d nonempty h = elim (Bool-cases (token == [])) [
    | inl e ↦ absurd (nonempty ((text_beq_iff token []).0 e))
    | inr e ↦ elim (Bool-cases (has_prefix token bearer)) [
      | inr not_ok ↦ cc (rw (e, not_ok) at h)
      | inl ok_prefix ↦
          let split = has_prefix-trim_prefix token bearer ok_prefix in
          (trim_prefix token bearer, split, ap check_token (sym split) ∙ h)
    ]
  ]

  pub serve_auth-Passes :
      (authorization form : Text) (d : Context)
      → serve_auth verify c authorization form ≡ next d
      → Passes verify c authorization form d
  unfolding serve_auth find_token
  serve_auth-Passes authorization form d h = elim (Bool-cases (authorization == [])) [
    | inl e ↦
        let empty = (text_beq_iff authorization []).0 e in
        elim (Bool-cases (form == [])) [
          | inl e' ↦ inl (empty, (text_beq_iff form []).0 e', cc (rw (e, e') at h))
          | inr e' ↦
              let (allow, ok_allow, same) =
                verified_next form d (sym (bearer_next form) ∙ rw (e, e') at h) in
              inr (
                form,
                allow,
                inr (empty, refl, λ n. cc ((text_beq_iff form []).1 n)),
                ok_allow,
                same,
              )
        ]
    | inr e ↦
        let (t, split, got) =
          header_next authorization d (λ n. cc ((text_beq_iff authorization []).1 n)) (rw e at h) in
        let (allow, ok_allow, same) = verified_next t d (sym (bearer_next t) ∙ got) in
        inr (t, allow, inl split, ok_allow, same)
  ]

  Passes-serve_auth :
      (authorization form : Text) (d : Context)
      → Passes verify c authorization form d
      → serve_auth verify c authorization form ≡ next d
  unfolding serve_auth text_beq
  Passes-serve_auth authorization form d (inl (a, b, same)) =
      rw (a, b, same) (ap check_token no_token)
  Passes-serve_auth authorization form d (inr (token, allow, inl p, v, same)) =
      rw (p, same) (ap check_token (header_token token form) ∙ bearer_next token ∙ rw v refl)
  Passes-serve_auth authorization form d (inr (token, allow, inr (a, b, n), v, same)) =
      rw (a, b, same) (ap check_token (form_token token n) ∙ bearer_next token ∙ rw v refl)

  -- The handler lets a request pass exactly if it has no token at all, with its context as it was, or
  -- if it presents a token that the check accepts, with just the permissions that the check gives: in
  -- its header, behind the word Bearer, or, with no such header, in its form. All else gets the status
  -- 401.
  pub serve_auth-next :
      (authorization form : Text) (d : Context)
      → (serve_auth verify c authorization form ≡ next d) ↔ Passes verify c authorization form d
  serve_auth-next authorization form d =
      (serve_auth-Passes authorization form d, Passes-serve_auth authorization form d)
