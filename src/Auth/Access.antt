-- ===== src/Auth/Access.antt =====
-- The handler and the proxy together (jsonrpc/auth): no method without its permission.
use hggutils.Common.{◌≡◌, subst, ◌⊎◌, inl, inr, Bool, List, [], ◌∷◌, none}
use hggutils.Common.Text.{Text, text_key}
use hggutils.Rpc.Message.{Result, ok, Value, GoType}
use hggutils.Auth.{
  Context, with_perm, caller_perms, ProxyField, Arg, context, invoked, call_field, next, serve_auth,
}
use hggutils.Auth.Proxy.{IsIn, invoked-IsIn}
use hggutils.Auth.Tokens.{Presents, serve_auth-Passes}

module _ (verify : Text → Result (List Text)) (zero_of : GoType → Value) (has_method : Text → Bool)
    (default_perms : List Text) where
  -- No method runs without its permission. If a request whose context has no permissions passes the
  -- handler and a call of the proxy with the context that it passes with invokes a method, then
  -- either it had no token and the default permissions include the tag of the field, or it presented
  -- a token that the check accepts with permissions that include the tag.
  pub invoked-authorised :
      (c d : Context) (authorization form : Text) (f : ProxyField) (args : List Arg) (name : Text)
      (passed : List Arg)
      → c.perms ≡ none
      → serve_auth verify c authorization form ≡ next d
      → call_field zero_of has_method default_perms f (context d ∷ args) ≡ invoked name passed
      → ((authorization ≡ []) × (form ≡ []) × IsIn f.perm_tag default_perms)
        ⊎ ((token : Text) × (allow : List Text) × Presents authorization form token
            × (verify token ≡ ok allow)
            × IsIn f.perm_tag allow)
  unfolding with_perm
  invoked-authorised c d authorization form f args name passed bare s h =
      let held = invoked-IsIn zero_of has_method default_perms f d args name passed h in
      elim (serve_auth-Passes verify c authorization form d s) [
        | inl (a, b, same) ↦ inl (a, b, subst (IsIn f.perm_tag) (open_perms same) held)
        | inr (token, allow, p, v, same) ↦ inr (
          token,
          allow,
          p,
          v,
          subst (λ d. IsIn f.perm_tag (caller_perms d default_perms)) same held,
        )
      ]
    where
      open_perms : d ≡ c → caller_perms d default_perms ≡ default_perms
      open_perms same = rw (same, bare)
