-- ===== src/Auth/Tests.antt =====
-- Runs of jsonrpc/auth: a proxy with one field, tokens, and the theorems at them.
use hggutils.Common.{
  ◌≡◌, refl, ◌↔◌, ◌⊎◌, Bool, true, List, [], ◌∷◌, none, some, if◌then◌else◌, ◌==◌,
}
use hggutils.Common.Text.{Text, codes, text_key, text_beq, has_prefix, trim_prefix}
use hggutils.Rpc.Message.{plain, Result, ok, err, Value, json_value, GoType, named, error_type}
use hggutils.Auth.{
  Context, with_perm, includes, has_perm, ProxyField, missing_tag, permissioned_proxy, context,
  call_field, refused, next, bearer, find_token, serve_auth,
}
use hggutils.Auth.Proxy.{IsIn}
use hggutils.Auth.Tokens.{Presents, Passes, serve_auth-next}
use hggutils.Auth.Access.{invoked-authorised}

abbrev valid : List Text
valid = codes "read" ∷ codes "write" ∷ []

abbrev write_field : ProxyField
write_field = record {
  name = codes "Write";
  perm_tag = codes "write";
  outs = named (codes "int") ∷ error_type ∷ [];
}

-- The token "w" gives the permission to write.
abbrev check : Text → Result (List Text)
check token =
    if token == codes "w" then ok (codes "write" ∷ []) else err (plain (codes "bad token"))

abbrev no_perms : Context
no_perms = record { perms = none }

abbrev zero_json : GoType → Value
zero_json t = json_value (0 ∷ [])

abbrev all_methods : Text → Bool
all_methods name = true

auth_run : Unit {0}
unfolding permissioned_proxy includes call_field has_perm with_perm serve_auth find_token bearer
    text_beq has_prefix trim_prefix
auth_run = tt

bad_token_run : serve_auth check no_perms (codes "Bearer x") [] ≡ refused
unfolding auth_run
bad_token_run = refl

form_token_run :
    serve_auth check no_perms [] (codes "w") ≡ next (record { perms = some (codes "write" ∷ []) })
unfolding auth_run
form_token_run = refl

untagged_run :
    permissioned_proxy valid (record write_field { perm_tag = [] } ∷ [])
    ≡ missing_tag (codes "Write")
unfolding auth_run
untagged_run = refl

serve_auth-next_example :
    (serve_auth check no_perms (codes "Bearer w") []
      ≡ next (with_perm no_perms (codes "write" ∷ [])))
    ↔ Passes check no_perms (codes "Bearer w") [] (with_perm no_perms (codes "write" ∷ []))
serve_auth-next_example =
    serve_auth-next check no_perms (codes "Bearer w") [] (with_perm no_perms (codes "write" ∷ []))

invoked-authorised_example :
    ((codes "Bearer w" ≡ []) × (codes "" ≡ []) × IsIn (codes "write") (codes "read" ∷ []))
    ⊎ ((token : Text) × (allow : List Text) × Presents (codes "Bearer w") [] token
        × (check token ≡ ok allow)
        × IsIn (codes "write") allow)
unfolding auth_run
invoked-authorised_example =
    invoked-authorised check zero_json all_methods (codes "read" ∷ []) no_perms
      (with_perm no_perms (codes "write" ∷ [])) (codes "Bearer w") [] write_field [] (codes "Write")
      (context (with_perm no_perms (codes "write" ∷ [])) ∷ []) refl refl refl
