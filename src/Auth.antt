-- ===== src/Auth.antt =====
-- jsonrpc/auth: permissions in contexts, the proxy that asks for them, and the HTTP handler that puts
-- them there. The check of a token and the methods behind the proxy are arguments.
pub mod Proxy
pub mod Tokens
pub mod Access
pub mod Tests
use hggutils.Common.{
  Bool, true, false, List, [], ◌∷◌, ◌++◌, Option, none, some, ◌==◌, if◌then◌else◌,
}
use hggutils.Common.Text.{Text, codes, text_key, has_prefix, trim_prefix}
use hggutils.Rpc.Message.{Fault, missing_permission, Result, ok, err, Value, error_value, GoType}

-- A context, as far as it is asked: its value under permCtxKey.
pub record Context : Type 0 where
  pub perms : Option (List Text)

-- WithPerm
unfoldable pub with_perm : Context → List Text → Context
with_perm c perms = record { perms = some perms }

-- The loop of HasPerm, and that of PermissionedProxy over the valid permissions.
unfoldable pub includes : List Text → Text → Bool
includes [] perm = false
includes (p ∷ ps) perm = if p == perm then true else includes ps perm

abbrev pub caller_perms : Context → List Text → List Text
caller_perms c default_perms = elim c.perms [ none ↦ default_perms | some ps ↦ ps ]

-- HasPerm
unfoldable pub has_perm : Context → List Text → Text → Bool
has_perm c default_perms perm = includes (caller_perms c default_perms) perm

-- A field of the struct that the proxy fills: its name, its tag, and its function's results.
pub record ProxyField : Type 0 where
  pub name : Text
  pub perm_tag : Text
  pub outs : List GoType

pub data Proxied : Type 0 where
  missing_tag unknown_tag : Text → Proxied
  proxied : List ProxyField → Proxied

abbrev add_field : ProxyField → Proxied → Proxied
add_field f (proxied fs) = proxied (f ∷ fs)
add_field f stopped = stopped

-- PermissionedProxy: the fields that get a function, or the panic at the first bad tag.
unfoldable pub permissioned_proxy : List Text → List ProxyField → Proxied
permissioned_proxy valid_perms [] = proxied []
permissioned_proxy valid_perms (f ∷ fs) =
    let rest = permissioned_proxy valid_perms fs in
    if f.perm_tag == []
    then missing_tag f.name
    else if includes valid_perms f.perm_tag
    then add_field f rest
    else unknown_tag f.name

pub data Arg : Type 0 where
  context : Context → Arg
  other : Value → Arg

pub data Called : Type 0 where
  -- fn.Call(args)
  invoked : Text → List Arg → Called
  denied : List Value → Called
  panics : Called

unfoldable pub refusal : (GoType → Value) → ProxyField → List Value
refusal zero_of f = elim f.outs [
  | t ∷ _ ∷ [] ↦ zero_of t ∷ error_value (missing_permission f.name f.perm_tag) ∷ []
  | _ ↦ error_value (missing_permission f.name f.perm_tag) ∷ []
]

-- The function that the proxy puts into a field; a method that the implementation lacks panics.
unfoldable pub call_field :
    (GoType → Value) → (Text → Bool) → List Text → ProxyField → List Arg → Called
unfolding refusal
call_field zero_of has_method default_perms f [] = panics
call_field zero_of has_method default_perms f (other v ∷ args) = panics
call_field zero_of has_method default_perms f (context c ∷ args) =
    if has_perm c default_perms f.perm_tag
    then (if has_method f.name then invoked f.name (context c ∷ args) else panics)
    else denied (refusal zero_of f)

pub data Served : Type 0 where
  refused : Served
  next : Context → Served

unfoldable pub bearer : Text
bearer = codes "Bearer "

-- The token of the header Authorization, else the form's with the prefix.
unfoldable pub find_token : Text → Text → Text
find_token authorization form =
    if authorization == [] then (if form == [] then [] else bearer ++ form) else authorization

-- Handler.ServeHTTP; `refused` is the status 401.
unfoldable pub serve_auth : (Text → Result (List Text)) → Context → Text → Text → Served
unfolding find_token
serve_auth verify c authorization form =
    let token = find_token authorization form in
    if token == []
    then next c
    else if has_prefix token bearer
    then elim (verify (trim_prefix token bearer)) [
      | err _ ↦ refused
      | ok allow ↦ next (with_perm c allow)
    ]
    else refused
