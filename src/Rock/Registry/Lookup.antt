-- ===== src/Rock/Registry/Lookup.antt =====
-- What get finds after register (rockfmw/rpc_map.go).
use hggutils.Common.{
  ◌≡◌, refl, sym, ap, subst, ◌∙◌, ◌≢◌, ◌⊎◌, inl, inr, List, [], ◌∷◌, ◌++◌, none, some, Option-cases,
  Bool-cases, ◌==◌, All,
}
use hggutils.Common.Text.{
  Text, text_key, to_lower, split, Lacks, split-lacking, split-sep, split-AllLack,
}
use hggutils.Common.Dict.{Dict, find, put, find-put_self, find-put_ne}
use hggutils.Rpc.Message.{ok}
use hggutils.Rock.Registry.{
  Method, Receiver, ServiceMethod, Service, ServiceMap, suitable, collect, service_name,
  add_service, register, find_method, find_parts, get,
}

ok-injective : {A : Type 0} (a b : A) → ok a ≡ ok b → a ≡ b
ok-injective a b h = cc

-- A method under another name in lower case, or one that register passes over.
abbrev pub LeavesAlone : Text → Method → Type 0
LeavesAlone key m = (to_lower m.name ≢ key) ⊎ (suitable m ≡ none)

collect-LeavesAlone :
    (found : Dict Text ServiceMethod) (key : Text) (ms : List Method)
    → All (LeavesAlone key) ms
    → find key (collect found ms) ≡ find key found
unfolding collect
collect-LeavesAlone found key [] h = refl
collect-LeavesAlone found key (m ∷ ms) (h, later) = elim (Option-cases (suitable m)) [
  | inl e ↦ rw (e, collect) (collect-LeavesAlone found key ms later)
  | inr (s, e) ↦ elim h [
    | inr passed ↦ cc
    | inl ne ↦
        rw (e, collect)
          (collect-LeavesAlone (put (to_lower m.name) s found) key ms later
            ∙ find-put_ne (to_lower m.name) key s found ne)
  ]
]

collect-last :
    (found : Dict Text ServiceMethod) (before after : List Method) (m : Method) (s : ServiceMethod)
    → suitable m ≡ some s
    → All (LeavesAlone (to_lower m.name)) after
    → find (to_lower m.name) (collect found (before ++ m ∷ after)) ≡ some s
unfolding collect
collect-last found [] after m s e h =
    rw (e, collect)
      (collect-LeavesAlone (put (to_lower m.name) s found) (to_lower m.name) after h
        ∙ find-put_self (to_lower m.name) s found)
collect-last found (b ∷ before) after m s e h = elim (Option-cases (suitable b)) [
  | inl e' ↦ rw (e', collect) (collect-last found before after m s e h)
  | inr (t, e') ↦
      rw (e', collect) (collect-last (put (to_lower b.name) t found) before after m s e h)
]

-- The service that register adds.
abbrev pub service_of : Receiver → Text → Service
service_of r n = record { name = n; rcvr = r.value; methods = collect [] r.methods }

add_service-ok :
    (services services' : ServiceMap) (r : Receiver) (n : Text) (ms : Dict Text ServiceMethod)
    → add_service services r n ms ≡ ok services'
    → (find n services ≡ none)
      × (services' ≡ put n (record { name = n; rcvr = r.value; methods = ms }) services)
add_service-ok services services' r n [] h = cc
add_service-ok services services' r n (m ∷ ms) h = elim (Option-cases (find n services)) [
  | inl e ↦ (e, sym (ok-injective _ _ (rw e at h)))
  | inr (s, e) ↦ cc (rw e at h)
]

register-ok :
    (services services' : ServiceMap) (r : Receiver) (name n : Text)
    → service_name r name ≡ ok n
    → register services r name ≡ ok services'
    → (find n services ≡ none) × (services' ≡ put n (service_of r n) services)
unfolding register
register-ok services services' r name n e h = elim (Bool-cases (n == [])) [
  | inl empty ↦ cc (rw (e, empty, register) at h)
  | inr full ↦
      add_service-ok services services' r n (collect [] r.methods) (rw (e, full, register) at h)
]

split-dotted : (a b : Text) → Lacks b'.' a → Lacks b'.' b → split b'.' (a ++ b'.' ∷ b) ≡ a ∷ b ∷ []
split-dotted a b l k = split-sep b'.' a b l ∙ ap (◌∷◌ a) (split-lacking b'.' b k)

pub get-register_self :
    (services services' : ServiceMap) (r : Receiver) (name n x : Text) (before after : List Method)
    (m : Method) (s : ServiceMethod)
    → service_name r name ≡ ok n
    → register services r name ≡ ok services'
    → r.methods ≡ before ++ m ∷ after
    → suitable m ≡ some s
    → All (LeavesAlone (to_lower m.name)) after
    → to_lower x ≡ to_lower m.name
    → Lacks b'.' n
    → Lacks b'.' x
    → get services' (n ++ b'.' ∷ x) ≡ ok (service_of r n, s)
unfolding get
get-register_self services services' r name n x before after m s en h ms es later low ln lx =
    let (free, same) = register-ok services services' r name n en h in
    let found : find (to_lower x) (collect [] r.methods) ≡ some s =
      rw (low, ms) (collect-last [] before after m s es later) in
    rw (
      split-dotted n x ln lx,
      get,
      same,
      find_parts,
      find-put_self n (service_of r n) services,
      find_method,
      found,
    )

-- A registered method is found. After a receiver is registered under the name n, a name of the form
-- n.x finds, whatever its case, the method m of the receiver that has the name x, if m is suitable
-- and no suitable method behind it has the same name but for the case; the name n was free before,
-- and a name o.y with another service is looked up as before. None of n, x, o and y has a dot.
pub get-register :
    (services services' : ServiceMap) (r : Receiver) (name n x o y : Text)
    (before after : List Method) (m : Method) (s : ServiceMethod)
    → service_name r name ≡ ok n
    → register services r name ≡ ok services'
    → r.methods ≡ before ++ m ∷ after
    → suitable m ≡ some s
    → All (LeavesAlone (to_lower m.name)) after
    → to_lower x ≡ to_lower m.name
    → Lacks b'.' n
    → Lacks b'.' x
    → Lacks b'.' o
    → Lacks b'.' y
    → n ≢ o
    → (get services' (n ++ b'.' ∷ x) ≡ ok (service_of r n, s))
      × (find n services ≡ none)
      × (get services' (o ++ b'.' ∷ y) ≡ get services (o ++ b'.' ∷ y))
unfolding get
get-register services services' r name n x o y before after m s en h ms es later low ln lx lo ly
      ne =
    let (free, same) = register-ok services services' r name n en h in
    (
      get-register_self services services' r name n x before after m s en h ms es later low ln lx,
      free,
      rw (
        split-dotted o y lo ly,
        get,
        same,
        find_parts,
        find-put_ne n o (service_of r n) services ne,
      ),
    )

find_parts-put :
    (services : ServiceMap) (n dotted : Text) (s : Service) (parts : List Text)
    → All (Lacks b'.') parts
    → (Lacks b'.' n → ⊥)
    → find_parts (put n s services) dotted parts ≡ find_parts services dotted parts
find_parts-put services n dotted s [] l h = refl
find_parts-put services n dotted s (a ∷ []) l h = refl
find_parts-put services n dotted s (a ∷ b ∷ []) (la, _) h =
    rw (find_parts, find-put_ne n a s services (λ e. h (subst (Lacks b'.') (sym e) la)))
find_parts-put services n dotted s (a ∷ b ∷ c ∷ rest) l h = refl

-- A service whose name has a dot is registered without an error and is never found: each lookup
-- gives what it gave before.
pub get-register_dotted :
    (services services' : ServiceMap) (r : Receiver) (name n dotted : Text)
    → service_name r name ≡ ok n
    → register services r name ≡ ok services'
    → (Lacks b'.' n → ⊥)
    → get services' dotted ≡ get services dotted
unfolding get
get-register_dotted services services' r name n dotted en h dot =
    let (free, same) = register-ok services services' r name n en h in
    rw (same, get)
      (find_parts-put services n dotted (service_of r n) (split b'.' dotted)
        (split-AllLack b'.' dotted) dot)
