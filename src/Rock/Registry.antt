-- ===== src/Rock/Registry.antt =====
-- rockfmw/rpc_map.go: the registry of services. Names are ASCII where the code asks for upper case.
pub mod Lookup
use hggutils.Common.{
  ℕ, suc, Bool, true, false, not, ◌&&◌, ◌||◌, List, [], ◌∷◌, ◌++◌, Option, none, some, ◌==◌, eqb,
  leb, length, if◌then◌else◌,
}
use hggutils.Common.Text.{Text, codes, text_key, to_lower, split}
use hggutils.Common.Dict.{Dict, find, put}
use hggutils.Rpc.Message.{
  Fault, not_exported, no_suitable_method, already_defined, ill_formed, no_service, no_method,
  no_service_name, Result, ok, err, Value,
}

-- reflect.Type, as far as the code looks at it: a pointer, DoneHandle, or a type with its name and
-- package path.
pub data ArgType : Type 0 where
  pointer : ArgType → ArgType
  done_handle : ArgType
  named : Text → Text → ArgType

-- What a method does: its calls of done, and whether it panics after them.
pub record Ran : Type 0 where
  pub done_calls : List (Value × Option Fault)
  pub panicked : Bool

-- A method of the receiver; `ins` has the receiver first.
pub record Method : Type 0 where
  pub name : Text
  pub pkg_path : Text
  pub ins : List ArgType
  pub body : Value → Value → Ran

pub record Receiver : Type 0 where
  pub value : Value
  pub type_name : Text
  pub methods : List Method

pub record ServiceMethod : Type 0 where
  pub method : Method
  pub args_type : ArgType

pub record Service : Type 0 where
  pub name : Text
  pub rcvr : Value
  pub methods : Dict Text ServiceMethod

abbrev pub ServiceMap : Type 0
ServiceMap = Dict Text Service

unfoldable pub is_exported : Text → Bool
is_exported [] = false
is_exported (c ∷ _) = leb b'A' c && leb c b'Z'

unfoldable pub is_exported_or_builtin : ArgType → Bool
unfolding is_exported
is_exported_or_builtin (pointer t) = is_exported_or_builtin t
is_exported_or_builtin done_handle = true
is_exported_or_builtin (named name pkg) = is_exported name || (pkg == [])

abbrev suitable_args : Method → ArgType → ArgType → Option ServiceMethod
suitable_args m (pointer args) done_handle =
    if is_exported_or_builtin (pointer args)
    then some (record { method = m; args_type = args })
    else none
suitable_args m _ _ = none

abbrev suitable_ins : Method → List ArgType → Option ServiceMethod
suitable_ins m (_ ∷ args ∷ reply ∷ []) = suitable_args m args reply
suitable_ins m _ = none

-- The checks of one method in the loop of register.
unfoldable pub suitable : Method → Option ServiceMethod
unfolding is_exported_or_builtin
suitable m = if m.pkg_path == [] then suitable_ins m m.ins else none

-- The loop of register; a later method takes the place of one that differs in case only.
unfoldable pub collect : Dict Text ServiceMethod → List Method → Dict Text ServiceMethod
unfolding suitable
collect found [] = found
collect found (m ∷ ms) = elim (suitable m) [
  | none ↦ collect found ms
  | some s ↦ collect (put (to_lower m.name) s found) ms
]

unfoldable pub service_name : Receiver → Text → Result Text
unfolding is_exported
service_name r name =
    if name == []
    then (if is_exported r.type_name then ok r.type_name else err (not_exported r.type_name))
    else ok name

abbrev is_none : Option Service → Bool
is_none none = true
is_none (some _) = false

abbrev add_service : ServiceMap → Receiver → Text → Dict Text ServiceMethod → Result ServiceMap
add_service services r name [] = err (no_suitable_method name)
add_service services r name (m ∷ ms) =
    if is_none (find name services)
    then ok (put name (record { name = name; rcvr = r.value; methods = m ∷ ms }) services)
    else err (already_defined name)

-- serviceMap.register
unfoldable pub register : ServiceMap → Receiver → Text → Result ServiceMap
unfolding service_name collect
register services r name = elim (service_name r name) [
  | err f ↦ err f
  | ok n ↦ if n == [] then err no_service_name else add_service services r n (collect [] r.methods)
]

abbrev find_method : Text → Service → Text → Result (Service × ServiceMethod)
find_method dotted s name = elim (find (to_lower name) s.methods) [
  | none ↦ err (no_method dotted)
  | some m ↦ ok (s, m)
]

abbrev pub find_parts : ServiceMap → Text → List Text → Result (Service × ServiceMethod)
find_parts services dotted (name ∷ method ∷ []) = elim (find name services) [
  | none ↦ err (no_service dotted)
  | some s ↦ find_method dotted s method
]
find_parts services dotted _ = err (ill_formed dotted)

-- serviceMap.get
unfoldable pub get : ServiceMap → Text → Result (Service × ServiceMethod)
get services dotted = find_parts services dotted (split b'.' dotted)
