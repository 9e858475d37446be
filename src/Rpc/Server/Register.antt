-- ===== src/Rpc/Server/Register.antt =====
-- RPCServer.register, AliasMethod and NewServer, and the handlers that they make.
use hggutils.Common.{
  ℕ, ◌+◌, ◌-◌, ◌≡◌, subst, ◌⊎◌, inl, inr, ◌&&◌, List, [], ◌∷◌, ◌++◌, Option, none, some, arith,
  Option-cases, Bool-cases, ◌==◌, leb, if◌then◌else◌, length, get_elem?, drop, length-drop, All,
}
use hggutils.Common.Int.{ℤ}
use hggutils.Common.Text.{Text, codes, text_key}
use hggutils.Common.Dict.{Dict, find, delete, put}
use mathlib.Core.Option.{some-injective}
use hggutils.Rpc.Message.{
  Fault, Value, nil_value, error_value, GoType, error_type, context_type, type_key, FuncType,
  process_func_out,
}
use hggutils.Rpc.Server.{returned, Func, RpcHandler, ParamDecoder, RpcServer}

-- A method of the registered value, as reflection lists it.
pub record Method : Type 0 where
  pub name : Text
  pub func : Func

-- NewServer, from the options' configuration
unfoldable pub new_server : Dict GoType ParamDecoder → ℤ → RpcServer
new_server decoders max_size = record {
  methods = [];
  aliased_methods = [];
  param_decoders = decoders;
  max_request_size = max_size;
}

-- Whether the argument behind the receiver is a context: 1 or 0.
context_args : FuncType → ℕ
context_args f = elim (get_elem? f.ins 1) [
  | none ↦ 0
  | some t ↦ if leb 2 (length f.ins) && t == context_type then 1 else 0
]

-- The handler of a method; `none` is the panic of processFuncOut.
unfoldable pub make_handler : Value → Method → Option RpcHandler
unfolding context_args process_func_out
make_handler receiver m =
    let has_ctx = context_args m.func.typ in
    elim (process_func_out m.func.typ) [
      | none ↦ none
      | some (val_out, err_out, _) ↦ some (record {
        param_receivers = drop (1 + has_ctx) m.func.typ.ins;
        n_params = length m.func.typ.ins - 1 - has_ctx;
        receiver = receiver;
        handler_func = m.func;
        has_ctx = has_ctx;
        err_out = err_out;
        val_out = val_out;
      })
    ]

-- RPCServer.register: the loop over the methods of the value.
unfoldable pub register : RpcServer → Text → Value → List Method → Option RpcServer
unfolding make_handler
register s namespace receiver [] = some s
register s namespace receiver (m ∷ ms) = elim (make_handler receiver m) [
  | none ↦ none
  | some h ↦
      register (record s { methods = put (namespace ++ codes "." ++ m.name) h s.methods }) namespace
        receiver ms
]

unfoldable pub alias_method : RpcServer → Text → Text → RpcServer
alias_method s alias original = record s { aliased_methods = put alias original s.aliased_methods }

-- A value that Go's types allow at a place of the type: at an error's, nil or an error.
abbrev pub Fits : GoType → Value → Type 0
Fits error_type v = (v ≡ nil_value) ⊎ ((f : Fault) × (v ≡ error_value f))
Fits _ v = Unit {0}

abbrev pub FitsAll : List GoType → List Value → Type 0
FitsAll [] [] = Unit {0}
FitsAll [] (_ ∷ _) = ⊥
FitsAll (_ ∷ _) [] = ⊥
FitsAll (t ∷ ts) (v ∷ vs) = Fits t v × FitsAll ts vs

-- What Go's type checker gives: a method returns values of its result types.
abbrev pub IsTyped : Func → Type 0
IsTyped f = (args outs : List Value) → f.body args ≡ returned outs → FitsAll f.typ.outs outs

pub record IsWellFormed (h : RpcHandler) : Type 0 where
  pub counted : h.n_params ≡ length h.param_receivers
  pub n_out : ℕ
  pub places : process_func_out h.handler_func.typ ≡ some (h.val_out, h.err_out, n_out)
  pub typed : IsTyped h.handler_func

abbrev pub AllWellFormed : Dict Text RpcHandler → Type 0
AllWellFormed d = All (λ e. IsWellFormed e.1) d

pub find-IsWellFormed :
    (d : Dict Text RpcHandler) (k : Text) (h : RpcHandler)
    → AllWellFormed d
    → find k d ≡ some h
    → IsWellFormed h
unfolding find
find-IsWellFormed [] k h w e = cc
find-IsWellFormed ((j, g) ∷ d) k h w e = elim (Bool-cases (j == k)) [
  | inl same ↦ subst IsWellFormed (some-injective _ _ (rw same at e)) w.0
  | inr other ↦ find-IsWellFormed d k h w.1 (rw other at e)
]

delete-AllWellFormed :
    (k : Text) (d : Dict Text RpcHandler) → AllWellFormed d → AllWellFormed (delete k d)
unfolding delete
delete-AllWellFormed k [] w = tt
delete-AllWellFormed k ((j, g) ∷ d) w = elim (Bool-cases (j == k)) [
  | inl same ↦ rw same (delete-AllWellFormed k d w.1)
  | inr other ↦ rw other (w.0, delete-AllWellFormed k d w.1)
]

make_handler-IsWellFormed :
    (receiver : Value) (m : Method) (h : RpcHandler)
    → IsTyped m.func
    → make_handler receiver m ≡ some h
    → IsWellFormed h
unfolding make_handler
make_handler-IsWellFormed receiver m h t e = elim (Option-cases (process_func_out m.func.typ)) [
  | inl p ↦ cc (rw (p, make_handler) at e)
  | inr ((v, er, n), p) ↦
      subst IsWellFormed (some-injective _ _ (rw (p, make_handler) at e)) (record {
        counted = omega (arith, length-drop (1 + context_args m.func.typ) m.func.typ.ins);
        n_out = n;
        places = p;
        typed = t;
      })
]

pub register-AllWellFormed :
    (ms : List Method) (s u : RpcServer) (namespace : Text) (receiver : Value)
    → All (λ m. IsTyped m.func) ms
    → register s namespace receiver ms ≡ some u
    → AllWellFormed s.methods
    → AllWellFormed u.methods
unfolding register put
register-AllWellFormed [] s u namespace receiver t e w =
    subst (λ x. AllWellFormed x.methods) (some-injective _ _ e) w
register-AllWellFormed (m ∷ ms) s u namespace receiver t e w =
    elim (Option-cases (make_handler receiver m)) [
      | inl p ↦ cc (rw (p, register) at e)
      | inr (h, p) ↦
          register-AllWellFormed ms _ u namespace receiver t.1 (rw (p, register) at e)
            (make_handler-IsWellFormed receiver m h t.0 p, delete-AllWellFormed _ s.methods w)
    ]

-- The servers that a program can set up.
pub data Built : RpcServer → Type 0 where
  made : (decoders : Dict GoType ParamDecoder) (size : ℤ) → Built (new_server decoders size)
  registers :
      {s u : RpcServer} (namespace : Text) (receiver : Value) (ms : List Method)
      → Built s
      → All (λ m. IsTyped m.func) ms
      → register s namespace receiver ms ≡ some u
      → Built u
  aliases :
      {s : RpcServer} (alias original : Text) → Built s → Built (alias_method s alias original)

pub Built-AllWellFormed : {s : RpcServer} → Built s → AllWellFormed s.methods
unfolding new_server alias_method
Built-AllWellFormed (made decoders size) = tt
Built-AllWellFormed (registers {s} {u} namespace receiver ms b t e) =
    register-AllWellFormed ms s u namespace receiver t e (Built-AllWellFormed b)
Built-AllWellFormed (aliases alias original b) = Built-AllWellFormed b
