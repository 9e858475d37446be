-- ===== src/Rpc/Message.antt =====
-- jsonrpc/handler.go, server.go, util.go: the data that the server and the client share.
-- An int64 or uint64 identifier is the number of its bit pattern, below 2 ^ 64.
-- The text of an error is kept as the constructor of its format with the arguments.
use hggutils.Common.{
  ℕ, ◌≡◌, refl, ◌↔◌, ◌⊎◌, inl, inr, Bool, true, false, ◌&&◌, List, [], ◌∷◌, Option, none, some,
  arith, Key, ◌==◌, if◌then◌else◌,
}
use hggutils.Common.Int.{ℤ, negsuc, leb_ℤ}
use hggutils.Common.Text.{Text, codes, text_beq, text_beq_iff, text_key}
use hggutils.Common.Dict.{Dict}

-- json.RawMessage and the data of a param
abbrev pub Raw : Type 0
Raw = List ℕ

pub data Fault : Type 0 where
  -- an error of user code or of a library, by its text
  plain : Text → Fault
  -- the server's
  reading_request unmarshaling_request : Fault → Fault
  request_too_big : ℤ → Fault
  method_not_found no_out_channel : Text → Fault
  wrong_param_count : Text → ℕ → ℕ → Fault
  unmarshaling_params : Text → Fault → Fault
  decoding_params : Text → ℕ → Fault → Fault
  fatal_call : Text → Fault → Fault
  panic_in_method : Text → Text → Fault
  connection_closing connection_closed : Fault
  -- the client's
  rpc_error_text : ℤ → Fault → Fault
  send_request_failed unmarshaling_result err_client : Fault → Fault
  id_mismatch : Fault
  marshaling_request unmarshaling_response parsing_address : Fault → Fault
  unknown_scheme : Text → Fault
  -- the permission proxy's
  missing_permission : Text → Text → Fault
  -- package rockfmw's
  not_exported no_suitable_method already_defined ill_formed no_service no_method : Text → Fault
  no_service_name params_miss : Fault
  finding_method reading_params : Fault → Fault
  -- the SQL decoder's and package strconv's
  not_a_pointer wrong_kind no_access bad_number : Fault
  wrong_count : ℕ → Fault

pub data Result {ℓ} (A : Type ℓ) : Type ℓ where
  ok : A → Result A
  err : Fault → Result A

pub Result-cases {ℓ} :
    {A : Type ℓ} (r : Result A) → ((a : A) × (r ≡ ok a)) ⊎ ((f : Fault) × (r ≡ err f))
Result-cases (ok a) = inl (a, refl)
Result-cases (err f) = inr (f, refl)

abbrev pub parse_error_code : ℤ
parse_error_code = negsuc 32699

abbrev pub method_not_found_code : ℤ
method_not_found_code = negsuc 32600

abbrev pub invalid_params_code : ℤ
invalid_params_code = negsuc 32601

abbrev pub version : Text
version = codes "2.0"

pub record RespError : Type 0 where
  pub code : ℤ
  pub message : Fault

-- respError.Error
unfoldable pub error_text : RespError → Fault
error_text e =
    if leb_ℤ (negsuc 32767) e.code && leb_ℤ e.code (negsuc 31999)
    then rpc_error_text e.code e.message
    else e.message

-- A value as reflection sees it. `json_value` is any data value, by its JSON text.
pub data Value : Type 0 where
  nil_value : Value
  error_value : Fault → Value
  chan_value context_value receiver_value : ℕ → Value
  json_value : Raw → Value

pub record Request : Type 0 where
  pub jsonrpc : Text
  pub id : Option ℕ
  pub method : Text
  pub params : List Raw
  pub meta : Option (Dict Text Text)

pub record Response : Type 0 where
  pub jsonrpc : Text
  pub result : Option Value
  pub id : ℕ
  pub error : Option RespError

-- reflect.Type, as far as the code looks at it
pub data GoType : Type 0 where
  error_type context_type : GoType
  chan_type : GoType → GoType
  named : Text → GoType

unfoldable pub type_beq : GoType → GoType → Bool
type_beq error_type error_type = true
type_beq context_type context_type = true
type_beq (chan_type t) (chan_type u) = type_beq t u
type_beq (named s) (named t) = text_beq s t
type_beq _ _ = false

type_beq→eq : (t u : GoType) → type_beq t u ≡ true → t ≡ u
unfolding type_beq
type_beq→eq error_type error_type h = refl
type_beq→eq context_type context_type h = refl
type_beq→eq (chan_type t) (chan_type u) h = ground (arith, type_beq→eq t u)
type_beq→eq (named s) (named t) h = ground (arith, text_beq_iff s t)
type_beq→eq _ _ h = cc

type_beq_refl : (t : GoType) → type_beq t t ≡ true
unfolding type_beq
type_beq_refl error_type = refl
type_beq_refl context_type = refl
type_beq_refl (chan_type t) = type_beq_refl t
type_beq_refl (named s) = (text_beq_iff s s).1 refl

pub type_beq_iff : (t u : GoType) → (type_beq t u ≡ true) ↔ (t ≡ u)
type_beq_iff t u = (type_beq→eq t u, λ e. rw e (type_beq_refl u))

instance abbrev pub type_key : Key GoType
type_key = record { beq = type_beq; beq_iff = type_beq_iff }

abbrev pub is_chan_type : GoType → Bool
is_chan_type (chan_type _) = true
is_chan_type _ = false

-- A function type; the receiver of a method is its first argument.
pub record FuncType : Type 0 where
  pub ins : List GoType
  pub outs : List GoType

unfoldable pub out_places : List GoType → Option (Option ℕ × Option ℕ × ℕ)
out_places [] = some (none, none, 0)
out_places (t ∷ []) = if t == error_type then some (none, some 0, 1) else some (some 0, none, 1)
out_places (t ∷ u ∷ []) = if u == error_type then some (some 0, some 1, 2) else none
out_places (_ ∷ _ ∷ _ ∷ _) = none

-- processFuncOut: the places of the value and of the error, and their number; `none` is a panic.
unfoldable pub process_func_out : FuncType → Option (Option ℕ × Option ℕ × ℕ)
unfolding out_places
process_func_out f = out_places f.outs
