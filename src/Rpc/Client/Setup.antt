-- ===== src/Rpc/Client/Setup.antt =====
-- NewMergeClient, httpClient, websocketClient and client.provide (jsonrpc/client.go): how a client is
-- made. The scheme of an address and the outcome of the dial are arguments.
use hggutils.Common.{
  Bool, true, false, ◌&&◌, ◌||◌, List, [], ◌∷◌, Option, none, some, ◌==◌, if◌then◌else◌, leb,
}
use hggutils.Common.Int.{pos, ltb_ℤ}
use hggutils.Common.Text.{Text, codes, text_key}
use hggutils.Rpc.Message.{Fault, plain, parsing_address, unknown_scheme, Result, ok, err}
use hggutils.Rpc.Client.{
  StructField, RpcFunc, Made, made, not_a_func, panics, make_rpc_func, Client,
}
use hggutils.Rpc.Client.Options.{Config, ClientOption, configure}
use hggutils.Rpc.Link.{Link, new_link}

-- A handler, as reflection sees it: an element of `outs`; `nil_struct` is a nil pointer to a struct.
pub data Handler : Type 0 where
  nil_handler not_a_pointer not_a_struct : Handler
  struct nil_struct : List StructField → Handler

-- Why provide ends early
pub data Failure : Type 0 where
  refuses : Fault → Failure
  crashes : Failure

-- The functions that provide has set, in order, and its failure
pub record Provided : Type 0 where
  pub functions : List RpcFunc
  pub failure : Option Failure

abbrev pub stopped_by : Failure → Provided
stopped_by f = record { functions = []; failure = some f }

abbrev pub provided_all : Provided
provided_all = record { functions = []; failure = none }

-- Field.Set panics on a field that is not exported; names are ASCII.
unfoldable pub is_exported_field : Text → Bool
is_exported_field [] = false
is_exported_field (c ∷ _) = leb b'A' c && leb c b'Z'

abbrev pub set_func : RpcFunc → Provided → Provided
set_func fn rest = record rest { functions = fn ∷ rest.functions }

abbrev pub set_field : StructField → Made → Provided → Provided
set_field f (made fn) rest =
    if is_exported_field f.name then set_func fn rest else stopped_by crashes
set_field f not_a_func rest = stopped_by (refuses (plain (codes "handler field not a func")))
set_field f panics rest = stopped_by crashes

-- The fields of one handler, and then the rest
unfoldable pub provide_fields : List StructField → Provided → Provided
unfolding make_rpc_func is_exported_field
provide_fields [] rest = rest
provide_fields (f ∷ fields) rest = set_field f (make_rpc_func f) (provide_fields fields rest)

-- The fields of a nil pointer's struct: Elem is no value there, and its first field a panic, once a function
-- is made for it.
unfoldable pub provide_nil : List StructField → Provided → Provided
unfolding make_rpc_func
provide_nil [] rest = rest
provide_nil (f ∷ fields) rest = elim (make_rpc_func f) [
  | made fn ↦ stopped_by crashes
  | not_a_func ↦ stopped_by (refuses (plain (codes "handler field not a func")))
  | panics ↦ stopped_by crashes
]

-- client.provide
unfoldable pub provide : List Handler → Provided
unfolding provide_fields provide_nil
provide [] = provided_all
provide (nil_handler ∷ outs) = stopped_by crashes
provide (not_a_pointer ∷ outs) =
    stopped_by (refuses (plain (codes "expected handler to be a pointer")))
provide (not_a_struct ∷ outs) = stopped_by (refuses (plain (codes "handler should be a struct")))
provide (struct fields ∷ outs) = provide_fields fields (provide outs)
provide (nil_struct fields ∷ outs) = provide_nil fields (provide outs)

-- What NewMergeClient comes to: an error or a panic, with the connection whose goroutines it has started,
-- or a client with its connection, if it has one, and its functions
pub data SetUp : Type 0 where
  failed : Fault → Option Link → SetUp
  crashed : Option Link → SetUp
  ready : Client → Option Link → List RpcFunc → SetUp

abbrev pub finish : Client → Option Link → List RpcFunc → Option Failure → SetUp
finish client link functions none = ready client link functions
finish client link functions (some (refuses f)) = failed f link
finish client link functions (some crashes) = crashed link

-- Between the start of the connection and the end of either set-up
abbrev pub provided : Client → Option Link → List Handler → SetUp
provided client link outs = finish client link (provide outs).functions (provide outs).failure

abbrev pub new_client : Text → Config → Client
new_client namespace config = record {
  namespace = namespace;
  param_encoders = config.param_encoders;
  id_ctr = 0;
}

unfoldable pub http_client : Text → List Handler → Config → SetUp
unfolding provide
http_client namespace outs config = provided (new_client namespace config) none outs

unfoldable pub client_link : Config → Link
unfolding new_link
client_link config = new_link true config.no_reconnect (ltb_ℤ (pos 0) config.ping_interval) false

unfoldable pub websocket_client : Option Fault → Text → List Handler → Config → SetUp
unfolding client_link provide
websocket_client (some f) namespace outs config = failed f none
websocket_client none namespace outs config =
    provided (new_client namespace config) (some (client_link config)) outs

-- The switch on the scheme
unfoldable pub connect : Text → Option Fault → Text → List Handler → Config → SetUp
unfolding websocket_client http_client
connect scheme dial namespace outs config =
    if (scheme == codes "ws") || (scheme == codes "wss")
    then websocket_client dial namespace outs config
    else if (scheme == codes "http") || (scheme == codes "https")
    then http_client namespace outs config
    else failed (unknown_scheme scheme) none

-- NewMergeClient; the address is its parsed scheme, or the error of the parse.
unfoldable pub new_merge_client :
    Result Text → Option Fault → Text → List Handler → List ClientOption → SetUp
unfolding connect configure
new_merge_client (err f) dial namespace outs opts = failed (parsing_address f) none
new_merge_client (ok scheme) dial namespace outs opts =
    connect scheme dial namespace outs (configure opts)
