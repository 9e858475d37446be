-- ===== src/Rpc/Client/Options.antt =====
-- jsonrpc/options.go and options_server.go: the options of a client and of a server. Durations are in
-- nanoseconds. The factory of connections that only the tests set is left out.
use hggutils.Common.{
  ◌≡◌, refl, ap, subst, ◌∙◌, inl, inr, Bool, true, false, List, [], ◌∷◌, Option, none, some, ◌==◌,
  if◌then◌else◌, Bool-cases,
}
use hggutils.Common.Int.{ℤ, pos}
use hggutils.Common.Dict.{Dict, find, put, find-put_self, find-put_ne}
use hggutils.Rpc.Message.{GoType, type_key, type_beq_iff}
use hggutils.Rpc.Server.{ParamDecoder, RpcServer}
use hggutils.Rpc.Server.Register.{new_server}
use hggutils.Rpc.Client.{Backoff, ParamEncoder}

pub record Config : Type 0 where
  pub reconnect_backoff : Backoff
  pub ping_interval : ℤ
  pub timeout : ℤ
  pub param_encoders : Dict GoType ParamEncoder
  pub no_reconnect : Bool

unfoldable pub default_config : Config
default_config = record {
  reconnect_backoff = record { min_delay = pos 100000000; max_delay = pos 5000000000 };
  ping_interval = pos 30000000000;
  timeout = pos 30000000000;
  param_encoders = [];
  no_reconnect = false;
}

-- The options that the package makes
pub data ClientOption : Type 0 where
  with_reconnect_backoff : ℤ → ℤ → ClientOption
  with_ping_interval with_timeout : ℤ → ClientOption
  with_no_reconnect : ClientOption
  with_param_encoder : GoType → ParamEncoder → ClientOption

-- What an option does to the configuration
unfoldable pub apply_option : Config → ClientOption → Config
apply_option c (with_reconnect_backoff min_delay max_delay) = record c {
  reconnect_backoff = record { min_delay = min_delay; max_delay = max_delay };
}
apply_option c (with_ping_interval d) = record c { ping_interval = d }
apply_option c (with_timeout d) = record c { timeout = d }
apply_option c with_no_reconnect = record c { no_reconnect = true }
apply_option c (with_param_encoder t encoder) = record c {
  param_encoders = put t encoder c.param_encoders;
}

abbrev pub apply_options : Config → List ClientOption → Config
apply_options c [] = c
apply_options c (o ∷ opts) = apply_options (apply_option c o) opts

-- The configuration of NewMergeClient
unfoldable pub configure : List ClientOption → Config
unfolding default_config
configure opts = apply_options default_config opts

-- The options of a server
pub record ServerConfig : Type 0 where
  pub param_decoders : Dict GoType ParamDecoder
  pub max_request_size : ℤ

pub data ServerOption : Type 0 where
  with_param_decoder : GoType → ParamDecoder → ServerOption
  with_max_request_size : ℤ → ServerOption

-- DEFAULT_MAX_REQUEST_SIZE
unfoldable pub default_server_config : ServerConfig
default_server_config = record { param_decoders = []; max_request_size = pos 104857600 }

unfoldable pub apply_server_option : ServerConfig → ServerOption → ServerConfig
apply_server_option c (with_param_decoder t decoder) = record c {
  param_decoders = put t decoder c.param_decoders;
}
apply_server_option c (with_max_request_size max) = record c { max_request_size = max }

abbrev pub apply_server_options : ServerConfig → List ServerOption → ServerConfig
apply_server_options c [] = c
apply_server_options c (o ∷ opts) = apply_server_options (apply_server_option c o) opts

-- NewServer
unfoldable pub make_server : List ServerOption → RpcServer
unfolding default_server_config
make_server opts =
    let c = apply_server_options default_server_config opts in
    new_server c.param_decoders c.max_request_size

-- The last value that the options give, or the one before them
abbrev pub last_given {ℓ} : {A : Type ℓ} → (ClientOption → Option A) → A → List ClientOption → A
last_given gives a [] = a
last_given gives a (o ∷ opts) = elim (gives o) [
  | none ↦ last_given gives a opts
  | some b ↦ last_given gives b opts
]

abbrev pub gives_backoff : ClientOption → Option Backoff
gives_backoff (with_reconnect_backoff min_delay max_delay) =
    some (record { min_delay = min_delay; max_delay = max_delay })
gives_backoff _ = none

abbrev pub gives_ping_interval : ClientOption → Option ℤ
gives_ping_interval (with_ping_interval d) = some d
gives_ping_interval _ = none

abbrev pub gives_timeout : ClientOption → Option ℤ
gives_timeout (with_timeout d) = some d
gives_timeout _ = none

abbrev pub gives_no_reconnect : ClientOption → Option Bool
gives_no_reconnect with_no_reconnect = some true
gives_no_reconnect _ = none

abbrev pub last_encoder : GoType → Option ParamEncoder → List ClientOption → Option ParamEncoder
last_encoder t a [] = a
last_encoder t a (with_param_encoder u encoder ∷ opts) =
    last_encoder t (if u == t then some encoder else a) opts
last_encoder t a (_ ∷ opts) = last_encoder t a opts

-- What the fields of a configuration are, the encoders by type
abbrev HasFields : Config → GoType → Backoff → ℤ → ℤ → Option ParamEncoder → Bool → Type 0
HasFields c t backoff ping timeout encoder no_reconnect =
    (c.reconnect_backoff ≡ backoff)
    × (c.ping_interval ≡ ping)
    × (c.timeout ≡ timeout)
    × (find t c.param_encoders ≡ encoder)
    × (c.no_reconnect ≡ no_reconnect)

find-put-if :
    (t u : GoType) (e : ParamEncoder) (m : Dict GoType ParamEncoder)
    → find t (put u e m) ≡ (if u == t then some e else find t m)
find-put-if t u e m = elim (Bool-cases (u == t)) [
  | inl same ↦
      rw same
        (subst (λ v. find v (put u e m) ≡ some e) ((type_beq_iff u t).0 same) (find-put_self u e m))
  | inr other ↦ rw other (find-put_ne u t e m λ q. cc (other, (type_beq_iff u t).1 q))
]

abbrev GivenFields : Config → Config → GoType → List ClientOption → Type 0
GivenFields c d t opts =
    HasFields d t (last_given gives_backoff c.reconnect_backoff opts)
      (last_given gives_ping_interval c.ping_interval opts)
      (last_given gives_timeout c.timeout opts) (last_encoder t (find t c.param_encoders) opts)
      (last_given gives_no_reconnect c.no_reconnect opts)

apply_options-fields :
    (opts : List ClientOption) (c : Config) (t : GoType)
    → GivenFields c (apply_options c opts) t opts
unfolding apply_option
apply_options-fields [] c t = (refl, refl, refl, refl, refl)
apply_options-fields (with_reconnect_backoff a b ∷ opts) c t =
    apply_options-fields opts (apply_option c (with_reconnect_backoff a b)) t
apply_options-fields (with_ping_interval d ∷ opts) c t =
    apply_options-fields opts (apply_option c (with_ping_interval d)) t
apply_options-fields (with_timeout d ∷ opts) c t =
    apply_options-fields opts (apply_option c (with_timeout d)) t
apply_options-fields (with_no_reconnect ∷ opts) c t =
    apply_options-fields opts (apply_option c with_no_reconnect) t
apply_options-fields (with_param_encoder u e ∷ opts) c t =
    let (b, p, i, en, r) = apply_options-fields opts (apply_option c (with_param_encoder u e)) t in
    (b, p, i, en ∙ ap (λ a. last_encoder t a opts) (find-put-if t u e c.param_encoders), r)

-- The last option of a kind counts. Whatever options NewMergeClient is given, in whatever order and
-- number, each field of its configuration is what the last option of the field's kind gives, for the
-- encoders the last one for each type; and where no option gives it, the default: waits of 0.1 to 5
-- seconds, 30 seconds for the interval of pings and for the timeout, no encoder, and reconnection.
pub configure-fields :
    (opts : List ClientOption) (t : GoType)
    → ((configure opts).reconnect_backoff
        ≡ last_given gives_backoff
            (record { min_delay = pos 100000000; max_delay = pos 5000000000 })
            opts)
      × ((configure opts).ping_interval ≡ last_given gives_ping_interval (pos 30000000000) opts)
      × ((configure opts).timeout ≡ last_given gives_timeout (pos 30000000000) opts)
      × (find t (configure opts).param_encoders ≡ last_encoder t none opts)
      × ((configure opts).no_reconnect ≡ last_given gives_no_reconnect false opts)
unfolding configure find default_config
configure-fields opts t = apply_options-fields opts default_config t
