-- ===== src/Rpc/Client/Provide.antt =====
-- What client.provide (jsonrpc/client.go) sets, and the connections of a client that is made.
use hggutils.Common.{
  ℕ, ◌≡◌, ◌≢◌, ◌↔◌, inl, inr, refl, sym, ap, subst, ◌∙◌, true, false, ◌||◌, not, List, [], ◌∷◌,
  ◌++◌, Option, none, some, ◌==◌, Option-cases, Bool-cases,
}
use mathlib.Core.Option.{some-injective}
use hggutils.Common.Text.{Text, codes, text_key}
use hggutils.Rpc.Message.{plain, Fault, Result, ok, Raw, Request}
use hggutils.Rpc.Client.{
  StructField, RpcFunc, Made, made, not_a_func, panics, make_rpc_func, Client,
}
use hggutils.Rpc.Client.Functions.{IsMade, make_rpc_func_iff}
use hggutils.Rpc.Client.Options.{
  Config, ClientOption, with_no_reconnect, with_ping_interval, with_timeout, with_reconnect_backoff,
  with_param_encoder, configure, default_config, apply_option, apply_options,
}
use hggutils.Rpc.Client.Setup.{
  Handler, nil_handler, nil_struct, provide_nil, not_a_pointer, not_a_struct, struct, Failure,
  refuses, crashes, Provided, stopped_by, provided_all, is_exported_field, set_func, set_field,
  provide_fields, provide, ready, finish, http_client, client_link, websocket_client, connect,
  new_merge_client,
}
use hggutils.Rpc.Link.{Link, new_link, Output}
use hggutils.Rpc.Link.Step.{Runs}
use hggutils.Rpc.Link.Final.{IsSettled, Runs-Settled}

abbrev done : List RpcFunc → Provided
done fns = record { functions = fns; failure = none }

-- The functions are those of the fields, in order, all of which can be set.
abbrev pub Makes : List StructField → List RpcFunc → Type 0
Makes [] [] = Unit {0}
Makes (f ∷ fields) (fn ∷ fns) = IsMade f fn × (is_exported_field f.name ≡ true) × Makes fields fns
Makes _ _ = false ≡ true

-- The fields of the handlers, if all are structs behind pointers, of which only one with no field may be nil
abbrev pub all_fields : List Handler → Option (List StructField)
all_fields [] = some []
all_fields (struct fields ∷ outs) = elim (all_fields outs) [
  | none ↦ none
  | some rest ↦ some (fields ++ rest)
]
all_fields (nil_struct [] ∷ outs) = all_fields outs
all_fields (_ ∷ outs) = none

-- provide, for handlers of which all are structs
abbrev provide_all : List StructField → Provided
provide_all fields = provide_fields fields provided_all

provide_fields-++ :
    (fields rest : List StructField) (p : Provided)
    → provide_fields (fields ++ rest) p ≡ provide_fields fields (provide_fields rest p)
unfolding provide_fields
provide_fields-++ [] rest p = refl
provide_fields-++ (f ∷ fields) rest p =
    ap (set_field f (make_rpc_func f)) (provide_fields-++ fields rest p)

set_func-done :
    (fn : RpcFunc) (p : Provided) (fns : List RpcFunc)
    → set_func fn p ≡ done fns
    → (gs : List RpcFunc) × (fns ≡ fn ∷ gs) × (p ≡ done gs)
set_func-done fn p fns h = (
  p.functions,
  sym (ap (λ p. p.functions) h),
  ap (λ o. record { functions = p.functions; failure = o }) (ap (λ p. p.failure) h),
)

stopped-ne-done : (f : Failure) (fns : List RpcFunc) → stopped_by f ≢ done fns
stopped-ne-done f fns h = absurd (cc (ap (λ p. p.failure) h))

set_field-done :
    (f : StructField) (m : Made) (p : Provided) (fns : List RpcFunc)
    → set_field f m p ≡ done fns
    → (fn : RpcFunc) × (gs : List RpcFunc) × (fns ≡ fn ∷ gs)
      × (m ≡ made fn)
      × (is_exported_field f.name ≡ true)
      × (p ≡ done gs)
set_field-done f (made fn) p fns h = elim (Bool-cases (is_exported_field f.name)) [
  | inl e ↦ let (gs, q, r) = set_func-done fn p fns (rw e at h) in (fn, gs, q, refl, e, r)
  | inr e ↦ absurd (stopped-ne-done crashes fns (rw e at h))
]
set_field-done f not_a_func p fns h = absurd (stopped-ne-done _ fns h)
set_field-done f panics p fns h = absurd (stopped-ne-done crashes fns h)

provide_fields-Makes :
    (fields : List StructField) (fns : List RpcFunc)
    → provide_all fields ≡ done fns
    → Makes fields fns
unfolding provide_fields
provide_fields-Makes [] fns h = subst (Makes []) (ap (λ p. p.functions) h) tt
provide_fields-Makes (f ∷ fields) fns h =
    let (fn, gs, q, m, x, r) = set_field-done f (make_rpc_func f) (provide_all fields) fns h in
    subst (Makes (f ∷ fields)) (sym q)
      ((make_rpc_func_iff f fn).0 m, x, provide_fields-Makes fields gs r)

Makes-provide_fields :
    (fields : List StructField) (fns : List RpcFunc)
    → Makes fields fns
    → provide_all fields ≡ done fns
unfolding provide_fields
Makes-provide_fields [] [] h = refl
Makes-provide_fields [] (_ ∷ _) h = cc h
Makes-provide_fields (_ ∷ _) [] h = cc h
Makes-provide_fields (f ∷ fields) (fn ∷ fns) (m, x, h) =
    rw ((make_rpc_func_iff f fn).1 m, x) (ap (set_func fn) (Makes-provide_fields fields fns h))

provide_fields-rest :
    (fields : List StructField) (p : Provided) (fns : List RpcFunc)
    → provide_fields fields p ≡ done fns
    → (gs : List RpcFunc) × (p ≡ done gs)
unfolding provide_fields
provide_fields-rest [] p fns h = (fns, h)
provide_fields-rest (f ∷ fields) p fns h =
    let (fn, gs, q, m, x, r) = set_field-done f (make_rpc_func f) (provide_fields fields p) fns h in
    provide_fields-rest fields p gs r

nil-ne-done :
    (f : StructField) (fields : List StructField) (p : Provided) (fns : List RpcFunc)
    → provide_nil (f ∷ fields) p ≢ done fns
unfolding provide_nil
nil-ne-done f fields p fns h = stopped_made (make_rpc_func f) h
  where
    stopped_made :
        (m : Made)
        → elim m as (λ m. Provided) [
          | made fn ↦ stopped_by crashes
          | not_a_func ↦ stopped_by (refuses (plain (codes "handler field not a func")))
          | panics ↦ stopped_by crashes
        ]
          ≢ done fns
    stopped_made (made fn) = stopped-ne-done _ fns
    stopped_made not_a_func = stopped-ne-done _ fns
    stopped_made panics = stopped-ne-done _ fns

-- Handlers of which one is no struct behind a pointer
provide-none :
    (outs : List Handler) (fns : List RpcFunc) → all_fields outs ≡ none → provide outs ≢ done fns
unfolding provide provide_nil
provide-none (nil_handler ∷ outs) fns h e = stopped-ne-done _ fns e
provide-none (nil_struct [] ∷ outs) fns h e = provide-none outs fns h e
provide-none (nil_struct (f ∷ fields) ∷ outs) fns h e = nil-ne-done f fields (provide outs) fns e
provide-none (not_a_pointer ∷ outs) fns h e = stopped-ne-done _ fns e
provide-none (not_a_struct ∷ outs) fns h e = stopped-ne-done _ fns e
provide-none (struct fields ∷ outs) fns h e = elim (Option-cases (all_fields outs)) [
  | inl q ↦ let (gs, r) = provide_fields-rest fields _ fns e in provide-none outs gs q r
  | inr (rest, q) ↦ absurd (cc (rw (q, all_fields) at h))
]
provide-none [] fns h e = cc h

provide-some :
    (outs : List Handler) (fields : List StructField)
    → all_fields outs ≡ some fields
    → provide outs ≡ provide_all fields
unfolding provide provide_nil
provide-some [] fields h =
    subst (λ fields. provide_all [] ≡ provide_all fields) (some-injective [] fields h) refl
provide-some (nil_handler ∷ outs) fields h = cc h
provide-some (nil_struct [] ∷ outs) fields h = provide-some outs fields h
provide-some (nil_struct (_ ∷ _) ∷ outs) fields h = cc h
provide-some (not_a_pointer ∷ outs) fields h = cc h
provide-some (not_a_struct ∷ outs) fields h = cc h
provide-some (struct fs ∷ outs) fields h = elim (Option-cases (all_fields outs)) [
  | inl q ↦ absurd (cc (rw (q, all_fields) at h))
  | inr (rest, q) ↦
      ap (provide_fields fs) (provide-some outs rest q)
      ∙ sym (provide_fields-++ fs rest provided_all)
      ∙ ap provide_all (some-injective (fs ++ rest) fields (rw (q, all_fields) at h))
]

-- What provide sets when it does not fail. It ends without an error or a panic, with these functions set,
-- exactly if every handler is a pointer to a struct, not nil unless the struct has no fields, and there is
-- one function for each field of all the structs, in order: the field is exported and of a function
-- type whose results processFuncOut accepts, and the function has that type, the places of its results,
-- the name that the alias tag gives or else the field's, and retries if the retry tag is "true".
pub provide_iff :
    (outs : List Handler) (fns : List RpcFunc)
    → (provide outs ≡ record { functions = fns; failure = none })
      ↔ ((fields : List StructField) × (all_fields outs ≡ some fields) × Makes fields fns)
provide_iff outs fns = (
  λ h. elim (Option-cases (all_fields outs)) [
    | inl e ↦ absurd (provide-none outs fns e h)
    | inr (fields, e) ↦
        (fields, e, provide_fields-Makes fields fns (sym (provide-some outs fields e) ∙ h))
  ],
  λ (fields, e, m). provide-some outs fields e ∙ Makes-provide_fields fields fns m,
)

finish-link :
    (client c : Client) (link : Option Link) (fns gs : List RpcFunc) (f : Option Failure) (l : Link)
    → finish client link fns f ≡ ready c (some l) gs
    → link ≡ some l
finish-link client c link fns gs none l h = cc h
finish-link client c link fns gs (some (refuses f)) l h = cc h
finish-link client c link fns gs (some crashes) l h = cc h

websocket-link :
    (dial : Option Fault) (namespace : Text) (outs : List Handler) (config : Config) (c : Client)
    (l : Link) (fns : List RpcFunc)
    → websocket_client dial namespace outs config ≡ ready c (some l) fns
    → l ≡ client_link config
unfolding websocket_client
websocket-link (some f) namespace outs config c l fns h = cc h
websocket-link none namespace outs config c l fns h =
    sym (some-injective (client_link config) l (finish-link _ c _ _ fns _ l h))

http-link :
    (namespace : Text) (outs : List Handler) (config : Config) (c : Client) (l : Link)
    (fns : List RpcFunc)
    → http_client namespace outs config ≢ ready c (some l) fns
unfolding http_client
http-link namespace outs config c l fns h = cc (finish-link _ c none _ fns _ l h)

connect-link :
    (scheme namespace : Text) (dial : Option Fault) (outs : List Handler) (config : Config)
    (c : Client) (l : Link) (fns : List RpcFunc)
    → connect scheme dial namespace outs config ≡ ready c (some l) fns
    → l ≡ client_link config
unfolding connect
connect-link scheme namespace dial outs config c l fns h =
    elim (Bool-cases ((scheme == codes "ws") || (scheme == codes "wss"))) [
      | inl e ↦ websocket-link dial namespace outs config c l fns (rw (e, connect) at h)
      | inr e ↦ elim (Bool-cases ((scheme == codes "http") || (scheme == codes "https"))) [
        | inl e' ↦ absurd (http-link namespace outs config c l fns (rw (e, e', connect) at h))
        | inr e' ↦ absurd (cc (rw (e, e', connect) at h))
      ]
    ]

reconnects-never :
    (opts : List ClientOption) (c : Config)
    → c.no_reconnect ≡ true
    → (apply_options c opts).no_reconnect ≡ true
unfolding apply_option
reconnects-never [] c h = h
reconnects-never (with_reconnect_backoff _ _ ∷ opts) c h = reconnects-never opts _ h
reconnects-never (with_ping_interval _ ∷ opts) c h = reconnects-never opts _ h
reconnects-never (with_timeout _ ∷ opts) c h = reconnects-never opts _ h
reconnects-never (with_no_reconnect ∷ opts) c h = reconnects-never opts _ refl
reconnects-never (with_param_encoder _ _ ∷ opts) c h = reconnects-never opts _ h

configure-no_reconnect :
    (before after : List ClientOption) (c : Config)
    → (apply_options c (before ++ with_no_reconnect ∷ after)).no_reconnect ≡ true
unfolding apply_option
configure-no_reconnect [] after c = reconnects-never after _ refl
configure-no_reconnect (o ∷ before) after c = configure-no_reconnect before after (apply_option c o)

-- A client made with WithNoReconnect never dials a second time. If NewMergeClient, given this option
-- among others, in whatever order, comes to a client with a websocket connection, then in every state
-- that the goroutines of the connection reach, with the calls', the context's and the closer's events,
-- bretry is not set and no goroutine dials.
pub no_reconnect-Settled :
    (decode_int64 decode_uint64 : Raw → Result ℕ) (encode : Request → Raw) (scheme namespace : Text)
    (dial : Option Fault) (outs : List Handler) (before after : List ClientOption) (c : Client)
    (k l : Link) (fns : List RpcFunc) (os : List Output)
    → new_merge_client (ok scheme) dial namespace outs (before ++ with_no_reconnect ∷ after)
      ≡ ready c (some k) fns
    → Runs decode_int64 decode_uint64 encode k os l
    → IsSettled l
unfolding new_merge_client configure client_link new_link
no_reconnect-Settled decode_int64 decode_uint64 encode scheme namespace dial outs before after c k l
      fns os h r =
    let config = apply_options default_config (before ++ with_no_reconnect ∷ after) in
    let e = connect-link scheme namespace dial outs config c k fns h in
    let q = configure-no_reconnect before after default_config in
    Runs-Settled decode_int64 decode_uint64 encode
      (ap (λ l. l.retries) e ∙ ap not q, ap (λ l. l.redialling) e) r
