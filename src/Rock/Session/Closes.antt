-- ===== src/Rock/Session/Closes.antt =====
-- How often a connection is closed, and which connections the server keeps (rockfmw).
use hggutils.Common.{
  ℕ, ◌+◌, ◌≡◌, refl, ◌∙◌, ◌≢◌, ◌⊎◌, inl, inr, Bool, true, false, List, [], ◌∷◌, ◌++◌, map, Option,
  none, some, arith, Option-cases, nat_key,
}
use hggutils.Common.Dict.{
  Dict, find, delete, put, find-put_self, find-put_ne, find-delete_self, find-delete_ne,
}
use hggutils.Rpc.Message.{Raw, Fault}
use hggutils.Rock.Session.{
  Read, message, broken, Effect, handles, closes_sock, forgets, on_close, close_conn, server_read,
  client_read, websocket_handler, conns_after,
}

-- How many times OnClose is called, and the messages that are handled.
abbrev pub close_calls : List Effect → ℕ
close_calls [] = 0
close_calls (on_close ∷ es) = 1 + close_calls es
close_calls (_ ∷ es) = close_calls es

abbrev pub handled : List Effect → List Raw
handled [] = []
handled (handles msg ∷ es) = msg ∷ handled es
handled (_ ∷ es) = handled es

-- How many messages have an error.
abbrev pub failures : (Raw → Option Fault) → List Raw → ℕ
failures on_message [] = 0
failures on_message (msg ∷ msgs) = elim (on_message msg) [
  | none ↦ failures on_message msgs
  | some f ↦ 1 + failures on_message msgs
]

-- The messages up to the first with an error.
abbrev pub until_failure : (Raw → Option Fault) → List Raw → List Raw
until_failure on_message [] = []
until_failure on_message (msg ∷ msgs) =
    msg ∷ elim (on_message msg) [ none ↦ until_failure on_message msgs | some f ↦ [] ]

module _ (on_message : Raw → Option Fault) (rest : List Read) where
  -- The server's reading goroutine closes a connection again after each message whose handler
  -- returned an error: with a close handler, for a socket that gives some messages and then breaks,
  -- OnClose is called once for each such message and once for the end, and all messages are handled.
  pub server_read-closes :
      (msgs : List Raw)
      → (close_calls (server_read on_message true (map message msgs ++ broken ∷ rest))
          ≡ 1 + failures on_message msgs)
        × (handled (server_read on_message true (map message msgs ++ broken ∷ rest)) ≡ msgs)
  unfolding server_read close_conn
  server_read-closes [] = (refl, refl)
  server_read-closes (msg ∷ msgs) =
      let (count, all) = server_read-closes msgs in
      elim (Option-cases (on_message msg)) [
        | inl e ↦ (rw (e, server_read, failures) count, rw (e, server_read, all))
        | inr (f, e) ↦
            (rw (e, server_read, failures, count) (omega arith), rw (e, server_read, all))
      ]

  -- The client's reading goroutine closes its connection once, after the first message whose handler
  -- returned an error or at the end, and handles no message behind it.
  pub client_read-closes :
      (msgs : List Raw)
      → (close_calls (client_read on_message (map message msgs ++ broken ∷ rest)) ≡ 1)
        × (handled (client_read on_message (map message msgs ++ broken ∷ rest))
            ≡ until_failure on_message msgs)
  unfolding client_read
  client_read-closes [] = (refl, refl)
  client_read-closes (msg ∷ msgs) =
      let (count, upto) = client_read-closes msgs in
      elim (Option-cases (on_message msg)) [
        | inl e ↦ (rw (e, client_read) count, rw (e, client_read, upto))
        | inr (f, e) ↦ (rw (e, client_read), rw (e, client_read))
      ]

  kept_apart :
      (conns : Dict ℕ Bool) (c d : ℕ) (es : List Effect)
      → c ≢ d
      → find d (conns_after conns c es) ≡ find d conns
  unfolding conns_after
  kept_apart conns c d [] ne = refl
  kept_apart conns c d (forgets ∷ es) ne =
      kept_apart (delete c conns) c d es ne ∙ find-delete_ne c d conns ne
  kept_apart conns c d (handles m ∷ es) ne = kept_apart conns c d es ne
  kept_apart conns c d (closes_sock ∷ es) ne = kept_apart conns c d es ne
  kept_apart conns c d (on_close ∷ es) ne = kept_apart conns c d es ne

  stays_forgotten :
      (conns : Dict ℕ Bool) (c : ℕ) (es : List Effect)
      → find c conns ≡ none
      → find c (conns_after conns c es) ≡ none
  unfolding conns_after
  stays_forgotten conns c [] e = e
  stays_forgotten conns c (forgets ∷ es) e =
      stays_forgotten (delete c conns) c es (find-delete_self c conns)
  stays_forgotten conns c (handles m ∷ es) e = stays_forgotten conns c es e
  stays_forgotten conns c (closes_sock ∷ es) e = stays_forgotten conns c es e
  stays_forgotten conns c (on_close ∷ es) e = stays_forgotten conns c es e

  close_conn-forgets :
      (has_handler : Bool) (conns : Dict ℕ Bool) (c : ℕ) (es : List Effect)
      → find c (conns_after conns c (close_conn has_handler ++ es)) ≡ none
  unfolding close_conn conns_after
  close_conn-forgets true conns c es =
      stays_forgotten (delete c conns) c es (find-delete_self c conns)
  close_conn-forgets false conns c es =
      stays_forgotten (delete c conns) c es (find-delete_self c conns)

  server_read-forgets :
      (has_handler : Bool) (conns : Dict ℕ Bool) (c : ℕ) (msgs : List Raw)
      → find c (
          conns_after conns c
            (server_read on_message has_handler (map message msgs ++ broken ∷ rest)))
        ≡ none
  unfolding server_read conns_after
  server_read-forgets true conns c [] = close_conn-forgets true conns c []
  server_read-forgets false conns c [] = close_conn-forgets false conns c []
  server_read-forgets has_handler conns c (msg ∷ msgs) = elim (Option-cases (on_message msg)) [
    | inl e ↦ rw (e, server_read) (server_read-forgets has_handler conns c msgs)
    | inr (f, e) ↦
        rw (e, server_read)
          (close_conn-forgets has_handler conns c
            (server_read on_message has_handler (map message msgs ++ broken ∷ rest)))
  ]

  -- The server keeps just its live connections. A connection that the open handler accepts, or that
  -- no open handler is asked about, is kept and read; once its socket breaks it is forgotten, and no
  -- other connection is. One that the open handler refuses is closed, neither kept nor read.
  pub websocket_handler-kept :
      (conns : Dict ℕ Bool) (c d : ℕ) (has_handler : Bool) (msgs : List Raw) (f : Fault)
      (accepted : Option (Option Fault))
      → c ≢ d
      → (accepted ≡ none) ⊎ (accepted ≡ some none)
      → ((websocket_handler conns c accepted).reads ≡ true)
        × (find c (websocket_handler conns c accepted).conns ≡ some true)
        × (find c (
              conns_after
                (websocket_handler conns c accepted).conns
                c
                (server_read on_message has_handler (map message msgs ++ broken ∷ rest)))
            ≡ none)
        × (find d (
              conns_after
                (websocket_handler conns c accepted).conns
                c
                (server_read on_message has_handler (map message msgs ++ broken ∷ rest)))
            ≡ find d conns)
        × (websocket_handler conns c (some (some f))
            ≡ record { conns = conns; closed_at_once = true; reads = false })
  unfolding websocket_handler
  websocket_handler-kept conns c d has_handler msgs f accepted ne ok_open =
      let same : websocket_handler conns c accepted
          ≡ record { conns = put c true conns; closed_at_once = false; reads = true } =
        elim ok_open [ inl e ↦ rw e | inr e ↦ rw e ] in
      rw same (
        refl,
        find-put_self c true conns,
        server_read-forgets has_handler (put c true conns) c msgs,
        kept_apart (put c true conns) c d
              (server_read on_message has_handler (map message msgs ++ broken ∷ rest)) ne
            ∙ find-put_ne c d true conns ne,
        refl,
      )
