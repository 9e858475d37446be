-- ===== src/Rock/Session/Tests.antt =====
-- Runs of the reading goroutines of package rockfmw, and their theorems at them.
use hggutils.Common.{
  ℕ, ◌≡◌, refl, inl, Bool, true, false, List, [], ◌∷◌, ◌++◌, map, Option, none, some, arith,
  nat_key,
}
use hggutils.Common.Text.{codes}
use hggutils.Common.Dict.{Dict, find}
use hggutils.Rpc.Message.{Raw, Fault, plain}
use hggutils.Rock.Session.{
  message, broken, handles, closes_sock, forgets, on_close, close_conn, server_read, client_read,
  websocket_handler, conns_after,
}
use hggutils.Rock.Session.Closes.{close_calls, handled, server_read-closes, websocket_handler-kept}

-- The empty message has an error.
abbrev handler : Raw → Option Fault
handler [] = some (plain (codes "empty"))
handler (c ∷ msg) = none

abbrev msgs : List Raw
msgs = (1 ∷ []) ∷ [] ∷ (2 ∷ []) ∷ []

abbrev kept : Dict ℕ Bool
kept = (4, true) ∷ []

server_run :
    server_read handler true (message [] ∷ broken ∷ [])
    ≡ handles [] ∷ closes_sock ∷ forgets ∷ on_close ∷ closes_sock ∷ forgets ∷ on_close ∷ []
unfolding server_read close_conn
server_run = refl

client_run :
    client_read handler (message [] ∷ broken ∷ []) ≡ handles [] ∷ closes_sock ∷ on_close ∷ []
unfolding client_read
client_run = refl

server_read-closes_example :
    (close_calls (server_read handler true (map message msgs ++ broken ∷ [])) ≡ 2)
    × (handled (server_read handler true (map message msgs ++ broken ∷ [])) ≡ msgs)
server_read-closes_example = server_read-closes handler [] msgs

websocket_handler-kept_example :
    ((websocket_handler kept 5 none).reads ≡ true)
    × (find 5 (websocket_handler kept 5 none).conns ≡ some true)
    × (find 5 (
          conns_after
            (websocket_handler kept 5 none).conns
            5
            (server_read handler true (map message msgs ++ broken ∷ [])))
        ≡ none)
    × (find 4 (
          conns_after
            (websocket_handler kept 5 none).conns
            5
            (server_read handler true (map message msgs ++ broken ∷ [])))
        ≡ find 4 kept)
    × (websocket_handler kept 5 (some (some (plain [])))
        ≡ record { conns = kept; closed_at_once = true; reads = false })
websocket_handler-kept_example =
    websocket_handler-kept handler [] kept 5 4 true msgs (plain []) none (λ h. omega arith)
      (inl refl)
