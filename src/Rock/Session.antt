-- ===== src/Rock/Session.antt =====
-- rockfmw/rpc_ws_server.go and rpc_ws_client.go: the life of a websocket connection. The reads of the
-- socket and the result of OnMessage are arguments; a panic of a method is not followed here.
pub mod Closes
pub mod Tests
use hggutils.Common.{ℕ, Bool, true, false, List, [], ◌∷◌, ◌++◌, Option, none, some, nat_key}
use hggutils.Common.Dict.{Dict, delete, put}
use hggutils.Rpc.Message.{Raw, Fault}

pub data Read : Type 0 where
  message : Raw → Read
  broken : Read

pub data Effect : Type 0 where
  -- OnMessage; Sock.Close; delete(slf.conns, conn); closehandle.OnClose
  handles : Raw → Effect
  closes_sock forgets on_close : Effect

-- The function f of enableRead.
unfoldable pub close_conn : Bool → List Effect
close_conn true = closes_sock ∷ forgets ∷ on_close ∷ []
close_conn false = closes_sock ∷ forgets ∷ []

module _ (on_message : Raw → Option Fault) where
  -- RPCWServer.enableRead, on the reads of the socket in order: it does not return when OnMessage
  -- gives an error.
  unfoldable pub server_read : Bool → List Read → List Effect
  unfolding close_conn
  server_read has_handler [] = []
  server_read has_handler (broken ∷ reads) = close_conn has_handler
  server_read has_handler (message msg ∷ reads) =
      let rest = server_read has_handler reads in
      handles msg ∷ elim (on_message msg) [ none ↦ rest | some f ↦ close_conn has_handler ++ rest ]

  -- RPCWSClient.enableRead
  unfoldable pub client_read : List Read → List Effect
  client_read [] = []
  client_read (broken ∷ reads) = closes_sock ∷ on_close ∷ []
  client_read (message msg ∷ reads) =
      let rest = client_read reads in
      handles msg ∷ elim (on_message msg) [ none ↦ rest | some f ↦ closes_sock ∷ on_close ∷ [] ]

-- What websocketHandler does with a socket that is upgraded: whether it is read, and slf.conns; the
-- argument is the open handler's error, if there is a handler.
pub record Opened : Type 0 where
  pub conns : Dict ℕ Bool
  pub closed_at_once : Bool
  pub reads : Bool

unfoldable pub websocket_handler : Dict ℕ Bool → ℕ → Option (Option Fault) → Opened
websocket_handler conns c (some (some f)) = record {
  conns = conns;
  closed_at_once = true;
  reads = false;
}
websocket_handler conns c _ = record {
  conns = put c true conns;
  closed_at_once = false;
  reads = true;
}

-- The effects of a reading goroutine on slf.conns.
unfoldable pub conns_after : Dict ℕ Bool → ℕ → List Effect → Dict ℕ Bool
conns_after conns c [] = conns
conns_after conns c (forgets ∷ es) = conns_after (delete c conns) c es
conns_after conns c (_ ∷ es) = conns_after conns c es
