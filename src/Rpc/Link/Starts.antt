-- ===== src/Rpc/Link/Starts.antt =====
-- Who starts the goroutines of a connection on the server (RPCServer.handleWS, jsonrpc/server.go), and
-- the goroutines that watch a context and register a result channel (jsonrpc/websocket.go).
use hggutils.Common.{
  ℕ, ◌≡◌, refl, subst, Bool, true, false, List, [], ◌∷◌, Option, none, some, ◌==◌, if◌then◌else◌,
}
use hggutils.Common.Text.{Text, codes, text_key}
use hggutils.Rpc.Message.{Raw, plain, Fault, Result, ok, err, version, Request}
use hggutils.Rpc.Conn.{ws_cancel}
use hggutils.Rpc.OutChans.{Selected, registers, next_chan_id}
use hggutils.Rpc.Link.{Link, Output, Event, queues, new_link}
use hggutils.Rpc.Link.Step.{Runs}
use hggutils.Rpc.Link.Final.{IsSettled, Runs-Settled}

-- The headers of the answer, and the status 500 or the connection
pub record Upgraded : Type 0 where
  pub headers : List (Text × Text)
  pub outcome : Result Link

abbrev protocol_header : Text
protocol_header = codes "Sec-WebSocket-Protocol"

-- handleWS; the outcome of the upgrade is an argument.
unfoldable pub handle_ws : Text → Option Fault → Upgraded
unfolding new_link
handle_ws protocol upgrade = record {
  headers =
      (codes "Access-Control-Allow-Origin", codes "*")
      ∷ (if protocol == [] then [] else (protocol_header, protocol) ∷ []);
  outcome = elim upgrade [ some f ↦ err f | none ↦ ok (new_link false true false true) ];
}

-- handleCtxAsync, at the end of the context of a call: the text that it puts on the writing channel. A
-- context that is not there is a panic (none).
unfoldable pub handle_ctx_async : (ℕ → Raw) → (Request → Raw) → Bool → ℕ → Option Event
unfolding ws_cancel
handle_ctx_async encode_id encode false id = none
handle_ctx_async encode_id encode true id = some (
    queues (
      encode (record {
        jsonrpc = version;
        id = none;
        method = ws_cancel;
        params = encode_id id ∷ [];
        meta = none;
      })))

-- handleChanOut: the new counter, and what the loop of handleOutChans receives, or an error where the
-- connection is exiting first
unfoldable pub handle_chan_out : ℕ → Bool → ℕ → ℕ → ℕ × Result Selected
unfolding next_chan_id
handle_chan_out ctr exiting req ch =
    let id = next_chan_id ctr in
    (id, if exiting then err (plain (codes "connection closing")) else ok (registers req id ch))

abbrev SettledOf : Result Link → Type 0
SettledOf (ok l) = IsSettled l
SettledOf (err _) = Unit {0}

-- A server never dials: in every state that the goroutines of a connection reach that handleWS has
-- upgraded, bretry is not set and no goroutine dials.
pub handle_ws-Settled :
    (decode_int64 decode_uint64 : Raw → Result ℕ) (encode : Request → Raw) (protocol : Text)
    (k l : Link) (os : List Output)
    → (handle_ws protocol none).outcome ≡ ok k
    → Runs decode_int64 decode_uint64 encode k os l
    → IsSettled l
unfolding handle_ws new_link
handle_ws-Settled decode_int64 decode_uint64 encode protocol k l os h r =
    Runs-Settled decode_int64 decode_uint64 encode (subst SettledOf h (refl, refl)) r
