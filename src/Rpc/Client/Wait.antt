-- ===== src/Rpc/Client/Wait.antt =====
-- The doRequest of websocketClient (jsonrpc/client.go): a caller hands its request to the connection and
-- waits, and sends a cancellation when its context is done. The events of its select are an argument,
-- and so is the JSON text of an identifier.
use hggutils.Common.{
  ℕ, ◌≡◌, refl, ap, Bool, true, false, ◌&&◌, not, List, [], ◌∷◌, ◌++◌, map, Option, none, some,
  if◌then◌else◌, nat_key,
}
use hggutils.Common.Text.{codes, text_beq}
use hggutils.Common.Dict.{find}
use hggutils.Rpc.Message.{Raw, plain, Result, ok, err, version, Request}
use hggutils.Rpc.Conn.{
  ws_cancel, ws_ping, ws_pong, ch_value, ch_close, Frame, ClientResponse, Conn, send, cancel,
  accept_request, handle_frame, handle_kind, cancel_ctx, message_kind,
}

-- What the select of the loop delivers: the response, or the end of the context, with whether the
-- connection was exiting when the cancellation was to be sent.
pub data WaitEvent : Type 0 where
  answered : ClientResponse → WaitEvent
  context_done : Bool → WaitEvent

-- The response, if it has come, and the requests sent meanwhile.
pub record Waited : Type 0 where
  pub response : Option ClientResponse
  pub sent : List Request

module _ (encode_id : ℕ → Raw) where
  unfoldable pub cancel_request : ℕ → Request
  cancel_request i = record {
    jsonrpc = version;
    id = none;
    method = ws_cancel;
    params = encode_id i ∷ [];
    meta = none;
  }

  -- The loop; the context counts until it is done: then ctxDone is nil, and gives nothing more.
  unfoldable pub wait : ℕ → Bool → List WaitEvent → Waited
  unfolding cancel_request
  wait i live [] = record { response = none; sent = [] }
  wait i live (answered r ∷ events) = record { response = some r; sent = [] }
  wait i live (context_done exiting ∷ events) =
      let rest = wait i false events in
      if live && not exiting
      then record { response = rest.response; sent = cancel_request i ∷ rest.sent }
      else rest

  -- doRequest; the connection takes the request, or is exiting. A call with no context waits with none.
  unfoldable pub do_request : Bool → ℕ → Bool → List WaitEvent → Result Waited
  unfolding wait
  do_request has_ctx i exiting events =
      if exiting
      then err (plain (codes "websocket routine exiting"))
      else ok (wait i has_ctx events)

  wait-response :
      (i : ℕ) (live : Bool) (dones : List Bool) (r : ClientResponse) (events : List WaitEvent)
      → (wait i live (map context_done dones ++ answered r ∷ events)).response ≡ some r
  unfolding wait
  wait-response i live [] r events = refl
  wait-response i true (true ∷ dones) r events = wait-response i false dones r events
  wait-response i true (false ∷ dones) r events = wait-response i false dones r events
  wait-response i false (b ∷ dones) r events = wait-response i false dones r events

  quiet-sent :
      (i : ℕ) (dones : List Bool) (events : List WaitEvent) (r : ClientResponse)
      → (wait i false (map context_done dones ++ answered r ∷ events)).sent ≡ []
  unfolding wait
  quiet-sent i [] events r = refl
  quiet-sent i (b ∷ dones) events r = quiet-sent i dones events r

  -- The cancellations that a context's end asks for: the first one's, unless the connection exits.
  abbrev pub cancels : ℕ → Bool → List Bool → List Request
  cancels i live [] = []
  cancels i true (false ∷ dones) = cancel_request i ∷ []
  cancels i true (true ∷ dones) = []
  cancels i false (b ∷ dones) = []

  wait-sent :
      (i : ℕ) (live : Bool) (dones : List Bool) (r : ClientResponse) (events : List WaitEvent)
      → (wait i live (map context_done dones ++ answered r ∷ events)).sent ≡ cancels i live dones
  unfolding wait
  wait-sent i live [] r events = refl
  wait-sent i true (true ∷ dones) r events = quiet-sent i dones events r
  wait-sent i true (false ∷ dones) r events =
      ap (◌∷◌ (cancel_request i)) (quiet-sent i dones events r)
  wait-sent i false (b ∷ dones) r events = quiet-sent i dones events r

  -- A cancelled caller still gets its response, and cancels once. However often the end of its context
  -- is seen before the response comes, a request that the connection took returns that response, and
  -- sends just one cancellation, for the first end, and none if the connection was exiting or the call
  -- has no context; its cancellation is no request that waits for an answer, so the client's connection
  -- stays as it is; and at the peer, which decodes the identifier, it cancels the context of that call.
  pub do_request-cancels :
      (decode_int64 decode_uint64 : Raw → Result ℕ) (has_ctx : Bool) (i : ℕ) (dones : List Bool)
      (r : ClientResponse) (events : List WaitEvent) (c peer : Conn) (ready ctx : ℕ) (f : Frame)
      → f.method ≡ (cancel_request i).method
      → f.params ≡ (cancel_request i).params
      → decode_int64 (encode_id i) ≡ ok i
      → find i peer.handling ≡ some ctx
      → (do_request has_ctx i false (map context_done dones ++ answered r ∷ events)
          ≡ ok (record { response = some r; sent = cancels i has_ctx dones }))
        × (accept_request c
              (record { req = cancel_request i; ready = ready; ret_ch = none; ret_ctx = true })
            ≡ (c, send (cancel_request i) ∷ []))
        × (handle_frame decode_int64 decode_uint64 peer f ≡ some (peer, cancel ctx ∷ []))
  unfolding do_request accept_request handle_frame handle_kind message_kind cancel_ctx text_beq
      ws_cancel ws_ping ws_pong ch_value ch_close
  do_request-cancels decode_int64 decode_uint64 has_ctx i dones r events c peer ready ctx f m p d
        e =
      (
        ap ok (both (wait-response i has_ctx dones r events) (wait-sent i has_ctx dones r events)),
        refl,
        rw (m, p, cancel_ctx, d, e),
      )
    where
      both :
          {w : Waited} {o : Option ClientResponse} {l : List Request}
          → w.response ≡ o
          → w.sent ≡ l
          → w ≡ record { response = o; sent = l }
      both p q = rw (p, q)
