-- ===== src/Rpc/Conn/Requests.antt =====
-- Every request gets one response: the bookkeeping of wsConn.inflight.
use hggutils.Common.{
  ℕ, ◌+◌, ◌≡◌, refl, subst, inl, inr, Bool, true, false, List, [], ◌∷◌, ◌++◌, map, Option, none,
  some, arith, Option-cases, eqb, if◌then◌else◌, nat_key,
}
use hggutils.Common.Text.{text_key}
use hggutils.Common.Dict.{
  Dict, find, IsUnique, delete-IsUnique, put-IsUnique, tally, tally-delete, tally-put,
}
use hggutils.Rpc.Message.{Raw, Result}
use hggutils.Rpc.Conn.{
  Frame, ClientRequest, Conn, Action, deliver, sink_close, cancel, Run, accept_request, respond_to,
  handle_response, cancel_ctx, handle_chan_message, handle_chan_close, handle_call, handle_frame,
  Kind, reply, cancelling, ping, pong, chan_value, chan_closing, remote_call, message_kind,
  handle_kind, call_done, tear_down, closed_deliveries, open_conn,
}
use hggutils.Rpc.Conn.Step.{
  Event, accepts, receives, ends, shuts, step, Runs, start, next, IsFresh, AllFresh,
}

module _ (who : ℕ) where
  abbrev pub is_for : ℕ → ℕ
  is_for ready = if eqb ready who then 1 else 0

  -- How many responses the caller behind the channel `who` has been sent.
  abbrev pub delivered : List Action → ℕ
  delivered [] = 0
  delivered (deliver ready r ∷ acts) = is_for ready + delivered acts
  delivered (_ ∷ acts) = delivered acts

  -- How many requests of that caller are in flight.
  abbrev pub pending : Conn → ℕ
  pending c = tally (λ r. is_for r.ready) c.inflight

  -- How many requests of that caller, with an identifier, an event hands over.
  abbrev pub asked : Event → ℕ
  asked (accepts r) = elim r.req.id [ none ↦ 0 | some i ↦ is_for r.ready ]
  asked _ = 0

  abbrev pub all_asked : List Event → ℕ
  all_asked [] = 0
  all_asked (e ∷ es) = asked e + all_asked es

  delivered-append : (xs ys : List Action) → delivered (xs ++ ys) ≡ delivered xs + delivered ys
  delivered-append [] ys = omega arith
  delivered-append (deliver ready r ∷ xs) ys = omega (arith, delivered-append xs ys)
  delivered-append (_ ∷ xs) ys = delivered-append xs ys

  -- What one step has to keep.
  abbrev Balanced : Conn → ℕ → Run → Type 0
  Balanced c n none = Unit {0}
  Balanced c n (some (d, acts)) = IsUnique d.inflight × (delivered acts + pending d ≡ n + pending c)

  idle-Balanced : (c : Conn) → IsUnique c.inflight → Balanced c 0 (some (c, []))
  idle-Balanced c u = (u, refl)

  module _ (decode_int64 decode_uint64 : Raw → Result ℕ) (c : Conn) (u : IsUnique c.inflight) where
    respond_to-Balanced :
        (f : Frame) (i : ℕ) (r : ClientRequest)
        → find i c.inflight ≡ some r
        → Balanced c 0 (respond_to decode_int64 decode_uint64 c f i r)
    unfolding respond_to
    respond_to-Balanced f i r e =
        let gone = delete-IsUnique i c.inflight u in
        let count = tally-delete (λ r. is_for r.ready) i r c.inflight u e in ground arith

    handle_response-Balanced :
        (f : Frame) → Balanced c 0 (handle_response decode_int64 decode_uint64 c f)
    unfolding handle_response
    handle_response-Balanced f = elim (Option-cases f.id) [
      | inl p ↦ rw (p, handle_response) tt
      | inr (i, p) ↦ elim (Option-cases (find i c.inflight)) [
        | inl q ↦ rw (p, q, handle_response) (u, refl)
        | inr (r, q) ↦ rw (p, q, handle_response) (respond_to-Balanced f i r q)
      ]
    ]

    cancel_ctx-Balanced : (f : Frame) → Balanced c 0 (cancel_ctx decode_int64 decode_uint64 c f)
    unfolding cancel_ctx
    cancel_ctx-Balanced f = ground arith

    handle_chan_message-Balanced :
        (f : Frame) → Balanced c 0 (handle_chan_message decode_int64 decode_uint64 c f)
    unfolding handle_chan_message
    handle_chan_message-Balanced f = ground arith

    handle_chan_close-Balanced :
        (f : Frame) → Balanced c 0 (handle_chan_close decode_int64 decode_uint64 c f)
    unfolding handle_chan_close
    handle_chan_close-Balanced f = ground arith

    handle_call-Balanced : (f : Frame) → Balanced c 0 (handle_call decode_int64 decode_uint64 c f)
    unfolding handle_call
    handle_call-Balanced f = ground arith

    handle_kind-Balanced :
        (k : Kind) (f : Frame) → Balanced c 0 (handle_kind decode_int64 decode_uint64 k c f)
    unfolding handle_kind
    handle_kind-Balanced reply f = handle_response-Balanced f
    handle_kind-Balanced cancelling f = cancel_ctx-Balanced f
    handle_kind-Balanced ping f = (u, refl)
    handle_kind-Balanced pong f = (u, refl)
    handle_kind-Balanced chan_value f = handle_chan_message-Balanced f
    handle_kind-Balanced chan_closing f = handle_chan_close-Balanced f
    handle_kind-Balanced remote_call f = handle_call-Balanced f

    handle_frame-Balanced : (f : Frame) → Balanced c 0 (handle_frame decode_int64 decode_uint64 c f)
    unfolding handle_frame
    handle_frame-Balanced f = handle_kind-Balanced (message_kind f.method) f

  accept_request-Balanced :
      (c : Conn) (r : ClientRequest)
      → IsUnique c.inflight
      → IsFresh c (accepts r)
      → Balanced c (asked (accepts r)) (some (accept_request c r))
  unfolding accept_request
  accept_request-Balanced c r u fresh = elim (Option-cases r.req.id) [
    | inl p ↦ rw (p, accept_request) (u, refl)
    | inr (i, p) ↦
        rw (p, accept_request)
          (
            put-IsUnique i r c.inflight u,
            omega (arith, tally-put (λ r. is_for r.ready) i r c.inflight (fresh i p)),
          )
  ]

  call_done-Balanced :
      (c : Conn) (ctx : ℕ) (id : Option ℕ) (keep : Bool)
      → IsUnique c.inflight
      → Balanced c 0 (some (call_done c ctx id keep))
  unfolding call_done
  call_done-Balanced c ctx id true u = (u, refl)
  call_done-Balanced c ctx none false u = (u, refl)
  call_done-Balanced c ctx (some i) false u = (u, refl)

  delivered-closed :
      (m : Dict ℕ ClientRequest) → delivered (closed_deliveries m) ≡ tally (λ r. is_for r.ready) m
  unfolding tally
  delivered-closed [] = refl
  delivered-closed ((i, r) ∷ m) = rw (delivered-closed m)

  delivered-cancels : (m : Dict ℕ ℕ) → delivered (map (λ e. cancel e.1) m) ≡ 0
  delivered-cancels [] = refl
  delivered-cancels (e ∷ m) = delivered-cancels m

  delivered-closes : (m : Dict ℕ ℕ) → delivered (map (λ e. sink_close e.1) m) ≡ 0
  delivered-closes [] = refl
  delivered-closes (e ∷ m) = delivered-closes m

  delivered-tear_down : (c : Conn) → delivered (tear_down c).1 ≡ pending c
  unfolding tear_down
  delivered-tear_down c =
      rw (delivered-append, delivered-closes, delivered-append, delivered-closed, delivered-cancels)
        (omega arith)

  pending-tear_down : (c : Conn) → pending (tear_down c).0 ≡ 0
  unfolding tear_down tally
  pending-tear_down c = refl

  tear_down-Balanced : (c : Conn) → Balanced c 0 (some (tear_down c))
  unfolding tear_down
  tear_down-Balanced c = (tt, omega (arith, delivered-tear_down c, pending-tear_down c))

  module _ (decode_int64 decode_uint64 : Raw → Result ℕ) where
    step-Balanced :
        (c : Conn) (e : Event)
        → IsUnique c.inflight
        → IsFresh c e
        → Balanced c (asked e) (step decode_int64 decode_uint64 c e)
    unfolding step
    step-Balanced c (accepts r) u fresh = accept_request-Balanced c r u fresh
    step-Balanced c (receives f) u fresh = handle_frame-Balanced decode_int64 decode_uint64 c u f
    step-Balanced c (ends ctx id keep) u fresh = call_done-Balanced c ctx id keep u
    step-Balanced c shuts u fresh = tear_down-Balanced c

    Runs-Balanced :
        {c d : Conn} {es : List Event} {acts : List Action}
        → IsUnique c.inflight
        → (r : Runs decode_int64 decode_uint64 c es d acts) → AllFresh decode_int64 decode_uint64 r
        → IsUnique d.inflight × (delivered acts + pending d ≡ all_asked es + pending c)
    Runs-Balanced u start fresh = (u, refl)
    Runs-Balanced u (next {d} {acts} r e more s) fresh =
        let (u', count) = Runs-Balanced u r fresh.0 in
        let b = step-Balanced d e u' fresh.1 in
        let (u'', count') = subst (Balanced d (asked e)) s b in
        (u'', omega (arith, delivered-append acts more))

    -- No response is lost and none is made up. Along any history of a connection, where no request
    -- takes an identifier that is in flight, the responses that a caller was sent and its requests in
    -- flight add up to its requests; and when the connection closes there and then, with the deferred
    -- calls of handleWsConn, every request of the caller has had exactly one response.
    pub responses-requests :
        (has_handler : Bool) (ctx sink : ℕ) (es : List Event) (d : Conn) (acts : List Action)
        → (r : Runs decode_int64 decode_uint64 (open_conn has_handler ctx sink) es d acts)
        → AllFresh decode_int64 decode_uint64 r
        → (delivered acts + pending d ≡ all_asked es)
          × (delivered (acts ++ (tear_down d).1) ≡ all_asked es)
          × (pending (tear_down d).0 ≡ 0)
    unfolding open_conn tally
    responses-requests has_handler ctx sink es d acts r fresh =
        let (u, count) = Runs-Balanced tt r fresh in
        (
          omega arith,
          omega (arith, delivered-append acts (tear_down d).1, delivered-tear_down d),
          pending-tear_down d,
        )
