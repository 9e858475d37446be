-- ===== src/Rpc/Conn/Sinks.antt =====
-- The sinks of result channels: wsConn.chanHandlers. In Go a close of a closed channel, and a send on
-- one, is a run-time panic.
use hggutils.Common.{
  ℕ, suc, ◌+◌, ◌≤◌, ◌≡◌, refl, ◌⊎◌, inl, inr, Bool, true, false, List, [], ◌∷◌, ◌++◌, Option, none,
  some, arith, Option-cases, Bool-cases, List-cases, eqb, if◌then◌else◌, nat_key,
}
use hggutils.Common.Text.{text_key}
use hggutils.Common.Dict.{
  find, delete, IsUnique, delete-IsUnique, put-IsUnique, tally, tally-delete, tally-put,
}
use hggutils.Rpc.Message.{Raw, Result, ok, Result-cases}
use hggutils.Rpc.Conn.{
  Frame, ClientRequest, Conn, Action, open_sink, sink_value, sink_close, Run, accept_request,
  respond_chan, respond_to, handle_response, value_to, cancel_ctx, handle_chan_message,
  handle_chan_close, handle_call, handle_frame, call_done, Kind, reply, cancelling, ping, pong,
  chan_value, chan_closing, remote_call, message_kind, handle_kind,
}
use hggutils.Rpc.Conn.Step.{receives, IsNewChan}

module _ (who : ℕ) where
  abbrev pub is_sink : ℕ → ℕ
  is_sink s = if eqb s who then 1 else 0

  abbrev pub opened : List Action → ℕ
  opened [] = 0
  opened (open_sink m s ∷ acts) = is_sink s + opened acts
  opened (_ ∷ acts) = opened acts

  abbrev pub closed : List Action → ℕ
  closed [] = 0
  closed (sink_close s ∷ acts) = is_sink s + closed acts
  closed (_ ∷ acts) = closed acts

  abbrev pub valued : List Action → ℕ
  valued [] = 0
  valued (sink_value s v ∷ acts) = is_sink s + valued acts
  valued (_ ∷ acts) = valued acts

  abbrev pub open_now : Conn → ℕ
  open_now c = tally is_sink c.chan_handlers

  pub opened-append : (xs ys : List Action) → opened (xs ++ ys) ≡ opened xs + opened ys
  opened-append [] ys = omega arith
  opened-append (open_sink m s ∷ xs) ys = omega (arith, opened-append xs ys)
  opened-append (_ ∷ xs) ys = opened-append xs ys

  pub closed-append : (xs ys : List Action) → closed (xs ++ ys) ≡ closed xs + closed ys
  closed-append [] ys = omega arith
  closed-append (sink_close s ∷ xs) ys = omega (arith, closed-append xs ys)
  closed-append (_ ∷ xs) ys = closed-append xs ys

  pub valued-append : (xs ys : List Action) → valued (xs ++ ys) ≡ valued xs + valued ys
  valued-append [] ys = omega arith
  valued-append (sink_value s v ∷ xs) ys = omega (arith, valued-append xs ys)
  valued-append (_ ∷ xs) ys = valued-append xs ys

  -- A step that opens the next sink, or none.
  abbrev pub Opens : Conn → Conn → ℕ → Type 0
  Opens c d n =
      ((n ≡ 0) × (d.next_sink ≡ c.next_sink))
      ⊎ ((n ≡ is_sink c.next_sink) × (d.next_sink ≡ suc c.next_sink))

  abbrev pub SinksOk : Conn → Run → Type 0
  SinksOk c none = Unit {0}
  SinksOk c (some (d, acts)) =
      IsUnique d.chan_handlers
      × (closed acts + open_now d ≡ opened acts + open_now c)
      × (valued acts ≤ open_now c)
      × Opens c d (opened acts)

  module _ (decode_int64 decode_uint64 : Raw → Result ℕ) where
    module _ (c : Conn) (u : IsUnique c.chan_handlers) where
      answer_chan-SinksOk :
          (f : Frame) (i : ℕ) (r : ClientRequest) (m : ℕ) (raw : Raw)
          → f.result ≡ some raw
          → ((chid : ℕ) → decode_uint64 raw ≡ ok chid → find chid c.chan_handlers ≡ none)
          → SinksOk c (respond_chan decode_int64 decode_uint64 c f i r m raw)
      unfolding respond_chan
      answer_chan-SinksOk f i r m raw e new = elim (Result-cases (decode_uint64 raw)) [
        | inr (_, p) ↦ rw (p, respond_chan) (u, refl, omega arith, inl (refl, refl))
        | inl (chid, p) ↦ elim (Bool-cases r.ret_ctx) [
          | inr q ↦ rw (p, q, respond_chan) tt
          | inl q ↦
              rw (p, q, respond_chan)
                (
                  put-IsUnique chid c.next_sink c.chan_handlers u,
                  omega (arith, tally-put is_sink chid c.next_sink c.chan_handlers (new chid p)),
                  omega arith,
                  inr (omega arith, refl),
                )
        ]
      ]

      respond_to-SinksOk :
          (f : Frame) (i : ℕ) (r : ClientRequest)
          → message_kind f.method ≡ reply
          → f.id ≡ some i
          → find i c.inflight ≡ some r
          → IsNewChan decode_uint64 c (receives f)
          → SinksOk c (respond_to decode_int64 decode_uint64 c f i r)
      unfolding respond_to
      respond_to-SinksOk f i r kind id found new = elim (Option-cases r.ret_ch) [
        | inl p ↦ rw (p, respond_to) (u, refl, omega arith, inl (refl, refl))
        | inr (m, p) ↦ elim (Option-cases f.result) [
          | inl q ↦ rw (p, q, respond_to) (u, refl, omega arith, inl (refl, refl))
          | inr (raw, q) ↦
              rw (p, q, respond_to)
                (answer_chan-SinksOk f i r m raw q
                  (λ chid d. new i r m raw chid kind id found p q d))
        ]
      ]

      handle_response-SinksOk :
          (f : Frame)
          → message_kind f.method ≡ reply
          → IsNewChan decode_uint64 c (receives f)
          → SinksOk c (handle_response decode_int64 decode_uint64 c f)
      unfolding handle_response
      handle_response-SinksOk f kind new = elim (Option-cases f.id) [
        | inl p ↦ rw (p, handle_response) tt
        | inr (i, p) ↦ elim (Option-cases (find i c.inflight)) [
          | inl q ↦ rw (p, q, handle_response) (u, refl, omega arith, inl (refl, refl))
          | inr (r, q) ↦ rw (p, q, handle_response) (respond_to-SinksOk f i r kind p q new)
        ]
      ]

      cancel_ctx-SinksOk : (f : Frame) → SinksOk c (cancel_ctx decode_int64 decode_uint64 c f)
      unfolding cancel_ctx
      cancel_ctx-SinksOk f = ground arith

      handle_call-SinksOk : (f : Frame) → SinksOk c (handle_call decode_int64 decode_uint64 c f)
      unfolding handle_call
      handle_call-SinksOk f = ground arith

      on_chan :
          (chid s : ℕ)
          → find chid c.chan_handlers ≡ some s
          → is_sink s + tally is_sink (delete chid c.chan_handlers) ≡ open_now c
      on_chan chid s e = tally-delete is_sink chid s c.chan_handlers u e

      value_to-SinksOk :
          (chid s : ℕ)
          → find chid c.chan_handlers ≡ some s
          → (rest : List Raw) → SinksOk c (value_to c s rest)
      unfolding value_to
      value_to-SinksOk chid s e [] = tt
      value_to-SinksOk chid s e (v ∷ _) =
          (u, refl, omega (arith, on_chan chid s e), inl (refl, refl))

      handle_chan_message-SinksOk :
          (f : Frame) → SinksOk c (handle_chan_message decode_int64 decode_uint64 c f)
      unfolding handle_chan_message
      handle_chan_message-SinksOk f = elim (List-cases f.params) [
        | inl e ↦ rw (e, handle_chan_message) tt
        | inr (p, rest, e) ↦ elim (Result-cases (decode_uint64 p)) [
          | inr (_, d) ↦ rw (e, d, handle_chan_message) (u, refl, omega arith, inl (refl, refl))
          | inl (chid, d) ↦ elim (Option-cases (find chid c.chan_handlers)) [
            | inl q ↦ rw (e, d, q, handle_chan_message) (u, refl, omega arith, inl (refl, refl))
            | inr (s, q) ↦ rw (e, d, q, handle_chan_message) (value_to-SinksOk chid s q rest)
          ]
        ]
      ]

      handle_chan_close-SinksOk :
          (f : Frame) → SinksOk c (handle_chan_close decode_int64 decode_uint64 c f)
      unfolding handle_chan_close
      handle_chan_close-SinksOk f = elim (List-cases f.params) [
        | inl e ↦ rw (e, handle_chan_close) tt
        | inr (p, rest, e) ↦ elim (Result-cases (decode_uint64 p)) [
          | inr (_, d) ↦ rw (e, d, handle_chan_close) (u, refl, omega arith, inl (refl, refl))
          | inl (chid, d) ↦ elim (Option-cases (find chid c.chan_handlers)) [
            | inl q ↦ rw (e, d, q, handle_chan_close) (u, refl, omega arith, inl (refl, refl))
            | inr (s, q) ↦
                rw (e, d, q, handle_chan_close)
                  (
                    delete-IsUnique chid c.chan_handlers u,
                    omega (arith, on_chan chid s q),
                    omega arith,
                    inl (refl, refl),
                  )
          ]
        ]
      ]

      handle_kind-SinksOk :
          (k : Kind) (f : Frame)
          → message_kind f.method ≡ k
          → IsNewChan decode_uint64 c (receives f)
          → SinksOk c (handle_kind decode_int64 decode_uint64 k c f)
      unfolding handle_kind
      handle_kind-SinksOk reply f e new = handle_response-SinksOk f e new
      handle_kind-SinksOk cancelling f e new = cancel_ctx-SinksOk f
      handle_kind-SinksOk ping f e new = (u, refl, omega arith, inl (refl, refl))
      handle_kind-SinksOk pong f e new = (u, refl, omega arith, inl (refl, refl))
      handle_kind-SinksOk chan_value f e new = handle_chan_message-SinksOk f
      handle_kind-SinksOk chan_closing f e new = handle_chan_close-SinksOk f
      handle_kind-SinksOk remote_call f e new = handle_call-SinksOk f

      pub handle_frame-SinksOk :
          (f : Frame)
          → IsNewChan decode_uint64 c (receives f)
          → SinksOk c (handle_frame decode_int64 decode_uint64 c f)
      unfolding handle_frame
      handle_frame-SinksOk f new = handle_kind-SinksOk (message_kind f.method) f refl new

    pub accept_request-SinksOk :
        (c : Conn) (r : ClientRequest)
        → IsUnique c.chan_handlers
        → SinksOk c (some (accept_request c r))
    unfolding accept_request
    accept_request-SinksOk c r u = elim (Option-cases r.req.id) [
      | inl p ↦ rw (p, accept_request) (u, refl, omega arith, inl (refl, refl))
      | inr (i, p) ↦ rw (p, accept_request) (u, refl, omega arith, inl (refl, refl))
    ]

    pub call_done-SinksOk :
        (c : Conn) (ctx : ℕ) (id : Option ℕ) (keep : Bool)
        → IsUnique c.chan_handlers
        → SinksOk c (some (call_done c ctx id keep))
    unfolding call_done
    call_done-SinksOk c ctx id true u = (u, refl, omega arith, inl (refl, refl))
    call_done-SinksOk c ctx none false u = (u, refl, omega arith, inl (refl, refl))
    call_done-SinksOk c ctx (some i) false u = (u, refl, omega arith, inl (refl, refl))
