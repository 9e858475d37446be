-- ===== src/Rpc/Conn/Crash.antt =====
-- Which frames make a connection panic: the dereferences and the indices of websocket.go.
use hggutils.Common.{
  ℕ, ◌≡◌, refl, sym, subst, false, Bool-cases, ap, ◌∙◌, ◌≢◌, ◌↔◌, ◌⊎◌, inl, inr, List, [], ◌∷◌,
  none, some, arith, Option-cases, List-cases, nat_key,
}
use mathlib.Core.Option.{some-injective}
use hggutils.Common.Text.{text_key}
use hggutils.Common.Dict.{find}
use hggutils.Rpc.Message.{Raw, Result, ok, Result-cases}
use hggutils.Rpc.Conn.{
  Frame, ClientRequest, Conn, value_to, respond_chan, respond_to, handle_response, cancel_ctx,
  handle_chan_message, handle_chan_close, handle_call, handle_frame, Kind, reply, cancelling, ping,
  pong, chan_value, chan_closing, remote_call, message_kind, handle_kind,
}

module _ (decode_int64 decode_uint64 : Raw → Result ℕ) (c : Conn) (f : Frame) where
  -- A value for an open channel that comes with no value.
  abbrev pub LacksValue : Type 0
  LacksValue =
      (p : Raw) × (chid : ℕ) × (sink : ℕ) × (f.params ≡ p ∷ [])
      × (decode_uint64 p ≡ ok chid)
      × (find chid c.chan_handlers ≡ some sink)

  -- An answer with a channel for a call in flight that has no context
  abbrev pub LacksContext : ℕ → ClientRequest → Type 0
  LacksContext i r =
      (maker : ℕ) × (raw : Raw) × (chid : ℕ) × (r.ret_ch ≡ some maker)
      × (f.result ≡ some raw)
      × (decode_uint64 raw ≡ ok chid)
      × (r.ret_ctx ≡ false)

  respond_chan-none :
      (i : ℕ) (r : ClientRequest) (m : ℕ) (raw : Raw)
      → respond_chan decode_int64 decode_uint64 c f i r m raw ≡ none
      → (chid : ℕ) × (decode_uint64 raw ≡ ok chid) × (r.ret_ctx ≡ false)
  unfolding respond_chan
  respond_chan-none i r m raw h = elim (Result-cases (decode_uint64 raw)) [
    | inr (_, d) ↦ cc (rw (d, respond_chan) at h)
    | inl (chid, d) ↦ elim (Bool-cases r.ret_ctx) [
      | inl e ↦ cc (rw (d, e, respond_chan) at h)
      | inr e ↦ (chid, d, e)
    ]
  ]

  respond_to-none :
      (i : ℕ) (r : ClientRequest)
      → (respond_to decode_int64 decode_uint64 c f i r ≡ none) ↔ LacksContext i r
  unfolding respond_to respond_chan
  respond_to-none i r = (
    λ h. elim (Option-cases r.ret_ch) [
      | inl p ↦ cc (rw (p, respond_to) at h)
      | inr (m, p) ↦ elim (Option-cases f.result) [
        | inl q ↦ cc (rw (p, q, respond_to) at h)
        | inr (raw, q) ↦
            let (chid, d, e) = respond_chan-none i r m raw (rw (p, q, respond_to) at h) in
            (m, raw, chid, p, q, d, e)
      ]
    ],
    λ (m, raw, chid, p, q, d, e). rw (p, q, d, e, respond_to, respond_chan) refl,
  )

  abbrev pub BadResponse : Type 0
  BadResponse =
      (f.id ≡ none)
      ⊎ ((i : ℕ) × (r : ClientRequest) × (f.id ≡ some i)
          × (find i c.inflight ≡ some r)
          × LacksContext i r)

  handle_response-none : (handle_response decode_int64 decode_uint64 c f ≡ none) ↔ BadResponse
  unfolding handle_response
  handle_response-none = elim (Option-cases f.id) [
    | inl p ↦ ((λ _. inl p), λ _. rw (p, handle_response))
    | inr (i, p) ↦ elim (Option-cases (find i c.inflight)) [
      | inl q ↦ (
        (λ h. cc (rw (p, q, handle_response) at h)),
        λ h. elim h [
          | inl e ↦ cc
          | inr (j, r, e, found, _) ↦
              let same : i ≡ j = some-injective i j (sym p ∙ e) in
              cc (sym found ∙ ap (λ k. find k c.inflight) (sym same) ∙ q)
        ],
      )
      | inr (r, q) ↦ (
        (λ h. inr (i, r, p, q, (respond_to-none i r).0 (rw (p, q, handle_response) at h))),
        λ h. elim h [
          | inl e ↦ cc
          | inr (j, s, e, found, l) ↦
              let same : i ≡ j = some-injective i j (sym p ∙ e) in
              let same_request : r ≡ s =
                some-injective r s (sym q ∙ ap (λ k. find k c.inflight) same ∙ found) in
              rw (p, q, handle_response)
                ((respond_to-none i r).1 (
                  subst (LacksContext i) (sym same_request)
                    (subst (λ k. LacksContext k s) (sym same) l)))
        ],
      )
    ]
  ]

  cancel_ctx-none : (cancel_ctx decode_int64 decode_uint64 c f ≡ none) ↔ (f.params ≡ [])
  unfolding cancel_ctx
  cancel_ctx-none = ground arith

  handle_chan_close-none :
      (handle_chan_close decode_int64 decode_uint64 c f ≡ none) ↔ (f.params ≡ [])
  unfolding handle_chan_close
  handle_chan_close-none = ground arith

  handle_call-ne-none : handle_call decode_int64 decode_uint64 c f ≢ none
  unfolding handle_call
  handle_call-ne-none = ground arith

  value_to-none : (sink : ℕ) (rest : List Raw) → value_to c sink rest ≡ none → rest ≡ []
  unfolding value_to
  value_to-none sink [] h = refl
  value_to-none sink (v ∷ rest) h = cc

  message_crash :
      handle_chan_message decode_int64 decode_uint64 c f ≡ none → (f.params ≡ []) ⊎ LacksValue
  unfolding handle_chan_message
  message_crash h = elim (List-cases f.params) [
    | inl e ↦ inl e
    | inr (p, rest, e) ↦ elim (Result-cases (decode_uint64 p)) [
      | inr (_, d) ↦ cc (rw (e, d, handle_chan_message) at h)
      | inl (chid, d) ↦ elim (Option-cases (find chid c.chan_handlers)) [
        | inl q ↦ cc (rw (e, d, q, handle_chan_message) at h)
        | inr (s, q) ↦ inr (
          p,
          chid,
          s,
          e ∙ ap (◌∷◌ p) (value_to-none s rest (rw (e, d, q, handle_chan_message) at h)),
          d,
          q,
        )
      ]
    ]
  ]

  crash_message :
      (f.params ≡ []) ⊎ LacksValue → handle_chan_message decode_int64 decode_uint64 c f ≡ none
  unfolding handle_chan_message value_to
  crash_message (inl e) = rw (e, handle_chan_message)
  crash_message (inr (p, chid, s, e, d, q)) = rw (e, d, q, handle_chan_message)

  -- The frames that make the process panic, by kind.
  abbrev pub Malformed : Kind → Type 0
  Malformed reply = BadResponse
  Malformed cancelling = f.params ≡ []
  Malformed chan_value = (f.params ≡ []) ⊎ LacksValue
  Malformed chan_closing = f.params ≡ []
  Malformed _ = ⊥

  handle_kind-none :
      (k : Kind) → (handle_kind decode_int64 decode_uint64 k c f ≡ none) ↔ Malformed k
  unfolding handle_kind
  handle_kind-none reply = handle_response-none
  handle_kind-none cancelling = cancel_ctx-none
  handle_kind-none ping = ((λ h. cc), λ h. absurd h)
  handle_kind-none pong = ((λ h. cc), λ h. absurd h)
  handle_kind-none chan_value = (message_crash, crash_message)
  handle_kind-none chan_closing = handle_chan_close-none
  handle_kind-none remote_call = ((λ h. absurd (handle_call-ne-none h)), λ h. absurd h)

  -- A frame from the peer makes the process panic exactly when it is a response with no identifier, a
  -- response with a channel to a call in flight that has no context, a cancellation or a close of a channel with no parameter, or a value for a channel with no parameter
  -- or, if the channel is open, with only one.
  pub handle_frame-none :
      (handle_frame decode_int64 decode_uint64 c f ≡ none) ↔ Malformed (message_kind f.method)
  unfolding handle_frame
  handle_frame-none = handle_kind-none (message_kind f.method)
