-- ===== src/Rpc/Client/Retry.antt =====
-- The loop of handleRpcCall: which outcomes are tried again, and that the loop ends.
use hggutils.Common.{
  ℕ, zero, suc, ◌+◌, ◌<◌, ◌≡◌, refl, ◌↔◌, inl, inr, true, List, Option, none, some, arith,
  Bool-cases, eqb, eqb_iff, length, All, drop,
}
use hggutils.Common.Int.{ℤ, pos, negsuc, ltb_ℤ, eqb_ℤ, ◌≤ℤ◌}
use hggutils.Rpc.Message.{Raw, Result, ok, err, RespError, Value, GoType, version}
use hggutils.Rpc.Conn.{ClientResponse}
use hggutils.Rpc.Client.{
  Backoff, next_delay, RpcFunc, Arg, Client, next_id, encode_params, method_name, CallRequest,
  Returned, final, again, result_value, judged, judge, attempts, call_backoff, Transport,
  handle_rpc_call,
}

-- No wait is longer than the maximum, whatever the float arithmetic comes to, if the minimum is not.
pub next_delay-le-max :
    (durf : ℕ → ℤ) (b : Backoff) (attempt : ℤ)
    → b.min_delay ≤ℤ b.max_delay
    → next_delay durf b attempt ≤ℤ b.max_delay
unfolding next_delay
next_delay-le-max durf b (negsuc n) h = h
next_delay-le-max durf b (pos n) h = elim (Bool-cases (ltb_ℤ b.max_delay (durf n))) [
  | inl e ↦ rw e (omega arith)
  | inr e ↦ rw e (ground arith)
]

eqb_ℤ_eq : (a b : ℤ) → eqb_ℤ a b ≡ true → a ≡ b
eqb_ℤ_eq a b h = ground arith

eqb_ℤ_refl : (a : ℤ) → eqb_ℤ a a ≡ true
eqb_ℤ_refl a = ground arith

module _ (zero_of : GoType → Value) (fn : RpcFunc)
    (decode_value : GoType → Raw → Result Value) where
  -- What makes the loop go on: a response with the identifier of the request and a result that
  -- decodes, which says that the connection was closed, to a function with the retry tag.
  abbrev pub IsRetried : ℕ → Result ClientResponse → Value → Type 0
  IsRetried id reply ch =
      (resp : ClientResponse) × (e : RespError) × (v : Value) × (reply ≡ ok resp)
      × (resp.id ≡ id)
      × (result_value zero_of fn decode_value resp ch ≡ ok v)
      × (resp.error ≡ some e)
      × (e.code ≡ pos 2)
      × (fn.retry ≡ true)

  judged-again :
      (e : Option RespError) (r : Result Value)
      → judged zero_of fn decode_value e r ≡ again
      → (f : RespError) × (v : Value) × (r ≡ ok v)
        × (e ≡ some f)
        × (f.code ≡ pos 2)
        × (fn.retry ≡ true)
  judged-again e (err f) h = cc
  judged-again none (ok v) h = cc
  judged-again (some f) (ok v) h = (f, v, refl, refl, ground arith, ground arith)

  judge-again :
      (id : ℕ) (reply : Result ClientResponse) (ch : Value)
      → judge zero_of fn decode_value id reply ch ≡ again
      → IsRetried id reply ch
  unfolding judge
  judge-again id (err f) ch h = cc
  judge-again id (ok resp) ch h = elim (Bool-cases (eqb resp.id id)) [
    | inl same ↦
        let (f, v, r, e, two, tag) = judged-again _ _ (rw same at h) in
        (resp, f, v, refl, (eqb_iff resp.id id).0 same, r, e, two, tag)
    | inr other ↦ cc (rw other at h)
  ]

  retried-judge :
      (id : ℕ) (reply : Result ClientResponse) (ch : Value)
      → IsRetried id reply ch
      → judge zero_of fn decode_value id reply ch ≡ again
  unfolding judge
  retried-judge id reply ch (resp, e, v, p, same, r, q, two, tag) =
      rw (p, judge, (eqb_iff resp.id id).1 same, r, q, two, tag)

  -- The loop goes on exactly when the attempt brought a response with the identifier of the request
  -- and a result that decodes, whose error has the code of a closed connection, and the function has
  -- the tag retry. All else ends it: an error of the transport, a foreign identifier, a result that
  -- does not decode, and any other response.
  pub judge-again_iff :
      (id : ℕ) (reply : Result ClientResponse) (ch : Value)
      → (judge zero_of fn decode_value id reply ch ≡ again) ↔ IsRetried id reply ch
  judge-again_iff id reply ch = (judge-again id reply ch, retried-judge id reply ch)

  module _ (durf : ℕ → ℤ) (b : Backoff) (id : ℕ) (reply : ℕ → Result ClientResponse)
      (chan : ℕ → Value) where
    -- The attempts from `a` on are tried again `k` times, and the next one ends with `outs`.
    abbrev pub EndsAfter : ℕ → ℕ → List Value → Type 0
    EndsAfter zero a outs = judge zero_of fn decode_value id (reply a) (chan a) ≡ final outs
    EndsAfter (suc k) a outs = IsRetried id (reply a) (chan a) × EndsAfter k (a + 1) outs

    abbrev AreWaits : ℕ → List Value → Option Returned → Type 0
    AreWaits k outs res =
        (r : Returned) × (res ≡ some r)
        × (r.outs ≡ outs)
        × (length r.sleeps ≡ k)
        × All (λ d. d ≤ℤ b.max_delay) r.sleeps

    pub attempts-ends :
        (k fuel a : ℕ) (outs : List Value)
        → b.min_delay ≤ℤ b.max_delay
        → k < fuel
        → EndsAfter k a outs
        → AreWaits k outs (attempts zero_of fn decode_value durf b id reply chan fuel a)
    unfolding attempts
    attempts-ends k zero a outs m h e = absurd (omega arith)
    attempts-ends zero (suc fuel) a outs m h e = rw (e, attempts) (_, refl, refl, refl, tt)
    attempts-ends (suc k) (suc fuel) a outs m h (retried, later) =
        let (r, got, same, n, waits) = attempts-ends k fuel (a + 1) outs m (omega arith) later in
        rw (retried-judge id (reply a) (chan a) retried, attempts, got)
          (_, refl, same, omega arith, (next_delay-le-max durf b (pos a) m, waits))

module _ (zero_of : GoType → Value) (decode_value : GoType → Raw → Result Value) (durf : ℕ → ℤ)
    (transport : Transport) (chan : ℕ → Value) (c : Client) (fn : RpcFunc) (args : List Arg)
    (params : List Value) where
  abbrev pub request : CallRequest
  request = record { jsonrpc = version; id = next_id c; method = method_name c fn; params = params }

  -- A call ends with the first attempt that is not tried again, whatever came before: with any fuel
  -- above the number k of attempts that were tried again it returns the results of that attempt, after
  -- k waits of ten minutes at most. The parameters are encoded without an error.
  pub handle_rpc_call-ends :
      (k fuel : ℕ) (outs : List Value)
      → encode_params c.param_encoders (drop fn.has_ctx args) ≡ ok params
      → EndsAfter zero_of fn decode_value durf call_backoff
          (next_id c)
          (transport request)
          chan
          k
          0
          outs
      → k < fuel
      → (r : Returned) × (handle_rpc_call zero_of decode_value durf transport chan fuel c fn args
          ≡ some r)
        × (r.outs ≡ outs)
        × (length r.sleeps ≡ k)
        × All (λ d. d ≤ℤ pos 600_000_000_000) r.sleeps
  unfolding handle_rpc_call
  handle_rpc_call-ends k fuel outs e ends h =
      rw (e, handle_rpc_call)
        (attempts-ends zero_of fn decode_value durf call_backoff (next_id c) (transport request)
          chan k fuel 0 outs (omega arith) h ends)
