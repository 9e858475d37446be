-- ===== src/Rpc/Server/Http.antt =====
-- RPCServer.handleReader (handler.go) and ServeHTTP (server.go): one request over HTTP.
use hggutils.Common.{
  ℕ, zero, suc, ◌≤◌, ◌<◌, ◌≡◌, refl, ap, ◌∙◌, inl, inr, List, [], ◌∷◌, Option, none, some, arith,
  Bool-cases, eqb, leb, ltb, if◌then◌else◌, length, take,
}
use hggutils.Common.Int.{ℤ, pos, negsuc, ltb_ℤ}
use hggutils.Common.Text.{Text, codes, to_lower, contains}
use hggutils.Rpc.Message.{
  Raw, Fault, reading_request, unmarshaling_request, request_too_big, Result, ok, err,
  parse_error_code, Value, Request, Response, GoType,
}
use hggutils.Rpc.Server.{ParamDecoder, RpcServer, Effect, header, RpcErrFunc, rpc_error, handle}
use hggutils.Rpc.Server.Effects.{responses, IsErrFunc}
use hggutils.Rpc.Server.Register.{Built}
use hggutils.Rpc.Server.Answers.{IsExclusive, Answered}
use hggutils.Rpc.Server.Safety.{handle-answers}

-- A body: its bytes, and the error of the read behind them, if that is not the end.
pub record Body : Type 0 where
  pub bytes : Raw
  pub broken : Option Fault

abbrev max_int64 : ℕ
max_int64 = 9_223_372_036_854_775_807

-- + 1 on int64, which wraps
unfoldable pub succ_int64 : ℤ → ℤ
succ_int64 (pos n) = if eqb n max_int64 then negsuc max_int64 else pos (suc n)
succ_int64 (negsuc zero) = pos 0
succ_int64 (negsuc (suc n)) = negsuc n

-- ReadFrom(io.LimitReader(r, limit)): a limit below 0 is an end at once.
unfoldable pub read_limited : ℤ → Body → Result Raw
read_limited (negsuc n) body = ok []
read_limited (pos n) body =
    if leb n (length body.bytes)
    then ok (take n body.bytes)
    else elim body.broken [ none ↦ ok body.bytes | some f ↦ err f ]

-- The buffered request, or why there is none: the two checks of handleReader before the decoding.
unfoldable pub buffered : ℤ → Body → Result Raw
buffered max body = elim (read_limited (succ_int64 max) body) [
  | err f ↦ err (reading_request f)
  | ok buffer ↦ if ltb_ℤ max (pos (length buffer)) then err (request_too_big max) else ok buffer
]

-- The error function of ServeHTTP.
unfoldable pub http_error : RpcErrFunc
unfolding rpc_error
http_error id code f = header 500 ∷ rpc_error id code f

pub http_error-IsErrFunc : IsErrFunc http_error
unfolding http_error
http_error-IsErrFunc = record {
  silent = λ c m. refl;
  answers = λ i c m. refl;
  no_registration = λ id c m. ground arith;
  no_finish = λ id c m. ground arith;
  no_call = λ id c m. ground arith;
  no_crash = λ id c m. ground arith;
}

-- json's decoder leaves what it has filled beside its error.
abbrev pub RequestDecoder : Type 0
RequestDecoder = Raw → Request × Option Fault

length-take_le : (n : ℕ) (xs : Raw) → n ≤ length xs → length (take n xs) ≡ n
length-take_le zero xs h = refl
length-take_le (suc n) [] h = absurd (omega arith)
length-take_le (suc n) (x ∷ xs) h = omega (arith, length-take_le n xs)

succ_below : (m : ℕ) → m < max_int64 → succ_int64 (pos m) ≡ pos (suc m)
unfolding succ_int64
succ_below m h = ground arith

read_over :
    (n : ℕ) (body : Body)
    → n ≤ length body.bytes
    → read_limited (pos n) body ≡ ok (take n body.bytes)
unfolding read_limited
read_over n body h = ground arith

read_whole :
    (n : ℕ) (body : Body)
    → length body.bytes < n
    → body.broken ≡ none
    → read_limited (pos n) body ≡ ok body.bytes
unfolding read_limited
read_whole n body h e = ground arith

buffered_over :
    (m : ℕ) (body : Body)
    → m < max_int64
    → m < length body.bytes
    → buffered (pos m) body ≡ err (request_too_big (pos m))
unfolding buffered
buffered_over m body h o =
    rw (succ_below m h, read_over (suc m) body o, buffered)
      (ground (arith, length-take_le (suc m) body.bytes o))

buffered_within :
    (m : ℕ) (body : Body)
    → m < max_int64
    → length body.bytes ≤ m
    → body.broken ≡ none
    → buffered (pos m) body ≡ ok body.bytes
unfolding buffered
buffered_within m body h w whole =
    rw (succ_below m h, read_whole (suc m) body (omega arith) whole, buffered) (ground arith)

buffered_wraps : (body : Body) → buffered (pos max_int64) body ≡ ok []
unfolding buffered read_limited succ_int64
buffered_wraps body = refl

-- The responses to a request over HTTP.
abbrev pub HttpAnswered : Option ℕ → List Effect → Type 0
HttpAnswered none es = responses es ≡ []
HttpAnswered (some i) es = (r : Response) × (responses es ≡ r ∷ []) × (r.id ≡ i) × IsExclusive r

Answered-HttpAnswered :
    (id : Option ℕ) (es : List Effect) → Answered id none es → HttpAnswered id es
Answered-HttpAnswered none es a = a.0
Answered-HttpAnswered (some i) es (inl a) = a
Answered-HttpAnswered (some i) es (inr (v, reg, p, q, bad, _)) = cc

module _ (decode_value : GoType → ParamDecoder) (decode_request : RequestDecoder) (s : RpcServer)
    (ctx : Value) where
  -- From the decoding of the buffered request on.
  unfoldable pub handle_parsed : RpcErrFunc → Request × Option Fault → List Effect
  handle_parsed rpc_err (req, some f) = rpc_err req.id parse_error_code (unmarshaling_request f)
  handle_parsed rpc_err (req, none) = handle decode_value s ctx req rpc_err none

  unfoldable pub handle_reader : RpcErrFunc → Body → List Effect
  unfolding handle_parsed
  handle_reader rpc_err body = elim (buffered s.max_request_size body) [
    | err f ↦ rpc_err none parse_error_code f
    | ok buffer ↦ handle_parsed rpc_err (decode_request buffer)
  ]

  pub data Served : Type 0 where
    websocket : Served
    replied : List Effect → Served

  -- ServeHTTP, on the header Connection and the body
  unfoldable pub serve_http : Text → Body → Served
  unfolding handle_reader
  serve_http connection body =
      if contains (to_lower connection) (codes "upgrade")
      then websocket
      else replied (handle_reader http_error body)

  -- The limit on a request is exact: of the bodies that can be read to their end, one of more bytes
  -- than the maximum is refused with the status 500 and an empty reply, and any other is decoded
  -- whole. The maximum is at least 0 and below the largest int64.
  pub handle_reader_limit :
      (m : ℕ) (body : Body)
      → s.max_request_size ≡ pos m
      → m < max_int64
      → body.broken ≡ none
      → handle_reader http_error body ≡ (
          if ltb m (length body.bytes)
          then header 500 ∷ []
          else handle_parsed http_error (decode_request body.bytes))
  unfolding handle_reader http_error
  handle_reader_limit m body e h whole = elim (Bool-cases (ltb m (length body.bytes))) [
    | inl o ↦
        rw (ap (λ x. buffered x body) e ∙ buffered_over m body h (ground arith), handle_reader, o)
    | inr w ↦ rw (
      ap (λ x. buffered x body) e ∙ buffered_within m body h (ground arith) whole,
      handle_reader,
      w,
    )
  ]

  -- With the largest int64 as the maximum the limit on the reader wraps: no byte of any body is read,
  -- and the request that is handled is what the empty text decodes to.
  pub handle_reader_wraps :
      (body : Body)
      → s.max_request_size ≡ pos max_int64
      → handle_reader http_error body ≡ handle_parsed http_error (decode_request [])
  unfolding handle_reader
  handle_reader_wraps body e = rw (ap (λ x. buffered x body) e ∙ buffered_wraps body, handle_reader)

  -- Over HTTP, a request with an identifier that is decoded gets exactly one response, which has that
  -- identifier and holds a value or an error and not both, and a notification gets none. The server
  -- is one that was set up by NewServer, Register and AliasMethod.
  pub handle_parsed-answers :
      (req : Request) → Built s → HttpAnswered req.id (handle_parsed http_error (req, none))
  unfolding handle_parsed
  handle_parsed-answers req b =
      Answered-HttpAnswered req.id _
        (handle-answers decode_value s http_error http_error-IsErrFunc ctx req none b)
