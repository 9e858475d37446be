-- ===== src/Rpc/Client/Http.antt =====
-- The doRequest of httpClient (jsonrpc/client.go), and a call of it against the server. The JSON codecs
-- and the POST are arguments; the status of the reply is not looked at.
use hggutils.Common.{
  ℕ, ◌<◌, ◌≤◌, ◌≡◌, refl, ap, subst, ◌∙◌, false, [], ◌∷◌, none, some, arith, eqb, eqb_iff, ltb,
  if◌then◌else◌, length, is_some,
}
use hggutils.Common.Int.{pos}
use hggutils.Rpc.Message.{
  Raw, id_mismatch, marshaling_request, unmarshaling_response, Result, ok, err, Value, Request,
  Response, GoType,
}
use hggutils.Rpc.Conn.{ClientResponse}
use hggutils.Rpc.Client.{CallRequest}
use hggutils.Rpc.Server.{ParamDecoder, RpcServer}
use hggutils.Rpc.Server.Effects.{responses}
use hggutils.Rpc.Server.Register.{Built}
use hggutils.Rpc.Server.Answers.{IsExclusive}
use hggutils.Rpc.Server.Http.{
  Body, RequestDecoder, http_error, handle_parsed, handle_reader, HttpAnswered, handle_reader_limit,
  handle_parsed-answers,
}

module _ (encode : CallRequest → Result Raw) (post : Raw → Result Raw)
    (decode : Raw → Result ClientResponse) where
  abbrev check_id : CallRequest → ClientResponse → Result ClientResponse
  check_id req resp = if eqb resp.id req.id then ok resp else err id_mismatch

  abbrev read_reply : CallRequest → Raw → Result ClientResponse
  read_reply req reply = elim (decode reply) [
    | err f ↦ err (unmarshaling_response f)
    | ok resp ↦ check_id req resp
  ]

  -- doRequest
  unfoldable pub http_request : CallRequest → Result ClientResponse
  http_request req = elim (encode req) [
    | err f ↦ err (marshaling_request f)
    | ok body ↦ elim (post body) [ err f ↦ err f | ok reply ↦ read_reply req reply ]
  ]

  http_request-ok :
      (req : CallRequest) (bytes reply : Raw) (resp : ClientResponse)
      → encode req ≡ ok bytes
      → post bytes ≡ ok reply
      → decode reply ≡ ok resp
      → resp.id ≡ req.id
      → http_request req ≡ ok resp
  unfolding http_request
  http_request-ok req bytes reply resp e p d same =
      rw (e, http_request, p, read_reply, d, check_id, (eqb_iff resp.id req.id).1 same)

abbrev pub body_of : Raw → Body
body_of bytes = record { bytes = bytes; broken = none }

module _ (decode_value : GoType → ParamDecoder) (decode_request : RequestDecoder) (s : RpcServer)
    (ctx : Value) (encode : CallRequest → Result Raw) (post : Raw → Result Raw)
    (decode : Raw → Result ClientResponse) (encode_response : Response → Raw) where
  -- The POST brings a single response of the server back.
  abbrev pub Carries : Type 0
  Carries =
      (bytes : Raw) (r : Response)
      → responses (handle_reader decode_value decode_request s ctx http_error (body_of bytes))
        ≡ r ∷ []
      → post bytes ≡ ok (encode_response r)

  -- The client reads back the identifier of a response, and whether it has an error.
  abbrev pub ReadsBack : Type 0
  ReadsBack =
      (r : Response)
      → (resp : ClientResponse) × (decode (encode_response r) ≡ ok resp)
        × (resp.id ≡ r.id)
        × (is_some resp.error ≡ is_some r.error)

  -- Client and server agree over HTTP. For a server that NewServer, Register and AliasMethod have set
  -- up, a request whose text is no longer than the server's maximum, which is below the largest int64,
  -- and that the server decodes with the client's identifier, comes back with just one response of the
  -- server's, with an error if that has one: the client's check of the identifier never refuses it. The
  -- POST brings a single response back, and the codecs keep its identifier and whether it has an error.
  pub http_request-answered :
      (req : CallRequest) (bytes : Raw) (sent : Request) (m : ℕ)
      → Built s
      → s.max_request_size ≡ pos m
      → m < 9_223_372_036_854_775_807
      → length bytes ≤ m
      → encode req ≡ ok bytes
      → decode_request bytes ≡ (sent, none)
      → sent.id ≡ some req.id
      → Carries
      → ReadsBack
      → (r : Response) × (resp : ClientResponse) × (responses
            (handle_reader decode_value decode_request s ctx http_error (body_of bytes))
          ≡ r ∷ [])
        × IsExclusive r
        × (http_request encode post decode req ≡ ok resp)
        × (resp.id ≡ req.id)
        × (is_some resp.error ≡ is_some r.error)
  http_request-answered req bytes sent m b size below short e d i carries reads =
      let within : ltb m (length bytes) ≡ false = ground arith in
      let parsed : handle_reader decode_value decode_request s ctx http_error (body_of bytes)
          ≡ handle_parsed decode_value decode_request s ctx http_error (sent, none) =
        handle_reader_limit decode_value decode_request s ctx m (body_of bytes) size below refl
        ∙ rw (within, d) refl in
      let (r, one, same, exclusive) =
        subst
          (λ id.
            HttpAnswered id
              (handle_parsed decode_value decode_request s ctx http_error (sent, none)))
          i (handle_parsed-answers decode_value decode_request s ctx sent b) in
      let (resp, back, id, error) = reads r in
      let served = ap responses parsed ∙ one in
      (
        r,
        resp,
        served,
        exclusive,
        http_request-ok encode post decode req bytes (encode_response r) resp e
            (carries bytes r served) back (id ∙ same),
        id ∙ same,
        error,
      )
