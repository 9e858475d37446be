-- ===== src/Rpc/Spans/Traces.antt =====
-- The span of a call, from the client to the server (jsonrpc/client.go, jsonrpc/handler.go).
use hggutils.Common.{ℕ, ◌≡◌, refl, List, ◌++◌, Option, some, All, replicate, length, ◌-◌}
use hggutils.Common.Text.{Text, codes, text_key, text_beq}
use hggutils.Common.Dict.{find}
use hggutils.Rpc.Message.{Request, GoType, Value}
use hggutils.Rpc.Server.{
  ParamDecoder, RpcServer, RpcErrFunc, ChanOut, handle, handle_found, handle_params, call_method,
}
use hggutils.Rpc.Base64.{encode_to_string, decoded_len}
use hggutils.Rpc.Base64.Decodes.{IsByte, decode_into_slice-encode}
use hggutils.Rpc.Spans.{with_span, started, get_span, handle_in_span}

module _ {Context Span SpanContext : Type 0} (binary : SpanContext → List ℕ)
    (from_binary : List ℕ → Option SpanContext)
    (start_span : Context → Text → SpanContext → Context × Span)
    (add_attribute : Text → Text → Span → Span) (sc : SpanContext) where
  -- The binary form of the context is made of bytes, and is read back with zeros behind it.
  abbrev pub IsReadBack : Type 0
  IsReadBack =
      All IsByte (binary sc) × ((n : ℕ) → from_binary (binary sc ++ replicate n 0) ≡ some sc)

  get_span-with_span :
      (ctx : Context) (req : Request)
      → IsReadBack
      → get_span from_binary start_span add_attribute ctx (with_span binary (some sc) req)
        ≡ started add_attribute req.method (start_span ctx (codes "api.handle") sc)
  unfolding get_span with_span find text_beq
  get_span-with_span ctx req (bytes, reads) =
      rw
        (
          decode_into_slice-encode (binary sc) bytes,
          get_span,
          reads (decoded_len (length (encode_to_string (binary sc))) - length (binary sc)),
        )
        refl

  -- handle looks at no meta.
  handle-with_span :
      (decode_value : GoType → ParamDecoder) (s : RpcServer) (ctx : Value) (req : Request)
      (rpc_err : RpcErrFunc) (ch_out : Option ChanOut)
      → handle decode_value s ctx (with_span binary (some sc) req) rpc_err ch_out
        ≡ handle decode_value s ctx req rpc_err ch_out
  unfolding handle handle_found handle_params call_method with_span
  handle-with_span decode_value s ctx req rpc_err ch_out = refl

  -- A request that a client sends within a span is handled in a span of the server that is the child
  -- of that and has the request's method as an attribute: the server does what it does for the
  -- same request outside a span, in the context of the new span, which it ends. This is so
  -- if the binary form of the client's span is made of bytes and is read back from itself with any
  -- number of zeros behind it.
  pub handle_in_span-with_span :
      (decode_value : GoType → ParamDecoder) (s : RpcServer) (ctx : Context)
      (as_value : Context → Value) (req : Request) (rpc_err : RpcErrFunc) (ch_out : Option ChanOut)
      → IsReadBack
      → handle_in_span from_binary start_span add_attribute decode_value s ctx as_value
          (with_span binary (some sc) req)
          rpc_err
          ch_out
        ≡ (
          handle decode_value s
              (as_value (start_span ctx (codes "api.handle") sc).0)
              req
              rpc_err
              ch_out,
          some (
              add_attribute (codes "method") req.method (start_span ctx (codes "api.handle") sc).1),
        )
  unfolding handle_in_span
  handle_in_span-with_span decode_value s ctx as_value req rpc_err ch_out reads =
      rw
        (
          get_span-with_span ctx req reads,
          handle_in_span,
          handle-with_span decode_value s (as_value (start_span ctx (codes "api.handle") sc).0) req
              rpc_err ch_out,
        )
        refl
