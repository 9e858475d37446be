-- ===== src/Rpc/Spans.antt =====
-- RPCServer.getSpan (jsonrpc/handler.go) and the meta that handleRpcCall sends (jsonrpc/client.go). What
-- packages trace and propagation of OpenCensus do is an argument: the start of a span, its attributes, and
-- the binary form of a span's context.
pub mod Traces
pub mod Tests
use hggutils.Common.{List, [], ◌∷◌, ℕ, Option, none, some}
use hggutils.Common.Text.{Text, codes, text_key}
use hggutils.Common.Dict.{Dict, find}
use hggutils.Rpc.Message.{Request, GoType, Value}
use hggutils.Rpc.Server.{ParamDecoder, RpcServer, RpcErrFunc, ChanOut, Effect, handle}
use hggutils.Rpc.Base64.{encode_to_string, decode_into_slice}

module _ {SpanContext : Type 0} (binary : SpanContext → List ℕ) where
  -- The request of handleRpcCall, for the context of the span that it has started, if any; the attribute
  -- of that span aside.
  unfoldable pub with_span : Option SpanContext → Request → Request
  unfolding encode_to_string
  with_span none req = req
  with_span (some sc) req = record {
    jsonrpc = req.jsonrpc;
    id = req.id;
    method = req.method;
    params = req.params;
    meta = some ((codes "SpanContext", encode_to_string (binary sc)) ∷ []);
  }

-- The attribute of a span that was started.
abbrev pub started :
    {Context Span : Type 0}
    → (Text → Text → Span → Span)
    → Text
    → Context × Span
    → Context × Option Span
started add_attribute method (ctx, span) = (ctx, some (add_attribute (codes "method") method span))

module _ {Context Span SpanContext : Type 0} (from_binary : List ℕ → Option SpanContext)
    (start_span : Context → Text → SpanContext → Context × Span)
    (add_attribute : Text → Text → Span → Span) where
  -- getSpan, without its lines of the log
  unfoldable pub get_span : Context → Request → Context × Option Span
  unfolding decode_into_slice
  get_span ctx req = elim req.meta [
    | none ↦ (ctx, none)
    | some meta ↦ elim (find (codes "SpanContext") meta) [
      | none ↦ (ctx, none)
      | some text ↦ elim (decode_into_slice text) [
        | none ↦ (ctx, none)
        | some bytes ↦ elim (from_binary bytes) [
          | none ↦ (ctx, none)
          | some sc ↦ started add_attribute req.method (start_span ctx (codes "api.handle") sc)
        ]
      ]
    ]
  ]

  -- RPCServer.handle, its tags aside: what it does, and the span that it ends at its return.
  unfoldable pub handle_in_span :
      (GoType → ParamDecoder)
      → RpcServer
      → Context
      → (Context → Value)
      → Request
      → RpcErrFunc
      → Option ChanOut
      → List Effect × Option Span
  unfolding get_span handle
  handle_in_span decode_value s ctx as_value req rpc_err ch_out =
      let (within, span) = get_span ctx req in
      (handle decode_value s (as_value within) req rpc_err ch_out, span)
