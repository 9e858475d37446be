-- ===== src/Rpc/Spans/Tests.antt =====
-- Runs of the spans of jsonrpc/client.go and handler.go, and of the base64 texts that they send.
use hggutils.Common.{true, ℕ, ◌+◌, ◌≡◌, refl, List, [], ◌∷◌, Option, none, some, arith}
use hggutils.Common.Text.{Text, codes, text_beq}
use hggutils.Rpc.Message.{context_value, receiver_value, chan_value}
use hggutils.Rpc.Server.{rpc_error, invoke, register_chan, finish, handle}
use hggutils.Rpc.Server.Tests.{decode_all, demo, watch_request, accepting, server_run}
use hggutils.Rpc.Base64.{
  digit, sextet, encode_to_string, decode_groups, without_newlines, decoded_len, decode_into_slice,
}
use hggutils.Rpc.Spans.{with_span, get_span, handle_in_span}
use hggutils.Rpc.Spans.Traces.{handle_in_span-with_span}

base64_run : Unit {0}
unfolding digit sextet encode_to_string decode_groups without_newlines decoded_len decode_into_slice
    text_beq
base64_run = tt

encode_run : encode_to_string (codes "light wo") ≡ codes "bGlnaHQgd28="
unfolding base64_run
encode_run = refl

-- A newline makes the slice longer than what is decoded.
slice_run : decode_into_slice (codes "bGln\naHQg") ≡ some (codes "light ")
unfolding base64_run
slice_run = refl

padded_run : decode_into_slice (codes "bA==") ≡ some (b'l' ∷ 0 ∷ 0 ∷ [])
unfolding base64_run
padded_run = refl

broken_run : decode_into_slice (codes "bA=") ≡ none
unfolding base64_run
broken_run = refl

-- A span is the names and numbers that it was made of.
abbrev binary : ℕ → List ℕ
binary sc = 0 ∷ 2 ∷ 1 ∷ sc ∷ []

abbrev from_binary : List ℕ → Option ℕ
from_binary (a ∷ b ∷ c ∷ n ∷ rest) = some n
from_binary _ = none

abbrev start_span : ℕ → Text → ℕ → ℕ × List Text
start_span ctx name parent = (ctx + parent, name ∷ [])

abbrev add_attribute : Text → Text → List Text → List Text
add_attribute key value span = key ∷ value ∷ span

traced_run :
    handle_in_span from_binary start_span add_attribute decode_all demo 30 context_value
      (with_span binary (some 7) watch_request)
      rpc_error
      accepting
    ≡ (
      invoke (codes "Demo.Watch") (receiver_value 0 ∷ context_value 37 ∷ [])
          ∷ register_chan (chan_value 4) 6
          ∷ finish true
          ∷ [],
      some (codes "method" ∷ codes "Demo.Watch" ∷ codes "api.handle" ∷ []),
    )
unfolding base64_run server_run handle_in_span get_span with_span
traced_run = refl

handle_in_span-with_span_example :
    handle_in_span from_binary start_span add_attribute decode_all demo 30 context_value
      (with_span binary (some 7) watch_request)
      rpc_error
      accepting
    ≡ (
      handle decode_all demo (context_value 37) watch_request rpc_error accepting,
      some (codes "method" ∷ codes "Demo.Watch" ∷ codes "api.handle" ∷ []),
    )
handle_in_span-with_span_example =
    handle_in_span-with_span binary from_binary start_span add_attribute 7 decode_all demo 30
      context_value watch_request rpc_error accepting
      ((omega arith, (omega arith, (omega arith, (omega arith, tt)))), λ n. refl)
