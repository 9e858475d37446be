-- ===== src/Rpc/Conn/Step.antt =====
-- The events of a connection in a row: what the sender's select and the reader's end deliver.
use hggutils.Common.{ℕ, ◌≡◌, Bool, List, [], ◌∷◌, ◌++◌, Option, none, some, nat_key}
use hggutils.Common.Dict.{find}
use hggutils.Rpc.Message.{Raw, Result, ok}
use hggutils.Rpc.Conn.{
  Frame, ClientRequest, Conn, Action, message_kind, reply, Run, accept_request, handle_frame,
  call_done, tear_down,
}

pub data Event : Type 0 where
  accepts : ClientRequest → Event
  receives : Frame → Event
  ends : ℕ → Option ℕ → Bool → Event
  shuts : Event

module _ (decode_int64 decode_uint64 : Raw → Result ℕ) where
  unfoldable pub step : Conn → Event → Run
  step c (accepts r) = some (accept_request c r)
  step c (receives f) = handle_frame decode_int64 decode_uint64 c f
  step c (ends ctx id keep) = some (call_done c ctx id keep)
  step c shuts = some (tear_down c)

  -- The relation of a history to the actions that it causes.
  pub data Runs (c : Conn) : List Event → Conn → List Action → Type 0 where
    start : Runs c [] c []
    next :
        {es : List Event} {d d' : Conn} {acts : List Action}
        → Runs c es d acts
        → (e : Event) (more : List Action) → step d e ≡ some (d', more)
        → Runs c (e ∷ es) d' (acts ++ more)

-- A request takes no identifier that is in flight: the client counts them up.
abbrev pub IsFresh : Conn → Event → Type 0
IsFresh c (accepts r) = (i : ℕ) → r.req.id ≡ some i → find i c.inflight ≡ none
IsFresh c _ = Unit {0}

-- A response to a request in flight whose result is a channel names one that is not open: the server
-- counts them up. Other responses and frames are not restricted.
abbrev pub IsNewChan : (Raw → Result ℕ) → Conn → Event → Type 0
IsNewChan decode_uint64 c (receives f) =
    (i : ℕ) (r : ClientRequest) (maker : ℕ) (raw : Raw) (chid : ℕ)
    → message_kind f.method ≡ reply
    → f.id ≡ some i
    → find i c.inflight ≡ some r
    → r.ret_ch ≡ some maker
    → f.result ≡ some raw
    → decode_uint64 raw ≡ ok chid
    → find chid c.chan_handlers ≡ none
IsNewChan decode_uint64 c _ = Unit {0}

module _ (decode_int64 decode_uint64 : Raw → Result ℕ) where
  abbrev pub AllFresh :
      {c d : Conn} {es : List Event} {acts : List Action}
      → Runs decode_int64 decode_uint64 c es d acts
      → Type 0
  AllFresh start = Unit {0}
  AllFresh (next {d} r e more s) = AllFresh r × IsFresh d e

  abbrev pub AllNew :
      {c d : Conn} {es : List Event} {acts : List Action}
      → Runs decode_int64 decode_uint64 c es d acts
      → Type 0
  AllNew start = Unit {0}
  AllNew (next {d} r e more s) = AllNew r × IsNewChan decode_uint64 d e
