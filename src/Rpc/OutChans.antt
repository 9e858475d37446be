-- ===== src/Rpc/OutChans.antt =====
-- wsConn.handleOutChans and handleChanOut (jsonrpc/websocket.go): one goroutine forwards the values of
-- all result channels of a connection, under the identifiers that it has given out.
pub mod Refine
pub mod Tests
use hggutils.Common.{
  ℕ, suc, ◌+◌, ◌-◌, ◌%◌, ◌^◌, List, [], ◌∷◌, ◌++◌, Option, none, some, length, get_elem?,
}
use hggutils.Common.Swap.{move_last}
use hggutils.Rpc.Message.{Raw}

-- reflect.SelectCase; an output names its channel.
pub data SelectCase : Type 0 where
  registration exiting : SelectCase
  output : ℕ → SelectCase

-- The two slices of the loop.
pub record Forwarder : Type 0 where
  pub cases : List SelectCase
  pub case_to_id : List ℕ

-- What reflect.Select returns: the registration and exit channels are cases 0 and 1.
pub data Selected : Type 0 where
  -- a registration: the request, the identifier and the channel
  registers : ℕ → ℕ → ℕ → Selected
  registration_closed exit_closed exit_message : Selected
  -- a value of the chosen case, or its end
  value : ℕ → Raw → Selected
  ended : ℕ → Selected

-- What is written to the connection.
pub data Message : Type 0 where
  responds : ℕ → ℕ → Message
  forwards : ℕ → Raw → Message
  closes : ℕ → Message

pub data Turn : Type 0 where
  stops : Turn
  continues : Forwarder → List Message → Turn
  out_of_range : Turn

abbrev pub internal : ℕ
internal = 2

unfoldable pub initial : Forwarder
initial = record { cases = registration ∷ exiting ∷ []; case_to_id = [] }

abbrev removed : ℕ → Option (List SelectCase) → Option (List ℕ) → Turn
removed id (some cases) (some ids) =
    continues (record { cases = cases; case_to_id = ids }) (closes id ∷ [])
removed id _ _ = out_of_range

-- The last case takes the place of the chosen one, in both slices.
unfoldable pub remove_case : Forwarder → ℕ → ℕ → Turn
remove_case f chosen id =
    let n = length f.cases - 1 in
    removed id (move_last f.cases chosen n)
      (move_last f.case_to_id (chosen - internal) (n - internal))

-- One round of the loop.
unfoldable pub turn : Forwarder → Selected → Turn
unfolding remove_case
turn f (registers req id ch) =
    continues (record { cases = f.cases ++ output ch ∷ []; case_to_id = f.case_to_id ++ id ∷ [] })
      (responds req id ∷ [])
turn f registration_closed = stops
turn f exit_closed = stops
turn f exit_message = continues f []
turn f (value chosen v) = elim (get_elem? f.case_to_id (chosen - internal)) [
  | none ↦ out_of_range
  | some id ↦ continues f (forwards id v ∷ [])
]
turn f (ended chosen) = elim (get_elem? f.case_to_id (chosen - internal)) [
  | none ↦ out_of_range
  | some id ↦ remove_case f chosen id
]

-- atomic.AddUint64(&c.chanCtr, 1): the next identifier, which is also the new counter.
unfoldable pub next_chan_id : ℕ → ℕ
next_chan_id ctr = (ctr + 1) % 2 ^ 64
