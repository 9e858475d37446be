-- ===== src/Rpc/OutChans/Tests.antt =====
-- Runs of the loop over the result channels of jsonrpc/websocket.go.
use hggutils.Common.{ℕ, ◌≡◌, refl, List, [], ◌∷◌, ◌++◌}
use hggutils.Common.Swap.{move_last}
use hggutils.Rpc.OutChans.{
  registration, exiting, output, registers, value, ended, responds, forwards, closes, continues,
  Forwarder, Message, initial, remove_case, turn,
}
use hggutils.Rpc.OutChans.Refine.{shown, start, next, TableStep, turn-shown}

-- Three channels with their identifiers.
abbrev three : List (ℕ × ℕ)
three = (70, 1) ∷ (71, 2) ∷ (72, 3) ∷ []

first_run :
    turn initial (registers 5 1 70)
    ≡ continues
        (record { cases = registration ∷ exiting ∷ output 70 ∷ []; case_to_id = 1 ∷ [] })
        (responds 5 1 ∷ [])
unfolding initial turn
first_run = refl

-- The end of the first channel puts the last in its place.
end_run : turn (shown three) (ended 2) ≡ continues (shown ((72, 3) ∷ (71, 2) ∷ [])) (closes 1 ∷ [])
unfolding turn remove_case move_last
end_run = refl

abbrev one : Forwarder
one = record { cases = registration ∷ exiting ∷ output 70 ∷ []; case_to_id = 1 ∷ [] }

-- The end of the first channel, after its registration and one value.
turn-shown_example :
    (table : List (ℕ × ℕ)) × (after : List (ℕ × ℕ)) × (more : List Message) × (one ≡ shown table)
    × (turn one (ended 2) ≡ continues (shown after) more)
    × TableStep table (ended 2) after more
unfolding initial turn
turn-shown_example =
    turn-shown one (([] ++ responds 5 1 ∷ []) ++ forwards 1 (9 ∷ []) ∷ []) (ended 2)
      (next (next start (registers 5 1 70) tt refl) (value 2 (9 ∷ [])) (70, refl) refl) (70, refl)
