-- ===== src/Rpc/OutChans/Refine.antt =====
-- The two slices stay in step: the loop is a table of channels with their identifiers.
use mathlib.Core.List.{Perm, map-append}
use hggutils.Common.{
  ℕ, zero, suc, ◌-◌, ◌≡◌, refl, sym, ap, ◌∙◌, subst, inl, inr, Option-cases, List, [], ◌∷◌, ◌++◌,
  map, some, arith, length, get_elem?, map_option,
}
use hggutils.Common.Swap.{move_last, move_last-perm, move_last-map, get_elem?-map, length-map}
use hggutils.Rpc.Message.{Raw}
use hggutils.Rpc.OutChans.{
  SelectCase, registration, exiting, output, Forwarder, Selected, Message, Turn, initial,
  registration_closed, exit_closed, exit_message, registers, value, ended, responds, forwards,
  closes, continues, remove_case, turn, internal,
}

-- The slices that show a table of open channels with their identifiers.
abbrev pub shown : List (ℕ × ℕ) → Forwarder
shown table = record {
  cases = registration ∷ exiting ∷ map (λ e. output e.0) table;
  case_to_id = map (λ e. e.1) table;
}

move_last-shifted :
    (xs : List SelectCase) (k n : ℕ)
    → move_last (registration ∷ exiting ∷ xs) (suc (suc k)) (suc (suc n))
      ≡ map_option (λ l. registration ∷ exiting ∷ l) (move_last xs k n)
unfolding move_last
move_last-shifted xs k n = ground arith

id_at :
    (table : List (ℕ × ℕ)) (k ch id : ℕ)
    → get_elem? table k ≡ some (ch, id)
    → get_elem? (shown table).case_to_id (suc (suc k) - internal) ≡ some id
id_at table k ch id e =
    let i : suc (suc k) - internal ≡ k = omega arith in rw (i, get_elem?-map (λ e. e.1) table k, e)

nonempty :
    (table : List (ℕ × ℕ)) (k : ℕ) {e : ℕ × ℕ}
    → get_elem? table k ≡ some e
    → length table ≡ suc (length table - 1)
nonempty [] k h = cc
nonempty (x ∷ table) k h = omega arith

remove_case-shown :
    (table rest : List (ℕ × ℕ)) (k id : ℕ)
    → length table ≡ suc (length table - 1)
    → move_last table k (length table - 1) ≡ some rest
    → remove_case (shown table) (suc (suc k)) id ≡ continues (shown rest) (closes id ∷ [])
unfolding remove_case
remove_case-shown table rest k id n e =
    let last : length (shown table).cases - 1 ≡ suc (suc (length table - 1)) =
      omega (arith, length-map (λ (e : ℕ × ℕ). output e.0) table) in
    let i : suc (suc k) - internal ≡ k = omega arith in
    let j : suc (suc (length table - 1)) - internal ≡ length table - 1 = omega arith in
    rw (
      last,
      i,
      j,
      move_last-shifted,
      move_last-map (λ (e : ℕ × ℕ). output e.0),
      move_last-map (λ (e : ℕ × ℕ). e.1),
      e,
    )

-- What reflect.Select can return while the loop goes on: a registration, a message of the exit channel,
-- or a value or the end of a channel, under the number of its case.
abbrev pub IsPossible : Forwarder → Selected → Type 0
IsPossible f (registers req id ch) = Unit {0}
IsPossible f exit_message = Unit {0}
IsPossible f (value chosen v) = (ch : ℕ) × (get_elem? f.cases chosen ≡ some (output ch))
IsPossible f (ended chosen) = (ch : ℕ) × (get_elem? f.cases chosen ≡ some (output ch))
IsPossible f _ = ⊥

-- The table of the open channels with their identifiers, before and after a round, and what is written.
pub data TableStep (table : List (ℕ × ℕ)) : Selected → List (ℕ × ℕ) → List Message → Type 0 where
  added :
      (req id ch : ℕ)
      → TableStep table (registers req id ch) (table ++ (ch, id) ∷ []) (responds req id ∷ [])
  ignored : TableStep table exit_message table []
  forwarded :
      (k ch id : ℕ) (v : Raw)
      → get_elem? table k ≡ some (ch, id)
      → TableStep table (value (suc (suc k)) v) table (forwards id v ∷ [])
  taken_out :
      (k ch id : ℕ) (rest : List (ℕ × ℕ))
      → get_elem? table k ≡ some (ch, id)
      → Perm table ((ch, id) ∷ rest)
      → TableStep table (ended (suc (suc k))) rest (closes id ∷ [])

abbrev pub IsShown : List (ℕ × ℕ) → Selected → Type 0
IsShown table s =
    (after : List (ℕ × ℕ)) × (ms : List Message) × (turn (shown table) s
      ≡ continues (shown after) ms)
    × TableStep table s after ms

-- The case of a channel is that of an entry of the table.
entry_of :
    (table : List (ℕ × ℕ)) (chosen ch : ℕ)
    → get_elem? (shown table).cases chosen ≡ some (output ch)
    → (k : ℕ) × (chosen ≡ suc (suc k)) × ((e : ℕ × ℕ) × (get_elem? table k ≡ some e))
entry_of table zero ch h = cc h
entry_of table (suc zero) ch h = cc h
entry_of table (suc (suc k)) ch h = elim (Option-cases (get_elem? table k)) [
  | inl e ↦ cc (sym (get_elem?-map (λ (e : ℕ × ℕ). output e.0) table k) ∙ h)
  | inr (e, q) ↦ (k, refl, (e, q))
]

turn-IsShown : (table : List (ℕ × ℕ)) (s : Selected) → IsPossible (shown table) s → IsShown table s
unfolding turn
turn-IsShown table (registers req id ch) h =
    (table ++ (ch, id) ∷ [], responds req id ∷ [], rw (map-append, map-append), added req id ch)
turn-IsShown table exit_message h = (table, [], refl, ignored)
turn-IsShown table (value chosen v) (c, h) =
    let (k, at, ((ch, id), e)) = entry_of table chosen c h in
    subst (λ c. IsShown table (value c v)) (sym at)
      (table, forwards id v ∷ [], rw (id_at table k ch id e, turn), forwarded k ch id v e)
turn-IsShown table (ended chosen) (c, h) =
    let (k, at, ((ch, id), e)) = entry_of table chosen c h in
    let (rest, moved, perm) = move_last-perm table k (ch, id) e in
    subst (λ c. IsShown table (ended c)) (sym at)
      (
        rest,
        closes id ∷ [],
        rw (id_at table k ch id e, turn)
            (remove_case-shown table rest k id (nonempty table k e) moved),
        taken_out k ch id rest e perm,
      )
turn-IsShown table registration_closed h = absurd h
turn-IsShown table exit_closed h = absurd h

-- The slices after some rounds from the start of the loop, and what was written.
pub data Rounds : Forwarder → List Message → Type 0 where
  start : Rounds initial []
  next :
      {f g : Forwarder} {ms more : List Message}
      → Rounds f ms
      → (s : Selected) → IsPossible f s
      → turn f s ≡ continues g more
      → Rounds g (ms ++ more)

initial-shown : initial ≡ shown []
unfolding initial
initial-shown = refl

abbrev forwarder_of : Forwarder → Turn → Forwarder
forwarder_of f (continues g ms) = g
forwarder_of f _ = f

Rounds-shown :
    {f : Forwarder} {ms : List Message} → Rounds f ms → (table : List (ℕ × ℕ)) × (f ≡ shown table)
Rounds-shown start = ([], initial-shown)
Rounds-shown (next {f} {g} r s possible t) =
    let (table, e) = Rounds-shown r in
    let (after, ms, t', _) = turn-IsShown table s (subst (λ f. IsPossible f s) e possible) in
    (after, ap (forwarder_of f) (sym t ∙ ap (λ f. turn f s) e ∙ t'))

-- The loop keeps the table of the open channels. After any rounds from its start, with no channel, the
-- two slices show a table of channels with their identifiers; and whatever reflect.Select returns
-- next while the loop goes on, the loop goes on with the slices that show the next table, and no index is
-- out of range. A registration adds its channel under the identifier and is answered with that; a
-- value is forwarded under the identifier that was given out for its channel; the end of a channel
-- is reported under its identifier and takes just that channel out of the table.
pub turn-shown :
    (f : Forwarder) (ms : List Message) (s : Selected)
    → Rounds f ms
    → IsPossible f s
    → (table : List (ℕ × ℕ)) × (after : List (ℕ × ℕ)) × (more : List Message) × (f ≡ shown table)
      × (turn f s ≡ continues (shown after) more)
      × TableStep table s after more
turn-shown f ms s r possible =
    let (table, e) = Rounds-shown r in
    let (after, more, t, by) = turn-IsShown table s (subst (λ f. IsPossible f s) e possible) in
    (table, after, more, e, ap (λ f. turn f s) e ∙ t, by)
