-- ===== src/Rpc/Client/Buffer.antt =====
-- client.makeOutChan (jsonrpc/client.go): the goroutine that buffers the values of a result channel
-- between the connection and the caller.
use mathlib.Core.List.{append-nil, append_assoc}
use hggutils.Common.{
  ◌≡◌, refl, sym, ap, subst, ◌∙◌, ◌≢◌, ◌⊎◌, inl, inr, Bool, true, false, not, ◌&&◌, List, [], ◌∷◌,
  ◌++◌, Option, none, some, arith, Bool-cases, List-cases, if◌then◌else◌,
}
use hggutils.Rpc.Message.{Value}

pub record Buffer : Type 0 where
  pub buf : List Value
  pub incoming_open : Bool

-- What reflect.Select chooses: ctx.Done, a value or the end of incoming, or the send to the caller.
pub data Event : Type 0 where
  cancelled : Event
  arrives : Value → Event
  incoming_closed : Event
  taken : Event

-- The buffer after a round, or the end with the channel closed; and what was sent to the caller.
-- A case that is not offered cannot be chosen.
pub data Round : Type 0 where
  not_offered : Round
  goes_on : Buffer → List Value → Round
  ends : List Value → Round

abbrev is_empty : List Value → Bool
is_empty [] = true
is_empty (_ ∷ _) = false

-- if incoming == nil && buf.Len() == 0 { ch.Close(); return }
unfoldable pub after : Buffer → List Value → Round
after b out = if not b.incoming_open && is_empty b.buf then ends out else goes_on b out

unfoldable pub round : Buffer → Event → Round
unfolding after
round b cancelled = ends []
round b (arrives v) =
    if b.incoming_open then after (record b { buf = b.buf ++ v ∷ [] }) [] else not_offered
round b incoming_closed =
    if b.incoming_open then after (record b { incoming_open = false }) [] else not_offered
round b taken = elim b.buf [
  | [] ↦ not_offered
  | front ∷ rest ↦ after (record b { buf = rest }) (front ∷ [])
]

unfoldable pub start : Buffer
start = record { buf = []; incoming_open = true }

-- The rounds of the goroutine: the events, the buffer if it goes on, and what the caller got.
pub data Plays (b : Buffer) : List Event → Option Buffer → List Value → Type 0 where
  begins : Plays b [] (some b) []
  steps :
      {es : List Event} {c d : Buffer} {sent : List Value}
      → Plays b es (some c) sent
      → (e : Event) (out : List Value) → round c e ≡ goes_on d out
      → Plays b (e ∷ es) (some d) (sent ++ out)
  stops :
      {es : List Event} {c : Buffer} {sent : List Value}
      → Plays b es (some c) sent
      → (e : Event) (out : List Value) → round c e ≡ ends out
      → Plays b (e ∷ es) none (sent ++ out)

-- The values that arrived, oldest first; the newest event stands first.
abbrev pub arrived : List Event → List Value
arrived [] = []
arrived (arrives v ∷ es) = arrived es ++ v ∷ []
arrived (_ ∷ es) = arrived es

abbrev pub has_cancelled : List Event → Bool
has_cancelled [] = false
has_cancelled (cancelled ∷ es) = true
has_cancelled (_ ∷ es) = has_cancelled es

abbrev new_values : Event → List Value
new_values (arrives v) = v ∷ []
new_values _ = []

is_empty-nil : (xs : List Value) → is_empty xs ≡ true → xs ≡ []
is_empty-nil [] h = refl
is_empty-nil (x ∷ xs) h = cc

-- One round keeps what was sent and what waits in order.
abbrev IsInOrder : Buffer → Event → Round → Type 0
IsInOrder c e not_offered = Unit {0}
IsInOrder c e (goes_on d out) = out ++ d.buf ≡ c.buf ++ new_values e
IsInOrder c e (ends out) =
    ((e ≡ cancelled) × (out ≡ [])) ⊎ ((out ≡ c.buf ++ new_values e) × (e ≢ cancelled))

after-IsInOrder :
    (c b : Buffer) (e : Event) (out : List Value)
    → e ≢ cancelled
    → out ++ b.buf ≡ c.buf ++ new_values e
    → IsInOrder c e (after b out)
unfolding after
after-IsInOrder c b e out n h = elim (Bool-cases (not b.incoming_open && is_empty b.buf)) [
  | inl q ↦
      rw (q, after)
        (inr
          (sym (append-nil out) ∙ ap (◌++◌ out) (sym (is_empty-nil b.buf (ground arith))) ∙ h, n))
  | inr q ↦ rw (q, after) h
]

round-IsInOrder : (c : Buffer) (e : Event) → IsInOrder c e (round c e)
unfolding round
round-IsInOrder c cancelled = inl (refl, refl)
round-IsInOrder c (arrives v) = elim (Bool-cases c.incoming_open) [
  | inl o ↦
      rw (o, round)
        (after-IsInOrder c (record { buf = c.buf ++ v ∷ []; incoming_open = true }) (arrives v) []
          (λ h. cc) refl)
  | inr o ↦ rw (o, round) tt
]
round-IsInOrder c incoming_closed = elim (Bool-cases c.incoming_open) [
  | inl o ↦
      rw (o, round)
        (after-IsInOrder c (record { buf = c.buf; incoming_open = false }) incoming_closed []
          (λ h. cc) (sym (append-nil c.buf)))
  | inr o ↦ rw (o, round) tt
]
round-IsInOrder c taken = elim (List-cases c.buf) [
  | inl q ↦ rw (q, round) tt
  | inr (x, rest, q) ↦
      rw (q, round)
        (after-IsInOrder (record c { buf = x ∷ rest }) _ taken (x ∷ []) (λ h. cc)
          (sym (append-nil (x ∷ rest))))
]

arrived-cons : (e : Event) (es : List Event) → arrived (e ∷ es) ≡ arrived es ++ new_values e
arrived-cons cancelled es = sym (append-nil _)
arrived-cons (arrives v) es = refl
arrived-cons incoming_closed es = sym (append-nil _)
arrived-cons taken es = sym (append-nil _)

-- What the caller got, and what waits, by the state of the goroutine.
abbrev pub IsFifo : List Event → Option Buffer → List Value → Type 0
IsFifo es (some b) sent = sent ++ b.buf ≡ arrived es
IsFifo es none sent =
    (sent ≡ arrived es)
    ⊎ ((has_cancelled es ≡ true) × (lost : List Value) × (sent ++ lost ≡ arrived es))

-- The caller gets the values in the order in which they arrived, each once: at any time what it got
-- and what waits make up what arrived, and when the goroutine has closed the caller's channel, the
-- caller got all that arrived, unless its context was cancelled, which loses no more than the end.
pub Plays-IsFifo :
    {es : List Event} {s : Option Buffer} {sent : List Value}
    → Plays start es s sent
    → IsFifo es s sent
unfolding start
Plays-IsFifo begins = refl
Plays-IsFifo (steps {es} {c} {d} {sent} p e out h) =
    let before = Plays-IsFifo p in
    let order = subst (IsInOrder c e) h (round-IsInOrder c e) in
    append_assoc sent out d.buf
    ∙ ap (◌++◌ sent) order
    ∙ sym (append_assoc sent c.buf (new_values e))
    ∙ ap (λ l. l ++ new_values e) before
    ∙ sym (arrived-cons e es)
Plays-IsFifo (stops {es} {c} {sent} p e out h) =
    ended (Plays-IsFifo p) (subst (IsInOrder c e) h (round-IsInOrder c e))
  where
    ended :
        sent ++ c.buf ≡ arrived es → IsInOrder c e (ends out) → IsFifo (e ∷ es) none (sent ++ out)
    ended before (inl (x, y)) = inr (rw x, c.buf, rw (x, y, append-nil) before)
    ended before (inr (order, _)) = inl (
        ap (◌++◌ sent) order
        ∙ sym (append_assoc sent c.buf (new_values e))
        ∙ ap (λ l. l ++ new_values e) before
        ∙ sym (arrived-cons e es))
