-- ===== src/Rpc/Link/Replay.antt =====
-- A queue that the outputs of handleWsConn (jsonrpc/websocket.go) replay.
use hggutils.Common.{
  ◌≡◌, refl, ap, ◌∙◌, List, [], ◌∷◌, ◌++◌, Option, none, some, arith, if◌then◌else◌,
}
use mathlib.Core.Option.{some-injective}
use hggutils.Common.Text.{text_key, text_beq, text_beq_iff}
use hggutils.Rpc.Message.{Raw}
use hggutils.Rpc.Conn.{Action, tear_down}
use hggutils.Rpc.Link.{
  Link, Output, queued, written, lost, opened, Outcome, disabled, panics, moves, prepend, and_then,
  close_exiting, exitfun, once_exit, performing, reader_returns,
}
use hggutils.Rpc.Link.Step.{sender_ends}

-- What an output does to a queue: a queued text goes to its end, a text that is written, or lost by a
-- failed write, must be its first, and a new connection starts with none.
abbrev pub take_off : Raw → List Raw → Option (List Raw)
take_off m [] = none
take_off m (x ∷ q) = if text_beq x m then some q else none

abbrev pub advance : List Raw → Output → Option (List Raw)
advance q (queued m) = some (q ++ m ∷ [])
advance q (written m) = take_off m q
advance q (lost m) = take_off m q
advance q opened = some []
advance q _ = some q

abbrev pub after_first : (List Raw → Option (List Raw)) → Option (List Raw) → Option (List Raw)
after_first k none = none
after_first k (some q) = k q

abbrev pub replay : List Output → List Raw → Option (List Raw)
replay [] q = some q
replay (o ∷ os) q = after_first (replay os) (advance q o)

after_first-some :
    (k : List Raw → Option (List Raw)) (o : Option (List Raw)) (q : List Raw)
    → after_first k o ≡ some q
    → (p : List Raw) × (o ≡ some p) × (k p ≡ some q)
after_first-some k none q h = cc
after_first-some k (some p) q h = (p, refl, h)

pub replay-++ :
    (os more : List Output) (q q' : List Raw)
    → replay os q ≡ some q'
    → replay (os ++ more) q ≡ replay more q'
replay-++ [] more q q' h = ap (replay more) (some-injective q q' h)
replay-++ (o ∷ os) more q q' h =
    let (p, e, e') = after_first-some (replay os) (advance q o) q' h in
    ap (after_first (replay (os ++ more))) e ∙ replay-++ os more p q' e'

-- The outputs of a step replay the change of the channel.
abbrev pub Queues : List Raw → Outcome → Type 0
Queues q disabled = Unit {0}
Queues q panics = Unit {0}
Queues q (moves l os) = replay os q ≡ some l.write_chan

pub prepend-Queues :
    (q : List Raw) (o : Output) (r : Outcome) (p : List Raw)
    → advance q o ≡ some p
    → Queues p r
    → Queues q (prepend (o ∷ []) r)
prepend-Queues q o disabled p e h = tt
prepend-Queues q o panics p e h = tt
prepend-Queues q o (moves l os) p e h = rw e h

pub and_then-Queues :
    (q : List Raw) (o : Outcome) (k : Link → Outcome)
    → Queues q o
    → ((l : Link) → Queues l.write_chan (k l))
    → Queues q (and_then o k)
and_then-Queues q disabled k h f = tt
and_then-Queues q panics k h f = tt
and_then-Queues q (moves l os) k h f = joined (k l) (f l)
  where
    joined : (r : Outcome) → Queues l.write_chan r → Queues q (prepend os r)
    joined disabled g = tt
    joined panics g = tt
    joined (moves l' more) g = replay-++ os more q l.write_chan h ∙ g

pub once_exit-Queues : (l : Link) → Queues l.write_chan (once_exit l)
unfolding once_exit exitfun close_exiting
once_exit-Queues l = ground arith

pub sender_ends-Queues : (q : List Raw) (o : Outcome) → Queues q o → Queues q (sender_ends o)
sender_ends-Queues q o h = and_then-Queues q o _ h λ l. refl

pub performing-replay : (acts : List Action) (q : List Raw) → replay (performing acts) q ≡ some q
performing-replay [] q = refl
performing-replay (a ∷ acts) q = performing-replay acts q

pub returns-Queues : (l : Link) → Queues l.write_chan (reader_returns l)
unfolding reader_returns
returns-Queues l = performing-replay (tear_down l.conn).1 l.write_chan

pub take_off-first : (m : Raw) (q : List Raw) → take_off m (m ∷ q) ≡ some q
take_off-first m q = rw ((text_beq_iff m m).1 refl) refl
