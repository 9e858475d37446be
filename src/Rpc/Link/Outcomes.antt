-- ===== src/Rpc/Link/Outcomes.antt =====
-- A property of the state that the outcome of a step of handleWsConn (jsonrpc/websocket.go) reaches,
-- through the ways in which the steps are composed.
use hggutils.Common.{Bool, true, false, List, [], ◌∷◌, inl, inr, if◌then◌else◌, List-cases}
use hggutils.Rpc.Message.{Raw}
use hggutils.Rpc.Link.{
  Sender, sender_done, Reader, looping, passing, Link, Output, written, lost, alive_written,
  alive_lost, close_message, Outcome, disabled, panics, moves, Read, message, not_a_frame, fails,
  prepend, and_then, once_exit, reader_returns,
}
use hggutils.Rpc.Link.Step.{when, sender_ends, write_alive, write_data, stop, read_result}

-- The state reached has the property; a panic is allowed under the condition `bad`.
abbrev pub Holds : (Link → Type 0) → Type 0 → Outcome → Type 0
Holds P bad disabled = Unit {0}
Holds P bad panics = bad
Holds P bad (moves l os) = P l

pub prepend-Holds :
    (P : Link → Type 0) (bad : Type 0) (os : List Output) (o : Outcome)
    → Holds P bad o
    → Holds P bad (prepend os o)
prepend-Holds P bad os disabled h = h
prepend-Holds P bad os panics h = h
prepend-Holds P bad os (moves l more) h = h

module _ (P : Link → Type 0) (bad : Type 0) where
  pub and_then-Holds :
      (Q : Link → Type 0) (o : Outcome) (k : Link → Outcome)
      → Holds P bad o
      → ((l : Link) → P l → Holds Q bad (k l))
      → Holds Q bad (and_then o k)
  and_then-Holds Q disabled k h f = h
  and_then-Holds Q panics k h f = h
  and_then-Holds Q (moves l os) k h f = prepend-Holds Q bad os (k l) (f l h)

  pub if-Holds :
      (b : Bool) (o o' : Outcome)
      → Holds P bad o
      → Holds P bad o'
      → Holds P bad (if b then o else o')
  if-Holds true o o' h h' = h
  if-Holds false o o' h h' = h'

  pub when-Holds : (b : Bool) (o : Outcome) → Holds P bad o → Holds P bad (when b o)
  when-Holds true o h = h
  when-Holds false o h = tt

  -- For a property that does not depend on the sender, and that exitfun keeps.
  module _ (free : (l : Link) (s : Sender) → P l → P (record l { sender = s }))
      (ends : (l : Link) → P l → Holds P bad (once_exit l)) where
    pub sender_ends-Holds : (o : Outcome) → Holds P bad o → Holds P bad (sender_ends o)
    sender_ends-Holds o h = and_then-Holds P o _ h λ l h. free l sender_done h

    pub stop-Holds : (l : Link) → P (record l { retries = false }) → Holds P bad (stop l)
    unfolding stop
    stop-Holds l h = prepend-Holds P bad (close_message ∷ []) _ (sender_ends-Holds _ (ends _ h))

    write-Holds :
        (l : Link) (m : Raw) (gone done : Raw → Output) (ok : Bool)
        → P l
        → Holds P bad (
            if ok then moves l (done m ∷ []) else prepend (gone m ∷ []) (sender_ends (once_exit l)))
    write-Holds l m gone done true h = h
    write-Holds l m gone done false h =
        prepend-Holds P bad (gone m ∷ []) _ (sender_ends-Holds _ (ends l h))

    pub write_data-Holds :
        (l : Link) (ok : Bool)
        → ((q : List Raw) → P (record l { write_chan = q }))
        → Holds P bad (write_data l ok)
    unfolding write_data
    write_data-Holds l ok h = elim (List-cases l.write_chan) [
      | inl e ↦ rw e tt
      | inr (m, rest, e) ↦
          rw e (write-Holds (record l { write_chan = rest }) m lost written ok (h rest))
    ]

    pub write_alive-Holds :
        (l : Link) (ok : Bool)
        → ((q : List Raw) → P (record l { keep_alive_chan = q }))
        → Holds P bad (write_alive l ok)
    unfolding write_alive
    write_alive-Holds l ok h = elim (List-cases l.keep_alive_chan) [
      | inl e ↦ rw e tt
      | inr (m, rest, e) ↦
          rw e (
            write-Holds (record l { keep_alive_chan = rest }) m alive_lost alive_written ok
              (h rest))
    ]

    -- What the reader's return makes of the property is another.
    pub read_result-Holds :
        (Q : Link → Type 0) (l : Link) (r : Read)
        → P l
        → ((s : Reader) → Q (record l { reader = s }))
        → P (record l { retries = false })
        → ((l : Link) → P l → Holds Q bad (reader_returns l))
        → Holds Q bad (read_result l r)
    unfolding read_result
    read_result-Holds Q l (message f) h q h' k = q (passing f)
    read_result-Holds Q l not_a_frame h q h' k = q looping
    read_result-Holds Q l (fails true) h q h' k =
        let l' = record l { retries = false } in
        and_then-Holds Q (once_exit l') reader_returns (ends l' h') k
    read_result-Holds Q l (fails false) h q h' k =
        and_then-Holds Q (once_exit l) reader_returns (ends l h) k
