-- ===== src/Rpc/Link/Stuck.antt =====
-- A sender of handleWsConn (jsonrpc/websocket.go) that sends on its own full channel.
use hggutils.Common.{
  ℕ, zero, suc, ◌+◌, length-append, ◌≡◌, refl, sym, ap, subst, ◌∙◌, ◌⊎◌, ◌||◌, Bool, true, false,
  List, [], ◌∷◌, ◌++◌, arith, length, ltb, inl, inr,
}
use mathlib.Core.List.{append_assoc}
use hggutils.Rpc.Message.{Raw, Result, Request}
use hggutils.Rpc.Conn.{ClientRequest}
use hggutils.Rpc.Link.Drain.{taking, take-taking}
use hggutils.Rpc.Link.{
  queued, selecting, takes_request, Task, puts, Sender, working, Reader, looping, in_read, passing,
  reader_done, Link, Output, opened, Outcome, disabled, panics, moves, Read, message, not_a_frame,
  fails, Event, works, looks, reads, passes, redials, late_fails, queues, call_ends, cancels_ctx,
  closes_stop, marks_stopped, capacity, close_exiting, exitfun, once_exit, reader_returns, reopen,
}
use hggutils.Rpc.Link.Step.{
  has_room, when, work, look_from, read_result, read_from, pass_from, redial, late_from, close_stop,
  work_from, send_step, step, Runs, start, next,
}
use hggutils.Rpc.Link.Outcomes.{Holds, if-Holds, and_then-Holds, when-Holds}

-- What the reader, the dialling goroutine and the others leave alone: the sender and its channel.
abbrev Same : Sender → List Raw → Link → Type 0
Same s w l = (l.sender ≡ s) × (l.write_chan ≡ w)

abbrev Stays : Sender → List Raw → Outcome → Type 0
Stays s w = Holds (Same s w) (Unit {0})

abbrev pub Opens : List Output → Type 0
Opens os = (before : List Output) × (after : List Output) × (os ≡ before ++ opened ∷ after)

-- The same, unless a new connection opens.
abbrev StaysOrOpens : Sender → List Raw → Outcome → Type 0
StaysOrOpens s w disabled = Unit {0}
StaysOrOpens s w panics = Unit {0}
StaysOrOpens s w (moves l os) = Same s w l ⊎ (os ≡ opened ∷ [])

stays : (s : Sender) (w : List Raw) (o : Outcome) → Stays s w o → StaysOrOpens s w o
stays s w disabled h = tt
stays s w panics h = tt
stays s w (moves l os) h = inl h

once_exit-Same : (s : Sender) (w : List Raw) (l : Link) → Same s w l → Stays s w (once_exit l)
unfolding once_exit exitfun close_exiting
once_exit-Same s w l h = ground arith

returns-Same : (s : Sender) (w : List Raw) (l : Link) → Same s w l → Stays s w (reader_returns l)
unfolding reader_returns
returns-Same s w l h = h

module _ (decode_int64 decode_uint64 : Raw → Result ℕ) (encode : Request → Raw) (m : Raw)
    (ts : List Task) (w : List Raw) (full : ltb (length w) 100 ≡ false) where
  abbrev blocked : Sender
  blocked = working (puts m ∷ ts)

  read_from-Same :
      (s : Reader) (l : Link) (r : Read) → Same blocked w l → Stays blocked w (read_from s l r)
  unfolding read_result
  read_from-Same in_read l (message f) h = h
  read_from-Same in_read l not_a_frame h = h
  read_from-Same in_read l (fails true) h =
      let l' = record l { retries = false } in
      and_then-Holds (Same blocked w) (Unit {0}) (Same blocked w) (once_exit l') reader_returns
        (once_exit-Same blocked w l' h) (returns-Same blocked w)
  read_from-Same in_read l (fails false) h =
      and_then-Holds (Same blocked w) (Unit {0}) (Same blocked w) (once_exit l) reader_returns
        (once_exit-Same blocked w l h) (returns-Same blocked w)
  read_from-Same looping l r h = tt
  read_from-Same (passing _) l r h = tt
  read_from-Same reader_done l r h = tt

  look_from-Same : (s : Reader) (l : Link) → Same blocked w l → Stays blocked w (look_from s l)
  look_from-Same looping l h =
      if-Holds (Same blocked w) (Unit {0}) (l.ctx_done || l.exit_closed) _ _
        (returns-Same blocked w l h) h
  look_from-Same in_read l h = tt
  look_from-Same (passing _) l h = tt
  look_from-Same reader_done l h = tt

  pass_from-Same : (s : Reader) (l : Link) → Same blocked w l → Stays blocked w (pass_from s l)
  pass_from-Same (passing f) l h =
      when-Holds (Same blocked w) (Unit {0}) (has_room l.frame_chan) _ h
  pass_from-Same looping l h = tt
  pass_from-Same in_read l h = tt
  pass_from-Same reader_done l h = tt

  redial-Same : (l : Link) (ok : Bool) → Same blocked w l → StaysOrOpens blocked w (redial l ok)
  unfolding redial close_exiting reopen
  redial-Same l ok h = ground arith

  late_from-Same : (n : ℕ) (l : Link) → Same blocked w l → Stays blocked w (late_from n l)
  late_from-Same zero l h = tt
  late_from-Same (suc n) l h = h

  send_step-blocked :
      (l : Link) (e : Event)
      → Same blocked w l
      → send_step decode_int64 decode_uint64 encode l e ≡ disabled
  unfolding send_step
  send_step-blocked l e (h, _) = rw h refl

  full-when : (q : List Raw) (o : Outcome) → q ≡ w → when (has_room q) o ≡ disabled
  full-when q o e = ap (λ q. when (has_room q) o) e ∙ ap (λ b. when b o) full

  work_from-blocked :
      (l : Link)
      → Same blocked w l
      → work_from decode_int64 decode_uint64 encode l.sender l ≡ disabled
  unfolding work
  work_from-blocked l (h, h') =
      ap (λ s. work_from decode_int64 decode_uint64 encode s l) h ∙ full-when l.write_chan _ h'

  step-Same :
      (l : Link) (e : Event)
      → Same blocked w l
      → StaysOrOpens blocked w (step decode_int64 decode_uint64 encode l e)
  unfolding step close_stop
  step-Same l works h = rw (work_from-blocked l h) tt
  step-Same l looks h = stays blocked w _ (look_from-Same l.reader l h)
  step-Same l (reads r) h = stays blocked w _ (read_from-Same l.reader l r h)
  step-Same l passes h = stays blocked w _ (pass_from-Same l.reader l h)
  step-Same l (redials ok) h = redial-Same l ok h
  step-Same l late_fails h = stays blocked w _ (late_from-Same l.late_readers l h)
  step-Same l (queues t) h = subst (StaysOrOpens blocked w) (sym (full-when l.write_chan _ h.1)) tt
  step-Same l (call_ends ctx id keep) h = inl h
  step-Same l cancels_ctx h = inl h
  step-Same l closes_stop h = ground arith
  step-Same l marks_stopped h = inl h
  step-Same l e h = rw (send_step-blocked l e h) tt

  stays-Runs :
      {k l : Link} {os : List Output}
      → Same blocked w k
      → Runs decode_int64 decode_uint64 encode k os l
      → Same blocked w l ⊎ Opens os
  stays-Runs h start = inl h
  stays-Runs h (next {os} {l} {l'} r e more s) = elim (stays-Runs h r) [
    | inr (before, after, o) ↦
        inr (before, after ++ more, ap (λ os. os ++ more) o ∙ append_assoc before _ more)
    | inl same ↦ elim (subst (StaysOrOpens blocked w) s (step-Same l e same)) [
      | inl same' ↦ inl same'
      | inr o ↦ inr (os, [], ap (λ more. os ++ more) o)
    ]
  ]

module _ (decode_int64 decode_uint64 : Raw → Result ℕ) (encode : Request → Raw) where
  -- A sender that sends on its own full channel never goes on. If the sender is about to put a text on
  -- the writing channel when that holds a hundred or more, which it alone empties, then in every run
  -- that opens no new connection it stays there and the channel as it is, whatever the other goroutines,
  -- the context and the closer do: nothing is written, no frame is handled and no request taken.
  pub blocked-stays :
      (k l : Link) (os : List Output) (m : Raw) (ts : List Task)
      → k.sender ≡ working (puts m ∷ ts)
      → ltb (length k.write_chan) capacity ≡ false
      → Runs decode_int64 decode_uint64 encode k os l
      → ((l.sender ≡ k.sender) × (l.write_chan ≡ k.write_chan)) ⊎ Opens os
  blocked-stays k l os m ts h full r =
      elim (stays-Runs decode_int64 decode_uint64 encode m ts k.write_chan full (h, refl) r) [
        | inl (e, e') ↦ inl (e ∙ sym h, e')
        | inr o ↦ inr o
      ]

  queue-Runs :
      (k : Link) (os : List Output) (w : List Raw) (m : Raw)
      → ltb (length w) capacity ≡ true
      → Runs decode_int64 decode_uint64 encode k os (record k { write_chan = w })
      → Runs decode_int64 decode_uint64 encode k
          (os ++ queued m ∷ [])
          (record k { write_chan = w ++ m ∷ [] })
  unfolding step
  queue-Runs k os w m room r = next r (queues m) (queued m ∷ []) (rw room refl)

  -- Other goroutines can fill the channel while the sender does something else.
  fill-Runs :
      (n : ℕ) (k : Link) (os : List Output) (w : List Raw) (m : Raw)
      → length w + n ≡ capacity
      → Runs decode_int64 decode_uint64 encode k os (record k { write_chan = w })
      → (os' : List Output) × (w' : List Raw) × Runs decode_int64 decode_uint64 encode k os'
          (record k { write_chan = w' })
        × (ltb (length w') capacity ≡ false)
  fill-Runs zero k os w m h r = (os, w, r, ground arith)
  fill-Runs (suc n) k os w m h r =
      fill-Runs n k (os ++ queued m ∷ []) (w ++ m ∷ []) m (omega (arith, length-append w (m ∷ [])))
        (queue-Runs k os w m (ground arith) r)

  -- The sender can come to that: whatever the state of a client's connection, with the sender at its
  -- select, texts of other goroutines can fill the channel, and then the sender can take a request.
  pub blocked-reached :
      (k : Link) (r : ClientRequest) (n : ℕ)
      → k.sender ≡ selecting
      → k.is_client ≡ true
      → length k.write_chan + n ≡ capacity
      → (os : List Output) × (l : Link) × Runs decode_int64 decode_uint64 encode k os l
        × (l.sender ≡ working (puts (encode r.req) ∷ []))
        × (ltb (length l.write_chan) capacity ≡ false)
  blocked-reached k r n s c h =
      let (os, w, run, full) = fill-Runs n k [] k.write_chan [] h start in
      let l = record k { write_chan = w } in
      (
        os ++ [],
        taking decode_int64 decode_uint64 encode l r,
        next run (takes_request r) [] (take-taking decode_int64 decode_uint64 encode l r s c),
        refl,
        full,
      )
