-- ===== src/Rpc/Link/Order.antt =====
-- The texts on the writing channel of handleWsConn (jsonrpc/websocket.go): first in, first out, and
-- never more than a hundred.
use hggutils.Common.{
  ℕ, zero, suc, ◌≡◌, refl, subst, ◌∙◌, ◌&&◌, ◌||◌, Bool, true, false, List, [], ◌∷◌, none, some,
  arith, if◌then◌else◌, inl, inr, List-cases,
}
use hggutils.Common.Text.{text_key}
use hggutils.Rpc.Message.{Raw, Result, Request}
use hggutils.Rpc.Conn.{Frame, Run, tear_down, call_done}
use hggutils.Rpc.Link.{
  Task, puts, puts_alive, does, Sender, selecting, working, sender_done, Reader, looping, in_read,
  passing, reader_done, Link, Output, written, lost, alive_written, alive_lost, close_message,
  Outcome, moves, Read, message, not_a_frame, fails, Event, sees_done, sees_exit, sees_stop, ticks,
  writes_alive, writes_data, takes_request, takes_frame, works, looks, reads, passes, redials,
  late_fails, queues, call_ends, cancels_ctx, closes_stop, marks_stopped, prepend, close_exiting,
  once_exit, reader_returns, reopen, new_link,
}
use hggutils.Rpc.Link.Step.{
  has_room, when, work, sender_ends, write_alive, write_data, stop, look_from, read_result,
  read_from, pass_from, redial, late_from, close_stop, take_request, handled, take_first,
  take_frame, select, send_from, work_from, send_step, step, Runs, start, next,
}
use hggutils.Rpc.Link.Replay.{
  replay, replay-++, Queues, prepend-Queues, and_then-Queues, sender_ends-Queues, once_exit-Queues,
  performing-replay, returns-Queues, take_off-first,
}

write_data-Queues : (l : Link) (ok : Bool) → Queues l.write_chan (write_data l ok)
unfolding write_data
write_data-Queues l ok = elim (List-cases l.write_chan) [
  | inl e ↦ rw e tt
  | inr (m, q, e) ↦ rw e (wrote ok m q (record l { write_chan = q }) refl)
]
  where
    wrote :
        (ok : Bool) (m : Raw) (q : List Raw) (l : Link)
        → l.write_chan ≡ q
        → Queues (m ∷ q) (
            if ok
            then moves l (written m ∷ [])
            else prepend (lost m ∷ []) (sender_ends (once_exit l)))
    wrote true m q l e = rw e (rw (take_off-first m q) refl)
    wrote false m q l e =
        prepend-Queues (m ∷ q) (lost m) _ q (take_off-first m q)
          (sender_ends-Queues q _ (subst (λ q. Queues q (once_exit l)) e (once_exit-Queues l)))

write_alive-Queues : (l : Link) (ok : Bool) → Queues l.write_chan (write_alive l ok)
unfolding write_alive
write_alive-Queues l ok = elim (List-cases l.keep_alive_chan) [
  | inl e ↦ rw e tt
  | inr (m, rest, e) ↦ rw e (wrote ok m (record l { keep_alive_chan = rest }))
]
  where
    wrote :
        (ok : Bool) (m : Raw) (l : Link)
        → Queues l.write_chan (
            if ok
            then moves l (alive_written m ∷ [])
            else prepend (alive_lost m ∷ []) (sender_ends (once_exit l)))
    wrote true m l = refl
    wrote false m l =
        prepend-Queues l.write_chan (alive_lost m) _ l.write_chan refl
          (sender_ends-Queues l.write_chan _ (once_exit-Queues l))

when-Queues : (q : List Raw) (b : Bool) (o : Outcome) → Queues q o → Queues q (when b o)
when-Queues q true o h = h
when-Queues q false o h = tt

stop-Queues : (l : Link) → Queues l.write_chan (stop l)
unfolding stop
stop-Queues l =
    prepend-Queues l.write_chan close_message _ l.write_chan refl
      (sender_ends-Queues l.write_chan _ (once_exit-Queues (record l { retries = false })))

read_from-Queues : (s : Reader) (l : Link) (r : Read) → Queues l.write_chan (read_from s l r)
unfolding read_result
read_from-Queues in_read l (message f) = refl
read_from-Queues in_read l not_a_frame = refl
read_from-Queues in_read l (fails true) =
    and_then-Queues l.write_chan _ reader_returns (once_exit-Queues (record l { retries = false }))
      returns-Queues
read_from-Queues in_read l (fails false) =
    and_then-Queues l.write_chan _ reader_returns (once_exit-Queues l) returns-Queues
read_from-Queues looping l r = tt
read_from-Queues (passing _) l r = tt
read_from-Queues reader_done l r = tt

look_from-Queues : (s : Reader) (l : Link) → Queues l.write_chan (look_from s l)
look_from-Queues looping l = looked (l.ctx_done || l.exit_closed)
  where
    looked :
        (b : Bool)
        → Queues l.write_chan
            (if b then reader_returns l else moves (record l { reader = in_read }) [])
    looked true = returns-Queues l
    looked false = refl
look_from-Queues in_read l = tt
look_from-Queues (passing _) l = tt
look_from-Queues reader_done l = tt

pass_from-Queues : (s : Reader) (l : Link) → Queues l.write_chan (pass_from s l)
pass_from-Queues (passing f) l = when-Queues l.write_chan (has_room l.frame_chan) _ refl
pass_from-Queues looping l = tt
pass_from-Queues in_read l = tt
pass_from-Queues reader_done l = tt

redial-Queues : (l : Link) (ok : Bool) → Queues l.write_chan (redial l ok)
unfolding redial close_exiting reopen
redial-Queues l ok = ground arith

late_from-Queues : (n : ℕ) (l : Link) → Queues l.write_chan (late_from n l)
late_from-Queues zero l = tt
late_from-Queues (suc n) l = performing-replay (tear_down l.conn).1 l.write_chan

work-Queues : (l : Link) (ts : List Task) → Queues l.write_chan (work l ts)
unfolding work
work-Queues l [] = refl
work-Queues l (puts m ∷ ts) = when-Queues l.write_chan (has_room l.write_chan) _ refl
work-Queues l (puts_alive m ∷ ts) = when-Queues l.write_chan (has_room l.keep_alive_chan) _ refl
work-Queues l (does a ∷ ts) = refl

module _ (decode_int64 decode_uint64 : Raw → Result ℕ) (encode : Request → Raw) where
  work_from-Queues :
      (s : Sender) (l : Link)
      → Queues l.write_chan (work_from decode_int64 decode_uint64 encode s l)
  work_from-Queues selecting l = tt
  work_from-Queues (working ts) l = work-Queues l ts
  work_from-Queues sender_done l = tt

  handled-Queues :
      (l : Link) (now : Raw) (rest : List Frame) (run : Run)
      → Queues l.write_chan (handled decode_int64 decode_uint64 encode l now rest run)
  handled-Queues l now rest none = tt
  handled-Queues l now rest (some r) = refl

  take_first-Queues :
      (l : Link) (now : Raw) (q : List Frame)
      → Queues l.write_chan (take_first decode_int64 decode_uint64 encode l now q)
  take_first-Queues l now [] = tt
  take_first-Queues l now (f ∷ rest) = handled-Queues l now rest _

  select-Queues :
      (l : Link) (e : Event) → Queues l.write_chan (select decode_int64 decode_uint64 encode l e)
  unfolding select take_request take_frame
  select-Queues l sees_done = when-Queues l.write_chan l.ctx_done _ refl
  select-Queues l sees_exit = when-Queues l.write_chan l.exit_closed _ refl
  select-Queues l sees_stop = when-Queues l.write_chan l.stop_closed _ (stop-Queues l)
  select-Queues l (ticks now) = when-Queues l.write_chan (l.pings && l.is_client) _ refl
  select-Queues l (writes_alive ok) = write_alive-Queues l ok
  select-Queues l (writes_data ok) = write_data-Queues l ok
  select-Queues l (takes_request r) = when-Queues l.write_chan l.is_client _ refl
  select-Queues l (takes_frame now) = take_first-Queues l now _
  select-Queues l _ = tt

  send_from-Queues :
      (s : Sender) (l : Link) (e : Event)
      → Queues l.write_chan (send_from decode_int64 decode_uint64 encode s l e)
  send_from-Queues selecting l e = select-Queues l e
  send_from-Queues (working _) l e = tt
  send_from-Queues sender_done l e = tt

  step-Queues :
      (l : Link) (e : Event) → Queues l.write_chan (step decode_int64 decode_uint64 encode l e)
  unfolding step send_step close_stop
  step-Queues l works = work_from-Queues l.sender l
  step-Queues l looks = look_from-Queues l.reader l
  step-Queues l (reads r) = read_from-Queues l.reader l r
  step-Queues l passes = pass_from-Queues l.reader l
  step-Queues l (redials ok) = redial-Queues l ok
  step-Queues l late_fails = late_from-Queues l.late_readers l
  step-Queues l (queues m) = when-Queues l.write_chan (has_room l.write_chan) _ refl
  step-Queues l (call_ends ctx id keep) =
      performing-replay (call_done l.conn ctx id keep).1 l.write_chan
  step-Queues l cancels_ctx = refl
  step-Queues l closes_stop = ground arith
  step-Queues l marks_stopped = refl
  step-Queues l e = send_from-Queues l.sender l e

  -- The connection writes what its goroutines send, in that order. In every run, over all
  -- reconnections, a queue that starts empty accepts the outputs: each text put on the writing channel
  -- goes to its end, each text written to the connection (or lost by a failed write) is its first one,
  -- and a new connection empties it; and it ends as the channel's content. So no text is written before
  -- one that was put before it, twice, or without having been put, and only an end of the connection
  -- drops some.
  pub written-IsFifo :
      (is_client no_reconnect pings has_handler : Bool) (os : List Output) (l : Link)
      → Runs decode_int64 decode_uint64 encode
          (new_link is_client no_reconnect pings has_handler)
          os
          l
      → replay os [] ≡ some l.write_chan
  unfolding new_link
  written-IsFifo is_client no_reconnect pings has_handler os l start = refl
  written-IsFifo is_client no_reconnect pings has_handler os l
        (next {os = os'} {l = k} r e more s) =
      replay-++ os' more [] k.write_chan
        (written-IsFifo is_client no_reconnect pings has_handler os' k r)
      ∙ subst (Queues k.write_chan) s (step-Queues k e)
