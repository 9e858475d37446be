-- ===== src/Rpc/Link/Steps.antt =====
-- A property of how a connection ends, through every step of handleWsConn (jsonrpc/websocket.go).
use hggutils.Common.{
  ℕ, zero, suc, subst, ◌&&◌, ◌||◌, Bool, false, List, [], ◌∷◌, Option, none, some, arith,
}
use hggutils.Rpc.Message.{Raw, Result, Request}
use hggutils.Rpc.Conn.{Frame, Run}
use hggutils.Rpc.Link.{
  Redial, Task, puts, puts_alive, does, Sender, selecting, working, sender_done, Reader, looping,
  in_read, passing, reader_done, Link, Output, Outcome, Read, Event, sees_done, sees_exit,
  sees_stop, ticks, writes_alive, writes_data, takes_request, takes_frame, works, looks, reads,
  passes, redials, late_fails, queues, call_ends, cancels_ctx, closes_stop, marks_stopped,
  once_exit, reader_returns,
}
use hggutils.Rpc.Link.Step.{
  has_room, when, work, look_from, read_from, pass_from, redial, late_from, close_stop,
  take_request, handled, take_first, take_frame, select, send_from, work_from, send_step, step,
  Runs, start, next,
}
use hggutils.Rpc.Link.Outcomes.{
  Holds, if-Holds, when-Holds, stop-Holds, write_data-Holds, write_alive-Holds, read_result-Holds,
}

-- The property is about the kind of the connection, bretry, once, exitCh, c.exiting and the dialling
-- goroutine. It is to be kept by exitfun, by the reset of bretry, and by the dialling goroutine.
module _
    (P : (is_client no_reconnect retries once_done exit_closed exiting : Bool)
      → Option Redial
      → Type 0) where
  abbrev pub Of : Link → Type 0
  Of l = P l.is_client l.no_reconnect l.retries l.once_done l.exit_closed l.exiting l.redialling

  abbrev pub Kept : Outcome → Type 0
  Kept = Holds Of (Unit {0})

  module _ (exits : (l : Link) → Of l → Kept (once_exit l))
      (unretried : (l : Link) → Of l → Of (record l { retries = false }))
      (dialled : (l : Link) (ok : Bool) → Of l → Kept (redial l ok)) where
    returns-Of : (l : Link) → Of l → Kept (reader_returns l)
    unfolding reader_returns
    returns-Of l h = h

    when-Of : (b : Bool) (o : Outcome) → Kept o → Kept (when b o)
    when-Of b o h = when-Holds Of (Unit {0}) b o h

    read_from-Of : (s : Reader) (l : Link) (r : Read) → Of l → Kept (read_from s l r)
    read_from-Of in_read l r h =
        read_result-Holds Of (Unit {0}) (λ l s h. h) exits Of l r h (λ s. h) (unretried l h)
          returns-Of
    read_from-Of looping l r h = tt
    read_from-Of (passing _) l r h = tt
    read_from-Of reader_done l r h = tt

    look_from-Of : (s : Reader) (l : Link) → Of l → Kept (look_from s l)
    look_from-Of looping l h =
        if-Holds Of (Unit {0}) (l.ctx_done || l.exit_closed) _ _ (returns-Of l h) h
    look_from-Of in_read l h = tt
    look_from-Of (passing _) l h = tt
    look_from-Of reader_done l h = tt

    pass_from-Of : (s : Reader) (l : Link) → Of l → Kept (pass_from s l)
    pass_from-Of (passing f) l h = when-Of (has_room l.frame_chan) _ h
    pass_from-Of looping l h = tt
    pass_from-Of in_read l h = tt
    pass_from-Of reader_done l h = tt

    late_from-Of : (n : ℕ) (l : Link) → Of l → Kept (late_from n l)
    late_from-Of zero l h = tt
    late_from-Of (suc n) l h = h

    work-Of : (l : Link) (ts : List Task) → Of l → Kept (work l ts)
    unfolding work
    work-Of l [] h = h
    work-Of l (puts m ∷ ts) h = when-Of (has_room l.write_chan) _ h
    work-Of l (puts_alive m ∷ ts) h = when-Of (has_room l.keep_alive_chan) _ h
    work-Of l (does a ∷ ts) h = h

    module _ (decode_int64 decode_uint64 : Raw → Result ℕ) (encode : Request → Raw) where
      work_from-Of :
          (s : Sender) (l : Link) → Of l → Kept (work_from decode_int64 decode_uint64 encode s l)
      work_from-Of selecting l h = tt
      work_from-Of (working ts) l h = work-Of l ts h
      work_from-Of sender_done l h = tt

      handled-Of :
          (l : Link) (now : Raw) (rest : List Frame) (run : Run)
          → Of l
          → Kept (handled decode_int64 decode_uint64 encode l now rest run)
      handled-Of l now rest none h = tt
      handled-Of l now rest (some r) h = h

      take_first-Of :
          (l : Link) (now : Raw) (q : List Frame)
          → Of l
          → Kept (take_first decode_int64 decode_uint64 encode l now q)
      take_first-Of l now [] h = tt
      take_first-Of l now (f ∷ rest) h = handled-Of l now rest _ h

      select-Of :
          (l : Link) (e : Event) → Of l → Kept (select decode_int64 decode_uint64 encode l e)
      unfolding select take_request take_frame
      select-Of l sees_done h = when-Of l.ctx_done _ h
      select-Of l sees_exit h = when-Of l.exit_closed _ h
      select-Of l sees_stop h =
          when-Of l.stop_closed _ (stop-Holds Of (Unit {0}) (λ l s h. h) exits l (unretried l h))
      select-Of l (ticks now) h = when-Of (l.pings && l.is_client) _ h
      select-Of l (writes_alive ok) h =
          write_alive-Holds Of (Unit {0}) (λ l s h. h) exits l ok λ q. h
      select-Of l (writes_data ok) h = write_data-Holds Of (Unit {0}) (λ l s h. h) exits l ok λ q. h
      select-Of l (takes_request r) h = when-Of l.is_client _ h
      select-Of l (takes_frame now) h = take_first-Of l now _ h
      select-Of l _ h = tt

      send_from-Of :
          (s : Sender) (l : Link) (e : Event)
          → Of l
          → Kept (send_from decode_int64 decode_uint64 encode s l e)
      send_from-Of selecting l e h = select-Of l e h
      send_from-Of (working _) l e h = tt
      send_from-Of sender_done l e h = tt

      step-Of : (l : Link) (e : Event) → Of l → Kept (step decode_int64 decode_uint64 encode l e)
      unfolding step send_step close_stop
      step-Of l works h = work_from-Of l.sender l h
      step-Of l looks h = look_from-Of l.reader l h
      step-Of l (reads r) h = read_from-Of l.reader l r h
      step-Of l passes h = pass_from-Of l.reader l h
      step-Of l (redials ok) h = dialled l ok h
      step-Of l late_fails h = late_from-Of l.late_readers l h
      step-Of l (queues m) h = when-Of (has_room l.write_chan) _ h
      step-Of l (call_ends ctx id keep) h = h
      step-Of l cancels_ctx h = h
      step-Of l closes_stop h = ground arith
      step-Of l marks_stopped h = h
      step-Of l e h = send_from-Of l.sender l e h

      pub Runs-Of :
          {k l : Link} {os : List Output}
          → Of k
          → Runs decode_int64 decode_uint64 encode k os l
          → Of l
      Runs-Of h start = h
      Runs-Of h (next {l} r e more s) = subst Kept s (step-Of l e (Runs-Of h r))
