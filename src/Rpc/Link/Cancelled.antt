-- ===== src/Rpc/Link/Cancelled.antt =====
-- Goroutines of handleWsConn (jsonrpc/websocket.go) that the end of the context has ended.
use hggutils.Common.{ℕ, zero, suc, ◌≡◌, refl, subst, true, false, List, [], ◌∷◌, none, arith}
use hggutils.Rpc.Message.{Raw, Result, Request}
use hggutils.Rpc.Conn.{tear_down}
use hggutils.Rpc.Link.{
  selecting, sender_done, looping, reader_done, Link, Output, conn_closed, moves, Event, sees_done,
  works, looks, reads, passes, redials, late_fails, queues, call_ends, cancels_ctx, closes_stop,
  marks_stopped, performing, reader_returns,
}
use hggutils.Rpc.Link.Step.{
  has_room, late_from, close_stop, select, send_step, step, Runs, start, next,
}
use hggutils.Rpc.Link.Outcomes.{Holds, when-Holds}
use hggutils.Rpc.Link.Final.{redial-none}

module _ (decode_int64 decode_uint64 : Raw → Result ℕ) (encode : Request → Raw) where
  -- Where the context has ended both goroutines of a connection and no goroutine dials.
  abbrev pub IsCancelled : Link → Type 0
  IsCancelled l =
      (l.sender ≡ sender_done)
      × (l.reader ≡ reader_done)
      × (l.redialling ≡ none)
      × (l.exiting ≡ false)

  late_from-Cancelled :
      (n : ℕ) (l : Link) → IsCancelled l → Holds IsCancelled (Unit {0}) (late_from n l)
  late_from-Cancelled zero l h = tt
  late_from-Cancelled (suc n) l h = h

  step-Cancelled :
      (l : Link) (e : Event)
      → IsCancelled l
      → Holds IsCancelled (Unit {0}) (step decode_int64 decode_uint64 encode l e)
  unfolding step send_step close_stop
  step-Cancelled l works (h, h', h'', _) = rw h tt
  step-Cancelled l looks (h, h', h'', _) = rw h' tt
  step-Cancelled l (reads r) (h, h', h'', _) = rw h' tt
  step-Cancelled l passes (h, h', h'', _) = rw h' tt
  step-Cancelled l (redials ok) (h, h', h'', _) = rw (redial-none l ok h'') tt
  step-Cancelled l late_fails h = late_from-Cancelled l.late_readers l h
  step-Cancelled l (queues m) h = when-Holds IsCancelled (Unit {0}) (has_room l.write_chan) _ h
  step-Cancelled l (call_ends ctx id keep) h = h
  step-Cancelled l cancels_ctx h = h
  step-Cancelled l closes_stop h = ground arith
  step-Cancelled l marks_stopped h = h
  step-Cancelled l e (h, h', h'', _) = rw h tt

  Runs-Cancelled :
      {k l : Link} {os : List Output}
      → IsCancelled k
      → Runs decode_int64 decode_uint64 encode k os l
      → IsCancelled l
  Runs-Cancelled h start = h
  Runs-Cancelled h (next {l} r e more s) =
      subst (Holds IsCancelled (Unit {0})) s (step-Cancelled l e (Runs-Cancelled h r))

  -- The state after the end of the context, which both goroutines see
  abbrev pub cancelled : Link → Link
  cancelled k = record k {
    ctx_done = true;
    sender = sender_done;
    conn = (tear_down k.conn).0;
    reader = reader_done;
  }

  -- The end of the context, and the sender's return
  abbrev half_cancelled : Link → Link
  half_cancelled k = record k { ctx_done = true; sender = sender_done }

  sender-half_cancelled :
      (k : Link)
      → k.sender ≡ selecting
      → step decode_int64 decode_uint64 encode (record k { ctx_done = true }) sees_done
        ≡ moves (half_cancelled k) []
  unfolding step send_step select
  sender-half_cancelled k s = rw s refl

  half_cancelled-cancelled :
      (k : Link)
      → k.reader ≡ looping
      → step decode_int64 decode_uint64 encode (half_cancelled k) looks
        ≡ moves (cancelled k) (conn_closed ∷ performing (tear_down k.conn).1)
  unfolding step reader_returns
  half_cancelled-cancelled k d = rw d refl

  cancelled-Runs :
      (k : Link)
      → k.sender ≡ selecting
      → k.reader ≡ looping
      → Runs decode_int64 decode_uint64 encode k
          (conn_closed ∷ performing (tear_down k.conn).1)
          (cancelled k)
  unfolding step
  cancelled-Runs k s d =
      next (next (next start cancels_ctx [] refl) sees_done [] (sender-half_cancelled k s)) looks
        (conn_closed ∷ performing (tear_down k.conn).1) (half_cancelled-cancelled k d)

  -- A context that ends before the connection leaves the closer waiting. From a state in which the
  -- sender is at its select and the reader between two messages, no goroutine dials and c.exiting is
  -- open, the end of the context can make both return, which closes the connection and runs the
  -- deferred calls; and then in every state that any run reaches both have returned, no goroutine dials
  -- and c.exiting is open: neither the closer's close(stop) and flag nor any other event closes it.
  pub cancelled-exiting :
      (k l : Link) (os : List Output)
      → k.sender ≡ selecting
      → k.reader ≡ looping
      → k.redialling ≡ none
      → k.exiting ≡ false
      → Runs decode_int64 decode_uint64 encode (cancelled k) os l
      → Runs decode_int64 decode_uint64 encode k
          (conn_closed ∷ performing (tear_down k.conn).1)
          (cancelled k)
        × IsCancelled l
  cancelled-exiting k l os s d n x r = (cancelled-Runs k s d, Runs-Cancelled (refl, refl, n, x) r)
