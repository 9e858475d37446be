-- ===== src/Rpc/Link/Ends.antt =====
-- The ends of a connection (exitfun in jsonrpc/websocket.go): exitCh and c.exiting are closed at most
-- once, whatever the goroutines do and in whatever order.
use hggutils.Common.{
  ℕ, zero, suc, ◌≡◌, refl, subst, Bool, true, false, ◌&&◌, not, List, [], ◌∷◌, none, some, arith,
  is_some,
}
use hggutils.Rpc.Message.{Raw, Result, Request}
use hggutils.Rpc.Conn.{Frame, Run, handle_frame}
use hggutils.Rpc.Link.{
  Task, puts, puts_alive, does, Sender, selecting, working, sender_done, Reader, looping, in_read,
  passing, reader_done, Link, Output, Outcome, disabled, panics, moves, Read, Event, sees_done,
  sees_exit, sees_stop, ticks, writes_alive, writes_data, takes_request, takes_frame, works, looks,
  reads, passes, redials, late_fails, queues, call_ends, cancels_ctx, closes_stop, marks_stopped,
  close_exiting, exitfun, once_exit, reader_returns, reopen, new_link,
}
use hggutils.Rpc.Link.Outcomes.{
  Holds, when-Holds, stop-Holds, write_data-Holds, write_alive-Holds, read_result-Holds,
}
use hggutils.Rpc.Link.Step.{
  has_room, work, look_from, read_from, pass_from, redial, late_from, close_stop, take_request,
  handled, take_first, take_frame, select, send_from, work_from, send_step, step, Runs, start, next,
}

-- once has run just if exitCh is closed; then c.exiting is closed or a goroutine dials again, which
-- is to close it, and not both.
abbrev pub IsSound : Link → Type 0
IsSound l =
    (l.once_done ≡ l.exit_closed)
    × (l.exiting ≡ (l.exit_closed && not (is_some l.redialling)))
    × ((is_some l.redialling && not l.exit_closed) ≡ false)

-- The outcome is no panic, and keeps the invariant.
abbrev Sound : Outcome → Type 0
Sound = Holds IsSound (false ≡ true)

once_exit-Sound : (l : Link) → IsSound l → Sound (once_exit l)
unfolding once_exit exitfun close_exiting
once_exit-Sound l h = ground arith

work-Sound : (l : Link) (ts : List Task) → IsSound l → Sound (work l ts)
unfolding work
work-Sound l [] h = h
work-Sound l (puts m ∷ ts) h = ground arith
work-Sound l (puts_alive m ∷ ts) h = ground arith
work-Sound l (does a ∷ ts) h = h

redial-Sound : (l : Link) (ok : Bool) → IsSound l → Sound (redial l ok)
unfolding redial close_exiting reopen
redial-Sound l ok h = ground arith

look_from-Sound : (s : Reader) (l : Link) → IsSound l → Sound (look_from s l)
unfolding reader_returns
look_from-Sound looping l h = ground arith
look_from-Sound in_read l h = tt
look_from-Sound (passing _) l h = tt
look_from-Sound reader_done l h = tt

pass_from-Sound : (s : Reader) (l : Link) → IsSound l → Sound (pass_from s l)
pass_from-Sound (passing f) l h = when-Holds IsSound (false ≡ true) (has_room l.frame_chan) _ h
pass_from-Sound looping l h = tt
pass_from-Sound in_read l h = tt
pass_from-Sound reader_done l h = tt

late_from-Sound : (n : ℕ) (l : Link) → IsSound l → Sound (late_from n l)
late_from-Sound zero l h = tt
late_from-Sound (suc n) l h = h

module _ (decode_int64 decode_uint64 : Raw → Result ℕ) (encode : Request → Raw) where
  -- The causes of a panic that are not the end of the connection: a frame whose handler panics, and
  -- a second call of the closer.
  abbrev pub IsPanic : Link → Event → Type 0
  IsPanic l (takes_frame now) =
      (f : Frame) × (rest : List Frame) × (l.frame_chan ≡ f ∷ rest)
      × (handle_frame decode_int64 decode_uint64 l.conn f ≡ none)
  IsPanic l closes_stop = l.stop_closed ≡ true
  IsPanic l _ = false ≡ true

  -- As Sound, but for those causes.
  abbrev pub SoundBut : Link → Event → Outcome → Type 0
  SoundBut l e = Holds IsSound (IsPanic l e)

  safe : (l : Link) (e : Event) (o : Outcome) → Sound o → SoundBut l e o
  safe l e disabled h = tt
  safe l e panics h = cc
  safe l e (moves l' os) h = h

  handled-Sound :
      (l : Link) (now : Raw) (f : Frame) (rest : List Frame) (run : Run)
      → IsSound l
      → l.frame_chan ≡ f ∷ rest
      → handle_frame decode_int64 decode_uint64 l.conn f ≡ run
      → SoundBut l (takes_frame now) (handled decode_int64 decode_uint64 encode l now rest run)
  handled-Sound l now f rest none h e e' = (f, rest, e, e')
  handled-Sound l now f rest (some r) h e e' = h

  take_first-Sound :
      (l : Link) (now : Raw) (q : List Frame)
      → IsSound l
      → l.frame_chan ≡ q
      → SoundBut l (takes_frame now) (take_first decode_int64 decode_uint64 encode l now q)
  take_first-Sound l now [] h e = tt
  take_first-Sound l now (f ∷ rest) h e = handled-Sound l now f rest _ h e refl

  select-Sound :
      (l : Link) (e : Event)
      → IsSound l
      → SoundBut l e (select decode_int64 decode_uint64 encode l e)
  unfolding select take_request take_frame
  select-Sound l sees_done h = ground arith
  select-Sound l sees_exit h = ground arith
  select-Sound l sees_stop h = safe l sees_stop _ (
      when-Holds IsSound (false ≡ true) l.stop_closed _
        (stop-Holds IsSound (false ≡ true) (λ l s h. h) once_exit-Sound l h))
  select-Sound l (ticks now) h = ground arith
  select-Sound l (writes_alive ok) h =
      safe l (writes_alive ok) _
        (write_alive-Holds IsSound (false ≡ true) (λ l s h. h) once_exit-Sound l ok λ q. h)
  select-Sound l (writes_data ok) h =
      safe l (writes_data ok) _
        (write_data-Holds IsSound (false ≡ true) (λ l s h. h) once_exit-Sound l ok λ q. h)
  select-Sound l (takes_request r) h = ground arith
  select-Sound l (takes_frame now) h = take_first-Sound l now _ h refl
  select-Sound l _ h = tt

  send_from-Sound :
      (s : Sender) (l : Link) (e : Event)
      → IsSound l
      → SoundBut l e (send_from decode_int64 decode_uint64 encode s l e)
  send_from-Sound selecting l e h = select-Sound l e h
  send_from-Sound (working _) l e h = tt
  send_from-Sound sender_done l e h = tt

  work_from-Sound :
      (s : Sender) (l : Link) → IsSound l → Sound (work_from decode_int64 decode_uint64 encode s l)
  work_from-Sound selecting l h = tt
  work_from-Sound (working ts) l h = work-Sound l ts h
  work_from-Sound sender_done l h = tt

  read_from-Sound : (s : Reader) (l : Link) (r : Read) → IsSound l → Sound (read_from s l r)
  unfolding reader_returns
  read_from-Sound in_read l r h =
      read_result-Holds IsSound (false ≡ true) (λ l s h. h) once_exit-Sound IsSound l r h (λ s. h) h
        λ l h. h
  read_from-Sound looping l r h = tt
  read_from-Sound (passing _) l r h = tt
  read_from-Sound reader_done l r h = tt

  step-Sound :
      (l : Link) (e : Event) → IsSound l → SoundBut l e (step decode_int64 decode_uint64 encode l e)
  unfolding step send_step close_stop
  step-Sound l works h = safe l works _ (work_from-Sound _ l h)
  step-Sound l looks h = safe l looks _ (look_from-Sound _ l h)
  step-Sound l (reads r) h = safe l (reads r) _ (read_from-Sound _ l r h)
  step-Sound l passes h = safe l passes _ (pass_from-Sound _ l h)
  step-Sound l (redials ok) h = safe l (redials ok) _ (redial-Sound l ok h)
  step-Sound l late_fails h = safe l late_fails _ (late_from-Sound _ l h)
  step-Sound l (queues m) h = ground arith
  step-Sound l (call_ends ctx id keep) h = h
  step-Sound l cancels_ctx h = h
  step-Sound l closes_stop h = ground arith
  step-Sound l marks_stopped h = h
  step-Sound l e h = send_from-Sound _ l e h

  pub Runs-Sound :
      {k l : Link} {os : List Output}
      → IsSound k
      → Runs decode_int64 decode_uint64 encode k os l
      → IsSound l
  Runs-Sound h start = h
  Runs-Sound h (next {l} r e more s) = subst (SoundBut l e) s (step-Sound l e (Runs-Sound h r))

  -- A connection ends once. Whatever its goroutines, the calls, the context and the closer do and in
  -- whatever order, across all reconnections of a connection of the client or of the server: in every
  -- state that it reaches, once.Do has run exitfun just if exitCh is closed; then c.exiting is closed
  -- or a goroutine dials again, and not both; and an event that happens next keeps this, and closes no
  -- channel a second time: it panics only if it is a frame whose handler panics or a second call of the
  -- closer.
  pub exits_once :
      (is_client no_reconnect pings has_handler : Bool) (os : List Output) (l : Link) (e : Event)
      → Runs decode_int64 decode_uint64 encode
          (new_link is_client no_reconnect pings has_handler)
          os
          l
      → IsSound l × SoundBut l e (step decode_int64 decode_uint64 encode l e)
  unfolding new_link
  exits_once is_client no_reconnect pings has_handler os l e r =
      let h = Runs-Sound (refl, refl, refl) r in (h, step-Sound l e h)
