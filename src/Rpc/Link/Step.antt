-- ===== src/Rpc/Link/Step.antt =====
-- The cases of the select statements of wsConn.handleWsConn (jsonrpc/websocket.go) as steps.
use hggutils.Common.{
  ℕ, zero, suc, ◌≡◌, Bool, true, false, ◌&&◌, ◌||◌, not, List, [], ◌∷◌, ◌++◌, none, some,
  if◌then◌else◌, length, map, ltb,
}
use hggutils.Rpc.Message.{Raw, Result, Request}
use hggutils.Rpc.Conn.{
  ws_ping, ws_pong, Frame, ClientRequest, Action, send, send_pong, Run, accept_request,
  handle_frame, call_done, tear_down,
}
use hggutils.Rpc.Link.{
  checking, dialling, Task, puts, puts_alive, does, Sender, selecting, working, sender_done, Reader,
  looping, in_read, passing, Link, Output, queued, written, lost, alive_written, alive_lost,
  performed, close_message, opened, Outcome, disabled, panics, moves, Read, message, not_a_frame,
  fails, Event, sees_done, sees_exit, sees_stop, ticks, writes_alive, writes_data, takes_request,
  takes_frame, works, looks, reads, passes, redials, late_fails, queues, call_ends, cancels_ctx,
  closes_stop, marks_stopped, capacity, prepend, and_then, close_exiting, once_exit, performing,
  reader_returns, keep_alive_request, reopen,
}

-- Whether a channel of this length has room.
abbrev pub has_room : {A : Type 0} → List A → Bool
has_room q = ltb (length q) capacity

abbrev pub when : Bool → Outcome → Outcome
when b o = if b then o else disabled

-- The next task of the sender; a send waits for room.
unfoldable pub work : Link → List Task → Outcome
work l [] = moves (record l { sender = selecting }) []
work l (puts m ∷ rest) = when (has_room l.write_chan) (
    moves (record l { write_chan = l.write_chan ++ m ∷ []; sender = working rest }) (queued m ∷ []))
work l (puts_alive m ∷ rest) =
    when (has_room l.keep_alive_chan)
      (moves (record l { keep_alive_chan = l.keep_alive_chan ++ m ∷ []; sender = working rest }) [])
work l (does a ∷ rest) = moves (record l { sender = working rest }) (performed a ∷ [])

abbrev pub sender_ends : Outcome → Outcome
sender_ends o = and_then o λ l. moves (record l { sender = sender_done }) []

-- WriteMessage of the next text; an error ends the connection.
unfoldable pub write_alive : Link → Bool → Outcome
unfolding once_exit
write_alive l ok = elim l.keep_alive_chan [
  | [] ↦ disabled
  | m ∷ rest ↦
      let l' = record l { keep_alive_chan = rest } in
      if ok
      then moves l' (alive_written m ∷ [])
      else prepend (alive_lost m ∷ []) (sender_ends (once_exit l'))
]

unfoldable pub write_data : Link → Bool → Outcome
unfolding once_exit
write_data l ok = elim l.write_chan [
  | [] ↦ disabled
  | m ∷ rest ↦
      let l' = record l { write_chan = rest } in
      if ok then moves l' (written m ∷ []) else prepend (lost m ∷ []) (sender_ends (once_exit l'))
]

-- The case of c.stop: the message of the closure, and an end with no retry.
unfoldable pub stop : Link → Outcome
unfolding once_exit
stop l = prepend (close_message ∷ []) (sender_ends (once_exit (record l { retries = false })))

-- The round of the reader up to ReadMessage.
abbrev pub look_from : Reader → Link → Outcome
look_from looping l =
    if l.ctx_done || l.exit_closed
    then reader_returns l
    else moves (record l { reader = in_read }) []
look_from _ l = disabled

unfoldable pub read_result : Link → Read → Outcome
unfolding once_exit reader_returns
read_result l (message f) = moves (record l { reader = passing f }) []
read_result l not_a_frame = moves (record l { reader = looping }) []
read_result l (fails true) = and_then (once_exit (record l { retries = false })) reader_returns
read_result l (fails false) = and_then (once_exit l) reader_returns

abbrev pub read_from : Reader → Link → Read → Outcome
read_from in_read l r = read_result l r
read_from _ l r = disabled

-- c.frameChan <- frame
abbrev pub pass_from : Reader → Link → Outcome
pass_from (passing f) l =
    when (has_room l.frame_chan)
      (moves (record l { frame_chan = l.frame_chan ++ f ∷ []; reader = looping }) [])
pass_from _ l = disabled

-- A step of the goroutine that dials again, with whether the dial succeeds. It sleeps a second and more
-- between the test of c.isStoped and the dial, in which the sender of the ended connection returns,
-- unless a send of its own holds it up.
unfoldable pub redial : Link → Bool → Outcome
unfolding close_exiting reopen
redial l ok = elim l.redialling [
  | none ↦ disabled
  | some r ↦ elim r [
    | checking attempts ↦
        if l.is_stopped
        then close_exiting (record l { redialling = none })
        else moves (record l { redialling = some (dialling attempts) }) []
    | dialling attempts ↦
        if not ok
        then moves (record l { redialling = some (checking (suc attempts)) }) []
        else elim l.sender [
          | selecting ↦ disabled
          | working _ ↦ moves (reopen l) (opened ∷ [])
          | sender_done ↦ moves (reopen l) (opened ∷ [])
        ]
  ]
]

-- The deferred calls of a reader of an earlier connection: c.closeChans and c.closeInFlight work on the
-- maps that c has by then.
abbrev pub late_from : ℕ → Link → Outcome
late_from zero l = disabled
late_from (suc n) l =
    let (c, acts) = tear_down l.conn in
    moves (record l { conn = c; late_readers = n }) (performing acts)

-- The closer's close(stop), which panics on a second call.
unfoldable pub close_stop : Link → Outcome
close_stop l = if l.stop_closed then panics else moves (record l { stop_closed = true }) []

module _ (decode_int64 decode_uint64 : Raw → Result ℕ) (encode : Request → Raw) where
  -- The actions of a frame's handler, the texts encoded; a pong carries the time.
  abbrev pub task_of : Raw → Action → Task
  task_of now (send r) = puts (encode r)
  task_of now send_pong = puts_alive (encode (keep_alive_request ws_pong now))
  task_of now a = does a

  unfoldable pub take_request : Link → ClientRequest → Outcome
  take_request l r =
      let (c, acts) = accept_request l.conn r in
      moves (record l { conn = c; sender = working (map (task_of []) acts) }) []

  -- The end of handleFrame for the first frame of the channel.
  abbrev pub handled : Link → Raw → List Frame → Run → Outcome
  handled l now rest none = panics
  handled l now rest (some (c, acts)) =
      moves (record l { conn = c; frame_chan = rest; sender = working (map (task_of now) acts) }) []

  abbrev pub take_first : Link → Raw → List Frame → Outcome
  take_first l now [] = disabled
  take_first l now (f ∷ rest) =
      handled l now rest (handle_frame decode_int64 decode_uint64 l.conn f)

  unfoldable pub take_frame : Link → Raw → Outcome
  take_frame l now = take_first l now l.frame_chan

  -- The cases of the sender's select.
  unfoldable pub select : Link → Event → Outcome
  unfolding stop write_alive write_data take_request take_frame
  select l sees_done = when l.ctx_done (sender_ends (moves l []))
  select l sees_exit = when l.exit_closed (sender_ends (moves l []))
  select l sees_stop = when l.stop_closed (stop l)
  select l (ticks now) = when (l.pings && l.is_client) (
      moves
        (record l { sender = working (puts_alive (encode (keep_alive_request ws_ping now)) ∷ []) })
        [])
  select l (writes_alive ok) = write_alive l ok
  select l (writes_data ok) = write_data l ok
  select l (takes_request r) = when l.is_client (take_request l r)
  select l (takes_frame now) = take_frame l now
  select l _ = disabled

  -- The case of an event of the sender, which it takes in its select or as its next task.
  abbrev pub send_from : Sender → Link → Event → Outcome
  send_from selecting l e = select l e
  send_from _ l e = disabled

  abbrev pub work_from : Sender → Link → Outcome
  work_from (working ts) l = work l ts
  work_from _ l = disabled

  unfoldable pub send_step : Link → Event → Outcome
  send_step l e = send_from l.sender l e

  unfoldable pub step : Link → Event → Outcome
  unfolding send_step redial close_stop
  step l sees_done = send_step l sees_done
  step l sees_exit = send_step l sees_exit
  step l sees_stop = send_step l sees_stop
  step l (ticks now) = send_step l (ticks now)
  step l (writes_alive ok) = send_step l (writes_alive ok)
  step l (writes_data ok) = send_step l (writes_data ok)
  step l (takes_request r) = send_step l (takes_request r)
  step l (takes_frame now) = send_step l (takes_frame now)
  step l works = work_from l.sender l
  step l looks = look_from l.reader l
  step l (reads r) = read_from l.reader l r
  step l passes = pass_from l.reader l
  step l (redials ok) = redial l ok
  step l late_fails = late_from l.late_readers l
  step l (queues m) =
      when (has_room l.write_chan)
        (moves (record l { write_chan = l.write_chan ++ m ∷ [] }) (queued m ∷ []))
  step l (call_ends ctx id keep) =
      let (c, acts) = call_done l.conn ctx id keep in
      moves (record l { conn = c }) (performing acts)
  step l cancels_ctx = moves (record l { ctx_done = true }) []
  step l closes_stop = close_stop l
  step l marks_stopped = moves (record l { is_stopped = true }) []

  -- What a run from a state has done, and the state that it reaches.
  pub data Runs (k : Link) : List Output → Link → Type 0 where
    start : Runs k [] k
    next :
        {os : List Output} {l l' : Link}
        → Runs k os l
        → (e : Event) (more : List Output) → step l e ≡ moves l' more
        → Runs k (os ++ more) l'
