-- ===== src/Rpc/Link.antt =====
-- wsConn.handleWsConn (jsonrpc/websocket.go): the goroutines of a connection, which share its channels.
-- One writes and handles frames, one reads, and one dials again after an end. The scheduler's choices
-- are events; an event that no goroutine can take in a state is `disabled` there, and `panics` is a
-- run-time panic, which ends the process.
pub mod Step
pub mod Outcomes
pub mod Ends
pub mod Events
pub mod Replay
pub mod Order
pub mod Stuck
pub mod Steps
pub mod Final
pub mod Cancelled
pub mod Drain
pub mod Starts
pub mod Tests
use hggutils.Common.{
  ℕ, suc, Bool, true, false, ◌&&◌, ◌||◌, not, List, [], ◌∷◌, ◌++◌, Option, none, some,
  if◌then◌else◌, length, map, ltb,
}
use hggutils.Rpc.Message.{Raw, Result, version, Request}
use hggutils.Rpc.Conn.{
  ws_ping, ws_pong, Frame, ClientRequest, Conn, Action, send, send_pong, Run, open_conn,
  accept_request, handle_frame, call_done, tear_down,
}

-- The rest of a case of the sender's select: sends on its own channels, and other actions.
pub data Task : Type 0 where
  puts puts_alive : Raw → Task
  does : Action → Task

pub data Sender : Type 0 where
  selecting : Sender
  working : List Task → Sender
  sender_done : Sender

pub data Reader : Type 0 where
  looping in_read : Reader
  passing : Frame → Reader
  reader_done : Reader

-- Where the goroutine that dials again is, with its attempts: before the test of c.isStoped, or behind it
pub data Redial : Type 0 where
  checking dialling : ℕ → Redial

pub record Link : Type 0 where
  pub conn : Conn
  pub is_client : Bool
  pub no_reconnect : Bool
  pub pings : Bool
  -- bretry, and what once has done
  pub retries : Bool
  pub once_done : Bool
  -- whether exitCh, c.exiting and c.stop are closed, the context is done and isStoped is set
  pub exit_closed : Bool
  pub exiting : Bool
  pub stop_closed : Bool
  pub ctx_done : Bool
  pub is_stopped : Bool
  -- the channels with room for 100
  pub write_chan : List Raw
  pub keep_alive_chan : List Raw
  pub frame_chan : List Frame
  pub sender : Sender
  pub reader : Reader
  -- the goroutine that dials again
  pub redialling : Option Redial
  -- the readers of earlier connections that have not returned
  pub late_readers : ℕ

pub data Output : Type 0 where
  -- c.writeChan <- a text; what is taken from it and written, or lost by a failed write
  queued written lost : Raw → Output
  alive_written alive_lost : Raw → Output
  performed : Action → Output
  close_message conn_closed : Output
  -- a new connection with new channels
  opened : Output

pub data Outcome : Type 0 where
  disabled panics : Outcome
  moves : Link → List Output → Outcome

-- What ReadMessage returns.
pub data Read : Type 0 where
  message : Frame → Read
  not_a_frame : Read
  -- an error, and whether it is the normal closure
  fails : Bool → Read

pub data Event : Type 0 where
  -- the sender: the cases of its select, and its next task
  sees_done sees_exit sees_stop : Event
  ticks : Raw → Event
  writes_alive writes_data : Bool → Event
  takes_request : ClientRequest → Event
  takes_frame : Raw → Event
  works : Event
  -- the reader
  looks : Event
  reads : Read → Event
  passes : Event
  -- the goroutine that dials, and a reader of an earlier connection
  redials : Bool → Event
  late_fails : Event
  -- other goroutines: a text for the connection, the end of a call, the context, the closer
  queues : Raw → Event
  call_ends : ℕ → Option ℕ → Bool → Event
  cancels_ctx closes_stop marks_stopped : Event

abbrev pub capacity : ℕ
capacity = 100

abbrev pub prepend : List Output → Outcome → Outcome
prepend os disabled = disabled
prepend os panics = panics
prepend os (moves l more) = moves l (os ++ more)

abbrev pub and_then : Outcome → (Link → Outcome) → Outcome
and_then disabled k = disabled
and_then panics k = panics
and_then (moves l os) k = prepend os (k l)

-- close(c.exiting)
unfoldable pub close_exiting : Link → Outcome
close_exiting l = if l.exiting then panics else moves (record l { exiting = true }) []

-- exitfun
unfoldable pub exitfun : Link → Outcome
unfolding close_exiting
exitfun l =
    if l.exit_closed
    then panics
    else if l.retries && l.is_client
    then moves (record l { exit_closed = true; redialling = some (checking 0) }) []
    else close_exiting (record l { exit_closed = true })

-- once.Do(exitfun)
unfoldable pub once_exit : Link → Outcome
unfolding exitfun
once_exit l = if l.once_done then moves l [] else exitfun (record l { once_done = true })

abbrev pub performing : List Action → List Output
performing = map performed

-- The reader returns; the deferred calls run, last one first. They are one step here, though the code
-- takes no lock and the sender can work on the same maps at the time.
unfoldable pub reader_returns : Link → Outcome
reader_returns l =
    let (c, acts) = tear_down l.conn in
    moves (record l { conn = c; reader = reader_done }) (conn_closed ∷ performing acts)

abbrev pub keep_alive_request : List ℕ → Raw → Request
keep_alive_request method now = record {
  jsonrpc = version;
  id = none;
  method = method;
  params = now ∷ [];
  meta = none;
}

-- handleWsConn on a connection that has been dialled again. A reader that waits to pass a frame to a full
-- channel, which no sender empties any more, never returns.
unfoldable pub reopen : Link → Link
reopen l = record l {
  conn = open_conn l.conn.has_handler l.conn.next_ctx l.conn.next_sink;
  retries = not l.no_reconnect;
  once_done = false;
  exit_closed = false;
  write_chan = [];
  keep_alive_chan = [];
  frame_chan = [];
  sender = selecting;
  reader = looping;
  redialling = none;
  late_readers = elim l.reader [
    | looping ↦ suc l.late_readers
    | in_read ↦ suc l.late_readers
    | passing _ ↦ if ltb (length l.frame_chan) capacity then suc l.late_readers else l.late_readers
    | reader_done ↦ l.late_readers
  ];
}

-- The start: handleWsConn on the first connection.
unfoldable pub new_link : (is_client no_reconnect pings has_handler : Bool) → Link
new_link is_client no_reconnect pings has_handler = record {
  conn = open_conn has_handler 0 0;
  is_client = is_client;
  no_reconnect = no_reconnect;
  pings = pings;
  retries = not no_reconnect;
  once_done = false;
  exit_closed = false;
  exiting = false;
  stop_closed = false;
  ctx_done = false;
  is_stopped = false;
  write_chan = [];
  keep_alive_chan = [];
  frame_chan = [];
  sender = selecting;
  reader = looping;
  redialling = none;
  late_readers = 0;
}
