-- ===== src/Rpc/Link/Tests.antt =====
-- Runs of handleWsConn (jsonrpc/websocket.go), and its theorems at them.
use hggutils.Common.{
  ℕ, zero, suc, ◌≡◌, refl, ◌⊎◌, true, false, List, [], ◌∷◌, ◌++◌, none, some, map,
}
use hggutils.Common.Text.{codes, text_beq}
use hggutils.Common.Dict.{put}
use hggutils.Rpc.Message.{Raw, plain, Result, ok, err, version, Request}
use hggutils.Rpc.Conn.{
  ClientRequest, accept_request, tear_down, close_chans, close_in_flight, open_conn,
}
use hggutils.Rpc.Link.{
  checking, dialling, puts, selecting, working, sender_done, reader_done, Link, Output, queued,
  written, close_message, conn_closed, opened, Outcome, disabled, panics, moves, fails, Event,
  sees_exit, sees_stop, writes_data, looks, reads, redials, queues, cancels_ctx, closes_stop,
  close_exiting, exitfun, once_exit, performing, reader_returns, reopen, new_link,
}
use hggutils.Rpc.Link.Step.{
  work, write_data, stop, read_result, redial, close_stop, take_request, select, send_step, step,
  Runs, start, next,
}
use hggutils.Rpc.Conn.{ws_cancel}
use hggutils.Rpc.OutChans.{next_chan_id}
use hggutils.Rpc.Link.Starts.{handle_ws, handle_ctx_async, handle_chan_out}
use hggutils.Rpc.Link.Ends.{IsSound, SoundBut, exits_once}
use hggutils.Rpc.Link.Replay.{replay}
use hggutils.Rpc.Link.Order.{written-IsFifo}
use hggutils.Rpc.Link.Stuck.{Opens, blocked-stays}
use hggutils.Rpc.Link.Final.{stopped, stop-final}
use hggutils.Rpc.Link.Cancelled.{cancelled, IsCancelled, cancelled-exiting}
use hggutils.Rpc.Link.Drain.{request-written}

abbrev number : Raw → Result ℕ
number (n ∷ []) = ok n
number _ = err (plain (codes "not a number"))

-- A request's text, here its method's name
abbrev text_of : Request → Raw
text_of r = r.method

abbrev client_link : Link
client_link = new_link true false true false

abbrev lost_link : Link
lost_link = record client_link {
  once_done = true;
  exit_closed = true;
  redialling = some (checking 0);
  reader = reader_done;
  write_chan = codes "second" ∷ [];
}

link_run : Unit {0}
unfolding new_link open_conn step send_step select write_data once_exit exitfun close_exiting
    read_result reader_returns tear_down close_chans close_in_flight redial reopen stop close_stop
    accept_request take_request work handle_ws handle_chan_out handle_ctx_async next_chan_id
    ws_cancel text_beq
link_run = tt

abbrev test_step : Link → Event → Outcome
test_step = step number number text_of

-- Two texts are queued and one is written; then the reader fails, and the client dials again.
abbrev outputs : List Output
outputs =
    []
    ++ (queued (codes "first") ∷ [])
    ++ (queued (codes "second") ∷ [])
    ++ (written (codes "first") ∷ [])
    ++ []
    ++ (conn_closed ∷ [])

lost_run : Runs number number text_of client_link outputs lost_link
unfolding link_run
lost_run =
    next
      (next
        (next
          (next (next start (queues (codes "first")) (queued (codes "first") ∷ []) refl)
            (queues (codes "second")) (queued (codes "second") ∷ []) refl)
          (writes_data true) (written (codes "first") ∷ []) refl)
        looks [] refl)
      (reads (fails false)) (conn_closed ∷ []) refl

dials :
    test_step lost_link (redials true)
    ≡ moves (record lost_link { redialling = some (dialling 0) }) []
unfolding link_run
dials = refl

-- A closer that comes between the test of c.isStoped and the dial is seen on the new connection.
reopens_stopped :
    test_step
      (record lost_link {
        sender = sender_done;
        redialling = some (dialling 0);
        stop_closed = true;
        is_stopped = true;
      })
      (redials true)
    ≡ moves (record client_link { stop_closed = true; is_stopped = true }) (opened ∷ [])
unfolding link_run
reopens_stopped = refl

-- A second call of the closer panics.
closes_twice : test_step (record client_link { stop_closed = true }) closes_stop ≡ panics
unfolding link_run
closes_twice = refl

exits_once_example :
    IsSound lost_link
    × SoundBut number number text_of lost_link sees_exit (test_step lost_link sees_exit)
exits_once_example =
    exits_once number number text_of true false true false outputs lost_link sees_exit lost_run

written-IsFifo_example : replay outputs [] ≡ some (codes "second" ∷ [])
unfolding link_run
written-IsFifo_example =
    written-IsFifo number number text_of true false true false outputs lost_link lost_run

abbrev copies : ℕ → List Raw
copies zero = []
copies (suc n) = codes "t" ∷ copies n

abbrev full_link : Link
full_link = record client_link { write_chan = copies 100; sender = working (puts (codes "u") ∷ []) }

blocked-stays_example :
    ((record full_link { ctx_done = true }).sender ≡ full_link.sender)
      × ((record full_link { ctx_done = true }).write_chan ≡ full_link.write_chan)
    ⊎ Opens ([] ++ [])
unfolding link_run
blocked-stays_example =
    blocked-stays number number text_of full_link (record full_link { ctx_done = true }) ([] ++ [])
      (codes "u") [] refl refl (next start cancels_ctx [] refl)

abbrev closing_link : Link
closing_link = record client_link { stop_closed = true }

closing_run : Runs number number text_of client_link ([] ++ []) closing_link
unfolding link_run
closing_run = next start closes_stop [] refl

stop-final_example :
    (test_step closing_link sees_stop
      ≡ moves (stopped number number text_of closing_link) (close_message ∷ []))
    × ((stopped number number text_of closing_link).exiting ≡ true)
    × ((stopped number number text_of closing_link).redialling ≡ none)
    × (test_step (stopped number number text_of closing_link) (redials true) ≡ disabled)
unfolding link_run
stop-final_example =
    stop-final number number text_of true false true false ([] ++ []) [] closing_link
      (stopped number number text_of closing_link) true closing_run refl refl refl start

cancelled-exiting_example :
    Runs number number text_of client_link
      (conn_closed ∷ performing (tear_down client_link.conn).1)
      (cancelled number number text_of client_link)
    × IsCancelled number number text_of
        (record (cancelled number number text_of client_link) { stop_closed = true })
unfolding link_run
cancelled-exiting_example =
    cancelled-exiting number number text_of client_link
      (record (cancelled number number text_of client_link) { stop_closed = true }) ([] ++ []) refl
      refl refl refl (next start closes_stop [] refl)

abbrev server_link : Link
server_link = new_link false true false true

abbrev asks : ClientRequest
asks = record {
  req = record {
    jsonrpc = version;
    id = some 1;
    method = codes "Demo.Ask";
    params = [];
    meta = none;
  };
  ready = 10;
  ret_ch = none;
  ret_ctx = true;
}

request-written_example :
    Runs number number text_of client_link
      (queued (codes "Demo.Ask") ∷ map written ([] ++ codes "Demo.Ask" ∷ []))
      (record client_link {
        conn = record client_link.conn { inflight = (1, asks) ∷ [] };
        sender = selecting;
        write_chan = [];
      })
unfolding link_run put
request-written_example =
    request-written number number text_of client_link asks 1 refl refl refl refl

-- The answer repeats the protocol that was asked for.
protocol_kept :
    (handle_ws (codes "p") (some (plain (codes "bad handshake")))).headers
    ≡ (codes "Access-Control-Allow-Origin", codes "*")
      ∷ (codes "Sec-WebSocket-Protocol", codes "p")
      ∷ []
unfolding link_run
protocol_kept = refl

-- A registration on a connection that is exiting uses up an identifier.
exiting_registration : handle_chan_out 4 true 1 7 ≡ (5, err (plain (codes "connection closing")))
unfolding link_run
exiting_registration = refl

watched : handle_ctx_async (λ i. i ∷ []) text_of true 3 ≡ some (queues (codes "xrpc.cancel"))
unfolding link_run
watched = refl
