-- ===== src/Rpc/Link/Events.antt =====
-- Which event of Rpc.Conn each step of the goroutines of handleWsConn is (jsonrpc/websocket.go).
use hggutils.Common.{◌||◌, ◌≡◌, ◌⊎◌, true, false, List, [], ◌∷◌, ◌++◌, map, some, ℕ}
use hggutils.Rpc.Message.{Raw, Result, Request}
use hggutils.Rpc.Conn.{Frame, Conn, Action, open_conn}
use hggutils.Rpc.Conn.Step
use hggutils.Rpc.Link.{
  working, reader_done, Link, Output, opened, conn_closed, Outcome, disabled, panics, moves, fails,
  Event, takes_request, takes_frame, looks, reads, redials, late_fails, call_ends, performing,
}
use hggutils.Rpc.Link.Step.{task_of, step}
use hggutils.Rpc.Link.Outcomes.{Holds}

-- These steps leave the connection's state as it is.
abbrev Keeps : Conn → Link → Type 0
Keeps c l = l.conn ≡ c

-- A panic is no matter here.
abbrev Kept : Conn → Outcome → Type 0
Kept c = Holds (Keeps c) (Unit {0})

-- A property of the state and the outputs of an outcome
abbrev HoldsAt : (Link → List Output → Type 0) → Outcome → Type 0
HoldsAt P disabled = Unit {0}
HoldsAt P panics = Unit {0}
HoldsAt P (moves l os) = P l os

abbrev Same : Link → Link → List Output → Type 0
Same k l os = l.conn ≡ k.conn

module _ (decode_int64 decode_uint64 : Raw → Result ℕ) (encode : Request → Raw) where
  -- The connection's maps do this event, with these actions.
  abbrev pub Acts : Link → Step.Event → Link → List Action → Type 0
  Acts k e l acts = Step.step decode_int64 decode_uint64 k.conn e ≡ some (l.conn, acts)

  -- The deferred calls of a reader that returns: all is closed, and it is said so.
  abbrev pub Returned : Link → Link → List Output → Type 0
  Returned k l os =
      (l.reader ≡ reader_done)
      × ((before : List Output) × (acts : List Action) × Acts k Step.shuts l acts
          × (os ≡ before ++ conn_closed ∷ performing acts))

  -- The output of a dial that succeeds, or of any other step of the goroutine that dials
  abbrev pub Dialled : Link → Link → List Output → Type 0
  Dialled k l (opened ∷ _) = l.conn ≡ open_conn k.conn.has_handler k.conn.next_ctx k.conn.next_sink
  Dialled k l _ = l.conn ≡ k.conn

  -- What a step does to the connection's maps. A request taken, a frame handled, the end of a call and
  -- the return of a reader are each an event of Rpc.Conn; its actions are the tasks that the sender
  -- does next, or are performed at once. A dial that succeeds starts with fresh maps. Every other
  -- step leaves them as they are.
  abbrev pub Does : Event → Link → Link → List Output → Type 0
  Does (takes_request r) k l os =
      (acts : List Action) × Acts k (Step.accepts r) l acts
      × (l.sender ≡ working (map (task_of decode_int64 decode_uint64 encode []) acts))
  Does (takes_frame now) k l os =
      (f : Frame) × (acts : List Action) × (k.frame_chan ≡ f ∷ l.frame_chan)
      × Acts k (Step.receives f) l acts
      × (l.sender ≡ working (map (task_of decode_int64 decode_uint64 encode now) acts))
  Does (call_ends ctx id keep) k l os =
      (acts : List Action) × Acts k (Step.ends ctx id keep) l acts × (os ≡ performing acts)
  Does late_fails k l os = (acts : List Action) × Acts k Step.shuts l acts × (os ≡ performing acts)
  Does looks k l os =
      (((k.ctx_done || k.exit_closed) ≡ true) × Returned k l os)
      ⊎ (((k.ctx_done || k.exit_closed) ≡ false) × (l.conn ≡ k.conn))
  Does (reads (fails _)) k l os = Returned k l os
  Does (redials ok) k l os = Dialled k l os
  Does _ k l os = l.conn ≡ k.conn

  abbrev Done : Event → Link → Outcome → Type 0
  Done e k = HoldsAt (Does e k)
