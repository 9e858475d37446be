-- ===== src/Rpc/Link/Final.antt =====
-- How the goroutines of handleWsConn (jsonrpc/websocket.go) end for good.
use hggutils.Common.{
  ℕ, ◌≡◌, refl, sym, subst, Bool, true, false, List, [], ◌∷◌, Option, none, arith,
}
use hggutils.Rpc.Message.{Raw, Result, Request}
use hggutils.Rpc.Link.{
  Redial, selecting, sender_done, Link, Output, close_message, disabled, moves, sees_stop, redials,
  close_exiting, exitfun, once_exit, new_link,
}
use hggutils.Rpc.Link.Step.{stop, redial, select, send_step, step, Runs}
use hggutils.Rpc.Link.Outcomes.{Holds}
use hggutils.Rpc.Link.Ends.{IsSound, Runs-Sound}
use hggutils.Rpc.Link.Steps.{Runs-Of}

-- exitfun has run, c.exiting is closed, and no goroutine dials.
abbrev Over :
    (is_client no_reconnect retries once_done exit_closed exiting : Bool) → Option Redial → Type 0
Over is_client no_reconnect retries once_done exit_closed exiting redialling =
    (once_done ≡ true) × (exit_closed ≡ true) × (exiting ≡ true) × (redialling ≡ none)

abbrev IsOver : Link → Type 0
IsOver l =
    (l.once_done ≡ true) × (l.exit_closed ≡ true) × (l.exiting ≡ true) × (l.redialling ≡ none)

once_exit-Over : (l : Link) → IsOver l → Holds IsOver (Unit {0}) (once_exit l)
unfolding once_exit
once_exit-Over l h = ground arith

pub redial-none : (l : Link) (ok : Bool) → l.redialling ≡ none → redial l ok ≡ disabled
unfolding redial
redial-none l ok h = ground arith

redial-Over : (l : Link) (ok : Bool) → IsOver l → Holds IsOver (Unit {0}) (redial l ok)
redial-Over l ok h = subst (Holds IsOver (Unit {0})) (sym (redial-none l ok h.3)) tt

module _ (decode_int64 decode_uint64 : Raw → Result ℕ) (encode : Request → Raw) where
  Runs-Over :
      {k l : Link} {os : List Output}
      → IsOver k
      → Runs decode_int64 decode_uint64 encode k os l
      → IsOver l
  Runs-Over = Runs-Of Over once_exit-Over (λ l h. h) redial-Over decode_int64 decode_uint64 encode

  -- The state after the case of c.stop, on a connection that has not ended
  abbrev pub stopped : Link → Link
  stopped l = record l {
    retries = false;
    once_done = true;
    exit_closed = true;
    exiting = true;
    sender = sender_done;
  }

  idle-redialling : (k : Link) → IsSound k → k.exit_closed ≡ false → k.redialling ≡ none
  idle-redialling k h e = ground arith

  stop-stopped :
      (k : Link)
      → IsSound k
      → k.exit_closed ≡ false
      → k.stop_closed ≡ true
      → k.sender ≡ selecting
      → step decode_int64 decode_uint64 encode k sees_stop ≡ moves (stopped k) (close_message ∷ [])
  unfolding step send_step select stop once_exit exitfun close_exiting
  stop-stopped k h e s d = ground arith

  -- The closer ends a connection for good. On a connection that has not ended, the sender that sees
  -- c.stop closed writes the closing message, closes exitCh and c.exiting, which the closer waits for,
  -- and returns, whether or not the connection was to be dialled again; and in every state that any run
  -- reaches from there, c.exiting is closed and no goroutine dials, so no new connection is opened.
  pub stop-final :
      (is_client no_reconnect pings has_handler : Bool) (os more : List Output) (k l : Link)
      (ok : Bool)
      → Runs decode_int64 decode_uint64 encode
          (new_link is_client no_reconnect pings has_handler)
          os
          k
      → k.exit_closed ≡ false
      → k.stop_closed ≡ true
      → k.sender ≡ selecting
      → Runs decode_int64 decode_uint64 encode (stopped k) more l
      → (step decode_int64 decode_uint64 encode k sees_stop
          ≡ moves (stopped k) (close_message ∷ []))
        × (l.exiting ≡ true)
        × (l.redialling ≡ none)
        × (step decode_int64 decode_uint64 encode l (redials ok) ≡ disabled)
  unfolding step new_link
  stop-final is_client no_reconnect pings has_handler os more k l ok r e s d r' =
      let h = Runs-Sound decode_int64 decode_uint64 encode (refl, refl, refl) r in
      let (_, _, over, none_dials) = Runs-Over (refl, refl, refl, idle-redialling k h e) r' in
      (stop-stopped k h e s d, over, none_dials, redial-none l ok none_dials)

-- No connection is dialled again: neither now nor later.
abbrev Settled :
    (is_client no_reconnect retries once_done exit_closed exiting : Bool) → Option Redial → Type 0
Settled is_client no_reconnect retries once_done exit_closed exiting redialling =
    (retries ≡ false) × (redialling ≡ none)

abbrev pub IsSettled : Link → Type 0
IsSettled l = (l.retries ≡ false) × (l.redialling ≡ none)

once_exit-Settled : (l : Link) → IsSettled l → Holds IsSettled (Unit {0}) (once_exit l)
unfolding once_exit exitfun close_exiting
once_exit-Settled l h = ground arith

redial-Settled : (l : Link) (ok : Bool) → IsSettled l → Holds IsSettled (Unit {0}) (redial l ok)
redial-Settled l ok h = subst (Holds IsSettled (Unit {0})) (sym (redial-none l ok h.1)) tt

module _ (decode_int64 decode_uint64 : Raw → Result ℕ) (encode : Request → Raw) where
  pub Runs-Settled :
      {k l : Link} {os : List Output}
      → IsSettled k
      → Runs decode_int64 decode_uint64 encode k os l
      → IsSettled l
  Runs-Settled =
      Runs-Of Settled once_exit-Settled (λ l h. (refl, h.1)) redial-Settled decode_int64
        decode_uint64 encode
