-- ===== src/Rpc/Conn/SinkRuns.antt =====
-- The sinks of result channels along a whole history of a connection.
use hggutils.Common.{
  ℕ, ◌+◌, ◌≤◌, ◌<◌, ◌≡◌, refl, subst, inl, inr, Bool, List, [], ◌∷◌, ◌++◌, map, some, arith,
  nat_key,
}
use hggutils.Common.Dict.{Dict, IsUnique, tally}
use hggutils.Rpc.Message.{Raw, Result}
use hggutils.Rpc.Conn.{
  ClientRequest, Conn, Action, sink_close, cancel, tear_down, closed_deliveries, open_conn,
}
use hggutils.Rpc.Conn.Step.{
  Event, accepts, receives, ends, shuts, step, Runs, start, next, IsNewChan, AllNew,
}
use hggutils.Rpc.Conn.Sinks.{
  is_sink, opened, closed, valued, open_now, opened-append, closed-append, valued-append, Opens,
  SinksOk, accept_request-SinksOk, call_done-SinksOk, handle_frame-SinksOk,
}

module _ (who : ℕ) where
  abbrev IsStill : List Action → Type 0
  IsStill acts = (opened who acts ≡ 0) × (closed who acts ≡ 0) × (valued who acts ≡ 0)

  deliveries-IsStill : (m : Dict ℕ ClientRequest) → IsStill (closed_deliveries m)
  deliveries-IsStill [] = (refl, refl, refl)
  deliveries-IsStill (e ∷ m) = deliveries-IsStill m

  cancels-IsStill : (m : Dict ℕ ℕ) → IsStill (map (λ e. cancel e.1) m)
  cancels-IsStill [] = (refl, refl, refl)
  cancels-IsStill (e ∷ m) = cancels-IsStill m

  closes_all :
      (m : Dict ℕ ℕ)
      → let acts = map (λ (e : ℕ × ℕ). sink_close e.1) m in
        (opened who acts ≡ 0) × (closed who acts ≡ tally (is_sink who) m) × (valued who acts ≡ 0)
  unfolding tally
  closes_all [] = (refl, refl, refl)
  closes_all ((k, s) ∷ m) = let h = closes_all m in (h.0, omega arith, h.2)

  tear_down_sinks :
      (c : Conn)
      → (opened who (tear_down c).1 ≡ 0)
        × (closed who (tear_down c).1 ≡ open_now who c)
        × (valued who (tear_down c).1 ≡ 0)
  unfolding tear_down
  tear_down_sinks c =
      let a = closes_all c.chan_handlers in
      let b = deliveries-IsStill c.inflight in
      let d = cancels-IsStill c.handling in
      (
        rw (opened-append, opened-append) (omega arith),
        rw (closed-append, closed-append) (omega arith),
        rw (valued-append, valued-append) (omega arith),
      )

  tear_down-SinksOk : (c : Conn) → SinksOk who c (some (tear_down c))
  unfolding tear_down tally
  tear_down-SinksOk c = let t = tear_down_sinks c in (tt, omega arith, omega arith, inl (t.0, refl))

  module _ (decode_int64 decode_uint64 : Raw → Result ℕ) where
    step-SinksOk :
        (c : Conn) (e : Event)
        → IsUnique c.chan_handlers
        → IsNewChan decode_uint64 c e
        → SinksOk who c (step decode_int64 decode_uint64 c e)
    unfolding step
    step-SinksOk c (accepts r) u new = accept_request-SinksOk who decode_int64 decode_uint64 c r u
    step-SinksOk c (receives f) u new =
        handle_frame-SinksOk who decode_int64 decode_uint64 c u f new
    step-SinksOk c (ends ctx id keep) u new =
        call_done-SinksOk who decode_int64 decode_uint64 c ctx id keep u
    step-SinksOk c shuts u new = tear_down-SinksOk c

    record Kept (acts : List Action) (d : Conn) : Type 0 where
      unique : IsUnique d.chan_handlers
      balance : closed who acts + open_now who d ≡ opened who acts
      once : opened who acts ≤ 1
      fresh : d.next_sink ≤ who → opened who acts ≡ 0

    Opens-Kept :
        (c d : Conn) (n k : ℕ)
        → Opens who c d n
        → k ≤ 1
        → (c.next_sink ≤ who → k ≡ 0)
        → (k + n ≤ 1) × (d.next_sink ≤ who → k + n ≡ 0)
    Opens-Kept c d n k (inl (p, q)) h f = (omega arith, λ le. omega arith)
    Opens-Kept c d n k (inr (p, q)) h f = (ground arith, λ le. ground arith)

    Runs-Kept :
        (has_handler : Bool) (ctx sink : ℕ) {es : List Event} {d : Conn} {acts : List Action}
        → (r : Runs decode_int64 decode_uint64 (open_conn has_handler ctx sink) es d acts)
        → AllNew decode_int64 decode_uint64 r
        → Kept acts d
    unfolding open_conn tally
    Runs-Kept h x k start new = record {
      unique = tt;
      balance = omega arith;
      once = omega arith;
      fresh = λ le. refl;
    }
    Runs-Kept h x k (next {d} {d'} {acts} r e more s) new =
        let kept = Runs-Kept h x k r new.0 in
        let (u, count, _, opens) = subst (SinksOk who d) s (step-SinksOk d e kept.unique new.1) in
        let (once, fresh) =
          Opens-Kept d d' (opened who more) (opened who acts) opens kept.once kept.fresh in
        record {
          unique = u;
          balance =
              omega (arith, opened-append who acts more, closed-append who acts more, kept.balance);
          once = omega (arith, opened-append who acts more);
          fresh = λ le. omega (arith, opened-append who acts more, fresh le);
        }

    -- No channel of Go is closed twice. Along any history of a connection, where each response to a
    -- request in flight whose result is a channel names one that is not open, a sink is made at most once and closed no more often than it
    -- was made; and when the connection closes there and then, every sink that was made has been
    -- closed.
    pub sinks_closed_once :
        (has_handler : Bool) (ctx sink : ℕ) (es : List Event) (d : Conn) (acts : List Action)
        → (r : Runs decode_int64 decode_uint64 (open_conn has_handler ctx sink) es d acts)
        → AllNew decode_int64 decode_uint64 r
        → (opened who acts ≤ 1)
          × (closed who acts ≤ opened who acts)
          × (closed who (acts ++ (tear_down d).1) ≡ opened who acts)
    sinks_closed_once has_handler ctx sink es d acts r new =
        let kept = Runs-Kept has_handler ctx sink r new in
        (
          kept.once,
          omega (arith, kept.balance),
          omega
              (arith, kept.balance, closed-append who acts (tear_down d).1, (tear_down_sinks d).1),
        )

    -- No channel of Go is sent on once it is closed. Along any history of a connection, where each
    -- response to a request in flight whose result is a channel names one that is not open, an event that gives a sink a value finds
    -- it made and not closed.
    pub values_to_open :
        (has_handler : Bool) (ctx sink : ℕ) (es : List Event) (d : Conn) (acts : List Action)
        (e : Event) (d' : Conn) (more : List Action)
        → (r : Runs decode_int64 decode_uint64 (open_conn has_handler ctx sink) es d acts)
        → AllNew decode_int64 decode_uint64 r
        → step decode_int64 decode_uint64 d e ≡ some (d', more)
        → IsNewChan decode_uint64 d e
        → 0 < valued who more
        → (opened who acts ≡ 1) × (closed who acts ≡ 0)
    values_to_open has_handler ctx sink es d acts e d' more r new s fresh v =
        let kept = Runs-Kept has_handler ctx sink r new in
        let (_, _, some_open, _) = subst (SinksOk who d) s (step-SinksOk d e kept.unique fresh) in
        (omega (arith, kept.balance, kept.once), omega (arith, kept.balance, kept.once))
