-- ===== src/Rpc/Link/Drain.antt =====
-- A sender of handleWsConn (jsonrpc/websocket.go) that is free writes what its channel holds.
use hggutils.Common.{
  ℕ, ◌≡◌, refl, sym, subst, true, List, [], ◌∷◌, ◌++◌, length, ltb, some, nat_key, map, inl, inr,
  Option-cases,
}
use mathlib.Core.List.{append-nil, append_assoc}
use hggutils.Common.Dict.{put}
use hggutils.Rpc.Message.{Raw, Result, Request}
use hggutils.Rpc.Conn.{ClientRequest, Conn, send, accept_request}
use hggutils.Rpc.Link.{
  puts, selecting, working, Link, Output, queued, written, moves, writes_data, takes_request, works,
  capacity,
}
use hggutils.Rpc.Link.Step.{
  work, write_data, take_request, select, send_step, step, Runs, start, next,
}

module _ (decode_int64 decode_uint64 : Raw → Result ℕ) (encode : Request → Raw) where
  abbrev drained : Link → List Raw → Link
  drained l q = record l { sender = selecting; write_chan = q }

  drain-Runs :
      {k : Link} (os : List Output) (l : Link) (q : List Raw)
      → Runs decode_int64 decode_uint64 encode k os (drained l q)
      → Runs decode_int64 decode_uint64 encode k (os ++ map written q) (drained l [])
  unfolding step send_step select write_data
  drain-Runs {k} os l [] r =
      subst (λ os. Runs decode_int64 decode_uint64 encode k os (drained l [])) (sym (append-nil os))
        r
  drain-Runs {k} os l (m ∷ q) r =
      subst (λ os. Runs decode_int64 decode_uint64 encode k os (drained l []))
        (append_assoc os (written m ∷ []) (map written q))
        (drain-Runs (os ++ written m ∷ []) l q (next r (writes_data true) (written m ∷ []) refl))

  accept-send : (c : Conn) (r : ClientRequest) → (accept_request c r).1 ≡ send r.req ∷ []
  unfolding accept_request
  accept-send c r = elim (Option-cases r.req.id) [ inl e ↦ rw e refl | inr (i, e) ↦ rw e refl ]

  -- The states while the sender takes a request
  abbrev pub taking : Link → ClientRequest → Link
  taking k r = record k {
    conn = (accept_request k.conn r).0;
    sender = working (puts (encode r.req) ∷ []);
  }

  abbrev taken : Link → ClientRequest → Link
  taken k r = record k {
    conn = (accept_request k.conn r).0;
    sender = working [];
    write_chan = k.write_chan ++ encode r.req ∷ [];
  }

  pub take-taking :
      (k : Link) (r : ClientRequest)
      → k.sender ≡ selecting
      → k.is_client ≡ true
      → step decode_int64 decode_uint64 encode k (takes_request r) ≡ moves (taking k r) []
  unfolding step send_step select take_request
  take-taking k r s c = rw (s, c, accept-send k.conn r) refl

  taking-taken :
      (k : Link) (r : ClientRequest)
      → ltb (length k.write_chan) capacity ≡ true
      → step decode_int64 decode_uint64 encode (taking k r) works
        ≡ moves (taken k r) (queued (encode r.req) ∷ [])
  unfolding step work
  taking-taken k r room = rw room refl

  -- The connection's maps with the request in flight under its identifier
  abbrev pub in_flight : Link → ℕ → ClientRequest → Link
  in_flight k i r = record k { conn = record k.conn { inflight = put i r k.conn.inflight } }

  accept-in_flight :
      (c : Conn) (i : ℕ) (r : ClientRequest)
      → r.req.id ≡ some i
      → (accept_request c r).0 ≡ record c { inflight = put i r c.inflight }
  unfolding accept_request
  accept-in_flight c i r h = simp (h, accept_request) refl

  -- A request can get out. If the client's sender is at its select and its channel has room, then there
  -- is a run, on which the network takes what is written and no other goroutine fills the channel first,
  -- that takes the request, puts its text behind the others on the channel, and writes them all, the
  -- request's last; afterwards the channel is empty, the sender is at its select again, and the
  -- request awaits its response under its identifier.
  pub request-written :
      (k : Link) (r : ClientRequest) (i : ℕ)
      → k.sender ≡ selecting
      → k.is_client ≡ true
      → ltb (length k.write_chan) capacity ≡ true
      → r.req.id ≡ some i
      → Runs decode_int64 decode_uint64 encode k
          (queued (encode r.req) ∷ map written (k.write_chan ++ encode r.req ∷ []))
          (record (in_flight k i r) { sender = selecting; write_chan = [] })
  unfolding step work
  request-written k r i s c room id =
      let accepted = record k { conn = (accept_request k.conn r).0 } in
      subst
        (λ conn.
          Runs decode_int64 decode_uint64 encode k
            (queued (encode r.req) ∷ map written (k.write_chan ++ encode r.req ∷ []))
            (record k { conn = conn; sender = selecting; write_chan = [] }))
        (accept-in_flight k.conn i r id)
        (drain-Runs (queued (encode r.req) ∷ []) accepted (k.write_chan ++ encode r.req ∷ []) (
          next
            (next (next start (takes_request r) [] (take-taking k r s c)) works
              (queued (encode r.req) ∷ []) (taking-taken k r room))
            works [] refl))
