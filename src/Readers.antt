-- ===== src/Readers.antt =====
-- jsonrpc/httpio/reader.go: a param that is a reader goes as the body of an HTTP request of its own, under
-- a fresh identifier; the handler of that request and the decoder of the param meet on a channel that the
-- first of them makes. Handlers and decoders are named by numbers. The parse of an identifier is an
-- argument: it gives the identifier, which may be partly filled, and its error.
pub mod Invariant
pub mod Sound
pub mod Paths
pub mod Meets
pub mod Tests
use hggutils.Common.{
  ℕ, suc, ◌≡◌, Bool, true, false, ◌&&◌, List, [], ◌∷◌, ◌++◌, Option, none, some, ◌==◌,
  if◌then◌else◌, nat_key,
}
use hggutils.Common.Text.{Text, codes, text_key, split}
use hggutils.Common.Dict.{Dict, find, put}
use hggutils.Rpc.Message.{Fault, plain, Raw, Result, ok, err}

-- path.Clean on the parts between the slashes, the last one first
abbrev push_part : Bool → List Text → Text → List Text
push_part rooted stack part =
    if part == []
    then stack
    else if part == codes "."
    then stack
    else if part == codes ".."
    then parent rooted stack
    else part ∷ stack
  where
    parent : Bool → List Text → List Text
    parent true [] = []
    parent false [] = codes ".." ∷ []
    parent rooted (top ∷ rest) = if top == codes ".." then codes ".." ∷ top ∷ rest else rest

abbrev push_parts : Bool → List Text → List Text → List Text
push_parts rooted stack [] = stack
push_parts rooted stack (part ∷ parts) = push_parts rooted (push_part rooted stack part) parts

abbrev join_back : List Text → Text
join_back [] = []
join_back (part ∷ []) = part
join_back (part ∷ next ∷ rest) = join_back (next ∷ rest) ++ b'/' ∷ part

abbrev is_rooted : Text → Bool
is_rooted [] = false
is_rooted (c ∷ _) = c == b'/'

abbrev pub cleaned : Bool → Text → Text
cleaned true parts = b'/' ∷ parts
cleaned false parts = if parts == [] then codes "." else parts

-- path.Clean
unfoldable pub clean : Text → Text
clean s =
    let rooted = is_rooted s in cleaned rooted (join_back (push_parts rooted [] (split b'/' s)))

-- path.Join(u.Path, reqID.String())
unfoldable pub reader_path : Text → Text → Text
unfolding clean
reader_path path id = if path == [] then clean id else clean (path ++ b'/' ∷ id)

abbrev strip_slashes : Text → Text
strip_slashes [] = []
strip_slashes (c ∷ s) =
    let rest = strip_slashes s in if c == b'/' && rest == [] then [] else c ∷ rest

-- What follows the last slash; `cur` is the part that is being read.
abbrev after_slash : Text → Text → Text
after_slash cur [] = cur
after_slash cur (c ∷ s) = if c == b'/' then after_slash [] s else after_slash (cur ++ c ∷ []) s

-- path.Base
unfoldable pub base : Text → Text
base s =
    let stripped = strip_slashes s in
    if s == [] then codes "." else if stripped == [] then codes "/" else after_slash [] stripped

-- Where a handler is: at its first select, at its second, or returned.
pub data Place : Type 0 where
  offering waiting answered : Place

-- A handler's call, with the identifier and the channel that it uses, whether wr.wait is closed, and the
-- statuses that it has written, of which the client sees the first.
pub record Post : Type 0 where
  pub uuid : Text
  pub chan : ℕ
  pub place : Place
  pub wait_closed : Bool
  pub statuses : List ℕ

-- A decoder's call, with the identifier and the channel that it uses, or the handler whose reader it got
pub data Decode : Type 0 where
  seeking : Text → ℕ → Decode
  got : Text → ℕ → Decode
  failed : Fault → Decode

-- `channels` is the map that ReaderParamDecoder makes; its channels are counted.
pub record Readers : Type 0 where
  pub channels : Dict Text ℕ
  pub next_chan : ℕ
  pub posts : Dict ℕ Post
  pub decodes : Dict ℕ Decode

pub data Event : Type 0 where
  -- a request to a path, and a param's text
  arrives : ℕ → Text → Event
  decodes_param : ℕ → Raw → Event
  -- the handler sends its reader and the decoder receives it
  meets : ℕ → ℕ → Event
  -- the end of a request's or a call's context
  post_ends : ℕ → Event
  call_ends : ℕ → Fault → Event
  -- Read of the reader that a decoder got, with whether it returns an error, and Close
  reads : ℕ → Bool → Event
  closes : ℕ → Event
  -- the second select sees wr.wait closed
  wakes : ℕ → Event

-- A panic is one of the method that reads or closes: doCall recovers it, and the rest of the state stays.
pub data Outcome : Type 0 where
  disabled panics : Outcome
  moves : Readers → Outcome

unfoldable pub no_readers : Readers
no_readers = record { channels = []; next_chan = 0; posts = []; decodes = [] }

-- The channel of an identifier, made under the lock when there is none, and the map with it
abbrev pub chan_of : Readers → Text → ℕ
chan_of s u = elim (find u s.channels) [ none ↦ s.next_chan | some c ↦ c ]

unfoldable pub with_chan : Readers → Text → Readers
with_chan s u = elim (find u s.channels) [
  | none ↦ record s { channels = put u s.next_chan s.channels; next_chan = suc s.next_chan }
  | some _ ↦ s
]

abbrev pub put_post : Readers → ℕ → Post → Outcome
put_post s h p = moves (record s { posts = put h p s.posts })

-- The handler writes the status and returns.
abbrev pub answer : Post → ℕ → Post
answer p code = record p { place = answered; statuses = p.statuses ++ code ∷ [] }

abbrev pub at_post : Readers → ℕ → (Post → Outcome) → Outcome
at_post s h k = elim (find h s.posts) [ none ↦ disabled | some p ↦ k p ]

-- close(w.wait), which panics if the channel is closed already
unfoldable pub close_wait : Readers → ℕ → Post → Outcome
close_wait s h p = if p.wait_closed then panics else put_post s h (record p { wait_closed = true })

-- waitReadCloser.Read: an error of the body's Read closes the channel.
unfoldable pub read : Readers → ℕ → Bool → Post → Outcome
unfolding close_wait
read s h fails p = if fails then close_wait s h p else moves s

-- The end of the request's context, at each place
abbrev pub end_at : Place → Readers → ℕ → Post → Outcome
end_at answered s h p = disabled
end_at _ s h p = put_post s h (answer p 500)

abbrev pub wake_at : Place → Readers → ℕ → Post → Outcome
wake_at waiting s h p = if p.wait_closed then put_post s h (answer p 200) else disabled
wake_at _ s h p = disabled

-- The reader that a decoder got
abbrev pub read_at : Decode → Readers → (ℕ → Post → Outcome) → Outcome
read_at (got _ h) s k = at_post s h (k h)
read_at _ s k = disabled

abbrev pub at_decode : Readers → ℕ → (Decode → Outcome) → Outcome
at_decode s d k = elim (find d s.decodes) [ none ↦ disabled | some q ↦ k q ]

abbrev pub add_decode : Readers → ℕ → Decode → Readers
add_decode s d q = record s { decodes = put d q s.decodes }

abbrev pub put_decode : Readers → ℕ → Decode → Outcome
put_decode s d q = moves (add_decode s d q)

abbrev pub handed : Post → Post
handed p = record p { place = waiting }

-- The rendezvous on a channel: the send of one select and the receive of the other
abbrev pub meet_at : Place → Decode → Readers → ℕ → ℕ → Post → Outcome
meet_at offering (seeking u c) s h d p =
    if p.chan == c
    then moves (record s { posts = put h (handed p) s.posts; decodes = put d (got u h) s.decodes })
    else disabled
meet_at _ _ s h d p = disabled

-- The end of the call's context
abbrev pub end_decode : Readers → ℕ → Fault → Decode → Outcome
end_decode s d f (seeking _ _) = put_decode s d (failed f)
end_decode s d f _ = disabled

module _ (parse_uuid : Text → Text × Option Fault) (decode_text : Raw → Result Text) where
  -- The handler up to its first select; after the error of a bad identifier it goes on.
  unfoldable pub arrive : Readers → ℕ → Text → Readers
  unfolding with_chan base
  arrive s h path =
      let (u, failure) = parse_uuid (base path) in
      let s' = with_chan s u in
      record s' {
        posts =
            put h
              (record {
                uuid = u;
                chan = chan_of s u;
                place = offering;
                wait_closed = false;
                statuses = elim failure [ none ↦ [] | some _ ↦ 400 ∷ [] ];
              })
              s'.posts;
      }

  -- The decoder up to its select
  unfoldable pub decode_reader : Readers → ℕ → Raw → Readers
  unfolding with_chan
  decode_reader s d raw = elim (decode_text raw) [
    | err f ↦ add_decode s d (failed f)
    | ok t ↦
        let (u, failure) = parse_uuid t in
        elim failure [
          | some f ↦ add_decode s d (failed f)
          | none ↦ add_decode (with_chan s u) d (seeking u (chan_of s u))
        ]
  ]

  unfoldable pub step : Readers → Event → Outcome
  unfolding arrive decode_reader read close_wait
  step s (arrives h path) = elim (find h s.posts) [
    | none ↦ moves (arrive s h path)
    | some _ ↦ disabled
  ]
  step s (decodes_param d raw) = elim (find d s.decodes) [
    | none ↦ moves (decode_reader s d raw)
    | some _ ↦ disabled
  ]
  step s (meets h d) = at_post s h (λ p. at_decode s d (λ q. meet_at p.place q s h d p))
  step s (post_ends h) = at_post s h (λ p. end_at p.place s h p)
  step s (call_ends d f) = at_decode s d (end_decode s d f)
  step s (reads d fails) = at_decode s d (λ q. read_at q s (λ h. read s h fails))
  step s (closes d) = at_decode s d (λ q. read_at q s (close_wait s))
  step s (wakes h) = at_post s h (λ p. wake_at p.place s h p)

  pub data Runs (k : Readers) : List Event → Readers → Type 0 where
    start : Runs k [] k
    next :
        {es : List Event} {s s' : Readers}
        → Runs k es s
        → (e : Event) → step s e ≡ moves s'
        → Runs k (e ∷ es) s'
