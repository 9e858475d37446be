-- ===== src/Readers/Tests.antt =====
-- Readers of jsonrpc/httpio/reader.go at concrete requests and params, and the theorems at them.
use hggutils.Common.{
  ℕ, ◌≡◌, refl, Bool, true, false, List, [], ◌∷◌, Option, none, some, ◌==◌, if◌then◌else◌, nat_key,
}
use hggutils.Common.Text.{Text, codes, text_key, text_beq, split}
use hggutils.Common.Dict.{find, put, delete}
use hggutils.Rpc.Message.{Fault, plain, Raw, Result, ok}
use hggutils.Readers.{
  offering, waiting, answered, Post, seeking, got, Readers, Event, arrives, decodes_param, meets,
  reads, closes, wakes, panics, moves, no_readers, with_chan, close_wait, read, clean, reader_path,
  base, arrive, decode_reader, step, Runs, start, next,
}
use hggutils.Readers.Invariant.{Given}
use hggutils.Readers.Paths.{IsPart}
use hggutils.Readers.Meets.{got-once, encoded-decoded, read_close-panics}

abbrev parse : Text → Text × Option Fault
parse t = if t == codes "bad" then ([], some (plain (codes "invalid UUID"))) else (t, none)

abbrev text : Raw → Result Text
text raw = ok raw

reader_run : Unit {0}
unfolding no_readers with_chan close_wait read clean reader_path base arrive decode_reader step find
    put delete split text_beq
reader_run = tt

-- path.Join cleans the path of the address.
path_cleaned : reader_path (codes "/rpc/./v0/../streams/") (codes "a1") ≡ codes "/rpc/streams/a1"
unfolding reader_run
path_cleaned = refl

path_bare : reader_path [] (codes "a1") ≡ codes "a1"
unfolding reader_run
path_bare = refl

base_slashes : base (codes "/streams/a1//") ≡ codes "a1"
unfolding reader_run
base_slashes = refl

base_root : base (codes "//") ≡ codes "/"
unfolding reader_run
base_root = refl

abbrev id : Text
id = codes "a1"

id-IsPart : IsPart id
id-IsPart = ((λ e. cc e, (λ e. cc e, tt)), λ e. cc e, λ e. cc e, λ e. cc e)

abbrev post_of : Readers → ℕ → Option Post
post_of s h = find h s.posts

abbrev posted : Readers
posted = record {
  channels = (id, 0) ∷ [];
  next_chan = 1;
  posts =
      (1, record { uuid = id; chan = 0; place = offering; wait_closed = false; statuses = [] })
      ∷ [];
  decodes = (7, seeking id 0) ∷ [];
}

posted_run :
    Runs parse text no_readers (decodes_param 7 id ∷ arrives 1 (codes "/streams/a1") ∷ []) posted
unfolding reader_run
posted_run = next (next start (arrives 1 (codes "/streams/a1")) refl) (decodes_param 7 id) refl

-- A bad identifier is answered with 400, and its handler goes on to offer its reader.
bad_id :
    step parse text no_readers (arrives 1 (codes "/streams/bad"))
    ≡ moves (record no_readers {
      channels = ([], 0) ∷ [];
      next_chan = 1;
      posts =
          (
            1,
            record {
              uuid = [];
              chan = 0;
              place = offering;
              wait_closed = false;
              statuses = 400 ∷ [];
            },
          )
          ∷ [];
    })
unfolding reader_run
bad_id = refl

abbrev post_at : Bool → Post
post_at closed = record {
  uuid = id;
  chan = 0;
  place = waiting;
  wait_closed = closed;
  statuses = [];
}

abbrev handed_on : Readers
handed_on = record posted { posts = (1, post_at false) ∷ []; decodes = (7, got id 1) ∷ [] }

abbrev handed_events : List Event
handed_events = meets 1 7 ∷ decodes_param 7 id ∷ arrives 1 (codes "/streams/a1") ∷ []

handed_run : Runs parse text no_readers handed_events handed_on
unfolding reader_run
handed_run = next posted_run (meets 1 7) refl

abbrev caller : ℕ
caller = 7

got-once_example : (caller ≡ caller) × Given handed_on id 1
unfolding reader_run
got-once_example =
    got-once parse text handed_events handed_on caller caller 1 id id handed_run refl refl

encoded-decoded_example :
    (s' : Readers) × Runs parse text no_readers
      (meets 1 7 ∷ decodes_param 7 id ∷ arrives 1 (reader_path (codes "/streams") id) ∷ [])
      s'
    × (find 7 s'.decodes ≡ some (got id 1))
unfolding reader_run
encoded-decoded_example =
    encoded-decoded parse text [] no_readers 1 7 (codes "/streams") id id id id-IsPart refl refl
      start refl refl

-- The end of the body answers the handler with 200.
wakes_ok :
    step parse text (record handed_on { posts = (1, post_at true) ∷ [] }) (wakes 1)
    ≡ moves (record handed_on {
      posts =
          (
            1,
            record {
              uuid = id;
              chan = 0;
              place = answered;
              wait_closed = true;
              statuses = 200 ∷ [];
            },
          )
          ∷ [];
    })
unfolding reader_run
wakes_ok = refl

read_close-panics_example :
    (s' : Readers) × (step parse text handed_on (reads 7 true) ≡ moves s')
    × (step parse text s' (closes 7) ≡ panics)
    × (step parse text s' (reads 7 true) ≡ panics)
unfolding reader_run
read_close-panics_example =
    read_close-panics parse text handed_on 7 1 id (post_at false) refl refl refl
