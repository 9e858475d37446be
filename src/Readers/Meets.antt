-- ===== src/Readers/Meets.antt =====
-- Which reader a decoder of jsonrpc/httpio/reader.go gets, and that it gets one.
use hggutils.Common.{
  ℕ, ◌≡◌, refl, sym, ap, ◌∙◌, true, false, List, ◌∷◌, Option, none, some, nat_key, eqb_iff,
}
use mathlib.Core.Option.{some-injective}
use hggutils.Common.Text.{Text, text_key}
use hggutils.Common.Dict.{find, put, find-put_self}
use hggutils.Rpc.Message.{Fault, Raw, Result, ok}
use hggutils.Readers.{
  offering, waiting, Post, Decode, seeking, got, Readers, Event, arrives, decodes_param, meets,
  reads, closes, Outcome, panics, moves, no_readers, chan_of, with_chan, at_post, at_decode,
  close_wait, read, reader_path, base, arrive, add_decode, decode_reader, step, Runs, next,
}
use hggutils.Readers.Invariant.{Given, with_chan-posts, with_chan-decodes}
use hggutils.Readers.Sound.{Runs-Sound}
use hggutils.Readers.Paths.{IsPart, reader_path-base}

at_post-some :
    (s : Readers) (h : ℕ) (p : Post) (k : Post → Outcome)
    → find h s.posts ≡ some p
    → at_post s h k ≡ k p
at_post-some s h p k f = rw (f, at_post) refl

at_decode-some :
    (s : Readers) (d : ℕ) (q : Decode) (k : Decode → Outcome)
    → find d s.decodes ≡ some q
    → at_decode s d k ≡ k q
at_decode-some s d q k f = rw (f, at_decode) refl

module _ (parse_uuid : Text → Text × Option Fault) (decode_text : Raw → Result Text) where
  -- A reader goes to one decoder, and to one that asked for it. In every state that the events lead to,
  -- two decoders that got the reader of the same handler are one, and that handler's request came under
  -- the identifier that the decoder asked for, and is no longer offering its reader.
  pub got-once :
      (es : List Event) (s : Readers) (d e h : ℕ) (u v : Text)
      → Runs parse_uuid decode_text no_readers es s
      → find d s.decodes ≡ some (got u h)
      → find e s.decodes ≡ some (got v h)
      → (d ≡ e) × Given s u h
  got-once es s d e h u v r f g =
      let (_, _, _, gots, once) = Runs-Sound parse_uuid decode_text r in
      (once d e u v h f g, gots d u h f)

  -- A handler and a decoder of one identifier can meet, whichever came first. In every state that the
  -- events lead to, if a handler is at its first select and a decoder at its own, and both came under the
  -- same identifier, then the send and the receive can happen together: the handler goes on to wait for
  -- the reader's end, and the decoder has its reader.
  pub posted-meets :
      (es : List Event) (s : Readers) (h d c : ℕ) (p : Post)
      → Runs parse_uuid decode_text no_readers es s
      → find h s.posts ≡ some p
      → p.place ≡ offering
      → find d s.decodes ≡ some (seeking p.uuid c)
      → step parse_uuid decode_text s (meets h d)
        ≡ moves (record s {
          posts = put h (record p { place = waiting }) s.posts;
          decodes = put d (got p.uuid h) s.decodes;
        })
  unfolding step
  posted-meets es s h d c p r f o g =
      let (_, posts, seeks, _, _) = Runs-Sound parse_uuid decode_text r in
      let same : p.chan ≡ c = some-injective p.chan c (sym (posts h p f) ∙ seeks d p.uuid c g) in
      at_post-some s h p _ f
      ∙ at_decode-some s d (seeking p.uuid c) _ g
      ∙ rw (o, (eqb_iff p.chan c).1 same) refl

  -- The handler of a request to a path that ends in this text
  module _ (s : Readers) (h : ℕ) (path id : Text) (named : base path ≡ id) where
    abbrev arrived : Readers
    arrived = arrive parse_uuid decode_text s h path

    step-arrived :
        find h s.posts ≡ none → step parse_uuid decode_text s (arrives h path) ≡ moves arrived
    unfolding step
    step-arrived f = rw (f, step) refl

    arrived-post :
        (p : Post) × (find h arrived.posts ≡ some p)
        × (p.uuid ≡ (parse_uuid id).0)
        × (p.place ≡ offering)
    unfolding arrive
    arrived-post = (_, find-put_self h _ _, ap (λ t. (parse_uuid t).0) named, refl)

    arrived-decodes : arrived.decodes ≡ s.decodes
    unfolding arrive
    arrived-decodes = with_chan-decodes s _

  -- The decoder of a param with this text
  module _ (s : Readers) (d : ℕ) (raw : Raw) (t : Text) (text : decode_text raw ≡ ok t)
      (parses : (parse_uuid t).1 ≡ none) where
    abbrev sought : Readers
    sought = let u = (parse_uuid t).0 in add_decode (with_chan s u) d (seeking u (chan_of s u))

    step-sought :
        find d s.decodes ≡ none → step parse_uuid decode_text s (decodes_param d raw) ≡ moves sought
    unfolding step decode_reader
    step-sought f = rw (f, step) (rw (text, parses, decode_reader) refl)

    sought-decode :
        find d sought.decodes ≡ some (seeking (parse_uuid t).0 (chan_of s (parse_uuid t).0))
    sought-decode = find-put_self d _ _

    sought-posts : sought.posts ≡ s.posts
    sought-posts = with_chan-posts s _

  -- A reader reaches the call that it is a param of. The request that the encoder makes for a reader,
  -- under the path of the address and a fresh identifier, and the decoder that gets this identifier as
  -- the param's text, meet: from every state that the events lead to, with a new handler and a new
  -- decoder, the arrival of the request, the decoding and their meeting can follow one another, and then
  -- the decoder has the reader of that request. The identifier's text is one that parses, without a
  -- slash, and not empty, "." or "..".
  pub encoded-decoded :
      (es : List Event) (s : Readers) (h d : ℕ) (path id u : Text) (raw : Raw)
      → IsPart id
      → parse_uuid id ≡ (u, none)
      → decode_text raw ≡ ok id
      → Runs parse_uuid decode_text no_readers es s
      → find h s.posts ≡ none
      → find d s.decodes ≡ none
      → (s' : Readers) × Runs parse_uuid decode_text no_readers
          (meets h d ∷ decodes_param d raw ∷ arrives h (reader_path path id) ∷ es)
          s'
        × (find d s'.decodes ≡ some (got u h))
  encoded-decoded es s h d path id u raw part e e' r f g =
      let full = reader_path path id in
      let named = reader_path-base path id part in
      let s' = arrived s h full id named in
      let parses = ap (λ r. r.1) e in
      let s'' = sought s' d raw id e' parses in
      let c = chan_of s' (parse_uuid id).0 in
      let (p, f', o, o') = arrived-post s h full id named in
      let g' = ap (λ m. find d m) (arrived-decodes s h full id named) ∙ g in
      let r' = next r (arrives h full) (step-arrived s h full id named f) in
      let r'' = next r' (decodes_param d raw) (step-sought s' d raw id e' parses g') in
      let f'' = ap (λ m. find h m) (sought-posts s' d raw id e' parses) ∙ f' in
      let g'' = sought-decode s' d raw id e' parses ∙ ap (λ u. some (seeking u c)) (sym o) in
      (
        _,
        next r'' (meets h d) (posted-meets _ s'' h d c p r'' f'' o' g''),
        find-put_self d _ _ ∙ ap (λ u. some (got u h)) (o ∙ ap (λ r. r.0) e),
      )

  -- A reader that is closed after its end panics, in the method that closes it. When a decoder has got the reader of a
  -- handler and wr.wait is open, a Read that returns an error, as the end of the body does, closes it,
  -- and a Close or a further Read with an error then panics on the closed
  -- channel.
  pub read_close-panics :
      (s : Readers) (d h : ℕ) (u : Text) (p : Post)
      → find d s.decodes ≡ some (got u h)
      → find h s.posts ≡ some p
      → p.wait_closed ≡ false
      → (s' : Readers) × (step parse_uuid decode_text s (reads d true) ≡ moves s')
        × (step parse_uuid decode_text s' (closes d) ≡ panics)
        × (step parse_uuid decode_text s' (reads d true) ≡ panics)
  unfolding step read close_wait
  read_close-panics s d h u p f g o =
      let q = record p { wait_closed = true } in
      let k = find-put_self h q s.posts in
      let s' = record s { posts = put h q s.posts } in
      (
        s',
        at_decode-some s d (got u h) _ f ∙ at_post-some s h p _ g ∙ rw o refl,
        at_decode-some s' d (got u h) _ f ∙ at_post-some s' h q _ k,
        at_decode-some s' d (got u h) _ f ∙ at_post-some s' h q _ k,
      )
