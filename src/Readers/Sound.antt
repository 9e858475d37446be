-- ===== src/Readers/Sound.antt =====
-- Each event of the readers of jsonrpc/httpio/reader.go keeps their invariant.
use hggutils.Common.{
  ℕ, ◌≡◌, ◌≢◌, refl, sym, ap, subst, ◌∙◌, inl, inr, Bool, true, false, List, Option, none, some,
  ◌==◌, if◌then◌else◌, nat_key, eqb_iff, Bool-cases, Option-cases,
}
use mathlib.Core.Option.{some-injective}
use hggutils.Common.Text.{Text, text_key}
use hggutils.Common.Dict.{find, put, find-put_self}
use hggutils.Rpc.Message.{Fault, Raw, Result, Result-cases}
use hggutils.Readers.{
  Place, offering, waiting, answered, Post, Decode, seeking, got, failed, Readers, Event, arrives,
  decodes_param, meets, post_ends, call_ends, reads, closes, wakes, Outcome, disabled, no_readers,
  chan_of, with_chan, put_post, answer, at_post, close_wait, read, end_at, wake_at, read_at,
  at_decode, handed, meet_at, end_decode, base, arrive, add_decode, decode_reader, step, Runs,
  start, next,
}
use hggutils.Readers.Invariant.{
  HasChan, Given, SeekOk, IsSound, Sound, with_chan-HasChan, with_chan-posts, with_chan-Sound,
  put_post-Sound, put_decode-Sound, changed-Sound,
}

at_post-Sound :
    (s : Readers) (h : ℕ) (k : Post → Outcome)
    → ((p : Post) → find h s.posts ≡ some p → Sound (k p))
    → Sound (at_post s h k)
at_post-Sound s h k f = elim (Option-cases (find h s.posts)) [
  | inl e ↦ rw (e, Sound) tt
  | inr (p, e) ↦ rw (e, Sound) (f p e)
]

close_wait-Sound :
    (s : Readers) (h : ℕ) (p : Post)
    → IsSound s
    → find h s.posts ≡ some p
    → Sound (close_wait s h p)
unfolding close_wait
close_wait-Sound s h p sound f = elim (Bool-cases p.wait_closed) [
  | inl e ↦ rw e tt
  | inr e ↦ rw e (changed-Sound s h p _ sound f refl refl (inl refl))
]

at_decode-Sound :
    (s : Readers) (d : ℕ) (k : Decode → Outcome)
    → ((q : Decode) → find d s.decodes ≡ some q → Sound (k q))
    → Sound (at_decode s d k)
at_decode-Sound s d k f = elim (Option-cases (find d s.decodes)) [
  | inl e ↦ rw (e, Sound) tt
  | inr (q, e) ↦ rw (e, Sound) (f q e)
]

guarded-Sound : (b : Bool) (o : Outcome) → (b ≡ true → Sound o) → Sound (if b then o else disabled)
guarded-Sound true o h = h refl
guarded-Sound false o h = tt

answer-Sound :
    (s : Readers) (h : ℕ) (p : Post) (code : ℕ)
    → IsSound s
    → find h s.posts ≡ some p
    → Sound (put_post s h (answer p code))
answer-Sound s h p code sound f = changed-Sound s h p _ sound f refl refl (inr λ k. cc k)

end_at-Sound :
    (o : Place) (s : Readers) (h : ℕ) (p : Post)
    → IsSound s
    → find h s.posts ≡ some p
    → Sound (end_at o s h p)
end_at-Sound offering s h p sound f = answer-Sound s h p 500 sound f
end_at-Sound waiting s h p sound f = answer-Sound s h p 500 sound f
end_at-Sound answered s h p sound f = tt

wake_at-Sound :
    (o : Place) (s : Readers) (h : ℕ) (p : Post)
    → IsSound s
    → find h s.posts ≡ some p
    → Sound (wake_at o s h p)
wake_at-Sound waiting s h p sound f =
    guarded-Sound p.wait_closed _ λ _. (answer-Sound s h p 200 sound f)
wake_at-Sound offering s h p sound f = tt
wake_at-Sound answered s h p sound f = tt

read-Sound :
    (s : Readers) (h : ℕ) (fails : Bool) (p : Post)
    → IsSound s
    → find h s.posts ≡ some p
    → Sound (read s h fails p)
unfolding read
read-Sound s h true p sound f = close_wait-Sound s h p sound f
read-Sound s h false p sound f = sound

read_at-Sound :
    (q : Decode) (s : Readers) (k : ℕ → Post → Outcome)
    → ((h : ℕ) (p : Post) → find h s.posts ≡ some p → Sound (k h p))
    → Sound (read_at q s k)
read_at-Sound (got u h) s k f = at_post-Sound s h (k h) (f h)
read_at-Sound (seeking _ _) s k f = tt
read_at-Sound (failed _) s k f = tt

failed-Sound : (s : Readers) (d : ℕ) (f : Fault) → IsSound s → IsSound (add_decode s d (failed f))
failed-Sound s d f sound =
    put_decode-Sound s d (failed f) sound (λ u c e. cc e) (λ u h e. cc e) (λ u v h e k. cc k)

end_decode-Sound :
    (s : Readers) (d : ℕ) (f : Fault) (q : Decode) → IsSound s → Sound (end_decode s d f q)
end_decode-Sound s d f (seeking _ _) sound = failed-Sound s d f sound
end_decode-Sound s d f (got _ _) sound = tt
end_decode-Sound s d f (failed _) sound = tt

-- A decoder that gets a handler's reader
abbrev GivenTo : Readers → Decode → Type 0
GivenTo s (got u h) = Given s u h
GivenTo s _ = Unit {0}

module _ (s : Readers) (h d : ℕ) (p : Post) (u : Text) (c : ℕ) (sound : IsSound s)
    (f : find h s.posts ≡ some p) (o : p.place ≡ offering)
    (g : find d s.decodes ≡ some (seeking u c)) (same : p.chan ≡ c) where
  abbrev released : Readers
  released = record s { posts = put h (handed p) s.posts }

  released-Given : Given released u h
  released-Given = (
    handed p,
    find-put_self h (handed p) s.posts,
    sound.0.1 p.uuid u c (subst (HasChan s p.uuid) same (sound.1 h p f)) (sound.2 d u c g),
    λ k. cc k,
  )

  only_offered : (v : Text) (e : ℕ) → find e s.decodes ≢ some (got v h)
  only_offered v e k =
      let (q, f', _, n) = sound.3 e v h k in
      n (sym (ap (λ p. p.place) (some-injective p q (sym f ∙ f'))) ∙ o)

  hand-Sound : IsSound (add_decode released d (got u h))
  hand-Sound =
      put_decode-Sound released d (got u h)
        (changed-Sound s h p (handed p) sound f refl refl (inr λ k. cc k)) (λ v i e. cc e)
        (λ v i e. subst (GivenTo released) e released-Given)
        (λ v w i e q k.
          only_offered w e
            (subst (λ i. find e s.decodes ≡ some (got w i)) (sym (same_handler i v q)) k))
    where
      same_handler : (i : ℕ) (v : Text) → got u h ≡ got v i → h ≡ i
      same_handler i v q = cc q

meet_at-Sound :
    (o : Place) (q : Decode) (s : Readers) (h d : ℕ) (p : Post)
    → IsSound s
    → find h s.posts ≡ some p
    → p.place ≡ o
    → find d s.decodes ≡ some q
    → Sound (meet_at o q s h d p)
meet_at-Sound offering (seeking u c) s h d p sound f o g =
    guarded-Sound (p.chan == c) _ λ e. hand-Sound s h d p u c sound f o g ((eqb_iff p.chan c).0 e)
meet_at-Sound offering (got _ _) s h d p sound f o g = tt
meet_at-Sound offering (failed _) s h d p sound f o g = tt
meet_at-Sound waiting q s h d p sound f o g = tt
meet_at-Sound answered q s h d p sound f o g = tt

module _ (parse_uuid : Text → Text × Option Fault) (decode_text : Raw → Result Text) where
  arrive-Sound :
      (s : Readers) (h : ℕ) (path : Text)
      → IsSound s
      → find h s.posts ≡ none
      → IsSound (arrive parse_uuid decode_text s h path)
  unfolding arrive
  arrive-Sound s h path sound e =
      let u = (parse_uuid (base path)).0 in
      put_post-Sound (with_chan s u) h _ (with_chan-Sound s u sound) (with_chan-HasChan s u)
        λ q f n. absurd (unused u q f)
    where
      unused : (u : Text) (q : Post) → find h (with_chan s u).posts ≢ some q
      unused u q f = let p = with_chan-posts s u in cc (e, p, f)

  seek-Sound :
      (s : Readers) (d : ℕ) (u : Text)
      → IsSound s
      → IsSound (add_decode (with_chan s u) d (seeking u (chan_of s u)))
  seek-Sound s d u sound =
      put_decode-Sound (with_chan s u) d (seeking u (chan_of s u)) (with_chan-Sound s u sound)
        (λ v c e. subst (SeekOk (with_chan s u)) e (with_chan-HasChan s u)) (λ v h e. cc e)
        (λ v w h e q k. cc q)

  decode_reader-Sound :
      (s : Readers) (d : ℕ) (raw : Raw)
      → IsSound s
      → IsSound (decode_reader parse_uuid decode_text s d raw)
  unfolding decode_reader
  decode_reader-Sound s d raw sound = elim (Result-cases (decode_text raw)) [
    | inr (f, e) ↦ rw (e, decode_reader) (failed-Sound s d f sound)
    | inl (t, e) ↦ elim (Option-cases (parse_uuid t).1) [
      | inr (f, e') ↦ rw (e, e', decode_reader) (failed-Sound s d f sound)
      | inl e' ↦ rw (e, e', decode_reader) (seek-Sound s d (parse_uuid t).0 sound)
    ]
  ]

  step-Sound : (s : Readers) (e : Event) → IsSound s → Sound (step parse_uuid decode_text s e)
  unfolding step
  step-Sound s (arrives h path) sound = elim (Option-cases (find h s.posts)) [
    | inl e ↦ rw (e, Sound) (arrive-Sound s h path sound e)
    | inr (p, e) ↦ rw (e, Sound) tt
  ]
  step-Sound s (decodes_param d raw) sound = elim (Option-cases (find d s.decodes)) [
    | inl e ↦ rw (e, Sound) (decode_reader-Sound s d raw sound)
    | inr (p, e) ↦ rw (e, Sound) tt
  ]
  step-Sound s (meets h d) sound =
      at_post-Sound s h _
        λ p f. at_decode-Sound s d _ λ q g. meet_at-Sound p.place q s h d p sound f refl g
  step-Sound s (post_ends h) sound = at_post-Sound s h _ λ p f. end_at-Sound p.place s h p sound f
  step-Sound s (call_ends d f) sound = at_decode-Sound s d _ λ q g. end_decode-Sound s d f q sound
  step-Sound s (reads d fails) sound =
      at_decode-Sound s d _
        λ q g. read_at-Sound q s (λ h. read s h fails) λ h p f. read-Sound s h fails p sound f
  step-Sound s (closes d) sound =
      at_decode-Sound s d _
        λ q g. read_at-Sound q s (close_wait s) λ h p f. close_wait-Sound s h p sound f
  step-Sound s (wakes h) sound = at_post-Sound s h _ λ p f. wake_at-Sound p.place s h p sound f

  no_readers-Sound : IsSound no_readers
  unfolding no_readers find
  no_readers-Sound = (
    (λ u c h. absurd (cc h), λ u v c h g. absurd (cc h)),
    λ h p e. absurd (cc e),
    λ d u c e. absurd (cc e),
    λ d u h e. absurd (cc e),
    λ d e u v h f g. absurd (cc f),
  )

  pub Runs-Sound :
      {s : Readers} {es : List Event} → Runs parse_uuid decode_text no_readers es s → IsSound s
  Runs-Sound start = no_readers-Sound
  Runs-Sound (next {s} r e h) = subst Sound h (step-Sound s e (Runs-Sound r))
