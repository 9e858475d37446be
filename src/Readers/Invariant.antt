-- ===== src/Readers/Invariant.antt =====
-- The invariant of the readers of jsonrpc/httpio/reader.go, and the changes of their maps that keep it.
use hggutils.Common.{
  ℕ, suc, ◌<◌, ◌≡◌, ◌≢◌, refl, sym, ap, subst, ◌∙◌, ◌⊎◌, inl, inr, none, some, ◌==◌, nat_key, arith,
  eqb_iff, Bool-cases, Option-cases,
}
use mathlib.Core.Option.{some-injective}
use hggutils.Common.Text.{Text, text_key}
use hggutils.Common.Dict.{find, put, find-put_self, find-put_ne, find-put-cases}
use hggutils.Readers.{
  offering, Post, Decode, seeking, got, Readers, Outcome, disabled, panics, moves, chan_of,
  with_chan, add_decode,
}

-- The channels are counted, and no two identifiers share one.
abbrev ChansOk : Readers → Type 0
ChansOk s =
    ((u : Text) (c : ℕ) → find u s.channels ≡ some c → c < s.next_chan)
    × ((u v : Text) (c : ℕ) → find u s.channels ≡ some c → find v s.channels ≡ some c → u ≡ v)

abbrev pub HasChan : Readers → Text → ℕ → Type 0
HasChan s u c = find u s.channels ≡ some c

abbrev PostsOk : Readers → Type 0
PostsOk s = (h : ℕ) (p : Post) → find h s.posts ≡ some p → HasChan s p.uuid p.chan

abbrev SeeksOk : Readers → Type 0
SeeksOk s = (d : ℕ) (u : Text) (c : ℕ) → find d s.decodes ≡ some (seeking u c) → HasChan s u c

-- The handler has handed its reader on, and it came under this identifier.
abbrev pub Given : Readers → Text → ℕ → Type 0
Given s u h = (p : Post) × (find h s.posts ≡ some p) × (p.uuid ≡ u) × (p.place ≢ offering)

abbrev pub SeekOk : Readers → Decode → Type 0
SeekOk s (seeking u c) = HasChan s u c
SeekOk s _ = Unit {0}

abbrev GotsOk : Readers → Type 0
GotsOk s = (d : ℕ) (u : Text) (h : ℕ) → find d s.decodes ≡ some (got u h) → Given s u h

abbrev Once : Readers → Type 0
Once s =
    (d e : ℕ) (u v : Text) (h : ℕ)
    → find d s.decodes ≡ some (got u h)
    → find e s.decodes ≡ some (got v h)
    → d ≡ e

abbrev pub IsSound : Readers → Type 0
IsSound s = ChansOk s × PostsOk s × SeeksOk s × GotsOk s × Once s

abbrev pub Sound : Outcome → Type 0
Sound disabled = Unit {0}
Sound panics = Unit {0}
Sound (moves s) = IsSound s

pub with_chan-HasChan : (s : Readers) (u : Text) → HasChan (with_chan s u) u (chan_of s u)
unfolding with_chan
with_chan-HasChan s u = elim (Option-cases (find u s.channels)) [
  | inl e ↦ rw (e, with_chan, chan_of) (find-put_self u s.next_chan s.channels)
  | inr (c, e) ↦ rw (e, with_chan, chan_of) e
]

-- A new channel under an identifier that has none
module _ (s : Readers) (u : Text) (fresh : find u s.channels ≡ none) where
  abbrev added : Readers
  added = record s { channels = put u s.next_chan s.channels; next_chan = suc s.next_chan }

  added-HasChan : (v : Text) (c : ℕ) → HasChan s v c → HasChan added v c
  added-HasChan v c h = find-put_ne u v s.next_chan s.channels (λ q. other q) ∙ h
    where
      other : u ≢ v
      other q = cc (fresh, h)

  added-ChansOk : ChansOk s → ChansOk added
  added-ChansOk (below, one) = (below', one')
    where
      below' : (v : Text) (c : ℕ) → HasChan added v c → c < suc s.next_chan
      below' v c h = elim (find-put-cases u v s.next_chan c s.channels h) [
        | inl (_, e) ↦ omega arith
        | inr (_, g) ↦ omega (arith, below v c g)
      ]

      one' : (v w : Text) (c : ℕ) → HasChan added v c → HasChan added w c → v ≡ w
      one' v w c h g = elim (find-put-cases u v s.next_chan c s.channels h) [
        | inl (e, e') ↦ elim (find-put-cases u w s.next_chan c s.channels g) [
          | inl (d, _) ↦ sym e ∙ d
          | inr (_, k) ↦ absurd (omega (arith, below w c k))
        ]
        | inr (_, h') ↦ elim (find-put-cases u w s.next_chan c s.channels g) [
          | inl (_, e') ↦ absurd (omega (arith, below v c h'))
          | inr (_, g') ↦ one v w c h' g'
        ]
      ]

  added-Sound : IsSound s → IsSound added
  added-Sound (chans, posts, seeks, gots, once) = (
    added-ChansOk chans,
    λ h p e. added-HasChan p.uuid p.chan (posts h p e),
    λ d v c e. added-HasChan v c (seeks d v c e),
    gots,
    once,
  )

pub with_chan-posts : (s : Readers) (u : Text) → (with_chan s u).posts ≡ s.posts
unfolding with_chan
with_chan-posts s u = elim (Option-cases (find u s.channels)) [
  | inl e ↦ rw (e, with_chan) refl
  | inr (c, e) ↦ rw (e, with_chan) refl
]

pub with_chan-decodes : (s : Readers) (u : Text) → (with_chan s u).decodes ≡ s.decodes
unfolding with_chan
with_chan-decodes s u = elim (Option-cases (find u s.channels)) [
  | inl e ↦ rw (e, with_chan) refl
  | inr (c, e) ↦ rw (e, with_chan) refl
]

pub with_chan-Sound : (s : Readers) (u : Text) → IsSound s → IsSound (with_chan s u)
unfolding with_chan
with_chan-Sound s u h = elim (Option-cases (find u s.channels)) [
  | inl e ↦ rw (e, with_chan) (added-Sound s u e h)
  | inr (c, e) ↦ rw (e, with_chan) h
]

decides : (h i : ℕ) → (h ≡ i) ⊎ (h ≢ i)
decides h i = elim (Bool-cases (h == i)) [
  | inl same ↦ inl ((eqb_iff h i).0 same)
  | inr other ↦ inr (λ q. cc (other, (eqb_iff h i).1 q))
]

-- A write of a handler's entry keeps the identifier, and an entry that is handed on stays so.
pub put_post-Sound :
    (s : Readers) (h : ℕ) (p : Post)
    → IsSound s
    → HasChan s p.uuid p.chan
    → ((q : Post)
        → find h s.posts ≡ some q
        → q.place ≢ offering
        → (p.uuid ≡ q.uuid) × (p.place ≢ offering))
    → IsSound (record s { posts = put h p s.posts })
put_post-Sound s h p (chans, posts, seeks, gots, once) c keep = (chans, posts', seeks, gots', once)
  where
    posts' : PostsOk (record s { posts = put h p s.posts })
    posts' i q e = elim (find-put-cases h i p q s.posts e) [
      | inl (_, e') ↦ subst (λ q. HasChan s q.uuid q.chan) e' c
      | inr (_, g) ↦ posts i q g
    ]

    gots' : GotsOk (record s { posts = put h p s.posts })
    gots' d u i e =
        let (q, f, e', n) = gots d u i e in
        elim (decides h i) [
          | inl a ↦
              let k = keep q (subst (λ i. find i s.posts ≡ some q) (sym a) f) n in
              (
                p,
                subst (λ i. find i (put h p s.posts) ≡ some p) a (find-put_self h p s.posts),
                k.0 ∙ e',
                k.1,
              )
          | inr a ↦ (q, find-put_ne h i p s.posts a ∙ f, e', n)
        ]

pub put_decode-Sound :
    (s : Readers) (d : ℕ) (q : Decode)
    → IsSound s
    → ((u : Text) (c : ℕ) → q ≡ seeking u c → HasChan s u c)
    → ((u : Text) (h : ℕ) → q ≡ got u h → Given s u h)
    → ((u v : Text) (h e : ℕ) → q ≡ got u h → find e s.decodes ≢ some (got v h))
    → IsSound (add_decode s d q)
put_decode-Sound s d q (chans, posts, seeks, gots, once) seek give one =
    (chans, posts, seeks', gots', once')
  where
    seeks' : SeeksOk (add_decode s d q)
    seeks' e u c h = elim (find-put-cases d e q (seeking u c) s.decodes h) [
      | inl (_, e') ↦ seek u c e'
      | inr (_, g) ↦ seeks e u c g
    ]

    gots' : GotsOk (add_decode s d q)
    gots' e u h f = elim (find-put-cases d e q (got u h) s.decodes f) [
      | inl (_, e') ↦ give u h e'
      | inr (_, g) ↦ gots e u h g
    ]

    once' : Once (add_decode s d q)
    once' e i u v h f g = elim (find-put-cases d e q (got u h) s.decodes f) [
      | inl (a, b) ↦ elim (find-put-cases d i q (got v h) s.decodes g) [
        | inl (a', _) ↦ sym a ∙ a'
        | inr (_, g') ↦ absurd (one u v h i b g')
      ]
      | inr (_, f') ↦ elim (find-put-cases d i q (got v h) s.decodes g) [
        | inl (_, b) ↦ absurd (one v u h e b f')
        | inr (_, g') ↦ once e i u v h f' g'
      ]
    ]

-- A handler's entry that keeps its identifier and channel, and is at its first select only if it was.
pub changed-Sound :
    (s : Readers) (h : ℕ) (p q : Post)
    → IsSound s
    → find h s.posts ≡ some p
    → q.uuid ≡ p.uuid
    → q.chan ≡ p.chan
    → (q.place ≡ p.place) ⊎ (q.place ≢ offering)
    → IsSound (record s { posts = put h q s.posts })
changed-Sound s h p q sound f u c pl =
    put_post-Sound s h q sound
      (subst (λ u. HasChan s u q.chan) (sym u) (subst (HasChan s p.uuid) (sym c) (sound.1 h p f)))
      keep
  where
    keep :
        (r : Post)
        → find h s.posts ≡ some r
        → r.place ≢ offering
        → (q.uuid ≡ r.uuid) × (q.place ≢ offering)
    keep r g n =
        let e = some-injective p r (sym f ∙ g) in
        (
          u ∙ ap (λ p. p.uuid) e,
          elim pl [ inl o ↦ λ k. n (sym (ap (λ p. p.place) e) ∙ sym o ∙ k) | inr o ↦ o ],
        )
