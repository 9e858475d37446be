-- ===== src/Readers/Paths.antt =====
-- The path of a reader's request and path.Base of it (jsonrpc/httpio/reader.go).
use hggutils.Common.{
  ℕ, ◌≡◌, ◌≢◌, refl, sym, ap, subst, ◌∙◌, ◌⊎◌, inl, inr, Bool, true, false, List, [], ◌∷◌, ◌++◌,
  ◌==◌, nat_key, eqb_iff, Bool-cases,
}
use mathlib.Core.List.{append_assoc, append-nil}
use hggutils.Common.Text.{
  Text, codes, text_key, text_beq_iff, split, split-last, split-lacking, Lacks,
}
use hggutils.Readers.{
  push_part, push_parts, join_back, is_rooted, cleaned, clean, reader_path, strip_slashes,
  after_slash, base,
}

-- An identifier's text: a part of a path that path.Clean keeps
abbrev pub IsPart : Text → Type 0
IsPart id = Lacks b'/' id × (id ≢ []) × (id ≢ codes ".") × (id ≢ codes "..")

text_beq_false : (s t : Text) → s ≢ t → (s == t) ≡ false
text_beq_false s t n = elim (Bool-cases (s == t)) [
  | inl e ↦ absurd (n ((text_beq_iff s t).0 e))
  | inr e ↦ e
]

push_part-part :
    (rooted : Bool) (stack : List Text) (id : Text)
    → IsPart id
    → push_part rooted stack id ≡ id ∷ stack
push_part-part rooted stack id (l, n, n', n'') =
    rw
      (text_beq_false id [] n, text_beq_false id (codes ".") n', text_beq_false id (codes "..") n'')
      refl

push_parts-snoc :
    (rooted : Bool) (stack parts : List Text) (id : Text)
    → IsPart id
    → push_parts rooted stack (parts ++ id ∷ []) ≡ id ∷ push_parts rooted stack parts
push_parts-snoc rooted stack [] id p = push_part-part rooted stack id p
push_parts-snoc rooted stack (part ∷ parts) id p =
    push_parts-snoc rooted (push_part rooted stack part) parts id p

-- A text that is a part, or ends in a slash and the part
abbrev EndsIn : Text → Text → Type 0
EndsIn id s = (s ≡ id) ⊎ ((before : Text) × (s ≡ before ++ b'/' ∷ id))

join_back-EndsIn : (stack : List Text) (id : Text) → EndsIn id (join_back (id ∷ stack))
join_back-EndsIn [] id = inl refl
join_back-EndsIn (next ∷ rest) id = inr (join_back (next ∷ rest), refl)

rooted-EndsIn : (id s : Text) → EndsIn id s → EndsIn id (b'/' ∷ s)
rooted-EndsIn id s (inl e) = inr ([], ap (λ s. b'/' ∷ s) e)
rooted-EndsIn id s (inr (before, e)) = inr (b'/' ∷ before, ap (λ s. b'/' ∷ s) e)

not_slash : (c : ℕ) → c ≢ b'/' → (c == b'/') ≡ false
not_slash c n = elim (Bool-cases (c == b'/')) [
  | inl e ↦ absurd (n ((eqb_iff c b'/').0 e))
  | inr e ↦ e
]

after_slash-lacking : (cur s : Text) → Lacks b'/' s → after_slash cur s ≡ cur ++ s
after_slash-lacking cur [] l = sym (append-nil cur)
after_slash-lacking cur (c ∷ s) (n, l) =
    rw (not_slash c n, after_slash)
      (after_slash-lacking (cur ++ c ∷ []) s l ∙ append_assoc cur (c ∷ []) s)

after_slash-last : (cur s t : Text) → after_slash cur (s ++ b'/' ∷ t) ≡ after_slash [] t
after_slash-last cur [] t = refl
after_slash-last cur (c ∷ s) t = elim (Bool-cases (c == b'/')) [
  | inl e ↦ rw (e, after_slash) (after_slash-last [] s t)
  | inr e ↦ rw (e, after_slash) (after_slash-last (cur ++ c ∷ []) s t)
]

strip-lacking : (s : Text) → Lacks b'/' s → strip_slashes s ≡ s
strip-lacking [] l = refl
strip-lacking (c ∷ s) (n, l) = rw (not_slash c n) (ap (λ s. c ∷ s) (strip-lacking s l))

strip-kept : (c : ℕ) (s : Text) → s ≢ [] → strip_slashes s ≡ s → strip_slashes (c ∷ s) ≡ c ∷ s
strip-kept c s n e = elim (Bool-cases (c == b'/')) [
  | inl k ↦ rw (k, e, text_beq_false s [] n) refl
  | inr k ↦ rw (k, e) refl
]

snoc-ne-nil : (s t : Text) (c : ℕ) → (s ++ c ∷ t) ≢ []
snoc-ne-nil [] t c e = cc e
snoc-ne-nil (_ ∷ s) t c e = cc e

strip-part :
    (s id : Text) → Lacks b'/' id → id ≢ [] → strip_slashes (s ++ b'/' ∷ id) ≡ s ++ b'/' ∷ id
strip-part [] id l n = strip-kept b'/' id n (strip-lacking id l)
strip-part (c ∷ s) id l n =
    strip-kept c (s ++ b'/' ∷ id) (snoc-ne-nil s id b'/') (strip-part s id l n)

base-EndsIn : (id s : Text) → IsPart id → EndsIn id s → base s ≡ id
unfolding base
base-EndsIn id s (l, n, _, _) (inl e) =
    rw (e, text_beq_false id [] n, strip-lacking id l, text_beq_false id [] n)
      (after_slash-lacking [] id l)
base-EndsIn id s (l, n, _, _) (inr (before, e)) =
    let k = text_beq_false (before ++ b'/' ∷ id) [] (snoc-ne-nil before id b'/') in
    rw (e, k, strip-part before id l n, k)
      (after_slash-last [] before id ∙ after_slash-lacking [] id l)

EndsIn-ne-nil : (id s : Text) → id ≢ [] → EndsIn id s → s ≢ []
EndsIn-ne-nil id s n (inl e) k = n (sym e ∙ k)
EndsIn-ne-nil id s n (inr (before, e)) k = snoc-ne-nil before id b'/' (sym e ∙ k)

cleaned-EndsIn :
    (rooted : Bool) (id s : Text) → id ≢ [] → EndsIn id s → EndsIn id (cleaned rooted s)
cleaned-EndsIn true id s n h = rooted-EndsIn id s h
cleaned-EndsIn false id s n h = rw (text_beq_false s [] (EndsIn-ne-nil id s n h)) h

-- path.Clean keeps a last part.
clean-EndsIn :
    (s id : Text) (parts : List Text)
    → IsPart id
    → split b'/' s ≡ parts ++ id ∷ []
    → EndsIn id (clean s)
unfolding clean
clean-EndsIn s id parts p e =
    let rooted = is_rooted s in
    cleaned-EndsIn rooted id _ p.1 (
      subst (λ stack. EndsIn id (join_back stack))
        (sym (ap (push_parts rooted []) e ∙ push_parts-snoc rooted [] parts id p))
        (join_back-EndsIn (push_parts rooted [] parts) id))

-- path.Base undoes path.Join: the last part of the path of a reader's request is its identifier, for an
-- identifier that is a part of a path, whatever the path of the address.
pub reader_path-base : (path id : Text) → IsPart id → base (reader_path path id) ≡ id
unfolding reader_path
reader_path-base path id p = elim (Bool-cases (path == [])) [
  | inl e ↦
      rw (e, reader_path)
        (base-EndsIn id (clean id) p (clean-EndsIn id id [] p (split-lacking b'/' id p.0)))
  | inr e ↦
      rw (e, reader_path)
        (base-EndsIn id (clean (path ++ b'/' ∷ id)) p
          (clean-EndsIn (path ++ b'/' ∷ id) id (split b'/' path) p (split-last b'/' path id p.0)))
]
