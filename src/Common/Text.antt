-- ===== src/Common/Text.antt =====
-- Go strings as lists of bytes, with the functions of package strings that the code calls.
-- Letters beyond ASCII keep their case here.
use Prim.Native.Nat.{ℕ, ◌+◌}
use Prim.Native.Char.{code}
use Prim.Native.String.{String}
use mathlib.Core.Path.{◌≡◌, refl, sym, ap, ◌∙◌}
use mathlib.Core.Logic.{◌↔◌, ◌≢◌}
use mathlib.Core.Bool.{Bool, true, false, ◌&&◌, ◌||◌}
use mathlib.Core.Option.{Option, none, some}
use mathlib.Core.List.{List, [], ◌∷◌, ◌++◌, map, append-nil, append_assoc}
use mathlib.Core.Logic.{inl, inr}
use native.Mathlib.Omega.{arith}
use hggutils.Common.Lists.{All}
use hggutils.Common.Tests.{Key, Bool-cases, eqb_iff, eqb, leb, if◌then◌else◌}

abbrev pub Text : Type 0
Text = List ℕ

abbrev pub codes : String → Text
codes String.[] = []
codes (String.◌∷◌ c s) = code c ∷ codes s

unfoldable pub text_beq : Text → Text → Bool
text_beq [] [] = true
text_beq [] (_ ∷ _) = false
text_beq (_ ∷ _) [] = false
text_beq (a ∷ s) (b ∷ t) = eqb a b && text_beq s t

text_beq→eq : (s t : Text) → text_beq s t ≡ true → s ≡ t
unfolding text_beq
text_beq→eq [] [] h = refl
text_beq→eq [] (b ∷ t) h = cc
text_beq→eq (a ∷ s) [] h = cc
text_beq→eq (a ∷ s) (b ∷ t) h = ground (arith, text_beq→eq s t)

text_beq_refl : (s : Text) → text_beq s s ≡ true
unfolding text_beq
text_beq_refl [] = refl
text_beq_refl (a ∷ s) = ground (arith, text_beq_refl s)

pub text_beq_iff : (s t : Text) → (text_beq s t ≡ true) ↔ (s ≡ t)
text_beq_iff s t = (text_beq→eq s t, λ e. rw e (text_beq_refl t))

instance abbrev pub text_key : Key Text
text_key = record { beq = text_beq; beq_iff = text_beq_iff }

unfoldable pub to_lower_byte : ℕ → ℕ
to_lower_byte c = if leb b'A' c && leb c b'Z' then c + 32 else c

-- strings.ToLower
unfoldable pub to_lower : Text → Text
unfolding to_lower_byte
to_lower = map to_lower_byte

-- strings.HasPrefix
unfoldable pub has_prefix : Text → Text → Bool
has_prefix s [] = true
has_prefix [] (_ ∷ _) = false
has_prefix (a ∷ s) (b ∷ p) = eqb a b && has_prefix s p

-- strings.Contains
unfoldable pub contains : Text → Text → Bool
unfolding has_prefix
contains [] p = has_prefix [] p
contains (a ∷ s) p = has_prefix (a ∷ s) p || contains s p

cut_prefix : Text → Text → Option Text
cut_prefix s [] = some s
cut_prefix [] (_ ∷ _) = none
cut_prefix (a ∷ s) (b ∷ p) = if eqb a b then cut_prefix s p else none

-- strings.TrimPrefix
unfoldable pub trim_prefix : Text → Text → Text
unfolding cut_prefix
trim_prefix s p = elim (cut_prefix s p) [ none ↦ s | some rest ↦ rest ]

cut_prefix-append : (p s : Text) → cut_prefix (p ++ s) p ≡ some s
unfolding cut_prefix
cut_prefix-append [] s = refl
cut_prefix-append (a ∷ p) s = ground (arith, cut_prefix-append p s)

pub trim_prefix-append : (p s : Text) → trim_prefix (p ++ s) p ≡ s
unfolding trim_prefix
trim_prefix-append p s = rw (cut_prefix-append p s, trim_prefix)

pub has_prefix-append : (p s : Text) → has_prefix (p ++ s) p ≡ true
unfolding has_prefix
has_prefix-append [] s = refl
has_prefix-append (a ∷ p) s = ground (arith, has_prefix-append p s)

prefix-cut_prefix :
    (s p : Text)
    → has_prefix s p ≡ true
    → (rest : Text) × (cut_prefix s p ≡ some rest) × (s ≡ p ++ rest)
unfolding has_prefix cut_prefix
prefix-cut_prefix s [] h = (s, refl, refl)
prefix-cut_prefix [] (b ∷ p) h = cc
prefix-cut_prefix (a ∷ s) (b ∷ p) h =
    let (rest, cut, e) = prefix-cut_prefix s p (ground arith) in
    let same : a ≡ b = ground arith in (rest, ground (arith, cut), cc)

pub has_prefix-trim_prefix : (s p : Text) → has_prefix s p ≡ true → s ≡ p ++ trim_prefix s p
unfolding trim_prefix
has_prefix-trim_prefix s p h =
    let (rest, cut, e) = prefix-cut_prefix s p h in rw (cut, trim_prefix) e

-- strings.Split(s, sep) for a separator of one byte; `cur` is the part that is being read.
split_from : ℕ → Text → Text → List Text
split_from sep cur [] = cur ∷ []
split_from sep cur (c ∷ s) = elim (eqb c sep) [
  | true ↦ cur ∷ split_from sep [] s
  | false ↦ split_from sep (cur ++ c ∷ []) s
]

unfoldable pub split : ℕ → Text → List Text
unfolding split_from
split sep s = split_from sep [] s

abbrev pub Lacks : ℕ → Text → Type 0
Lacks sep [] = Unit {0}
Lacks sep (c ∷ s) = (c ≢ sep) × Lacks sep s

split_from-lacking : (sep : ℕ) (cur s : Text) → Lacks sep s → split_from sep cur s ≡ (cur ++ s) ∷ []
unfolding split_from
split_from-lacking sep cur [] l = ap (λ t. t ∷ []) (sym (append-nil cur))
split_from-lacking sep cur (c ∷ s) (n, l) = elim (Bool-cases (eqb c sep)) [
  | inl e ↦ absurd (n ((eqb_iff c sep).0 e))
  | inr e ↦
      rw (e, split_from)
        (split_from-lacking sep (cur ++ c ∷ []) s l
          ∙ ap (λ t. t ∷ []) (append_assoc cur (c ∷ []) s))
]

split_from-sep :
    (sep : ℕ) (cur s t : Text)
    → Lacks sep s
    → split_from sep cur (s ++ sep ∷ t) ≡ (cur ++ s) ∷ split_from sep [] t
unfolding split_from
split_from-sep sep cur [] t l =
    rw ((eqb_iff sep sep).1 refl, split_from)
      (ap (λ u. u ∷ split_from sep [] t) (sym (append-nil cur)))
split_from-sep sep cur (c ∷ s) t (n, l) = elim (Bool-cases (eqb c sep)) [
  | inl e ↦ absurd (n ((eqb_iff c sep).0 e))
  | inr e ↦
      rw (e, split_from)
        (split_from-sep sep (cur ++ c ∷ []) s t l
          ∙ ap (λ u. u ∷ split_from sep [] t) (append_assoc cur (c ∷ []) s))
]

pub split-lacking : (sep : ℕ) (s : Text) → Lacks sep s → split sep s ≡ s ∷ []
unfolding split
split-lacking sep s l = split_from-lacking sep [] s l

pub split-sep : (sep : ℕ) (s t : Text) → Lacks sep s → split sep (s ++ sep ∷ t) ≡ s ∷ split sep t
unfolding split
split-sep sep s t l = split_from-sep sep [] s t l

split_from-last :
    (sep : ℕ) (cur s t : Text)
    → Lacks sep t
    → split_from sep cur (s ++ sep ∷ t) ≡ split_from sep cur s ++ t ∷ []
unfolding split_from
split_from-last sep cur [] t l =
    rw ((eqb_iff sep sep).1 refl, split_from) (ap (λ u. cur ∷ u) (split_from-lacking sep [] t l))
split_from-last sep cur (c ∷ s) t l = elim (Bool-cases (eqb c sep)) [
  | inl e ↦ rw (e, split_from) (ap (λ u. cur ∷ u) (split_from-last sep [] s t l))
  | inr e ↦ rw (e, split_from) (split_from-last sep (cur ++ c ∷ []) s t l)
]

-- A last part without a separator is split off whole.
pub split-last :
    (sep : ℕ) (s t : Text) → Lacks sep t → split sep (s ++ sep ∷ t) ≡ split sep s ++ t ∷ []
unfolding split
split-last sep s t l = split_from-last sep [] s t l

Lacks-snoc : (sep c : ℕ) (s : Text) → Lacks sep s → c ≢ sep → Lacks sep (s ++ c ∷ [])
Lacks-snoc sep c [] l n = (n, tt)
Lacks-snoc sep c (d ∷ s) (m, l) n = (m, Lacks-snoc sep c s l n)

split_from-AllLack :
    (sep : ℕ) (cur s : Text) → Lacks sep cur → All (Lacks sep) (split_from sep cur s)
unfolding split_from
split_from-AllLack sep cur [] l = (l, tt)
split_from-AllLack sep cur (c ∷ s) l = elim (Bool-cases (eqb c sep)) [
  | inl e ↦ rw (e, split_from) (l, split_from-AllLack sep [] s tt)
  | inr e ↦
      rw (e, split_from)
        (split_from-AllLack sep (cur ++ c ∷ []) s
          (Lacks-snoc sep c cur l (λ h. cc ((eqb_iff c sep).1 h))))
]

pub split-AllLack : (sep : ℕ) (s : Text) → All (Lacks sep) (split sep s)
unfolding split
split-AllLack sep s = split_from-AllLack sep [] s tt
