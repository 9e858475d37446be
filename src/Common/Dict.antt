-- ===== src/Common/Dict.antt =====
-- A Go map as an association list with one entry for each key.
use hggutils.Common.Tests.{Key, ◌==◌, if◌then◌else◌, Bool-cases}
use Prim.Native.Nat.{ℕ, ◌+◌}
use mathlib.Core.Path.{◌≡◌, refl, sym, subst, ◌∙◌}
use mathlib.Core.Logic.{◌≢◌, ◌⊎◌, inl, inr}
use mathlib.Core.Option.{Option, none, some, some-injective}
use mathlib.Core.List.{List, [], ◌∷◌}
use native.Mathlib.Omega.{arith}

abbrev pub Dict {ℓ κ} : Type ℓ → Type κ → Type (ℓ ⊔ κ)
Dict K V = List (K × V)

module _ {ℓ κ} {K : Type ℓ} {V : Type κ} ⦃e : Key K⦄ where
  -- m[k], with `none` for a missing key
  unfoldable pub find : K → Dict K V → Option V
  find k [] = none
  find k ((j, v) ∷ m) = if j == k then some v else find k m

  -- delete(m, k)
  unfoldable pub delete : K → Dict K V → Dict K V
  delete k [] = []
  delete k ((j, v) ∷ m) = if j == k then delete k m else (j, v) ∷ delete k m

  -- m[k] = v
  unfoldable pub put : K → V → Dict K V → Dict K V
  unfolding delete
  put k v m = (k, v) ∷ delete k m

  pub find-delete_self : (k : K) (m : Dict K V) → find k (delete k m) ≡ none
  unfolding find delete
  find-delete_self k [] = refl
  find-delete_self k ((j, v) ∷ m) = elim (Bool-cases (j == k)) [
    | inl same ↦ rw same (find-delete_self k m)
    | inr other ↦ rw (other, other) (find-delete_self k m)
  ]

  pub find-delete_ne : (k j : K) (m : Dict K V) → k ≢ j → find j (delete k m) ≡ find j m
  unfolding find delete
  find-delete_ne k j [] h = refl
  find-delete_ne k j ((i, v) ∷ m) h =
      ground (arith, find-delete_ne k j m h, e.beq_iff i k, e.beq_iff i j)

  pub delete_absent : (k : K) (m : Dict K V) → find k m ≡ none → delete k m ≡ m
  unfolding find delete
  delete_absent k [] h = refl
  delete_absent k ((j, v) ∷ m) h = ground (arith, delete_absent k m)

  pub find-put_self : (k : K) (v : V) (m : Dict K V) → find k (put k v m) ≡ some v
  unfolding find put
  find-put_self k v m = rw ((e.beq_iff k k).1 refl)

  pub find-put_ne : (k j : K) (v : V) (m : Dict K V) → k ≢ j → find j (put k v m) ≡ find j m
  unfolding find put
  find-put_ne k j v m h = ground (arith, find-delete_ne k j m h, e.beq_iff k j)

  -- An entry after a write is the one written, or an entry before it under another key.
  pub find-put-cases :
      (k j : K) (v w : V) (m : Dict K V)
      → find j (put k v m) ≡ some w
      → ((k ≡ j) × (v ≡ w)) ⊎ ((k ≢ j) × (find j m ≡ some w))
  find-put-cases k j v w m h = elim (Bool-cases (k == j)) [
    | inl same ↦
        let q = (e.beq_iff k j).0 same in
        inl (
          q,
          some-injective v w
              (sym (find-put_self k v m) ∙ subst (λ i. find i (put k v m) ≡ some w) (sym q) h),
        )
    | inr other ↦
        let n : k ≢ j = λ q. cc ((e.beq_iff k j).1 q) in inr (n, sym (find-put_ne k j v m n) ∙ h)
  ]

  -- Each key has one entry.
  abbrev pub IsUnique : Dict K V → Type (ℓ ⊔ κ)
  IsUnique [] = Unit
  IsUnique ((k, v) ∷ m) = (find k m ≡ none) × IsUnique m

  find-delete-none : (k j : K) (m : Dict K V) → find j m ≡ none → find j (delete k m) ≡ none
  unfolding find delete
  find-delete-none k j [] h = refl
  find-delete-none k j ((i, v) ∷ m) h = ground (arith, find-delete-none k j m)

  pub delete-IsUnique : (k : K) (m : Dict K V) → IsUnique m → IsUnique (delete k m)
  unfolding delete
  delete-IsUnique k [] u = u
  delete-IsUnique k ((j, v) ∷ m) u = elim (Bool-cases (j == k)) [
    | inl same ↦ rw same (delete-IsUnique k m u.1)
    | inr other ↦ rw other (find-delete-none k j m u.0, delete-IsUnique k m u.1)
  ]

  pub put-IsUnique : (k : K) (v : V) (m : Dict K V) → IsUnique m → IsUnique (put k v m)
  unfolding put
  put-IsUnique k v m u = (find-delete_self k m, delete-IsUnique k m u)

  -- A count over the values.
  unfoldable pub tally : (V → ℕ) → Dict K V → ℕ
  tally f [] = 0
  tally f ((k, v) ∷ m) = f v + tally f m

  pub tally-delete :
      (f : V → ℕ) (k : K) (v : V) (m : Dict K V)
      → IsUnique m
      → find k m ≡ some v
      → f v + tally f (delete k m) ≡ tally f m
  unfolding find delete tally
  tally-delete f k v [] u h = cc
  tally-delete f k v ((j, w) ∷ m) u h = elim (Bool-cases (j == k)) [
    | inl same ↦
        let e : j ≡ k = (e.beq_iff j k).0 same in
        rw (
          same,
          delete_absent k m (subst (λ x. find x m ≡ none) e u.0),
          sym (some-injective w v (rw same at h)),
        )
    | inr other ↦ rw other (omega (arith, tally-delete f k v m u.1 (rw other at h)))
  ]

  pub tally-put :
      (f : V → ℕ) (k : K) (v : V) (m : Dict K V)
      → find k m ≡ none
      → tally f (put k v m) ≡ f v + tally f m
  unfolding put tally
  tally-put f k v m h = rw (delete_absent k m h)
