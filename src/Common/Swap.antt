-- ===== src/Common/Swap.antt =====
-- Removal from a slice by moving the last element into the gap.
use mathlib.Core.List.{Perm, perm_append_singleton}
use mathlib.Core.List.Perm
use mathlib.Core.Option.{Option, none, some, some-injective}
use mathlib.Core.List.{List, [], ◌∷◌, ◌++◌, map}
use mathlib.Core.Path.{◌≡◌, refl, sym, ap, subst, ◌∙◌}
use native.Mathlib.Omega.{arith}
use Prim.Native.Nat.{ℕ, zero, suc, ◌-◌}
use hggutils.Common.Lists.{length, get_elem?, set, take, map_option, length-append}

module _ {ℓ} {A : Type ℓ} where
  -- xs[i] = xs[n]; xs = xs[:n]; `none` is an index out of range.
  unfoldable pub move_last : List A → ℕ → ℕ → Option (List A)
  move_last xs i n = map_option (λ x. take n (set xs i x)) (get_elem? xs n)

  split_last :
      (x : A) (xs : List A)
      → (init : List A) × (z : A) × (x ∷ xs ≡ init ++ z ∷ []) × (length init ≡ length xs)
  split_last x [] = ([], x, refl, refl)
  split_last x (y ∷ ys) =
      let (init, z, e, n) = split_last y ys in (x ∷ init, z, ap (◌∷◌ x) e, ap suc n)

  get_elem?-last : (init : List A) (z : A) → get_elem? (init ++ z ∷ []) (length init) ≡ some z
  get_elem?-last [] z = refl
  get_elem?-last (x ∷ init) z = get_elem?-last init z

  take-set_last :
      (init : List A) (k : ℕ) (y z : A)
      → take (length init) (set (init ++ y ∷ []) k z) ≡ set init k z
  take-set_last [] k y z = refl
  take-set_last (x ∷ init) zero y z = ap (◌∷◌ z) (take-append init (y ∷ []))
    where
      take-append : (xs ys : List A) → take (length xs) (xs ++ ys) ≡ xs
      take-append [] ys = refl
      take-append (x ∷ xs) ys = ap (◌∷◌ x) (take-append xs ys)
  take-set_last (x ∷ init) (suc k) y z = ap (◌∷◌ x) (take-set_last init k y z)

  set_perm :
      (init : List A) (k : ℕ) (x z : A)
      → get_elem? (init ++ z ∷ []) k ≡ some x
      → Perm (init ++ z ∷ []) (x ∷ set init k z)
  set_perm [] zero x z e = subst (λ y. Perm (z ∷ []) (y ∷ [])) (some-injective _ _ e) (Perm.refl _)
  set_perm [] (suc k) x z e = cc
  set_perm (a ∷ as') zero x z e =
      subst (λ y. Perm (a ∷ as' ++ z ∷ []) (y ∷ z ∷ as')) (some-injective _ _ e)
        (Perm.cons a (perm_append_singleton z as'))
  set_perm (a ∷ as') (suc k) x z e =
      Perm.trans (Perm.cons a (set_perm as' k x z e)) (Perm.swap x a _)

  move_last-snoc :
      (init : List A) (z : A) (k : ℕ)
      → move_last (init ++ z ∷ []) k (length (init ++ z ∷ []) - 1) ≡ some (set init k z)
  unfolding move_last
  move_last-snoc init z k =
      let n : length (init ++ z ∷ []) - 1 ≡ length init =
        omega (arith, length-append init (z ∷ [])) in
      rw (n, get_elem?-last init z, take-set_last init k z z)

  -- What is left is the rest, in another order.
  pub move_last-perm :
      (xs : List A) (k : ℕ) (x : A)
      → get_elem? xs k ≡ some x
      → (ys : List A) × (move_last xs k (length xs - 1) ≡ some ys) × Perm xs (x ∷ ys)
  unfolding move_last
  move_last-perm [] k x e = cc
  move_last-perm (y ∷ ys) k x e =
      let (init, z, same, n) = split_last y ys in
      (
        set init k z,
        subst (λ l. move_last l k (length l - 1) ≡ some (set init k z)) (sym same)
            (move_last-snoc init z k),
        subst (λ l. Perm l (x ∷ set init k z)) (sym same)
            (set_perm init k x z (subst (λ l. get_elem? l k ≡ some x) same e)),
      )

module _ {ℓ κ} {A : Type ℓ} {B : Type κ} (g : A → B) where
  pub get_elem?-map : (xs : List A) (k : ℕ) → get_elem? (map g xs) k ≡ map_option g (get_elem? xs k)
  get_elem?-map [] k = refl
  get_elem?-map (x ∷ xs) zero = refl
  get_elem?-map (x ∷ xs) (suc k) = get_elem?-map xs k

  set-map : (xs : List A) (k : ℕ) (x : A) → set (map g xs) k (g x) ≡ map g (set xs k x)
  set-map [] k x = refl
  set-map (y ∷ xs) zero x = refl
  set-map (y ∷ xs) (suc k) x = ap (◌∷◌ (g y)) (set-map xs k x)

  take-map : (n : ℕ) (xs : List A) → take n (map g xs) ≡ map g (take n xs)
  take-map zero xs = refl
  take-map (suc n) [] = refl
  take-map (suc n) (x ∷ xs) = ap (◌∷◌ (g x)) (take-map n xs)

  pub length-map : (xs : List A) → length (map g xs) ≡ length xs
  length-map [] = refl
  length-map (x ∷ xs) = ap suc (length-map xs)

  pub move_last-map :
      (xs : List A) (k n : ℕ) → move_last (map g xs) k n ≡ map_option (map g) (move_last xs k n)
  unfolding move_last
  move_last-map xs k n = rw (get_elem?-map xs n) (go (get_elem? xs n))
    where
      go :
          (o : Option A)
          → map_option (λ x. take n (set (map g xs) k x)) (map_option g o)
            ≡ map_option (map g) (map_option (λ x. take n (set xs k x)) o)
      go none = refl
      go (some x) = ap some (ap (take n) (set-map xs k x) ∙ take-map n (set xs k x))
