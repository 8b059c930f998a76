-- ===== src/Prelude/Sort.antt =====
-- Go's package `sort`, as an insertion sort by a test of order. It leaves equal elements in the
-- order in which they stand; the callers' theorems do not depend on that choice.
use mathlib.Core.Path.{◌≡◌, refl}
use mathlib.Core.Bool.{Bool, true, false, ◌||◌}
use mathlib.Core.List.{List, [], ◌∷◌}
use native.Mathlib.Omega.{arith}
use Prim.Native.Nat.{suc}
use Prim.Native.String.{String, compare}
use text.Mathlib.Text.{is_lt}
use ingress_controller.Prelude.Tests.{Eq, ◌==◌, if◌then◌else◌}
use ingress_controller.Prelude.Lists.{length, All, any}
use ingress_controller.Prelude.Set.{contains}

-- a < b of two texts, by their bytes
abbrev pub str_lt : String → String → Bool
str_lt a b = is_lt (compare a b)

module _ {ℓ} {A : Type ℓ} (less : A → A → Bool) where
  -- Before the first element that is not below it.
  unfoldable pub insert_sorted : A → List A → List A
  insert_sorted a [] = a ∷ []
  insert_sorted a (x ∷ xs) =
      let later = insert_sorted a xs in if less x a then x ∷ later else a ∷ x ∷ xs

  unfoldable pub sort : List A → List A
  unfolding insert_sorted
  sort [] = []
  sort (x ∷ xs) = insert_sorted x (sort xs)

  pub length-insert_sorted : (a : A) (xs : List A) → length (insert_sorted a xs) ≡ suc (length xs)
  unfolding insert_sorted
  length-insert_sorted a [] = refl
  length-insert_sorted a (x ∷ xs) = ground (arith, length-insert_sorted a xs)

  pub length-sort : (xs : List A) → length (sort xs) ≡ length xs
  unfolding sort
  length-sort [] = refl
  length-sort (x ∷ xs) = ground (arith, length-sort xs, length-insert_sorted x (sort xs))

module _ {ℓ} {A : Type ℓ} ⦃e : Eq A⦄ (less : A → A → Bool) where
  pub contains-insert_sorted :
      (a b : A) (xs : List A) → contains b (insert_sorted less a xs) ≡ (a == b || contains b xs)
  unfolding insert_sorted contains
  contains-insert_sorted a b [] = refl
  contains-insert_sorted a b (x ∷ xs) = ground (arith, contains-insert_sorted a b xs)

  -- Sorting keeps the elements.
  pub contains-sort : (b : A) (xs : List A) → contains b (sort less xs) ≡ contains b xs
  unfolding sort contains
  contains-sort b [] = refl
  contains-sort b (x ∷ xs) =
      ground (arith, contains-sort b xs, contains-insert_sorted x b (sort less xs))

-- A predicate of every element survives sorting.
module _ {ℓ κ} {A : Type ℓ} (less : A → A → Bool) (P : A → Type κ) where
  pub All-insert_sorted : (a : A) (xs : List A) → P a → All P xs → All P (insert_sorted less a xs)
  unfolding insert_sorted
  All-insert_sorted a [] h hs = (h, hs)
  All-insert_sorted a (x ∷ xs) h hs =
      elim (less x a) as (λ b. All P (if b then x ∷ insert_sorted less a xs else a ∷ x ∷ xs)) [
        | true ↦ (hs.0, All-insert_sorted a xs h hs.1)
        | false ↦ (h, hs)
      ]

  pub All-sort : (xs : List A) → All P xs → All P (sort less xs)
  unfolding sort
  All-sort [] hs = hs
  All-sort (x ∷ xs) hs = All-insert_sorted x (sort less xs) hs.0 (All-sort xs hs.1)

module _ {ℓ} {A : Type ℓ} (less : A → A → Bool) (p : A → Bool) where
  any-insert_sorted : (a : A) (xs : List A) → any p (insert_sorted less a xs) ≡ (p a || any p xs)
  unfolding insert_sorted
  any-insert_sorted a [] = refl
  any-insert_sorted a (x ∷ xs) = ground (arith, any-insert_sorted a xs)

  pub any-sort : (xs : List A) → any p (sort less xs) ≡ any p xs
  unfolding sort
  any-sort [] = refl
  any-sort (x ∷ xs) = ground (arith, any-sort xs, any-insert_sorted x (sort less xs))
