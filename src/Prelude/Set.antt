-- ===== src/Prelude/Set.antt =====
-- Go's `map[K]struct{}` and `map[K]bool` used as a set: a list of its members, in the order in
-- which a `range` visits them.
use mathlib.Core.Path.{◌≡◌, refl}
use mathlib.Core.Bool.{Bool, true, false, not, ◌&&◌, ◌||◌}
use mathlib.Core.Option.{Option, none, some}
use mathlib.Core.List.{List, [], ◌∷◌, ◌++◌}
use native.Mathlib.Omega.{arith}
use ingress_controller.Prelude.Tests.{Eq, ◌==◌, if◌then◌else◌, beq_refl}
use ingress_controller.Prelude.Lists.{is_empty}

-- The set that a missing key of a map of sets reads as: a nil map has no members.
abbrev pub members {ℓ} : {A : Type ℓ} → Option (List A) → List A
members none = []
members (some s) = s

module _ {ℓ} {A : Type ℓ} ⦃e : Eq A⦄ where
  unfoldable pub contains : A → List A → Bool
  contains a [] = false
  contains a (x ∷ xs) = x == a || contains a xs

  -- s[a] = struct{}{}
  unfoldable pub add : A → List A → List A
  unfolding contains
  add a xs = if contains a xs then xs else xs ++ a ∷ []

  -- delete(s, a)
  unfoldable pub remove : A → List A → List A
  remove a [] = []
  remove a (x ∷ xs) = let rest = remove a xs in if x == a then rest else x ∷ rest

  pub contains-append :
      (a : A) (xs ys : List A) → contains a (xs ++ ys) ≡ (contains a xs || contains a ys)
  unfolding contains
  contains-append a [] ys = refl
  contains-append a (x ∷ xs) ys = ground (arith, contains-append a xs ys)

  pub contains-add : (a b : A) (xs : List A) → contains b (add a xs) ≡ (a == b || contains b xs)
  unfolding add
  contains-add a b xs = ground (arith, contains-append b xs (a ∷ []), e.beq_iff a b)

  pub contains-remove :
      (a b : A) (xs : List A) → contains b (remove a xs) ≡ (not (a == b) && contains b xs)
  unfolding contains remove
  contains-remove a b [] = ground arith
  contains-remove a b (x ∷ xs) =
      ground (arith, contains-remove a b xs, e.beq_iff a b, e.beq_iff x a, e.beq_iff x b)

  pub remove_twice : (a : A) (xs : List A) → remove a (remove a xs) ≡ remove a xs
  unfolding remove
  remove_twice a [] = refl
  remove_twice a (x ∷ xs) = ground (arith, remove_twice a xs)

  pub contains-nil : (a : A) → contains a [] ≡ false
  unfolding contains
  contains-nil a = refl

  pub contains-head : (a : A) (xs : List A) → contains a (a ∷ xs) ≡ true
  unfolding contains
  contains-head a xs = ground (arith, beq_refl a)

-- A set without members is empty, and an empty one has none.
pub is_empty_of_no_member {ℓ} :
    {A : Type ℓ} ⦃e : Eq A⦄ (xs : List A) → ((a : A) → contains a xs ≡ false) → is_empty xs ≡ true
is_empty_of_no_member [] h = refl
is_empty_of_no_member (x ∷ xs) h = ground (arith, h x, contains-head x xs)

pub no_member_of_is_empty {ℓ} :
    {A : Type ℓ} ⦃e : Eq A⦄ (xs : List A) (a : A) → is_empty xs ≡ true → contains a xs ≡ false
no_member_of_is_empty [] a h = contains-nil a
no_member_of_is_empty (x ∷ xs) a h = cc

pub remove-nil {ℓ} : {A : Type ℓ} ⦃e : Eq A⦄ (a : A) → remove a [] ≡ []
unfolding remove
remove-nil a = refl
