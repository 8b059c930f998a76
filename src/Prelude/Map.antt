-- ===== src/Prelude/Map.antt =====
-- Go's `map[K]V`: an association list in the order in which a `range` visits the entries. A
-- theorem over every such list holds for every order of iteration.
use Prim.Native.String.{String}
use mathlib.Core.Path.{◌≡◌, refl}
use mathlib.Core.Bool.{Bool, true, false}
use mathlib.Core.Option.{Option, none, some}
use mathlib.Core.List.{List, [], ◌∷◌}
use native.Mathlib.Omega.{arith}
use ingress_controller.Prelude.Tests.{Eq, ◌==◌, if◌then◌else◌, beq_refl}

abbrev pub Map {ℓ κ} : Type ℓ → Type κ → Type (ℓ ⊔ κ)
Map K V = List (K × V)

module _ {ℓ κ} {K : Type ℓ} {V : Type κ} ⦃e : Eq K⦄ where
  unfoldable pub lookup : K → Map K V → Option V
  lookup k [] = none
  lookup k ((j, v) ∷ m) = if j == k then some v else lookup k m

  -- delete(m, k)
  unfoldable pub delete : K → Map K V → Map K V
  delete k [] = []
  delete k ((j, v) ∷ m) = let rest = delete k m in if j == k then rest else (j, v) ∷ rest

  -- m[k] = v
  unfoldable pub insert : K → V → Map K V → Map K V
  insert k v [] = (k, v) ∷ []
  insert k new ((i, old) ∷ m) = if i == k then (k, new) ∷ m else (i, old) ∷ insert k new m

  pub lookup-insert :
      (k j : K) (v : V) (m : Map K V)
      → lookup j (insert k v m) ≡ (if k == j then some v else lookup j m)
  unfolding lookup insert
  lookup-insert k j new [] = refl
  lookup-insert k j new ((i, old) ∷ m) =
      ground (arith, lookup-insert k j new m, e.beq_iff k j, e.beq_iff i k, e.beq_iff i j)

  pub lookup-delete :
      (k j : K) (m : Map K V) → lookup j (delete k m) ≡ (if k == j then none else lookup j m)
  unfolding lookup delete
  lookup-delete k j [] = ground arith
  lookup-delete k j ((i, w) ∷ m) =
      ground (arith, e.beq_iff k j, e.beq_iff i k, e.beq_iff i j, lookup-delete k j m)

  -- A loop that deletes the keys that pass a test.
  unfoldable pub remove_where : (K → Bool) → Map K V → Map K V
  remove_where p [] = []
  remove_where p ((j, v) ∷ m) = let rest = remove_where p m in if p j then rest else (j, v) ∷ rest

  pub lookup-remove_where :
      (p : K → Bool) (k : K) (m : Map K V)
      → lookup k (remove_where p m) ≡ (if p k then none else lookup k m)
  unfolding lookup remove_where
  lookup-remove_where p k [] = ground arith
  lookup-remove_where p k ((j, v) ∷ m) = ground (arith, lookup-remove_where p k m, e.beq_iff j k)

  -- A loop that stores every entry of another map.
  unfoldable pub insert_all : Map K V → Map K V → Map K V
  unfolding insert
  insert_all m [] = m
  insert_all m ((k, v) ∷ src) = insert_all (insert k v m) src

  pub lookup-insert_self : (k : K) (v : V) (m : Map K V) → lookup k (insert k v m) ≡ some v
  lookup-insert_self k v m = simp (lookup-insert, beq_refl)

abbrev pub empty_map {ℓ κ} : {K : Type ℓ} {V : Type κ} → Map K V
empty_map = []

-- _, ok := m[k]
unfoldable pub has_key {ℓ κ} : {K : Type ℓ} {V : Type κ} ⦃e : Eq K⦄ → K → Map K V → Bool
has_key k m = elim (lookup k m) [ none ↦ false | some v ↦ true ]

-- m[k] of a map of texts: a missing key reads as ""
abbrev pub text_of : Option String → String
text_of none = ""
text_of (some s) = s

abbrev pub get_text {ℓ} : {K : Type ℓ} ⦃e : Eq K⦄ → K → Map K String → String
get_text k m = text_of (lookup k m)
