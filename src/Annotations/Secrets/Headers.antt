-- ===== src/Annotations/Secrets/Headers.antt =====
-- Merging the headers of a secret into those of a route.
use ingress_controller.Annotations.Secrets.{copy_map, merge_into, merge_maps}
use ingress_controller.Certs.{domain_key_eq}
use ingress_controller.Externals.{route_id_eq}
use ingress_controller.Gateway.RefKey.{ref_key_eq}
use ingress_controller.Prelude.{
  String, [], all, arith, first_of, is_ok, nat_eq, none, not, ok, refl, string_eq, ◌∷◌, ◌≡◌,
}
use ingress_controller.Prelude.Map.{Map, has_key, insert, lookup, lookup-insert}
use ingress_controller.Prelude.Text.{char_eq}
use ingress_controller.Types.{key_eq, namespaced_name_eq, secret_type_eq}
use text.Mathlib.TextEquality.{eq_iff}

-- The list is a map: no key stands twice.
abbrev pub IsMap : Map String String → Type 0
IsMap [] = Unit
IsMap ((k, v) ∷ m) = (lookup k m ≡ none) × IsMap m

lookup-copy_map :
    (k : String) (m dst : Map String String)
    → IsMap m
    → lookup k (copy_map m dst) ≡ first_of (lookup k m) (lookup k dst)
unfolding copy_map lookup
lookup-copy_map k [] dst d = refl
lookup-copy_map k ((j, v) ∷ m) dst d =
    ground
      (arith, lookup-copy_map k m (insert j v dst) d.1, lookup-insert j k v dst, d.0, eq_iff j k)

lookup-merge_into :
    (k : String) (first second dst m : Map String String)
    → IsMap second
    → merge_into first second dst ≡ ok m
    → lookup k m ≡ first_of (lookup k second) (lookup k dst)
unfolding merge_into lookup
lookup-merge_into k first [] dst m d h = ground arith
lookup-merge_into k first ((j, v) ∷ second) dst m d h = ground (
  arith,
  lookup-merge_into k first second (insert j v dst) m d.1,
  lookup-insert j k v dst,
  d.0,
  eq_iff j k,
)

is_ok-merge_into :
    (first second dst : Map String String)
    → is_ok (merge_into first second dst) ≡ all (λ (key, v). not (has_key key first)) second
unfolding merge_into
is_ok-merge_into first [] dst = refl
is_ok-merge_into first ((j, v) ∷ second) dst =
    ground (arith, is_ok-merge_into first second (insert j v dst))

-- MergeMaps succeeds exactly if no key of the second map is in the first.
pub is_ok-merge_maps :
    (first second : Map String String)
    → is_ok (merge_maps first second) ≡ all (λ (key, v). not (has_key key first)) second
unfolding merge_maps
is_ok-merge_maps first second = is_ok-merge_into first second (copy_map first [])

-- Where MergeMaps succeeds, a key of the merged map has the value that it has in either of the
-- maps, and no other key is in it.
pub lookup-merge_maps :
    (first second m : Map String String)
    → IsMap first
    → IsMap second
    → merge_maps first second ≡ ok m
    → (k : String) → lookup k m ≡ first_of (lookup k second) (lookup k first)
unfolding merge_maps lookup
lookup-merge_maps first second m d d' h k = ground (
  arith,
  lookup-merge_into k first second (copy_map first []) m d' h,
  lookup-copy_map k first [] d,
)
