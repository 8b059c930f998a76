-- ===== src/Gateway/Grants.antt =====
-- controllers/gateway/referencegrant.go: which references between namespaces are granted.
pub mod Allowed
use ingress_controller.Gateway.RefKey.{
  Object, RefKey, ReferenceGrantFrom, ReferenceGrantTo, ref_key_eq, ref_key_for_object,
  ref_key_for_reference_grant_from, ref_key_for_reference_grant_to,
}
use ingress_controller.Prelude.{
  Bool, List, Option, String, [], if◌then◌else◌, nat_eq, none, some, string_eq, true, ◌==◌, ◌||◌,
  ◌∷◌,
}
use ingress_controller.Prelude.Map.{Map, insert, lookup}
use ingress_controller.Prelude.Set.{add, contains, members}
use ingress_controller.Prelude.Text.{char_eq}
use ingress_controller.Types.{key_eq, namespaced_name_eq, secret_type_eq}

pub record ReferenceGrant : Type 0 where
  pub namespace : String
  pub from : List ReferenceGrantFrom
  pub to : List ReferenceGrantTo

abbrev pub ReferenceGrantMap : Type 0
ReferenceGrantMap = Map RefKey (List RefKey)

-- Collection.Union
pub union : List RefKey → List RefKey → List RefKey
union a [] = a
union a (k ∷ ks) = add k (union a ks)

-- safeUnion, with a missing set read as `none`
pub safe_union : Option (List RefKey) → List RefKey → List RefKey
unfolding union
safe_union none b = b
safe_union (some a) b = union a b

-- set.FromFunc(g.Spec.From, refKeyForReferenceGrantFrom)
pub source_set : List ReferenceGrantFrom → List RefKey
source_set [] = []
source_set (f ∷ fs) = add (ref_key_for_reference_grant_from f) (source_set fs)

-- The inner loop of buildReferenceGrantMap
pub add_targets :
    String → List RefKey → List ReferenceGrantTo → ReferenceGrantMap → ReferenceGrantMap
unfolding safe_union
add_targets namespace sources [] m = m
add_targets namespace sources (to ∷ tos) m =
    let k = ref_key_for_reference_grant_to namespace to in
    add_targets namespace sources tos (insert k (safe_union (lookup k m) sources) m)

-- The outer loop of buildReferenceGrantMap
pub add_grants : List ReferenceGrant → ReferenceGrantMap → ReferenceGrantMap
unfolding add_targets source_set
add_grants [] m = m
add_grants (g ∷ gs) m = add_grants gs (add_targets g.namespace (source_set g.from) g.to m)

-- buildReferenceGrantMap
pub build_reference_grant_map : List ReferenceGrant → ReferenceGrantMap
unfolding add_grants
build_reference_grant_map grants = add_grants grants []

-- referenceGrantMap.allowed
pub allowed : ReferenceGrantMap → Object → RefKey → Bool
unfolding ref_key_for_object
allowed m from to_key =
    if from.namespace == to_key.namespace
    then true
    else let from_key = record (ref_key_for_object from) { name = "" } in
      contains from_key (members (lookup to_key m))
      || contains from_key (members (lookup (record to_key { name = "" }) m))
