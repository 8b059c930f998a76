-- ===== src/Gateway/Grants/Allowed.antt =====
-- The grant map answers as the list of grants does.
use ingress_controller.Gateway.Grants.{
  ReferenceGrant, ReferenceGrantMap, add_grants, add_targets, allowed, build_reference_grant_map,
  safe_union, source_set, union,
}
use ingress_controller.Gateway.RefKey.{
  Object, RefKey, ReferenceGrantFrom, ReferenceGrantTo, ref_key_beq_iff, ref_key_eq,
  ref_key_for_object, ref_key_for_reference_grant_from, ref_key_for_reference_grant_to,
}
use ingress_controller.Prelude.{
  Bool, List, Option, String, [], any, arith, false, nat_eq, none, refl, some, string_eq, ◌&&◌,
  ◌==◌, ◌||◌, ◌∷◌, ◌≡◌,
}
use ingress_controller.Prelude.Map.{empty_map, insert, lookup, lookup-insert}
use ingress_controller.Prelude.Set.{contains, contains-add, members}
use ingress_controller.Prelude.Text.{char_eq}
use ingress_controller.Types.{key_eq, namespaced_name_eq, secret_type_eq}

-- A grant lets objects of the kind and namespace of `from` refer to the key: one of its sources is
-- the source, and one of its targets, in its own namespace, is the key.
pub permits : RefKey → RefKey → ReferenceGrant → Bool
permits from_key key g =
    any (λ f. ref_key_for_reference_grant_from f == from_key) g.from
    && any (λ t. ref_key_for_reference_grant_to g.namespace t == key) g.to

contains-union :
    (k : RefKey) (a b : List RefKey) → contains k (union a b) ≡ (contains k a || contains k b)
unfolding union contains
contains-union k a [] = ground arith
contains-union k a (x ∷ xs) = ground (arith, contains-union k a xs, contains-add x k (union a xs))

contains-safe_union :
    (k : RefKey) (o : Option (List RefKey)) (b : List RefKey)
    → contains k (safe_union o b) ≡ (contains k (members o) || contains k b)
unfolding safe_union contains
contains-safe_union k none b = refl
contains-safe_union k (some a) b = contains-union k a b

contains-source_set :
    (k : RefKey) (fs : List ReferenceGrantFrom)
    → contains k (source_set fs) ≡ any (λ f. ref_key_for_reference_grant_from f == k) fs
unfolding source_set contains
contains-source_set k [] = refl
contains-source_set k (f ∷ fs) = ground (
  arith,
  contains-source_set k fs,
  contains-add (ref_key_for_reference_grant_from f) k (source_set fs),
)

contains-add_targets :
    (namespace : String) (sources : List RefKey) (tos : List ReferenceGrantTo)
    (m : ReferenceGrantMap) (source key : RefKey)
    → contains source (members (lookup key (add_targets namespace sources tos m))) ≡ (
        contains source sources && any (λ t. ref_key_for_reference_grant_to namespace t == key) tos
        || contains source (members (lookup key m)))
unfolding add_targets
contains-add_targets namespace sources [] m source key = ground arith
contains-add_targets namespace sources (t ∷ tos) m source key =
    let k = ref_key_for_reference_grant_to namespace t in
    let next = insert k (safe_union (lookup k m) sources) m in
    ground (
      arith,
      contains-add_targets namespace sources tos next source key,
      lookup-insert k key (safe_union (lookup k m) sources) m,
      contains-safe_union source (lookup k m) sources,
      ref_key_beq_iff k key,
    )

contains-lookup_nil :
    (k j : RefKey)
    → contains k (members (lookup j (empty_map {K = RefKey} {V = List RefKey}))) ≡ false
unfolding contains lookup
contains-lookup_nil k j = refl

contains-add_grants :
    (gs : List ReferenceGrant) (m : ReferenceGrantMap) (source key : RefKey)
    → contains source (members (lookup key (add_grants gs m)))
      ≡ (any (permits source key) gs || contains source (members (lookup key m)))
unfolding add_grants permits
contains-add_grants [] m source key = refl
contains-add_grants (g ∷ gs) m source key = ground (
  arith,
  contains-add_grants gs (add_targets g.namespace (source_set g.from) g.to m) source key,
  contains-add_targets g.namespace (source_set g.from) g.to m source key,
  contains-source_set source g.from,
)

-- A reference is allowed within one namespace, and otherwise exactly if some ReferenceGrant
-- permits its source, as a kind within a namespace, to refer to the target by its name or to every
-- object of the target's kind and namespace.
pub allowed-build_reference_grant_map :
    (grants : List ReferenceGrant) (from : Object) (to_key : RefKey)
    → allowed (build_reference_grant_map grants) from to_key ≡ (
        from.namespace == to_key.namespace
        || any (permits (record from { name = "" }) to_key) grants
        || any (permits (record from { name = "" }) (record to_key { name = "" })) grants)
unfolding allowed build_reference_grant_map ref_key_for_object
allowed-build_reference_grant_map grants from to_key =
    let source = record from { name = "" } in
    let whole = record to_key { name = "" } in
    ground (
      arith,
      contains-add_grants grants [] source to_key,
      contains-add_grants grants [] source whole,
      contains-lookup_nil source to_key,
      contains-lookup_nil source whole,
    )
