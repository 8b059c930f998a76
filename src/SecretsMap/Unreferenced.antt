-- ===== src/SecretsMap/Unreferenced.antt =====
-- Which secrets UpdateEntity and RemoveEntity report: those that lost their last reference.
use ingress_controller.Prelude.{
  Bool, List, [], arith, beq_refl, false, if◌then◌else◌, is_empty, nat_eq, refl, string_eq, sym,
  true, ◌&&◌, ◌==◌, ◌↔◌, ◌∙◌, ◌∷◌, ◌≡◌,
}
use ingress_controller.Prelude.Map.{Map, lookup}
use ingress_controller.Prelude.Set.{
  contains, is_empty_of_no_member, members, no_member_of_is_empty, remove_twice,
}
use ingress_controller.Prelude.Text.{char_eq}
use ingress_controller.SecretsMap.{
  TlsSecretsMap, link_all, remove_entity, remove_reverse_deps, unlink, update_entity,
}
use ingress_controller.SecretsMap.Consistent.{
  IsConsistent, deps_of, deps_of-remove_entity, deps_of-update_entity, remove_entity-IsConsistent,
  stale-link_all, update_entity-IsConsistent, users_of, users_of-remove_reverse_deps,
  users_of-unlink, users_of-update_entity,
}
use ingress_controller.Types.{
  Key, NamespacedName, key_eq, namespaced_name_beq_iff, namespaced_name_eq, secret_type_eq,
}

-- No entity has the secret among its dependencies.
abbrev pub IsUnreferenced : TlsSecretsMap → NamespacedName → Type 0
IsUnreferenced m s = (k : Key) → contains s (deps_of m k) ≡ false

contains-remove_reverse_deps :
    (n : Key) (ss : List NamespacedName) (t : NamespacedName) (rev : Map NamespacedName (List Key))
    → contains t (remove_reverse_deps n ss rev).1
      ≡ (contains t ss && is_empty (users_of (remove_reverse_deps n ss rev).0 t))
unfolding remove_reverse_deps contains users_of
contains-remove_reverse_deps n [] t rev = refl
contains-remove_reverse_deps n (s ∷ ss) t rev = ground (
  arith,
  contains-remove_reverse_deps n ss t (unlink n s rev),
  users_of-remove_reverse_deps n ss t (unlink n s rev),
  users_of-unlink n s t rev,
  remove_twice n (users_of rev t),
  namespaced_name_beq_iff s t,
)

-- In consistent maps a secret without users is one that no entity depends on.
IsUnreferenced-iff :
    (m : TlsSecretsMap) (s : NamespacedName)
    → IsConsistent m
    → (is_empty (users_of m.reverse_deps s) ≡ true) ↔ IsUnreferenced m s
IsUnreferenced-iff m s h = (
  λ e k. h k s ∙ no_member_of_is_empty (users_of m.reverse_deps s) k e,
  λ u. is_empty_of_no_member (users_of m.reverse_deps s) (λ k. sym (h k s) ∙ u k),
)

-- The secrets that a change of one entity's dependencies reports.
reported_iff :
    (m : TlsSecretsMap) (s : NamespacedName) (reported lost : Bool)
    → IsConsistent m
    → reported ≡ (lost && is_empty (users_of m.reverse_deps s))
    → (reported ≡ true) ↔ ((lost ≡ true) × IsUnreferenced m s)
reported_iff m s reported lost h e = (
  λ r. (ground arith, (IsUnreferenced-iff m s h).0 (ground arith)),
  λ p. ground (arith, p.0, (IsUnreferenced-iff m s h).1 p.1),
)

is_empty_of-update :
    (n : Key) (new : List NamespacedName) (m : TlsSecretsMap) (s : NamespacedName)
    → contains s new ≡ true
    → is_empty (users_of (update_entity n new m).0.reverse_deps s) ≡ false
is_empty_of-update n new m s h = ground (
  arith,
  users_of-update_entity n n new s m,
  beq_refl n,
  no_member_of_is_empty (users_of (update_entity n new m).0.reverse_deps s) n,
)

reported-update_entity :
    (n : Key) (new : List NamespacedName) (m : TlsSecretsMap) (s : NamespacedName)
    → contains s (update_entity n new m).1
      ≡ (contains s (deps_of m n) && is_empty (users_of (update_entity n new m).0.reverse_deps s))
unfolding update_entity deps_of
reported-update_entity n new m s =
    let prev = members (lookup n m.deps) in
    let linked = link_all n new m.reverse_deps prev in
    let e = contains-remove_reverse_deps n linked.1 s linked.0 in
    ground (arith, e, stale-link_all n new s m.reverse_deps prev, is_empty_of-update n new m s)

reported-remove_entity :
    (n : Key) (m : TlsSecretsMap) (s : NamespacedName)
    → contains s (remove_entity n m).1
      ≡ (contains s (deps_of m n) && is_empty (users_of (remove_entity n m).0.reverse_deps s))
unfolding remove_entity deps_of
reported-remove_entity n m s =
    contains-remove_reverse_deps n (members (lookup n m.deps)) s m.reverse_deps

-- After UpdateEntity an entity has the new dependencies and the others keep theirs; the secrets
-- reported are exactly those that the entity depended on before and that no entity depends on now.
pub update_entity_lem :
    (n : Key) (new : List NamespacedName) (m : TlsSecretsMap)
    → IsConsistent m
    → ((k : Key) → deps_of (update_entity n new m).0 k ≡ (if n == k then new else deps_of m k))
      × IsConsistent (update_entity n new m).0
      × ((s : NamespacedName)
          → (contains s (update_entity n new m).1 ≡ true)
            ↔ ((contains s (deps_of m n) ≡ true) × IsUnreferenced (update_entity n new m).0 s))
update_entity_lem n new m h = (
  λ k. deps_of-update_entity n k new m,
  update_entity-IsConsistent n new m h,
  λ s.
      reported_iff (update_entity n new m).0 s (contains s (update_entity n new m).1)
        (contains s (deps_of m n)) (update_entity-IsConsistent n new m h)
        (reported-update_entity n new m s),
)

-- RemoveEntity leaves the entity without dependencies and the others with theirs, and reports
-- exactly the secrets that the entity depended on and that no entity depends on now.
pub remove_entity_lem :
    (n : Key) (m : TlsSecretsMap)
    → IsConsistent m
    → ((k : Key) → deps_of (remove_entity n m).0 k ≡ (if n == k then [] else deps_of m k))
      × IsConsistent (remove_entity n m).0
      × ((s : NamespacedName)
          → (contains s (remove_entity n m).1 ≡ true)
            ↔ ((contains s (deps_of m n) ≡ true) × IsUnreferenced (remove_entity n m).0 s))
remove_entity_lem n m h = (
  λ k. deps_of-remove_entity n k m,
  remove_entity-IsConsistent n m h,
  λ s.
      reported_iff (remove_entity n m).0 s (contains s (remove_entity n m).1)
        (contains s (deps_of m n)) (remove_entity-IsConsistent n m h)
        (reported-remove_entity n m s),
)
