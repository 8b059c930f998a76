-- ===== src/SecretsMap/Consistent.antt =====
-- The two maps of TLSSecretsMap are each other's inverse, whatever the calls.
use ingress_controller.Prelude.{
  List, Option-cases, [], arith, if◌then◌else◌, inl, inr, nat_eq, not, refl, string_eq, ◌&&◌, ◌==◌,
  ◌||◌, ◌∷◌, ◌≡◌,
}
use ingress_controller.Prelude.Map.{Map, insert, lookup, lookup-insert}
use ingress_controller.Prelude.Set.{
  add, contains, contains-add, contains-nil, contains-remove, members, remove, remove-nil,
  remove_twice,
}
use ingress_controller.Prelude.Text.{char_eq}
use ingress_controller.Registry.{deps}
use ingress_controller.SecretsMap.{
  TlsSecretsMap, add_secret, link, link_all, remove_entity, remove_reverse_deps, unlink,
  update_entity,
}
use ingress_controller.Types.{
  Key, NamespacedName, key_beq_iff, key_eq, namespaced_name_beq_iff, namespaced_name_eq,
  secret_type_eq,
}

unfoldable pub deps_of : TlsSecretsMap → Key → List NamespacedName
deps_of m n = members (lookup n m.deps)

unfoldable pub users_of : Map NamespacedName (List Key) → NamespacedName → List Key
users_of rev s = members (lookup s rev)

-- An entity has a secret among its dependencies exactly if it is among the secret's users.
abbrev pub IsConsistent : TlsSecretsMap → Type 0
IsConsistent m =
    (n : Key) (s : NamespacedName)
    → contains s (deps_of m n) ≡ contains n (users_of m.reverse_deps s)

users_of-link :
    (n : Key) (s t : NamespacedName) (rev : Map NamespacedName (List Key))
    → users_of (link n s rev) t ≡ (if s == t then add n (users_of rev t) else users_of rev t)
unfolding users_of link
users_of-link n s t rev =
    ground
      (arith, lookup-insert s t (add n (members (lookup s rev))) rev, namespaced_name_beq_iff s t)

pub users_of-link_all :
    (n k : Key) (ss : List NamespacedName) (t : NamespacedName)
    (rev : Map NamespacedName (List Key)) (previous : List NamespacedName)
    → contains k (users_of (link_all n ss rev previous).0 t)
      ≡ (n == k && contains t ss || contains k (users_of rev t))
unfolding link_all contains
users_of-link_all n k [] t rev previous = ground arith
users_of-link_all n k (s ∷ ss) t rev previous = ground (
  arith,
  users_of-link_all n k ss t (link n s rev) (remove s previous),
  users_of-link n s t rev,
  contains-add n k (users_of rev t),
)

pub stale-link_all :
    (n : Key) (ss : List NamespacedName) (t : NamespacedName) (rev : Map NamespacedName (List Key))
    (previous : List NamespacedName)
    → contains t (link_all n ss rev previous).1 ≡ (not (contains t ss) && contains t previous)
unfolding link_all contains
stale-link_all n [] t rev previous = refl
stale-link_all n (s ∷ ss) t rev previous =
    ground (
      arith,
      stale-link_all n ss t (link n s rev) (remove s previous),
      contains-remove s t previous,
    )

pub users_of-unlink :
    (n : Key) (s t : NamespacedName) (rev : Map NamespacedName (List Key))
    → users_of (unlink n s rev) t ≡ (if s == t then remove n (users_of rev t) else users_of rev t)
unfolding users_of unlink
users_of-unlink n s t rev = elim (Option-cases (lookup s rev)) [
  | inl absent ↦ ground (arith, namespaced_name_beq_iff s t, remove-nil n)
  | inr (ks, found) ↦
      ground (arith, lookup-insert s t (remove n ks) rev, namespaced_name_beq_iff s t)
]

pub users_of-remove_reverse_deps :
    (n : Key) (ss : List NamespacedName) (t : NamespacedName) (rev : Map NamespacedName (List Key))
    → users_of (remove_reverse_deps n ss rev).0 t
      ≡ (if contains t ss then remove n (users_of rev t) else users_of rev t)
unfolding remove_reverse_deps contains
users_of-remove_reverse_deps n [] t rev = refl
users_of-remove_reverse_deps n (s ∷ ss) t rev = ground (
  arith,
  users_of-remove_reverse_deps n ss t (unlink n s rev),
  users_of-unlink n s t rev,
  remove_twice n (users_of rev t),
)

deps_of-insert :
    (n k : Key) (new : List NamespacedName) (deps : Map Key (List NamespacedName))
    → members (lookup k (insert n new deps)) ≡ (if n == k then new else members (lookup k deps))
deps_of-insert n k new deps = ground (arith, lookup-insert n k new deps)

-- UpdateEntity sets the dependencies of the one entity and leaves those of the others.
pub deps_of-update_entity :
    (n k : Key) (new : List NamespacedName) (m : TlsSecretsMap)
    → deps_of (update_entity n new m).0 k ≡ (if n == k then new else deps_of m k)
unfolding deps_of update_entity
deps_of-update_entity n k new m = deps_of-insert n k new m.deps

pub deps_of-remove_entity :
    (n k : Key) (m : TlsSecretsMap)
    → deps_of (remove_entity n m).0 k ≡ (if n == k then [] else deps_of m k)
unfolding deps_of remove_entity
deps_of-remove_entity n k m = deps_of-insert n k [] m.deps

pub users_of-update_entity :
    (n k : Key) (new : List NamespacedName) (t : NamespacedName) (m : TlsSecretsMap)
    → contains k (users_of (update_entity n new m).0.reverse_deps t) ≡ (
        if n == k
        then contains t new
          || not (contains t (deps_of m n)) && contains k (users_of m.reverse_deps t)
        else contains k (users_of m.reverse_deps t))
unfolding deps_of update_entity
users_of-update_entity n k new t m =
    let prev = members (lookup n m.deps) in
    let linked = link_all n new m.reverse_deps prev in
    ground (
      arith,
      users_of-remove_reverse_deps n linked.1 t linked.0,
      users_of-link_all n k new t m.reverse_deps prev,
      stale-link_all n new t m.reverse_deps prev,
      contains-remove n k (users_of linked.0 t),
      key_beq_iff n k,
    )

pub update_entity-IsConsistent :
    (n : Key) (new : List NamespacedName) (m : TlsSecretsMap)
    → IsConsistent m
    → IsConsistent (update_entity n new m).0
update_entity-IsConsistent n new m h k t = ground (
  arith,
  h k t,
  h n t,
  deps_of-update_entity n k new m,
  users_of-update_entity n k new t m,
  key_beq_iff n k,
)

users_of-remove_entity :
    (n k : Key) (t : NamespacedName) (m : TlsSecretsMap)
    → contains k (users_of (remove_entity n m).0.reverse_deps t) ≡ (
        if n == k
        then not (contains t (deps_of m n)) && contains k (users_of m.reverse_deps t)
        else contains k (users_of m.reverse_deps t))
unfolding deps_of remove_entity
users_of-remove_entity n k t m =
    let prev = members (lookup n m.deps) in
    ground (
      arith,
      users_of-remove_reverse_deps n prev t m.reverse_deps,
      contains-remove n k (users_of m.reverse_deps t),
      key_beq_iff n k,
    )

pub remove_entity-IsConsistent :
    (n : Key) (m : TlsSecretsMap) → IsConsistent m → IsConsistent (remove_entity n m).0
remove_entity-IsConsistent n m h k t = ground (
  arith,
  h k t,
  h n t,
  deps_of-remove_entity n k m,
  users_of-remove_entity n k t m,
  key_beq_iff n k,
  contains-nil t,
)

pub add_secret-IsConsistent :
    (n : Key) (s : NamespacedName) (m : TlsSecretsMap)
    → IsConsistent m
    → IsConsistent (add_secret n s m)
unfolding add_secret deps_of
add_secret-IsConsistent n s m h k t = ground (
  arith,
  h k t,
  h n t,
  lookup-insert n k (add s (members (lookup n m.deps))) m.deps,
  users_of-link n s t m.reverse_deps,
  contains-add n k (users_of m.reverse_deps t),
  contains-add s t (members (lookup n m.deps)),
  key_beq_iff n k,
  namespaced_name_beq_iff s t,
)
