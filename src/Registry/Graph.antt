-- ===== src/Registry/Graph.antt =====
-- The registry as an undirected graph: what each operation does to the edges.
use ingress_controller.Prelude.{
  Bool, List, Option-cases, [], arith, false, if◌then◌else◌, inl, inr, nat_eq, none, not, refl,
  some, string_eq, sym, ◌&&◌, ◌++◌, ◌==◌, ◌||◌, ◌∙◌, ◌∷◌, ◌≡◌, ◌≢◌,
}
use ingress_controller.Prelude.Map.{lookup, lookup-delete, lookup-insert}
use ingress_controller.Prelude.Set.{
  add, contains, contains-add, contains-head, contains-nil, contains-remove, members, remove,
}
use ingress_controller.Prelude.Text.{char_eq}
use ingress_controller.Registry.{
  RegistryItems, add_dependency, add_item, del_item, delete_cascade, delete_edges, deps,
  new_registry,
}
use ingress_controller.Types.{Key, key_beq_iff, key_eq, namespaced_name_eq, secret_type_eq}

-- There is a dependency between `a` and `b`, as `Deps` of `a` shows it.
unfoldable pub edge : RegistryItems → Key → Key → Bool
edge r a b = contains b (deps r a)

append-ne-nil : (xs : List Key) (a : Key) → xs ++ a ∷ [] ≢ []
append-ne-nil [] a h = cc
append-ne-nil (x ∷ xs) a h = cc

edge-members : (x a : Key) (r : RegistryItems) → edge r x a ≡ contains a (members (lookup x r))
unfolding edge deps
edge-members x a r = refl

edge-add_item :
    (x y : Key) (r : RegistryItems) (a b : Key)
    → edge (add_item x y r) a b ≡ (if x == a then y == b || edge r a b else edge r a b)
unfolding edge deps add_item
edge-add_item x y r a b = ground (
  arith,
  lookup-insert x a (add y (members (lookup x r))) r,
  contains-add y b (members (lookup x r)),
  key_beq_iff x a,
)

edge-del_item :
    (x y : Key) (r : RegistryItems) (a b : Key)
    → edge (del_item x y r) a b ≡ (not (x == a && y == b) && edge r a b)
unfolding edge deps del_item
edge-del_item x y r a b = ground (
  arith,
  lookup-insert x a (remove y (members (lookup x r))) r,
  lookup-delete x a r,
  contains-remove y b (members (lookup x r)),
  key_beq_iff x a,
)

edge-delete_edges :
    (x : Key) (ks : List Key) (r : RegistryItems) (a b : Key)
    → edge (delete_edges x ks r) a b
      ≡ (not (x == a && contains b ks || x == b && contains a ks) && edge r a b)
unfolding delete_edges contains
edge-delete_edges x [] r a b = ground arith
edge-delete_edges x (k ∷ ks) r a b = ground (
  arith,
  edge-delete_edges x ks (del_item k x (del_item x k r)) a b,
  edge-del_item k x (del_item x k r) a b,
  edge-del_item x k r a b,
  key_beq_iff x a,
  key_beq_iff x b,
  key_beq_iff k a,
  key_beq_iff k b,
)

-- The edges of a registry are symmetric and join no key to itself, and no key is kept with an
-- empty set: `items` holds exactly the keys that have a dependency.
pub record IsGraph (r : RegistryItems) : Type 0 where
  pub symmetric : (a b : Key) → edge r a b ≡ edge r b a
  pub loopless : (a : Key) → edge r a a ≡ false
  pub no_empty : (a : Key) → lookup a r ≢ some []

pub new_registry-IsGraph : IsGraph new_registry
unfolding new_registry edge deps contains lookup
new_registry-IsGraph = record {
  symmetric = λ a b. refl;
  loopless = λ a. refl;
  no_empty = λ a h. cc;
}

pub edge-add_dependency :
    (x y : Key) (r : RegistryItems) (a b : Key)
    → edge (add_dependency x y r) a b
      ≡ (edge r a b || not (x == y) && (x == a && y == b || y == a && x == b))
unfolding add_dependency
edge-add_dependency x y r a b = ground (
  arith,
  edge-add_item y x (add_item x y r) a b,
  edge-add_item x y r a b,
  edge-add_item x y r y b,
  key_beq_iff x a,
  key_beq_iff y a,
  key_beq_iff x y,
  key_beq_iff y b,
  key_beq_iff x b,
)

pub edge-new : (a b : Key) → edge new_registry a b ≡ false
unfolding new_registry edge deps contains lookup
edge-new a b = refl

lookup-add_item-ne-empty :
    (x y a : Key) (r : RegistryItems) → lookup a r ≢ some [] → lookup a (add_item x y r) ≢ some []
unfolding add_item add
lookup-add_item-ne-empty x y a r h = ground (
  arith,
  lookup-insert x a (add y (members (lookup x r))) r,
  append-ne-nil (members (lookup x r)) y,
  contains-nil y,
)

-- The two directions of an added edge, as tests of their ends.
swap_ends : (e n p q s t : Bool) → (e || n && (p && q || s && t)) ≡ (e || n && (t && s || q && p))
swap_ends e n p q s t = ground arith

pub add_dependency-IsGraph :
    (x y : Key) (r : RegistryItems) → IsGraph r → IsGraph (add_dependency x y r)
add_dependency-IsGraph x y r g = record {
  symmetric = λ a b.
      edge-add_dependency x y r a b
      ∙ swap_ends (edge r a b) (not (x == y)) (x == a) (y == b) (y == a) (x == b)
      ∙ rw (g.symmetric a b) (sym (edge-add_dependency x y r b a));
  loopless = λ a. ground (
    arith,
    edge-add_dependency x y r a a,
    g.loopless a,
    key_beq_iff x a,
    key_beq_iff y a,
    key_beq_iff x y,
  );
  no_empty = λ a.
      unfold add_dependency in
      ground (
        arith,
        lookup-add_item-ne-empty y x a (add_item x y r),
        lookup-add_item-ne-empty x y a r,
        g.no_empty a,
      );
}

lookup-del_item-ne-empty :
    (x y a : Key) (r : RegistryItems) → lookup a r ≢ some [] → lookup a (del_item x y r) ≢ some []
unfolding del_item
lookup-del_item-ne-empty x y a r h =
    ground (arith, lookup-insert x a (remove y (members (lookup x r))) r, lookup-delete x a r)

lookup-delete_edges-ne-empty :
    (x : Key) (ks : List Key) (a : Key) (r : RegistryItems)
    → lookup a r ≢ some []
    → lookup a (delete_edges x ks r) ≢ some []
unfolding delete_edges
lookup-delete_edges-ne-empty x [] a r h = h
lookup-delete_edges-ne-empty x (k ∷ ks) a r h =
    lookup-delete_edges-ne-empty x ks a (del_item k x (del_item x k r))
      (lookup-del_item-ne-empty k x a (del_item x k r) (lookup-del_item-ne-empty x k a r h))

pub edge-delete_cascade :
    (x : Key) (r : RegistryItems)
    → IsGraph r
    → (a b : Key) → edge (delete_cascade x r) a b ≡ (not (x == a) && not (x == b) && edge r a b)
unfolding delete_cascade
edge-delete_cascade x r g a b = ground (
  arith,
  edge-delete_edges x (members (lookup x r)) r a b,
  edge-members x a r,
  edge-members x b r,
  g.symmetric a b,
  key_beq_iff x a,
  key_beq_iff x b,
)

pub delete_cascade-IsGraph :
    (x : Key) (r : RegistryItems) → IsGraph r → IsGraph (delete_cascade x r)
delete_cascade-IsGraph x r g = record {
  symmetric = λ a b.
      ground (arith, edge-delete_cascade x r g a b, edge-delete_cascade x r g b a, g.symmetric a b);
  loopless = λ a. ground (arith, edge-delete_cascade x r g a a, g.loopless a);
  no_empty = λ a.
      unfold delete_cascade in
      lookup-delete_edges-ne-empty x (members (lookup x r)) a r (g.no_empty a);
}

-- A key that has no dependency has no entry.
pub lookup_of_no_edge :
    (x : Key) (r : RegistryItems) → IsGraph r → ((b : Key) → edge r x b ≡ false) → lookup x r ≡ none
lookup_of_no_edge x r g alone = elim (Option-cases (lookup x r)) [
  | inl absent ↦ absent
  | inr ([], found) ↦ absurd (g.no_empty x found)
  | inr (k ∷ ks, found) ↦ absurd (nonempty k ks found)
]
  where
    nonempty : (k : Key) (ks : List Key) → lookup x r ≡ some (k ∷ ks) → ⊥
    nonempty k ks found = ground (arith, alone k, edge-members x k r, contains-head k ks)
