-- ===== src/Registry/History.antt =====
-- The registry against its specification: what `Deps` and `DepsOfKind` answer after any calls.
use ingress_controller.Prelude.{
  Bool, List, String, [], arith, beq_refl, false, nat_eq, none, not, string_eq, ◌&&◌, ◌==◌, ◌||◌,
  ◌∷◌, ◌≡◌,
}
use ingress_controller.Prelude.Map.{lookup}
use ingress_controller.Prelude.Set.{contains, members}
use ingress_controller.Prelude.Text.{char_eq}
use ingress_controller.Registry.{
  Op, add_op, apply_op, delete_op, deps, deps_of_kind, filter_kind, history,
}
use ingress_controller.Registry.Graph.{
  IsGraph, add_dependency-IsGraph, delete_cascade-IsGraph, edge, edge-add_dependency,
  edge-delete_cascade, edge-new, lookup_of_no_edge, new_registry-IsGraph,
}
use ingress_controller.Types.{Key, key_beq_iff, key_eq, namespaced_name_eq, secret_type_eq}
use text.Mathlib.TextEquality.{eq_iff}

-- Whether `a` and `b` depend on one another after the calls, read off the calls alone: the latest
-- call that concerns the two decides.
pub linked : List Op → Key → Key → Bool
linked [] a b = false
linked (add_op x y ∷ ops) a b =
    linked ops a b || not (x == y) && (x == a && y == b || y == a && x == b)
linked (delete_op x ∷ ops) a b = not (x == a) && not (x == b) && linked ops a b

-- After any sequence of Add and DeleteCascade the dependencies are symmetric, no key depends on
-- itself, and no key is kept with an empty set.
pub history-IsGraph : (ops : List Op) → IsGraph (history ops)
unfolding history apply_op
history-IsGraph [] = new_registry-IsGraph
history-IsGraph (add_op x y ∷ ops) = add_dependency-IsGraph x y (history ops) (history-IsGraph ops)
history-IsGraph (delete_op x ∷ ops) = delete_cascade-IsGraph x (history ops) (history-IsGraph ops)

edge-history : (ops : List Op) (a b : Key) → edge (history ops) a b ≡ linked ops a b
unfolding history apply_op linked
edge-history [] a b = edge-new a b
edge-history (add_op x y ∷ ops) a b =
    rw (← edge-history ops a b) (edge-add_dependency x y (history ops) a b)
edge-history (delete_op x ∷ ops) a b =
    rw (← edge-history ops a b) (edge-delete_cascade x (history ops) (history-IsGraph ops) a b)

contains-filter_kind :
    (kind : String) (ks : List Key) (b : Key)
    → contains b (filter_kind kind ks) ≡ (b.kind == kind && contains b ks)
unfolding contains
contains-filter_kind kind [] b = ground arith
contains-filter_kind kind (k ∷ ks) b =
    ground (
      arith,
      contains-filter_kind kind ks b,
      key_beq_iff k b,
      eq_iff k.kind kind,
      eq_iff b.kind kind,
    )

-- After any calls, `Deps` of a key lists exactly the keys that the calls have linked to it, and
-- `DepsOfKind` those of them that have the kind.
pub history-refines-linked :
    (ops : List Op) (a b : Key) (kind : String)
    → (contains b (deps (history ops) a) ≡ linked ops a b)
      × (contains b (deps_of_kind (history ops) a kind) ≡ (b.kind == kind && linked ops a b))
unfolding deps_of_kind
history-refines-linked ops a b kind =
    let e : contains b (deps (history ops) a) ≡ linked ops a b =
      unfold edge in edge-history ops a b in
    (e, rw (← e) (unfold deps in contains-filter_kind kind (members (lookup a (history ops))) b))

-- A key that was deleted is gone: no key depends on it, it depends on none, and `items` has no
-- entry for it.
pub delete_cascade_clears :
    (ops : List Op) (x b : Key)
    → (contains b (deps (history (delete_op x ∷ ops)) x) ≡ false)
      × (contains x (deps (history (delete_op x ∷ ops)) b) ≡ false)
      × (lookup x (history (delete_op x ∷ ops)) ≡ none)
unfolding edge linked
delete_cascade_clears ops x b = (
  ground (arith, edge-history (delete_op x ∷ ops) x b, beq_refl x),
  ground (arith, edge-history (delete_op x ∷ ops) b x, beq_refl x),
  lookup_of_no_edge x (history (delete_op x ∷ ops)) (history-IsGraph (delete_op x ∷ ops))
      (λ c. ground (arith, edge-history (delete_op x ∷ ops) x c, beq_refl x)),
)
