-- ===== src/Registry.antt =====
-- model/registry.go: the dependencies between Kubernetes objects. The registry's lock makes each
-- method one step; `items` is the map of adjacency sets.
pub mod Graph
pub mod History
use ingress_controller.Prelude.{
  List, String, [], if◌then◌else◌, is_empty, nat_eq, string_eq, ◌==◌, ◌∷◌,
}
use ingress_controller.Prelude.Map.{Map, delete, insert, lookup}
use ingress_controller.Prelude.Set.{add, members, remove}
use ingress_controller.Prelude.Text.{char_eq}
use ingress_controller.Types.{Key, key_eq, namespaced_name_eq, secret_type_eq}

abbrev pub RegistryItems : Type 0
RegistryItems = Map Key (List Key)

-- NewRegistry
pub new_registry : RegistryItems
new_registry = []

-- registryItems.add
pub add_item : Key → Key → RegistryItems → RegistryItems
add_item x y r = insert x (add y (members (lookup x r))) r

-- registryItems.del
pub del_item : Key → Key → RegistryItems → RegistryItems
del_item x y r =
    let rx = remove y (members (lookup x r)) in if is_empty rx then delete x r else insert x rx r

-- registry.Add
pub add_dependency : Key → Key → RegistryItems → RegistryItems
unfolding add_item
add_dependency x y r = if x == y then r else add_item y x (add_item x y r)

-- registry.Deps
pub deps : RegistryItems → Key → List Key
deps r x = members (lookup x r)

abbrev pub filter_kind : String → List Key → List Key
filter_kind kind [] = []
filter_kind kind (k ∷ ks) =
    let rest = filter_kind kind ks in if k.kind == kind then k ∷ rest else rest

-- registry.DepsOfKind
pub deps_of_kind : RegistryItems → Key → String → List Key
deps_of_kind r x kind = filter_kind kind (members (lookup x r))

-- The loop of registry.DeleteCascade over the keys that the range has still to visit. A round
-- deletes from `items[x]` only the key that it visits, so the range visits each key once.
pub delete_edges : Key → List Key → RegistryItems → RegistryItems
unfolding del_item
delete_edges x [] r = r
delete_edges x (k ∷ ks) r = delete_edges x ks (del_item k x (del_item x k r))

-- registry.DeleteCascade
pub delete_cascade : Key → RegistryItems → RegistryItems
unfolding delete_edges
delete_cascade x r = delete_edges x (members (lookup x r)) r

-- A call of a method of the registry that changes it.
pub data Op : Type 0 where
  add_op : Key → Key → Op
  delete_op : Key → Op

pub apply_op : Op → RegistryItems → RegistryItems
unfolding add_dependency delete_cascade
apply_op (add_op x y) r = add_dependency x y r
apply_op (delete_op x) r = delete_cascade x r

-- The registry after the calls, the latest at the head.
pub history : List Op → RegistryItems
unfolding apply_op new_registry
history [] = new_registry
history (op ∷ ops) = apply_op op (history ops)
