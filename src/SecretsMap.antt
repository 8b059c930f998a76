-- ===== src/SecretsMap.antt =====
-- model/secrets_map.go: which entities refer to which TLS secrets. The mutex makes each method one
-- step; a method returns the new maps beside its result.
pub mod Consistent
pub mod Unreferenced
pub mod Calls
use ingress_controller.Prelude.{
  List, [], if◌then◌else◌, is_empty, map, nat_eq, none, some, string_eq, ◌++◌, ◌==◌, ◌∷◌,
}
use ingress_controller.Prelude.Map.{Map, insert, lookup}
use ingress_controller.Prelude.Set.{add, members, remove}
use ingress_controller.Prelude.Text.{char_eq}
use ingress_controller.Registry.{deps}
use ingress_controller.Registry.History.{linked}
use ingress_controller.Types.{
  Key, NamespacedName, Secret, key_eq, namespaced_name_eq, secret_type_eq, tls,
}

pub record TlsSecretsMap : Type 0 where
  pub deps : Map Key (List NamespacedName)
  pub reverse_deps : Map NamespacedName (List Key)

-- NewTLSSecretsMap, and what Reset leaves
pub new_tls_secrets_map : TlsSecretsMap
new_tls_secrets_map = record { deps = []; reverse_deps = [] }

-- ensureMapEntry(m.reverseDeps, s); m.reverseDeps[s][n] = struct{}{}
pub link : Key → NamespacedName → Map NamespacedName (List Key) → Map NamespacedName (List Key)
link n s rev = insert s (add n (members (lookup s rev))) rev

-- The loop of UpdateEntity over the new dependencies: the reverse map, and what is left of the
-- previous ones.
pub link_all :
    Key
    → List NamespacedName
    → Map NamespacedName (List Key)
    → List NamespacedName
    → Map NamespacedName (List Key) × List NamespacedName
unfolding link
link_all n [] rev previous = (rev, previous)
link_all n (s ∷ ss) rev previous = link_all n ss (link n s rev) (remove s previous)

-- delete(m.reverseDeps[s], n): a missing set stays missing
pub unlink : Key → NamespacedName → Map NamespacedName (List Key) → Map NamespacedName (List Key)
unlink n s rev = elim (lookup s rev) [ none ↦ rev | some ks ↦ insert s (remove n ks) rev ]

-- TLSSecretsMap.removeReverseDeps
pub remove_reverse_deps :
    Key
    → List NamespacedName
    → Map NamespacedName (List Key)
    → Map NamespacedName (List Key) × List NamespacedName
unfolding unlink
remove_reverse_deps n [] rev = (rev, [])
remove_reverse_deps n (s ∷ ss) rev =
    let after = unlink n s rev in
    let (last, unreferenced) = remove_reverse_deps n ss after in
    (last, if is_empty (members (lookup s after)) then s ∷ unreferenced else unreferenced)

-- TLSSecretsMap.UpdateEntity
pub update_entity : Key → List NamespacedName → TlsSecretsMap → TlsSecretsMap × List NamespacedName
unfolding link_all remove_reverse_deps
update_entity n new m =
    let (linked, stale) = link_all n new m.reverse_deps (members (lookup n m.deps)) in
    let (last, unreferenced) = remove_reverse_deps n stale linked in
    (record { deps = insert n new m.deps; reverse_deps = last }, unreferenced)

-- TLSSecretsMap.RemoveEntity
unfoldable pub remove_entity : Key → TlsSecretsMap → TlsSecretsMap × List NamespacedName
unfolding remove_reverse_deps
remove_entity n m =
    let (last, unreferenced) = remove_reverse_deps n (members (lookup n m.deps)) m.reverse_deps in
    (record { deps = insert n [] m.deps; reverse_deps = last }, unreferenced)

-- TLSSecretsMap.Add
pub add_secret : Key → NamespacedName → TlsSecretsMap → TlsSecretsMap
unfolding link
add_secret entity secret m = record {
  deps = insert entity (add secret (members (lookup entity m.deps))) m.deps;
  reverse_deps = link entity secret m.reverse_deps;
}

-- The names of the TLS secrets of an ingress, as UpdateIngress collects them.
pub tls_secret_names : Map NamespacedName Secret → List NamespacedName
tls_secret_names [] = []
tls_secret_names ((n, s) ∷ secrets) =
    let rest = tls_secret_names secrets in if s.secret_type == tls then add n rest else rest

-- TLSSecretsMap.UpdateIngress, given KeyForObject of the ingress
unfoldable pub update_ingress :
    Key → Map NamespacedName Secret → TlsSecretsMap → TlsSecretsMap × List NamespacedName
unfolding tls_secret_names update_entity
update_ingress n secrets = update_entity n (tls_secret_names secrets)

pub secret_names : List Secret → List NamespacedName
secret_names [] = []
secret_names (s ∷ secrets) = add s.namespaced_name (secret_names secrets)

abbrev entry_names : Map NamespacedName Secret → List NamespacedName
entry_names certs = map (λ entry. entry.0) certs

-- TLSSecretsMap.UpdateConfig, given KeyForObject of the settings
unfoldable pub update_config :
    Key
    → Map NamespacedName Secret
    → List Secret
    → TlsSecretsMap
    → TlsSecretsMap × List NamespacedName
unfolding secret_names update_entity
update_config n certs ca_secrets = update_entity n (secret_names ca_secrets ++ entry_names certs)

abbrev pub gateway_config_key : Key
gateway_config_key = record {
  kind = "GatewayConfig";
  namespaced_name = record { namespace = ""; name = "" };
}

-- TLSSecretsMap.UpdateGatewayConfig
unfoldable pub update_gateway_config :
    List Secret → TlsSecretsMap → TlsSecretsMap × List NamespacedName
unfolding secret_names update_entity
update_gateway_config certificates = update_entity gateway_config_key (secret_names certificates)
