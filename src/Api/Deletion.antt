-- ===== src/Api/Deletion.antt =====
-- pomerium/sync_api.go: Delete of an ingress.
use ingress_controller.Api.{Clients, IngressObject, absent, all_route_id_annotations, cluster_error}
use ingress_controller.Api.Ingresses.{at_start, delete_api_routes, patch_changed}
use ingress_controller.Api.Policies.{
  Local, PplTools, delete_policy_for_object, mark_changed, remote,
}
use ingress_controller.Api.Secrets.{delete_key_pairs_for_secrets}
use ingress_controller.Api.Steps.{ApiError, Step, cluster_failed, ◌>>=◌, ◌>>◌}
use ingress_controller.Certs.{domain_key_eq}
use ingress_controller.Externals.{Externals, route_id_eq}
use ingress_controller.Gateway.RefKey.{ref_key_eq}
use ingress_controller.Prelude.{
  Bool, List, Result, err, false, if◌then◌else◌, nat_eq, ok, string_eq, true,
}
use ingress_controller.Prelude.Text.{char_eq}
use ingress_controller.SecretsMap.{TlsSecretsMap, remove_entity}
use ingress_controller.Types.{NamespacedName, key_eq, namespaced_name_eq, secret_type_eq}

module _ {S : Type 0} (c : Clients S) (x : Externals) (y : PplTools) where
  -- `changed = changed || RemoveFinalizer(...)`: the finalizer is removed only where nothing has
  -- changed so far.
  abbrev pub remove_finalizer : Step (Local S) (Unit {0})
  remove_finalizer l =
      if l.changed
      then (ok tt, l)
      else (ok tt, record l { has_finalizer = false; changed = l.has_finalizer })

  -- The part of Delete that removes the routes and the policy
  unfoldable pub delete_routes_and_policy : Step (Local S) (Unit {0})
  unfolding all_route_id_annotations delete_api_routes delete_policy_for_object
  delete_routes_and_policy = do
    keys ← (λ l. (ok (all_route_id_annotations l.annotations), l))
    delete_api_routes c x y true keys
    deleted ← delete_policy_for_object c x y
    mark_changed deleted

  -- The part that removes the key pairs and the finalizer
  unfoldable pub delete_key_pairs_and_finalizer : List NamespacedName → Step (Local S) (Unit {0})
  unfolding delete_key_pairs_for_secrets
  delete_key_pairs_and_finalizer unreferenced = do
    removed ← remote (delete_key_pairs_for_secrets c x unreferenced)
    mark_changed removed
    remove_finalizer

  abbrev delete_rest :
      IngressObject
      → Result ApiError (Unit {0}) × Local S
      → TlsSecretsMap
      → Result ApiError Bool × (S × TlsSecretsMap)
  delete_rest ingress (err e, l) tls_map =
      let (r, t) =
        patch_changed c x y {A = Unit {0}} ingress.kind ingress.namespaced_name (err e, l) in
      (r, (t, tls_map))
  delete_rest ingress (ok u, l) tls_map =
      let (next, names) =
        remove_entity (record { kind = ingress.kind; namespaced_name = ingress.namespaced_name })
          tls_map in
      let (r, t) =
        patch_changed c x y ingress.kind ingress.namespaced_name
          (delete_key_pairs_and_finalizer names l) in
      (r, (t, next))

  -- Delete
  unfoldable pub delete_api_ingress : NamespacedName → Step (S × TlsSecretsMap) Bool
  unfolding delete_routes_and_policy delete_key_pairs_and_finalizer patch_changed remove_entity
  delete_api_ingress name (s, tls_map) = elim (c.get_ingress s name) [
    | err absent ↦ (ok false, (s, tls_map))
    | err (cluster_error e) ↦ (err (cluster_failed e), (s, tls_map))
    | ok ingress ↦
        delete_rest ingress
          (delete_routes_and_policy (at_start c x y s ingress.annotations ingress.has_finalizer))
          tls_map
  ]
