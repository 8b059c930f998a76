-- ===== src/Api/Ingresses.antt =====
-- pomerium/sync_api.go: Upsert of an ingress.
use ingress_controller.Annotations.Errors.{AnnotationError}
use ingress_controller.Annotations.Keys.{Keys, remove_key_prefix}
use ingress_controller.Api.{
  ApiObject, Clients, RouteBody, RouteMetadata, all_route_id_annotations,
  api_key_pair_id_annotation, api_policy_id_annotation, delete_by_id, empty_to_nil, originator_id,
  policy_kind, route_id_annotation_for_index, route_kind, upsert_object,
}
use ingress_controller.Api.Policies.{
  Local, PplTools, annotate, annotation, delete_policy_for_object, mark_changed, remote,
  remove_annotation, sync_ingress_policy,
}
use ingress_controller.Api.Secrets.{delete_key_pairs_for_secrets, sync_secrets}
use ingress_controller.Api.Steps.{
  ApiError, Step, both_errors, cannot_convert_ingress, cannot_read_annotations, cluster_failed,
  lift, no_key_pair_id, return, secret_missing, ◌>>=◌, ◌>>◌,
}
use ingress_controller.Certs.{domain_key_eq}
use ingress_controller.Externals.{Externals, route_id_eq}
use ingress_controller.Gateway.RefKey.{ref_key_eq}
use ingress_controller.IngressConfig.{IngressConfig}
use ingress_controller.IngressConfig.Names.{
  tls_client_secret, tls_custom_ca_secret, tls_downstream_client_ca_secret,
}
use ingress_controller.IngressRoutes.{ingress_to_routes}
use ingress_controller.Prelude.{
  Bool, List, Option, Result, String, [], err, false, if◌then◌else◌, nat_eq, none, not, ok, some,
  string_eq, suc, true, ℕ, ◌&&◌, ◌==◌, ◌||◌, ◌∷◌,
}
use ingress_controller.Prelude.Map.{Map, get_text, lookup}
use ingress_controller.Prelude.Set.{remove}
use ingress_controller.Prelude.Text.{char_eq}
use ingress_controller.Route.{Route}
use ingress_controller.RouteList.{text_or_empty}
use ingress_controller.SecretsMap.{TlsSecretsMap, update_ingress}
use ingress_controller.Types.{Key, NamespacedName, key_eq, namespaced_name_eq, secret_type_eq}

abbrev both : {A B : Type 0} → Result ApiError A → Result ApiError B → Result ApiError (A × B)
both (ok a) (ok b) = ok (a, b)
both (err e) (err f) = err (both_errors e f)
both (err e) (ok b) = err e
both (ok a) (err f) = err f

-- keyPairIDForAnnotation
unfoldable pub key_pair_id_for_annotation :
    Keys → IngressConfig → String → Result ApiError (Option String)
key_pair_id_for_annotation kv ic annotation_name = elim (lookup annotation_name kv.tls) [
  | none ↦ ok none
  | some secret_name ↦
      elim (lookup (record ic.ingress.namespaced_name { name = secret_name }) ic.secrets) [
        | none ↦ err (secret_missing secret_name)
        | some secret ↦
            let id = get_text api_key_pair_id_annotation secret.annotations in
            if id == "" then err (no_key_pair_id secret_name) else ok (some id)
      ]
]

-- The key pairs of the custom CA, the client and the downstream client CA
abbrev pub KeyPairIds : Type 0
KeyPairIds = Option String × Option String × Option String

abbrev pub key_pair_ids :
    Keys → IngressConfig → Result ApiError ((Option String × Option String) × Option String)
key_pair_ids kv ic =
    both
      (both (key_pair_id_for_annotation kv ic tls_custom_ca_secret)
        (key_pair_id_for_annotation kv ic tls_client_secret))
      (key_pair_id_for_annotation kv ic tls_downstream_client_ca_secret)

-- The route without what the API keeps in policies and key pairs. Its id and its name stand in the
-- object.
abbrev pub bare_route : Route → Route
bare_route r = record r {
  id = none;
  name = none;
  stat_name = none;
  policies = [];
  tls_custom_ca = "";
  tls_client_cert = "";
  tls_client_key = "";
  tls_downstream_client_ca = "";
}

-- `[]string{id}`, where there is one
abbrev pub ids_of_policy : String → List String
ids_of_policy id = if id == "" then [] else id ∷ []

-- The annotations that the loop takes out of the unused ones
unfoldable pub without_indices : ℕ → List Route → List String → List String
unfolding route_id_annotation_for_index
without_indices i [] unused = unused
without_indices i (route ∷ routes) unused =
    without_indices (suc i) routes (remove (route_id_annotation_for_index i) unused)

module _ {S : Type 0} (c : Clients S) (x : Externals) (y : PplTools) where
  -- The route object of upsertOneIngress and upsertOneRoute
  unfoldable pub route_object :
      List String
      → ((Option String × Option String) × Option String)
      → String
      → Route
      → ApiObject RouteBody RouteMetadata
  route_object policies key_pairs id route = record {
    id = empty_to_nil id;
    namespace_id = c.namespace_id;
    originator_id = some originator_id;
    name = route.name;
    body = record {
      route = bare_route route;
      policy_ids = policies;
      tls_custom_ca_key_pair_id = key_pairs.0.0;
      tls_client_key_pair_id = key_pairs.0.1;
      tls_downstream_client_ca_key_pair_id = key_pairs.1;
    };
    metadata = record {
      created_at = none;
      modified_at = none;
      assigned_policies = [];
      enforced_policies = [];
      stat_name = none;
    };
  }

  -- The loop of upsertOneIngress over the routes, from an index
  unfoldable pub upsert_routes_from :
      List String
      → ((Option String × Option String) × Option String)
      → ℕ
      → List Route
      → Step (Local S) (Unit {0})
  unfolding route_object upsert_object route_id_annotation_for_index
  upsert_routes_from policies key_pairs i [] = return tt
  upsert_routes_from policies key_pairs i (route ∷ routes) = do
    id ← annotation (route_id_annotation_for_index i)
    synced ← remote (upsert_object (route_kind c) (route_object policies key_pairs id route))
    annotate (route_id_annotation_for_index i) (text_or_empty synced.1)
    mark_changed synced.0
    upsert_routes_from policies key_pairs (suc i) routes

  -- deleteRoutes; Delete notes a change at each route, since it does so where a later one fails
  unfoldable pub delete_api_routes : Bool → List String → Step (Local S) Bool
  unfolding delete_by_id
  delete_api_routes marks [] = return false
  delete_api_routes marks (k ∷ ks) = do
    id ← annotation k
    remote (delete_by_id (route_kind c) id)
    remove_annotation k
    mark_changed marks
    delete_api_routes marks ks
    return true

  -- A call whose error is ignored
  abbrev pub ignore_error : Step (Local S) (Unit {0}) → Step (Local S) (Unit {0})
  ignore_error m l = (ok tt, (m l).1)

  abbrev pub delete_replaced_policy : String → String → Step (Local S) (Unit {0})
  delete_replaced_policy existing updated =
      if not (existing == "") && not (updated == "") && not (existing == updated)
      then ignore_error (remote (delete_by_id (policy_kind c) existing))
      else return tt

  abbrev pub delete_unneeded_policy : String → Step (Local S) Bool
  delete_unneeded_policy updated =
      if updated == "" then delete_policy_for_object c x y else return false

  -- controllerutil.AddFinalizer, noted as a change
  abbrev pub add_finalizer : Step (Local S) (Unit {0})
  add_finalizer l =
      (ok tt, record l { has_finalizer = true; changed = l.changed || not l.has_finalizer })

  abbrev pub read_annotations : Result AnnotationError Keys → Result ApiError Keys
  read_annotations (ok kv) = ok kv
  read_annotations (err e) = err (cannot_read_annotations e)

  -- upsertOneIngress, before the patch that is deferred
  unfoldable pub upsert_local : IngressConfig → List Route → Step (Local S) (Unit {0})
  unfolding sync_ingress_policy upsert_routes_from without_indices all_route_id_annotations
      delete_api_routes delete_policy_for_object delete_by_id
  upsert_local ic routes = do
    add_finalizer
    annotations ← (λ l. (ok l.annotations, l))
    kv ← lift (read_annotations (remove_key_prefix annotations ic.annotation_prefix))
    existing ← annotation api_policy_id_annotation
    policy ← sync_ingress_policy c x y ic.ingress.namespaced_name kv
    mark_changed policy.0
    key_pairs ← lift (key_pair_ids kv ic)
    unused ← (λ l. (ok (all_route_id_annotations l.annotations), l))
    upsert_routes_from (ids_of_policy policy.1) key_pairs 0 routes
    deletes ← delete_api_routes false (without_indices 0 routes unused)
    mark_changed deletes
    delete_replaced_policy existing policy.1
    deleted ← delete_unneeded_policy policy.1
    mark_changed deleted

  abbrev joined :
      {A : Type 0} → Result ApiError A → Bool → Result String (Unit {0}) → Result ApiError Bool
  joined (ok a) changed (ok u) = ok changed
  joined (ok a) changed (err e) = err (cluster_failed e)
  joined (err f) changed (ok u) = err f
  joined (err f) changed (err e) = err (both_errors f (cluster_failed e))

  abbrev patched :
      {A : Type 0} → Result ApiError A → Result String (Unit {0}) × S → Result ApiError Bool × S
  patched r (p, w) = (joined r true p, w)

  abbrev unpatched : {A : Type 0} → Result ApiError A → Result ApiError Bool
  unpatched (ok a) = ok false
  unpatched (err e) = err e

  -- The deferred function: an object that was changed is patched, after an error too.
  unfoldable pub patch_changed :
      {A : Type 0}
      → String
      → NamespacedName
      → Result ApiError A × Local S
      → Result ApiError Bool × S
  patch_changed kind name (r, l) =
      if l.changed
      then patched r (
          c.patch_ingress l.world (record {
            kind = kind;
            namespaced_name = name;
            annotations = l.annotations;
            has_finalizer = l.has_finalizer;
          }))
      else (unpatched r, l.world)

  abbrev pub at_start : S → Map String String → Bool → Local S
  at_start s annotations has_finalizer = record {
    world = s;
    annotations = annotations;
    has_finalizer = has_finalizer;
    changed = false;
  }

  -- upsertOneIngress, on an ingress that has the finalizer or not
  unfoldable pub upsert_one_ingress : String → Bool → IngressConfig → Step S Bool
  unfolding upsert_local patch_changed
  upsert_one_ingress kind has_finalizer ic s = elim (ingress_to_routes x ic) [
    | err e ↦ (err (cannot_convert_ingress e), s)
    | ok routes ↦
        patch_changed kind ic.ingress.namespaced_name
          (upsert_local ic routes (at_start s ic.ingress.annotations has_finalizer))
  ]

  abbrev with_map : {A : Type 0} → Step S A → Step (S × TlsSecretsMap) A
  with_map m (s, tls_map) = let (r, t) = m s in (r, (t, tls_map))

  abbrev on_map :
      (TlsSecretsMap → TlsSecretsMap × List NamespacedName)
      → Step (S × TlsSecretsMap) (List NamespacedName)
  on_map f (s, tls_map) = let (next, names) = f tls_map in (ok names, (s, next))

  -- Upsert, with the map of the secrets in the state
  unfoldable pub upsert_ingress : Key → Bool → IngressConfig → Step (S × TlsSecretsMap) Bool
  unfolding sync_secrets upsert_one_ingress update_ingress delete_key_pairs_for_secrets
  upsert_ingress key has_finalizer ic = do
    synced ← with_map (sync_secrets c x ic.secrets)
    changed ←
        with_map (upsert_one_ingress key.kind has_finalizer (record ic { secrets = synced.1 }))
    unreferenced ← on_map (update_ingress key synced.1)
    deletes ← with_map (delete_key_pairs_for_secrets c x unreferenced)
    return (synced.0 || changed || deletes)
