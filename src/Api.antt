-- ===== src/Api.antt =====
-- pomerium/sync_api.go: the objects of the unified API (routes, policies and key pairs), and how
-- one of them is created, found or updated. The client is a parameter on a state of its own. The
-- three functions upsertOneRoute, upsertPolicy and upsertKeyPair are one here, with what differs
-- between them in a record.
pub mod Steps
pub mod Upserted
pub mod Secrets
pub mod Policies
pub mod Ingresses
pub mod Deletion
pub mod Annotated
pub mod Deleted
use ingress_controller.Annotations.Mcp.Modes.{client}
use ingress_controller.Api.Steps.{
  ApiError, Code, Step, api_failed, attempt, call, code_already_exists, code_failed_precondition,
  code_not_found, fail, not_found_by_name, return, ◌>>=◌, ◌>>◌,
}
use ingress_controller.Certs.{domain_key_eq}
use ingress_controller.Externals.{route_id_eq}
use ingress_controller.Gateway.RefKey.{ref_key_eq}
use ingress_controller.Prelude.{
  Bool, List, Option, Result, String, [], err, false, if◌then◌else◌, nat_eq, none, not, ok, some,
  string_eq, true, ℕ, ◌==◌, ◌∷◌,
}
use ingress_controller.Prelude.Map.{Map}
use ingress_controller.Prelude.Number.{itoa}
use ingress_controller.Prelude.Text.{char_eq, has_prefix, ◌<>◌}
use ingress_controller.Route.{Policy, Route}
use ingress_controller.RouteList.{text_or_empty}
use ingress_controller.Types.{NamespacedName, Secret, key_eq, namespaced_name_eq, secret_type_eq}

-- A route, a policy or a key pair of the API: `metadata` are the fields that a comparison ignores.
pub record ApiObject (B M : Type 0) : Type 0 where
  pub id : Option String
  pub namespace_id : Option String
  pub originator_id : Option String
  pub name : Option String
  pub body : B
  pub metadata : M

-- The methods of sdk.Client for one kind of object
pub record ApiClient (S B M : Type 0) : Type 0 where
  pub get_object : S → String → Result Code (ApiObject B M)
  -- the List method with the filter of the originator and the name
  pub list_by_name : S → String → String → Result Code (List (ApiObject B M))
  pub create_object : S → ApiObject B M → Result Code (ApiObject B M) × S
  pub update_object : S → ApiObject B M → Result Code (Unit {0}) × S
  pub delete_object : S → String → Result Code (Unit {0}) × S
  -- proto.Equal
  pub is_same : ApiObject B M → ApiObject B M → Bool

-- Where the three functions differ
pub record Kind (S B M : Type 0) : Type 0 where
  pub client : ApiClient S B M
  -- the metadata with the fields cleared that a comparison ignores
  pub clear : M → M
  -- the errors of a creation that mean that the object may be there
  pub is_recoverable : Code → Bool
  -- an object of another namespace is deleted before it is created again
  pub deletes_moved : Bool
  -- an object that is found by its name counts as a change
  pub counts_found : Bool
  -- the error where none has the name
  pub none_found : ApiError

abbrev pub already_exists : Code → Bool
already_exists code_already_exists = true
already_exists _ = false

abbrev pub exists_or_overlaps : Code → Bool
exists_or_overlaps code_already_exists = true
exists_or_overlaps code_failed_precondition = true
exists_or_overlaps _ = false

abbrev pub originator_id : String
originator_id = "ingress-controller"

module _ {S B M : Type 0} (client : ApiClient S B M) where
  abbrev pub route_kind_of : (M → M) → Kind S B M
  route_kind_of clear = record {
    client = client;
    clear = clear;
    is_recoverable = exists_or_overlaps;
    deletes_moved = true;
    counts_found = false;
    none_found = not_found_by_name;
  }

  abbrev pub policy_kind_of : (M → M) → Kind S B M
  policy_kind_of clear = record {
    client = client;
    clear = clear;
    is_recoverable = already_exists;
    deletes_moved = false;
    counts_found = true;
    none_found = not_found_by_name;
  }

  abbrev pub key_pair_kind_of : (M → M) → Kind S B M
  key_pair_kind_of clear = record {
    client = client;
    clear = clear;
    is_recoverable = already_exists;
    deletes_moved = true;
    counts_found = true;
    none_found = api_failed code_not_found;
  }

module _ {S B M : Type 0} (k : Kind S B M) where
  abbrev pub found_object : Result Code (ApiObject B M) → Result ApiError (Option (ApiObject B M))
  found_object (ok o) = ok (some o)
  found_object (err code_not_found) = ok none
  found_object (err c) = err (api_failed c)

  -- The look-up of the existing object
  unfoldable pub find_existing : String → Step S (Option (ApiObject B M))
  find_existing id s =
      if id == "" then (ok none, s) else (found_object (k.client.get_object s id), s)

  abbrev pub gone : Result Code (Unit {0}) → Result ApiError (Unit {0})
  gone (err code_not_found) = ok tt
  gone (ok u) = ok tt
  gone (err c) = err (api_failed c)

  -- deleteRoute, deletePolicy, deleteKeyPair
  unfoldable pub delete_by_id : String → Step S (Unit {0})
  delete_by_id id s = let (r, t) = k.client.delete_object s id in (gone r, t)

  abbrev pub first_object : Result Code (List (ApiObject B M)) → Result ApiError (ApiObject B M)
  first_object (ok []) = err k.none_found
  first_object (ok (o ∷ os)) = ok o
  first_object (err c) = err (api_failed c)

  -- findRouteByName, findPolicyByName, findKeyPairByName
  unfoldable pub find_by_name : Option String → Step S (ApiObject B M)
  find_by_name name s =
      (first_object (k.client.list_by_name s originator_id (text_or_empty name)), s)

  -- An object is in another namespace than the one that is wanted.
  abbrev pub is_moved : ApiObject B M → Option (ApiObject B M) → Bool
  is_moved o none = false
  is_moved o (some e) = elim o.namespace_id [
    | none ↦ false
    | some n ↦ not (n == text_or_empty e.namespace_id)
  ]

  -- What a comparison sees of an existing object
  abbrev pub visible : Option String → ApiObject B M → ApiObject B M
  visible none e = record e { namespace_id = none; metadata = k.clear e.metadata }
  visible (some n) e = record e { metadata = k.clear e.metadata }

  -- The part of the functions that updates an object that exists; the result says whether there was
  -- a change, and the id.
  unfoldable pub update_existing :
      ApiObject B M → Bool → ApiObject B M → Step S (Bool × Option String)
  update_existing o changed e s =
      if k.client.is_same (visible o.namespace_id e) o
      then (ok (changed, o.id), s)
      else ((call (λ t. k.client.update_object t o)) >> return (true, o.id)) s

  -- What follows a creation: an object that is there already is looked up by its name.
  abbrev pub after_create :
      ApiObject B M → Result Code (ApiObject B M) → Step S (Bool × Option String)
  after_create o (ok new) = return (true, new.id)
  after_create o (err c) =
      if k.is_recoverable c
      then (find_by_name o.name >>= λ e. update_existing (record o { id = e.id }) k.counts_found e)
      else fail (api_failed c)

  -- The part that creates an object
  unfoldable pub create_new : ApiObject B M → Step S (Bool × Option String)
  unfolding update_existing find_by_name
  create_new o = do created ← attempt (λ t. k.client.create_object t o); after_create o created

  abbrev pub drop_moved : Option (ApiObject B M) → Step S (Unit {0})
  drop_moved none = return tt
  drop_moved (some e) = if k.deletes_moved then delete_by_id (text_or_empty e.id) else return tt

  abbrev pub upsert_found : ApiObject B M → Option (ApiObject B M) → Step S (Bool × Option String)
  upsert_found o none = create_new (record o { id = none })
  upsert_found o (some e) = update_existing o false e

  abbrev pub upsert_kept :
      ApiObject B M → Option (ApiObject B M) → Bool → Step S (Bool × Option String)
  upsert_kept o existing true = drop_moved existing >> upsert_found o none
  upsert_kept o existing false = upsert_found o existing

  -- upsertOneRoute, upsertPolicy, upsertKeyPair
  unfoldable pub upsert_object : ApiObject B M → Step S (Bool × Option String)
  unfolding find_existing delete_by_id create_new update_existing
  upsert_object o = do
    existing ← find_existing (text_or_empty o.id)
    upsert_kept o existing (is_moved o existing)

-- The fields of each kind that a comparison sees
pub record RouteBody : Type 0 where
  pub route : Route
  pub policy_ids : List String
  pub tls_custom_ca_key_pair_id : Option String
  pub tls_client_key_pair_id : Option String
  pub tls_downstream_client_ca_key_pair_id : Option String

pub record KeyPairBody : Type 0 where
  pub certificate : String
  pub key : String

-- And those that the functions clear first: the times as texts, what the API has assigned
pub record RouteMetadata : Type 0 where
  pub created_at : Option String
  pub modified_at : Option String
  pub assigned_policies : List String
  pub enforced_policies : List String
  pub stat_name : Option String

pub record PolicyMetadata : Type 0 where
  pub created_at : Option String
  pub modified_at : Option String
  pub assigned_routes : List String
  pub enforced : Option Bool

pub record KeyPairMetadata : Type 0 where
  pub created_at : Option String
  pub modified_at : Option String
  pub certificate_info : List String
  pub origin : ℕ
  pub status : ℕ

abbrev pub clear_route : RouteMetadata → RouteMetadata
clear_route m = record {
  created_at = none;
  modified_at = none;
  assigned_policies = [];
  enforced_policies = [];
  stat_name = none;
}

-- falseToNil
abbrev pub false_to_nil : Option Bool → Option Bool
false_to_nil (some false) = none
false_to_nil b = b

abbrev pub clear_policy : PolicyMetadata → PolicyMetadata
clear_policy m = record {
  created_at = none;
  modified_at = none;
  assigned_routes = [];
  enforced = false_to_nil m.enforced;
}

abbrev pub clear_key_pair : KeyPairMetadata → KeyPairMetadata
clear_key_pair m = record {
  created_at = none;
  modified_at = none;
  certificate_info = [];
  origin = 0;
  status = 0;
}

-- An Ingress as the Kubernetes API holds it, with whether it has the reconciler's finalizer
pub record IngressObject : Type 0 where
  pub kind : String
  pub namespaced_name : NamespacedName
  pub annotations : Map String String
  pub has_finalizer : Bool

pub data ClusterError : Type 0 where
  absent : ClusterError
  cluster_error : String → ClusterError

-- The clients of an APIReconciler, and its namespace. A patch sends the annotations of an object
-- and whether it has the finalizer.
pub record Clients (S : Type 0) : Type 0 where
  pub routes : ApiClient S RouteBody RouteMetadata
  pub policies : ApiClient S Policy PolicyMetadata
  pub key_pairs : ApiClient S KeyPairBody KeyPairMetadata
  pub get_secret : S → NamespacedName → Result ClusterError Secret
  pub patch_secret : S → Secret → Bool → Result String (Unit {0}) × S
  pub get_ingress : S → NamespacedName → Result ClusterError IngressObject
  pub patch_ingress : S → IngressObject → Result String (Unit {0}) × S
  pub namespace_id : Option String

module _ {S : Type 0} (c : Clients S) where
  abbrev pub route_kind : Kind S RouteBody RouteMetadata
  route_kind = route_kind_of c.routes clear_route

  abbrev pub policy_kind : Kind S Policy PolicyMetadata
  policy_kind = policy_kind_of c.policies clear_policy

  abbrev pub key_pair_kind : Kind S KeyPairBody KeyPairMetadata
  key_pair_kind = key_pair_kind_of c.key_pairs clear_key_pair

abbrev pub api_route_id_annotation_prefix : String
api_route_id_annotation_prefix = "api.pomerium.io/route-id-"

abbrev pub api_policy_id_annotation : String
api_policy_id_annotation = "api.pomerium.io/policy-id"

abbrev pub api_key_pair_id_annotation : String
api_key_pair_id_annotation = "api.pomerium.io/keypair-id"

-- emptyToNil
abbrev pub empty_to_nil : String → Option String
empty_to_nil t = if t == "" then none else some t

-- routeIDAnnotationForIndex
unfoldable pub route_id_annotation_for_index : ℕ → String
unfolding itoa
route_id_annotation_for_index i = api_route_id_annotation_prefix <> itoa i

-- allRouteIDAnnotations
unfoldable pub all_route_id_annotations : Map String String → List String
unfolding has_prefix
all_route_id_annotations [] = []
all_route_id_annotations ((k, v) ∷ m) =
    let rest = all_route_id_annotations m in
    if has_prefix k api_route_id_annotation_prefix then k ∷ rest else rest
