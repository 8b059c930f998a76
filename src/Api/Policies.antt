-- ===== src/Api/Policies.antt =====
-- pomerium/ingress_to_policy.go, and the policy of an ingress in pomerium/sync_api.go.
use ingress_controller.Annotations.Errors.{AnnotationError}
use ingress_controller.Annotations.Keys.{Keys}
use ingress_controller.Annotations.Policies.{unmarshal_policy_annotations}
use ingress_controller.Api.{
  ApiObject, Clients, PolicyMetadata, api_policy_id_annotation, delete_by_id, empty_to_nil,
  originator_id, policy_kind, upsert_object,
}
use ingress_controller.Api.Steps.{
  ApiError, PolicyError, Step, bad_base, bad_policy, bad_ppl, cannot_make_policy, lift, return,
  ◌>>=◌, ◌>>◌,
}
use ingress_controller.Certs.{domain_key_eq}
use ingress_controller.Externals.{Externals, route_id_eq}
use ingress_controller.Gateway.RefKey.{ref_key_eq}
use ingress_controller.Prelude.{
  Bool, List, Option, Result, String, [], err, false, if◌then◌else◌, is_empty, nat_eq, none, ok,
  some, string_eq, true, wrap, ◌&&◌, ◌==◌, ◌||◌, ◌∷◌,
}
use ingress_controller.Prelude.Map.{Map, delete, get_text, insert}
use ingress_controller.Prelude.Text.{char_eq, ◌<>◌}
use ingress_controller.Route.{Policy}
use ingress_controller.RouteList.{text_or_empty}
use ingress_controller.Types.{NamespacedName, key_eq, namespaced_name_eq, secret_type_eq}

-- parser.Rule, by its criteria
pub record PplRule : Type 0 where
  pub ands : List String
  pub ors : List String
  pub nots : List String
  pub nors : List String

-- The fields of a route that keysToPolicy reads of the base annotations
pub record BaseFlags : Type 0 where
  pub allow_any_authenticated_user : Bool
  pub allow_public_unauthenticated_access : Bool

-- The libraries that read the base annotations and translate to and from PPL.
pub record PplTools : Type 0 where
  -- unmarshalAnnotations into a route
  pub read_base : Map String String → Result String BaseFlags
  -- config.Policy of the fields, with yaml.Unmarshal of the source, and its ToPPL
  pub to_ppl : BaseFlags → Policy → Result String (List PplRule)
  pub marshal_ppl : List PplRule → Result String String

-- isNoOpPolicy
unfoldable pub is_no_op_policy : List PplRule → Bool
is_no_op_policy [] = true
is_no_op_policy (r ∷ rules) =
    is_empty r.ands && is_empty r.ors && is_empty r.nots && is_empty r.nors && is_no_op_policy rules

abbrev pub blank_policy : Policy
blank_policy = record { source_ppl = none; rego = []; allowed_users = []; allowed_domains = [] }

module _ (x : Externals) (y : PplTools) where
  abbrev policy_of_rules : List PplRule → Result PolicyError (Option Policy)
  policy_of_rules rules = if is_no_op_policy rules then ok none else elim (y.marshal_ppl rules) [
    | err e ↦ err (bad_ppl e)
    | ok text ↦ ok (some (record blank_policy { source_ppl = some text }))
  ]

  abbrev rules_of : BaseFlags → Result AnnotationError Policy → Result PolicyError (List PplRule)
  rules_of flags (err e) = err (bad_policy e)
  rules_of flags (ok policy) = wrap bad_ppl (y.to_ppl flags policy)

  abbrev policy_or : Result PolicyError (List PplRule) → Result PolicyError (Option Policy)
  policy_or (err e) = err e
  policy_or (ok rules) = policy_of_rules rules

  -- keysToPolicy, without the name that it is given
  unfoldable pub keys_to_policy : Keys → Result PolicyError (Option Policy)
  unfolding is_no_op_policy unmarshal_policy_annotations
  keys_to_policy kv = elim (y.read_base kv.base) [
    | err e ↦ err (bad_base e)
    | ok flags ↦ policy_or (rules_of flags (unmarshal_policy_annotations x kv.policy blank_policy))
  ]

-- What upsertOneIngress and Delete work on: the clients' state, the annotations and the finalizer
-- of the ingress as they stand in memory, and whether there was a change.
pub record Local (S : Type 0) : Type 0 where
  pub world : S
  pub annotations : Map String String
  pub has_finalizer : Bool
  pub changed : Bool

module _ {S : Type 0} where
  -- A step of the clients
  abbrev pub remote : {A : Type 0} → Step S A → Step (Local S) A
  remote m l = let (r, w) = m l.world in (r, record l { world = w })

  -- changed = changed || b
  abbrev pub mark_changed : Bool → Step (Local S) (Unit {0})
  mark_changed b l = (ok tt, record l { changed = l.changed || b })

  -- util.SetAnnotation
  abbrev pub annotate : String → String → Step (Local S) (Unit {0})
  annotate k v l = (ok tt, record l { annotations = insert k v l.annotations })

  abbrev pub annotation : String → Step (Local S) String
  annotation k l = (ok (get_text k l.annotations), l)

  abbrev pub remove_annotation : String → Step (Local S) (Unit {0})
  remove_annotation k l = (ok tt, record l { annotations = delete k l.annotations })

module _ {S : Type 0} (c : Clients S) (x : Externals) (y : PplTools) where
  -- The policy object of syncIngressPolicy
  abbrev pub policy_object : NamespacedName → String → Policy → ApiObject Policy PolicyMetadata
  policy_object n existing policy = record {
    id = empty_to_nil existing;
    namespace_id = c.namespace_id;
    originator_id = some originator_id;
    name = some (x.slug (n.namespace <> " " <> n.name <> " policy"));
    body = policy;
    metadata = record {
      created_at = none;
      modified_at = none;
      assigned_routes = [];
      enforced = none;
    };
  }

  abbrev pub sync_policy : NamespacedName → Option Policy → Step (Local S) (Bool × String)
  sync_policy n none = return (false, "")
  sync_policy n (some policy) = do
    existing ← annotation api_policy_id_annotation
    synced ← remote (upsert_object (policy_kind c) (policy_object n existing policy))
    annotate api_policy_id_annotation (text_or_empty synced.1)
    return (synced.0, text_or_empty synced.1)

  abbrev pub made_policy : Result PolicyError (Option Policy) → Result ApiError (Option Policy)
  made_policy (ok p) = ok p
  made_policy (err e) = err (cannot_make_policy e)

  -- syncIngressPolicy
  unfoldable pub sync_ingress_policy : NamespacedName → Keys → Step (Local S) (Bool × String)
  unfolding upsert_object keys_to_policy
  sync_ingress_policy n kv = do
    policy ← lift (made_policy (keys_to_policy x y kv))
    sync_policy n policy

  -- deletePolicyForObject
  unfoldable pub delete_policy_for_object : Step (Local S) Bool
  unfolding delete_by_id
  delete_policy_for_object = do
    id ← annotation api_policy_id_annotation
    (if id == "" then return false else (do
      remote (delete_by_id (policy_kind c) id)
      remove_annotation api_policy_id_annotation
      return true))
