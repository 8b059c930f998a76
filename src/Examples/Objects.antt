-- ===== src/Examples/Objects.antt =====
-- The theorems of the registry, the gateway and the configuration at concrete inputs.
use ingress_controller.Certs.{domain_key_eq}
use ingress_controller.Externals.{Externals, route_id_eq}
use ingress_controller.Gateway.Conditions.{Condition, stamp, upsert_condition}
use ingress_controller.Gateway.Conditions.Upsert.{
  SameContent, condition_of, upsert_condition_idem, upsert_condition_lem,
}
use ingress_controller.Gateway.Grants.{ReferenceGrant, allowed, build_reference_grant_map}
use ingress_controller.Gateway.Grants.Allowed.{allowed-build_reference_grant_map, permits}
use ingress_controller.Gateway.Hostname.{hostname_intersection, route_hostnames}
use ingress_controller.Gateway.Hostname.Intersection.{matches, matches-hostname_intersection}
use ingress_controller.Gateway.Hostname.Served.{
  listener_accepts, route_accepts, serves, serves-route_hostnames,
}
use ingress_controller.Gateway.RefKey.{RefKey, gateway_group, ref_key_eq}
use ingress_controller.Gateway.Translate.{RouteConfig, match_prefix, translate_routes}
use ingress_controller.Gateway.Translate.Answers.{IsFor, translate_routes_lem}
use ingress_controller.IngressConfig.{
  DeepCopies, IngressConfig, SshSecrets, clone, validate_ssh_secrets,
}
use ingress_controller.IngressConfig.Laws.{clone_lem, present, validate_ssh_secrets_iff}
use ingress_controller.Names.{Obeys, apply_option, parse_namespaced_name, with_default_namespace}
use ingress_controller.Names.Spelled.{Spells, parse_namespaced_name-Spells}
use ingress_controller.Prelude.{
  All, List, String, [], any, false, nat_eq, none, ok, refl, some, string_eq, true, ◌&&◌, ◌==◌,
  ◌||◌, ◌↔◌, ◌∷◌, ◌≡◌, ◌≢◌, ◌⊎◌,
}
use ingress_controller.Prelude.Map.{lookup}
use ingress_controller.Prelude.Set.{contains}
use ingress_controller.Prelude.Text.{char_eq, has_prefix, split}
use ingress_controller.Registry.{Op, add_op, delete_op, deps, deps_of_kind, history}
use ingress_controller.Registry.Graph.{IsGraph}
use ingress_controller.Registry.History.{
  delete_cascade_clears, history-IsGraph, history-refines-linked, linked,
}
use ingress_controller.Types.{
  Key, NamespacedName, Secret, key_eq, namespaced_name_eq, secret_type_eq, ssh_auth, tls,
}

abbrev thing : String → String → Key
thing kind name = record { kind = kind; namespaced_name = record { namespace = "ns"; name = name } }

abbrev ops : List Op
ops =
    delete_op (thing "Secret" "b")
    ∷ add_op (thing "Ingress" "a") (thing "Secret" "c")
    ∷ add_op (thing "Ingress" "a") (thing "Secret" "b")
    ∷ []

history-IsGraph_example : IsGraph (history ops)
history-IsGraph_example = history-IsGraph ops

history-refines-linked_example :
    (contains (thing "Secret" "c") (deps (history ops) (thing "Ingress" "a"))
      ≡ linked ops (thing "Ingress" "a") (thing "Secret" "c"))
    × (contains (thing "Secret" "c") (deps_of_kind (history ops) (thing "Ingress" "a") "Secret") ≡ (
        (thing "Secret" "c").kind == "Secret"
        && linked ops (thing "Ingress" "a") (thing "Secret" "c")))
history-refines-linked_example =
    history-refines-linked ops (thing "Ingress" "a") (thing "Secret" "c") "Secret"

delete_cascade_clears_example :
    (contains
        (thing "Secret" "c")
        (deps (history (delete_op (thing "Ingress" "a") ∷ ops)) (thing "Ingress" "a"))
      ≡ false)
    × (contains
          (thing "Ingress" "a")
          (deps (history (delete_op (thing "Ingress" "a") ∷ ops)) (thing "Secret" "c"))
        ≡ false)
    × (lookup (thing "Ingress" "a") (history (delete_op (thing "Ingress" "a") ∷ ops)) ≡ none)
delete_cascade_clears_example = delete_cascade_clears ops (thing "Ingress" "a") (thing "Secret" "c")

abbrev grant : ReferenceGrant
grant = record {
  namespace = "certs";
  from = record { group = gateway_group; kind = "Gateway"; namespace = "ns" } ∷ [];
  to = record { group = ""; kind = "Secret"; name = none } ∷ [];
}

abbrev gateway_object : RefKey
gateway_object = record { group = gateway_group; kind = "Gateway"; namespace = "ns"; name = "gw" }

abbrev secret_key : RefKey
secret_key = record { group = ""; kind = "Secret"; namespace = "certs"; name = "tls" }

allowed-build_reference_grant_map_example :
    allowed (build_reference_grant_map (grant ∷ [])) gateway_object secret_key ≡ (
      gateway_object.namespace == secret_key.namespace
      || any (permits (record gateway_object { name = "" }) secret_key) (grant ∷ [])
      || any
          (permits (record gateway_object { name = "" }) (record secret_key { name = "" }))
          (grant ∷ []))
allowed-build_reference_grant_map_example =
    allowed-build_reference_grant_map (grant ∷ []) gateway_object secret_key

serves-route_hostnames_example :
    serves (route_hostnames (some "*.example.com") ("a.example.com" ∷ [])) "a.example.com" ≡ (
      listener_accepts (some "*.example.com") "a.example.com"
      && route_accepts ("a.example.com" ∷ []) "a.example.com")
unfolding has_prefix
serves-route_hostnames_example =
    serves-route_hostnames (some "*.example.com") ("a.example.com" ∷ []) "a.example.com" (λ e. cc)
      refl (λ e. cc) ((λ e. cc), tt)

matches-hostname_intersection_example :
    matches (hostname_intersection "*.example.com" "*.a.example.com") "b.a.example.com"
    ≡ (matches "*.example.com" "b.a.example.com" && matches "*.a.example.com" "b.a.example.com")
unfolding has_prefix
matches-hostname_intersection_example =
    matches-hostname_intersection "*.example.com" "*.a.example.com" "b.a.example.com" (λ e. cc) refl

abbrev accepted : Condition
accepted = record {
  condition_type = "Accepted";
  status = "True";
  reason = "Accepted";
  message = "";
  observed_generation = 1;
  last_transition_time = 10;
}

upsert_condition_lem_example :
    ((d : Condition) × (condition_of "Accepted" (upsert_condition 20 2 accepted (accepted ∷ [])).0
        ≡ some d)
      × SameContent d (stamp 20 2 accepted))
    × (condition_of "Programmed" (upsert_condition 20 2 accepted (accepted ∷ [])).0
        ≡ condition_of "Programmed" (accepted ∷ []))
    × (((upsert_condition 20 2 accepted (accepted ∷ [])).1 ≡ true)
        ⊎ ((upsert_condition 20 2 accepted (accepted ∷ [])).0 ≡ accepted ∷ []))
upsert_condition_lem_example =
    upsert_condition_lem 20 2 accepted (accepted ∷ []) "Programmed" (λ e. cc)

upsert_condition_idem_example :
    upsert_condition 30 2 accepted (upsert_condition 20 2 accepted (accepted ∷ [])).0
    ≡ ((upsert_condition 20 2 accepted (accepted ∷ [])).0, false)
upsert_condition_idem_example = upsert_condition_idem 20 30 2 accepted (accepted ∷ [])

abbrev host_key : Secret
host_key = record {
  namespaced_name = record { namespace = "ns"; name = "host" };
  secret_type = ssh_auth;
  contents = [];
  annotations = [];
}

abbrev ssh_secrets : SshSecrets
ssh_secrets = record { host_keys = host_key ∷ []; user_ca_key = some host_key }

validate_ssh_secrets_iff_example : (validate_ssh_secrets ssh_secrets ≡ ok tt) ↔ (
    All (λ k. k.secret_type ≡ ssh_auth) ssh_secrets.host_keys
    × All (λ k. k.secret_type ≡ ssh_auth) (present ssh_secrets.user_ca_key))
validate_ssh_secrets_iff_example = validate_ssh_secrets_iff ssh_secrets

abbrev with_endpoints : IngressConfig
with_endpoints = record {
  annotation_prefix = "p";
  ingress = record {
    namespaced_name = record { namespace = "ns"; name = "a" };
    uid = "1";
    labels = [];
    annotations = [];
    deleted = false;
    ingress_class_name = none;
    tls = [];
    default_backend = none;
    rules = [];
  };
  endpoints = (record { namespace = "ns"; name = "web" }, []) ∷ [];
  secrets =
      (
        record { namespace = "ns"; name = "cert" },
        record {
          namespaced_name = record { namespace = "ns"; name = "cert" };
          secret_type = tls;
          contents = [];
          annotations = [];
        },
      )
      ∷ [];
  services = [];
}

abbrev deep_copies : DeepCopies
deep_copies = record { ingress = λ i. i; secret = λ s. s; service = λ s. s }

clone_lem_example :
    ((clone deep_copies with_endpoints).annotation_prefix ≡ with_endpoints.annotation_prefix)
    × ((clone deep_copies with_endpoints).ingress ≡ with_endpoints.ingress)
    × ((n : NamespacedName)
        → lookup n (clone deep_copies with_endpoints).secrets ≡ lookup n with_endpoints.secrets)
    × ((n : NamespacedName)
        → lookup n (clone deep_copies with_endpoints).services ≡ lookup n with_endpoints.services)
    × ((n : NamespacedName) → lookup n (clone deep_copies with_endpoints).endpoints ≡ none)
clone_lem_example = clone_lem deep_copies (λ i. refl) (λ s. refl) (λ s. refl) with_endpoints

abbrev backend_route : RouteConfig
backend_route = record {
  namespace = "ns";
  name = "web";
  rules =
      record {
        matches =
            record {
              path = some (record { match_type = some match_prefix; value = some "/a" });
              headers = [];
              query_params = [];
              method = none;
            }
            ∷ [];
        filters = [];
        backend_refs = record { name = "web"; namespace = none; port = 80; weight = none } ∷ [];
      }
      ∷ [];
  hostnames = "a.example.com" ∷ "b.example.com" ∷ [];
  is_valid_ref = λ ref. true;
  services = [];
  extension_filters = λ k. none;
}

abbrev plain_externals : Externals
plain_externals = record {
  slug = λ s. s;
  marshal_route_id = λ id. id.name;
  unmarshal_route_id = λ s. none;
  unmarshal_route = λ kvs r. ok r;
  unmarshal_policy = λ kvs p. ok p;
  unmarshal_params = λ v m. ok m;
  generate_rego = λ src. ok src;
  parse_module = λ rego. ok tt;
  encode_base64 = λ s. s;
}

translate_routes_lem_example :
    All
      (IsFor (λ r. true) backend_route.hostnames)
      (translate_routes plain_externals (λ r. true) backend_route)
translate_routes_lem_example = translate_routes_lem plain_externals (λ r. true) backend_route

abbrev web_name : NamespacedName
web_name = record { namespace = "ns"; name = "web" }

name_parsed : parse_namespaced_name "web" (with_default_namespace "ns" ∷ []) ≡ ok web_name
unfolding parse_namespaced_name apply_option split
name_parsed = refl

parse_namespaced_name-Spells_example :
    Spells (with_default_namespace "ns") "web" web_name
    × (web_name.name ≢ "")
    × Obeys (with_default_namespace "ns") web_name
parse_namespaced_name-Spells_example =
    parse_namespaced_name-Spells "web" (with_default_namespace "ns") web_name name_parsed
