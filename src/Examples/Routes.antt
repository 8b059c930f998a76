-- ===== src/Examples/Routes.antt =====
-- The theorems on routes, annotations and secrets at concrete inputs.
use ingress_controller.Annotations.{apply_annotations}
use ingress_controller.Annotations.Keys.{Keys, file_key, file_keys, no_keys, remove_key_prefix}
use ingress_controller.Annotations.Keys.Sorted.{
  acceptable, annotated, is_ok-remove_key_prefix, lookup-remove_key_prefix, policy_group,
}
use ingress_controller.Annotations.Mcp.{
  apply_mcp_annotations, apply_mcp_client_annotations, check_mcp_client,
}
use ingress_controller.Annotations.Mcp.Modes.{annotated_mode, mode-apply_mcp_annotations, mode_of}
use ingress_controller.Annotations.Policies.{parse_policy, unmarshal_policy_annotations}
use ingress_controller.Annotations.Secrets.{
  apply_secret_annotations, copy_map, merge_into, merge_maps,
}
use ingress_controller.Annotations.Secrets.Headers.{is_ok-merge_maps, lookup-merge_maps}
use ingress_controller.Annotations.Tls.{apply_tls_annotations}
use ingress_controller.Annotations.Upstream.{apply_upstream_annotations}
use ingress_controller.Certs.{domain_key_eq}
use ingress_controller.Externals.{Externals, RouteId, route_id_eq}
use ingress_controller.Gateway.RefKey.{ref_key_eq}
use ingress_controller.IngressConfig.{
  IngressConfig, find_port, get_service_port_by_name, is_annotation_set, is_http01_solver,
  is_path_regex, is_secure_upstream, is_ssh_upstream, is_tcp_upstream, is_udp_upstream,
  use_service_proxy,
}
use ingress_controller.IngressRoutes.{
  default_backend_route, ingress_to_routes, path_to_route, paths_to_routes, route_template,
  rule_to_route, rules_to_routes,
}
use ingress_controller.IngressRoutes.Access.{IsPolicyOf, IsPublic, ingress_to_routes-policies}
use ingress_controller.IngressRoutes.Backend.{
  endpoint_hosts, find_target, get_endpoint_port_matcher, get_endpoints_urls,
  get_path_service_hosts, get_service_from_path, get_upstream_scheme, hosts_of_addresses,
  hosts_of_ports, hosts_of_subsets, set_service_urls,
}
use ingress_controller.IngressRoutes.Backend.Endpoints.{
  asked_for, contains-get_endpoints_urls, offers,
}
use ingress_controller.IngressRoutes.Path.{
  derive_host_from_tls, set_match_path, set_route_from, set_route_name_id, set_route_path,
  set_tunnel_path,
}
use ingress_controller.IngressRoutes.Results.{declared, ingress_to_routes_lem}
use ingress_controller.IngressRoutes.Stages.{IsRouteOf}
use ingress_controller.Kube.{Endpoints, Service, ServiceBackend, cluster_ip_type, int, path_exact}
use ingress_controller.Prelude.{
  All, List, Pairwise, Result, String, [], all, any, err, false, first_of, if◌then◌else◌, is_ok,
  nat_eq, none, not, ok, refl, some, string_eq, true, ◌==◌, ◌↔◌, ◌∷◌, ◌≡◌, ◌⊎◌,
}
use ingress_controller.Prelude.Map.{Map, delete, has_key, insert, insert_all, lookup, remove_where}
use ingress_controller.Prelude.Number.{itoa, itoa_from}
use ingress_controller.Prelude.Set.{contains}
use ingress_controller.Prelude.Sort.{insert_sorted, sort}
use ingress_controller.Prelude.Text.{char_eq, drop_prefix, has_prefix, to_lower, trim_prefix}
use ingress_controller.Prelude.Url.{escape_host, join_host_port, url_string}
use ingress_controller.Route.{Policy, Route, empty_route, mcp_client_mode}
use ingress_controller.RouteList.{
  delete_routes, index_routes, merge, merge_routes, remove_name, route_less, to_list, to_map,
}
use ingress_controller.RouteList.Index.{find_route}
use ingress_controller.RouteList.Merging.{
  find_route-delete_routes, find_route-merge_routes, is_id_of,
}
use ingress_controller.SecretsMap.{remove_entity, update_entity}
use ingress_controller.SecretsMap.Calls.{
  Call, add_call, after_calls, after_calls-IsConsistent, update_call,
}
use ingress_controller.SecretsMap.Consistent.{IsConsistent, deps_of}
use ingress_controller.SecretsMap.Unreferenced.{
  IsUnreferenced, remove_entity_lem, update_entity_lem,
}
use ingress_controller.Types.{Key, NamespacedName, key_eq, namespaced_name_eq, secret_type_eq}

-- Decoders and encoders that stand for those outside the repository.
abbrev pub externals : Externals
externals = record {
  slug = λ s. s;
  marshal_route_id = λ id. id.name;
  unmarshal_route_id = λ s.
      if s == ""
      then none
      else some (record { name = s; namespace = "ns"; host = "h"; path = "/" });
  unmarshal_route = λ kvs r. ok r;
  unmarshal_policy = λ kvs p. ok p;
  unmarshal_params = λ v m. ok m;
  generate_rego = λ src. ok src;
  parse_module = λ rego. ok tt;
  encode_base64 = λ s. s;
}

abbrev pub named : String → NamespacedName
named name = record { namespace = "ns"; name = name }

abbrev object : String → String → Key
object kind name = record { kind = kind; namespaced_name = named name }

abbrev web : ServiceBackend
web = record { name = "web"; port = record { name = ""; number = 80 } }

abbrev web_service : Service
web_service = record {
  service_type = cluster_ip_type;
  external_name = "";
  cluster_ip = "10.0.0.1";
  ports = record { name = "http"; port = 80; target_port = int 8080 } ∷ [];
  load_balancer = [];
}

abbrev web_endpoints : Endpoints
web_endpoints =
    record {
      addresses = "10.1.0.1" ∷ "10.1.0.2" ∷ [];
      ports = record { name = "http"; port = 8080 } ∷ record { name = "admin"; port = 9090 } ∷ [];
    }
    ∷ []

abbrev pub shop : IngressConfig
shop = record {
  annotation_prefix = "p";
  ingress = record {
    namespaced_name = named "shop";
    uid = "1";
    labels = [];
    annotations = ("p/name", "Shop") ∷ ("p/policy", "allow") ∷ ("other/x", "y") ∷ [];
    deleted = false;
    ingress_class_name = none;
    tls = record { hosts = "shop.example.com" ∷ []; secret_name = "cert" } ∷ [];
    default_backend = some (record { service = some web });
    rules =
        record {
          host = "shop.example.com";
          http = some (
              record {
                path = "/cart";
                path_type = some path_exact;
                backend = record { service = some web };
              }
              ∷ []);
        }
        ∷ [];
  };
  endpoints = (named "web", web_endpoints) ∷ [];
  secrets = [];
  services = (named "web", web_service) ∷ [];
}

abbrev pub value_or {ℓ} : {E : Type 0} {A : Type ℓ} → A → Result E A → A
value_or a (ok b) = b
value_or a (err e) = a

abbrev shop_template : Route
shop_template = value_or empty_route (route_template externals shop)

abbrev shop_routes : List Route
shop_routes = value_or [] (ingress_to_routes externals shop)

template_made : route_template externals shop ≡ ok shop_template
unfolding contains lookup has_prefix drop_prefix trim_prefix to_lower insert delete file_key
    file_keys remove_key_prefix apply_tls_annotations apply_secret_annotations apply_mcp_annotations
    apply_upstream_annotations parse_policy unmarshal_policy_annotations apply_annotations
    is_http01_solver route_template
template_made = refl

routes_made : ingress_to_routes externals shop ≡ ok shop_routes
unfolding contains lookup has_prefix drop_prefix trim_prefix to_lower insert delete file_key
    file_keys remove_key_prefix apply_tls_annotations apply_secret_annotations apply_mcp_annotations
    apply_upstream_annotations parse_policy unmarshal_policy_annotations apply_annotations
    is_http01_solver route_template derive_host_from_tls is_annotation_set is_ssh_upstream
    is_tcp_upstream is_udp_upstream is_secure_upstream is_path_regex use_service_proxy
    get_service_port_by_name find_port get_service_from_path find_target get_endpoint_port_matcher
    hosts_of_ports hosts_of_addresses hosts_of_subsets get_endpoints_urls endpoint_hosts
    get_path_service_hosts get_upstream_scheme set_service_urls set_tunnel_path set_match_path
    set_route_path set_route_from set_route_name_id escape_host url_string join_host_port itoa_from
    itoa sort insert_sorted path_to_route paths_to_routes rule_to_route default_backend_route
    rules_to_routes ingress_to_routes
routes_made = refl

ingress_to_routes_lem_example :
    Pairwise
      (λ (host, p) r. IsRouteOf externals shop shop_template host p r)
      (declared shop.ingress)
      shop_routes
ingress_to_routes_lem_example =
    ingress_to_routes_lem externals shop shop_template shop_routes template_made routes_made

ingress_to_routes-policies_example :
    ((is_http01_solver shop.ingress ≡ true) × All IsPublic shop_routes)
    ⊎ ((is_http01_solver shop.ingress ≡ false)
        × ((policy : Policy) × IsPolicyOf externals shop policy
            × All (λ r. r.policies ≡ policy ∷ []) shop_routes))
ingress_to_routes-policies_example =
    ingress_to_routes-policies externals shop shop_routes routes_made

abbrev route_at : String → String → Route
route_at id from = record empty_route { id = some id; from = from }

abbrev old_routes : List Route
old_routes = route_at "a" "https://a" ∷ route_at "b" "https://b" ∷ []

abbrev new_routes : List Route
new_routes = route_at "b" "https://c" ∷ []

abbrev merged : List Route
merged = value_or [] (merge_routes externals old_routes new_routes (named "a"))

merge_made : merge_routes externals old_routes new_routes (named "a") ≡ ok merged
unfolding lookup insert has_key remove_where insert_all sort insert_sorted route_less remove_name
    merge to_list index_routes to_map merge_routes
merge_made = refl

abbrev key_b : RouteId
key_b = record { name = "b"; namespace = "ns"; host = "h"; path = "/" }

find_route-merge_routes_example :
    find_route externals key_b merged
    ≡ first_of
        (find_route externals key_b new_routes)
        (if is_id_of (named "a") key_b then none else find_route externals key_b old_routes)
find_route-merge_routes_example =
    find_route-merge_routes externals old_routes new_routes (named "a") merged merge_made key_b

abbrev remaining : List Route
remaining = value_or [] (delete_routes externals old_routes (named "a"))

delete_made : delete_routes externals old_routes (named "a") ≡ ok remaining
unfolding lookup insert has_key remove_where sort insert_sorted route_less remove_name to_list
    index_routes to_map delete_routes
delete_made = refl

find_route-delete_routes_example :
    find_route externals key_b remaining
    ≡ (if is_id_of (named "a") key_b then none else find_route externals key_b old_routes)
find_route-delete_routes_example =
    find_route-delete_routes externals old_routes (named "a") remaining delete_made key_b

abbrev shop_keys : Keys
shop_keys = value_or no_keys (remove_key_prefix shop.ingress.annotations "p")

keys_made : remove_key_prefix shop.ingress.annotations "p" ≡ ok shop_keys
unfolding contains has_prefix drop_prefix trim_prefix insert file_key file_keys remove_key_prefix
keys_made = refl

lookup-remove_key_prefix_example :
    lookup "policy" shop_keys.policy ≡ annotated "p/" "policy" shop.ingress.annotations
unfolding contains
lookup-remove_key_prefix_example =
    lookup-remove_key_prefix shop.ingress.annotations "p" shop_keys keys_made policy_group "policy"

is_ok-remove_key_prefix_example :
    is_ok (remove_key_prefix shop.ingress.annotations "p")
    ≡ all (acceptable "p/") shop.ingress.annotations
is_ok-remove_key_prefix_example = is_ok-remove_key_prefix shop.ingress.annotations "p"

contains-get_endpoints_urls_example :
    contains "10.1.0.2:8080" (get_endpoints_urls web.port web_service.ports web_endpoints)
    ≡ any (offers (asked_for web.port web_service.ports) "10.1.0.2:8080") web_endpoints
contains-get_endpoints_urls_example =
    contains-get_endpoints_urls "10.1.0.2:8080" web.port web_service.ports web_endpoints

abbrev mcp_route : Route
mcp_route = record empty_route { mcp = some mcp_client_mode }

client_made :
    apply_mcp_annotations externals [] (("mcp_client", "true") ∷ []) empty_route ≡ ok mcp_route
unfolding apply_mcp_annotations apply_mcp_client_annotations check_mcp_client
client_made = refl

mode-apply_mcp_annotations_example :
    (true ≡ true) × (mode_of mcp_route.mcp ≡ annotated_mode true false)
mode-apply_mcp_annotations_example =
    mode-apply_mcp_annotations externals [] (("mcp_client", "true") ∷ []) empty_route mcp_route
      client_made

abbrev own_headers : Map String String
own_headers = ("a", "1") ∷ []

abbrev secret_headers : Map String String
secret_headers = ("b", "2") ∷ []

abbrev both_headers : Map String String
both_headers = ("a", "1") ∷ ("b", "2") ∷ []

is_ok-merge_maps_example :
    is_ok (merge_maps own_headers both_headers)
    ≡ all (λ ((key, v) : String × String). not (has_key key own_headers)) both_headers
is_ok-merge_maps_example = is_ok-merge_maps own_headers both_headers

headers_made : merge_maps own_headers secret_headers ≡ ok both_headers
unfolding lookup insert has_key merge_into copy_map merge_maps
headers_made = refl

lookup-merge_maps_example :
    lookup "b" both_headers ≡ first_of (lookup "b" secret_headers) (lookup "b" own_headers)
unfolding lookup
lookup-merge_maps_example =
    lookup-merge_maps own_headers secret_headers both_headers (refl, tt) (refl, tt) headers_made "b"

abbrev two_calls : List Call
two_calls =
    update_call (object "Ingress" "a") (named "s" ∷ [])
    ∷ add_call (object "Ingress" "b") (named "s")
    ∷ []

after_calls-IsConsistent_example : IsConsistent (after_calls two_calls)
after_calls-IsConsistent_example = after_calls-IsConsistent two_calls

update_entity_lem_example :
    ((k : Key)
      → deps_of (update_entity (object "Ingress" "a") [] (after_calls two_calls)).0 k
        ≡ (if object "Ingress" "a" == k then [] else deps_of (after_calls two_calls) k))
    × IsConsistent (update_entity (object "Ingress" "a") [] (after_calls two_calls)).0
    × ((s : NamespacedName)
        → (contains s (update_entity (object "Ingress" "a") [] (after_calls two_calls)).1 ≡ true)
          ↔ ((contains s (deps_of (after_calls two_calls) (object "Ingress" "a")) ≡ true)
              × IsUnreferenced
                  (update_entity (object "Ingress" "a") [] (after_calls two_calls)).0
                  s))
update_entity_lem_example =
    update_entity_lem (object "Ingress" "a") [] (after_calls two_calls)
      (after_calls-IsConsistent two_calls)

remove_entity_lem_example :
    ((k : Key)
      → deps_of (remove_entity (object "Ingress" "b") (after_calls two_calls)).0 k
        ≡ (if object "Ingress" "b" == k then [] else deps_of (after_calls two_calls) k))
    × IsConsistent (remove_entity (object "Ingress" "b") (after_calls two_calls)).0
    × ((s : NamespacedName)
        → (contains s (remove_entity (object "Ingress" "b") (after_calls two_calls)).1 ≡ true) ↔ (
            (contains s (deps_of (after_calls two_calls) (object "Ingress" "b")) ≡ true)
            × IsUnreferenced (remove_entity (object "Ingress" "b") (after_calls two_calls)).0 s))
remove_entity_lem_example =
    remove_entity_lem (object "Ingress" "b") (after_calls two_calls)
      (after_calls-IsConsistent two_calls)
