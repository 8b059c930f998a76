-- ===== src/Examples/Stored.antt =====
-- The theorems on certificates, settings and the databroker at concrete inputs.
use ingress_controller.Annotations.{apply_annotations}
use ingress_controller.Annotations.Keys.{file_key, file_keys, remove_key_prefix}
use ingress_controller.Annotations.Mcp.{apply_mcp_annotations}
use ingress_controller.Annotations.Policies.{parse_policy, unmarshal_policy_annotations}
use ingress_controller.Annotations.Secrets.{apply_secret_annotations}
use ingress_controller.Annotations.Tls.{apply_tls_annotations}
use ingress_controller.Annotations.Upstream.{apply_upstream_annotations}
use ingress_controller.Certs.{
  CertTools, Certificate, add_if_newer, add_names, certs_at, domain_key_eq, get_all_domains,
  get_certs_in_use, mark_all, mark_in_use, numbers_in_use, parse_cert, parse_domain_key,
  remove_unused_certs, route_domains, to_domain_map,
}
use ingress_controller.Certs.Kept.{remove_unused_certs-All, remove_unused_certs-any}
use ingress_controller.Certs.Marks.{covers_host}
use ingress_controller.Crd.{Config, PomeriumSpec}
use ingress_controller.Databroker.{
  Checks, Client, Configuration, GetError, add_certs, add_tls_certs, drop_unused_certs,
  empty_configuration, ensure_config_order, get_config, ingress_reconciler, not_found, prepare,
  put_if_changed, reconcile, save_config,
}
use ingress_controller.Databroker.Covered.{certificates_of, has_host, secret_covers, upsert-covered}
use ingress_controller.Databroker.Ingresses.{
  delete_ingress, delete_next, set_ingresses, set_next, set_step, upsert, upsert_next,
}
use ingress_controller.Databroker.Replaced.{IsMade, set_ingresses-IsMade}
use ingress_controller.Databroker.Requests.{
  Request, after_request, after_requests, delete_everything, delete_one, get-after_requests,
  upsert_one,
}
use ingress_controller.Databroker.Saving.{Laws, is_put_error, reconcile-error}
use ingress_controller.Databroker.Stored.{delete_ingress-find_route, upsert-find_route}
use ingress_controller.Examples.Routes.{externals, named, shop, value_or}
use ingress_controller.Externals.{RouteId, route_id_eq}
use ingress_controller.Gateway.RefKey.{ref_key_eq}
use ingress_controller.IngressConfig.{
  IngressConfig, find_port, get_service_port_by_name, is_annotation_set, is_http01_solver,
  is_path_regex, is_secure_upstream, is_ssh_upstream, is_tcp_upstream, is_udp_upstream,
  use_service_proxy,
}
use ingress_controller.IngressRoutes.{
  default_backend_route, ingress_to_routes, path_to_route, paths_to_routes, route_template,
  rule_to_route, rules_to_routes,
}
use ingress_controller.IngressRoutes.Backend.{
  endpoint_hosts, find_target, get_endpoint_port_matcher, get_endpoints_urls,
  get_path_service_hosts, get_service_from_path, get_upstream_scheme, hosts_of_addresses,
  hosts_of_ports, hosts_of_subsets, set_service_urls,
}
use ingress_controller.IngressRoutes.Path.{
  derive_host_from_tls, set_match_path, set_route_from, set_route_name_id, set_route_path,
  set_tunnel_path,
}
use ingress_controller.Prelude.{
  All, Bool, List, Option, Result, String, [], any, ap, arith, err, false, first_of, if◌then◌else◌,
  is_empty, is_ok, is_there, length, nat_eq, none, not, ok, refl, some, string_eq, sym, true, ◌&&◌,
  ◌==◌, ◌||◌, ◌∙◌, ◌∷◌, ◌≡◌,
}
use ingress_controller.Prelude.Map.{
  Map, delete, has_key, insert, insert_all, lookup, lookup-delete, lookup-insert,
  lookup-insert_self, remove_where,
}
use ingress_controller.Prelude.Number.{itoa, itoa_from}
use ingress_controller.Prelude.Set.{add, contains}
use ingress_controller.Prelude.Sort.{insert_sorted, sort}
use ingress_controller.Prelude.Text.{char_eq, cut, drop_prefix, has_prefix, to_lower, trim_prefix}
use ingress_controller.Prelude.Url.{escape_host, join_host_port, url_string}
use ingress_controller.Route.{Route}
use ingress_controller.RouteList.{
  delete_routes, index_routes, merge, merge_routes, remove_name, route_less, to_list, to_map,
  upsert_routes,
}
use ingress_controller.RouteList.Index.{find_route}
use ingress_controller.RouteList.Merging.{is_id_of}
use ingress_controller.Settings.{Settings, SettingsTools}
use ingress_controller.Settings.Accepted.{is_accepted, is_ok-apply_config}
use ingress_controller.Settings.Apply.{apply_config}
use ingress_controller.Settings.Groups.{add_tls_cert}
use ingress_controller.Types.{key_eq, namespaced_name_eq, secret_type_eq, tls}

-- A certificate is its one name.
abbrev cert_tools : CertTools
cert_tools = record {
  pem_decode = λ s. some ("CERTIFICATE", s);
  parse_x509 = λ s. some (record { dns_names = s ∷ []; not_after = 1 });
  hostname = λ s. some (trim_prefix s "https://");
}

abbrev cert_for : String → Certificate
cert_for name = record { id = ""; cert_bytes = name; key_bytes = "key" }

abbrev all_certs : List Certificate
all_certs = cert_for "*.example.com" ∷ cert_for "other.net" ∷ cert_for "a.b.c" ∷ []

abbrev addresses : List String
addresses = "https://shop.example.com" ∷ "https://a.b.c" ∷ []

abbrev kept_certs : List Certificate
kept_certs = value_or [] (remove_unused_certs cert_tools addresses none all_certs)

abbrev all_hosts : List String
all_hosts = value_or [] (get_all_domains cert_tools addresses none)

hosts_made : get_all_domains cert_tools addresses none ≡ ok all_hosts
unfolding get_all_domains route_domains trim_prefix add contains
hosts_made = refl

certs_kept : remove_unused_certs cert_tools addresses none all_certs ≡ ok kept_certs
unfolding remove_unused_certs get_all_domains route_domains trim_prefix to_domain_map
    get_certs_in_use mark_all mark_in_use add contains lookup insert add_names add_if_newer
    parse_domain_key cut certs_at numbers_in_use sort insert_sorted parse_cert has_prefix
    drop_prefix
certs_kept = refl

kept_two : length kept_certs ≡ 2
unfolding remove_unused_certs get_all_domains route_domains trim_prefix to_domain_map
    get_certs_in_use mark_all mark_in_use add contains lookup insert add_names add_if_newer
    parse_domain_key cut certs_at numbers_in_use sort insert_sorted parse_cert has_prefix
    drop_prefix
kept_two = refl

is_a_host : contains "a.b.c" all_hosts ≡ true
unfolding get_all_domains route_domains trim_prefix add contains has_prefix drop_prefix
is_a_host = refl

remove_unused_certs-any_example :
    any (covers_host cert_tools "a.b.c") kept_certs ≡ any (covers_host cert_tools "a.b.c") all_certs
remove_unused_certs-any_example =
    remove_unused_certs-any cert_tools addresses none all_certs kept_certs all_hosts "a.b.c"
      hosts_made is_a_host certs_kept

remove_unused_certs-All_example :
    All (λ c. any (λ d. covers_host cert_tools d c) all_hosts ≡ true) kept_certs
remove_unused_certs-All_example =
    remove_unused_certs-All cert_tools addresses none all_certs kept_certs all_hosts hosts_made
      certs_kept

abbrev settings_tools : SettingsTools
settings_tools = record {
  is_url = λ u. has_prefix u "https://";
  parse_float = λ t. if t == "0.5" then some 5 else none;
  is_below_zero = λ v. false;
  is_above_one = λ v. false;
  encode_base64 = λ s. s;
  to_upper = λ s. s;
  range_order = λ m. m;
  hosted_name = "hosted";
}

abbrev no_spec : PomeriumSpec
no_spec = record {
  access_log_fields = none;
  authenticate = some (record { url = "https://auth.example.com" });
  authorize_log_fields = none;
  certificates = [];
  ca_secrets = [];
  cookie = none;
  identity_provider = none;
  jwt_claim_headers = [];
  mcp_allowed_client_id_domains = [];
  mcp_allowed_as_metadata_domains = [];
  pass_identity_headers = none;
  programmatic_redirect_domains = [];
  runtime_flags = [];
  secrets = "";
  set_response_headers = [];
  storage = none;
  timeouts = none;
  use_proxy_protocol = none;
  codec_type = some "http3";
  bearer_token_format = none;
  idp_access_token_allowed_audiences = none;
  otel = none;
  downstream_mtls = none;
  circuit_breaker_thresholds = none;
  dns = none;
  ssh = none;
  allow_upgrades = none;
  envoy_dynamic_extensions = none;
  normalize_path = none;
  merge_slashes = none;
  path_with_escaped_slashes_action = none;
  headers_with_underscores_action = none;
}

abbrev config : Config
config = record {
  spec = no_spec;
  secrets = none;
  ca_secrets = [];
  certs = [];
  request_params = none;
  idp_secret = none;
  ssh_secrets = record { host_keys = []; user_ca_key = none };
  storage_secrets = record { secret = none; tls_secret = none; ca_secret = none };
}

is_ok-apply_config_example :
    is_ok (apply_config settings_tools config none).0 ≡ is_accepted settings_tools config
is_ok-apply_config_example = is_ok-apply_config settings_tools config none

-- A databroker that keeps its records in a map.
abbrev Records : Type 0
Records = Map String (Configuration Route)

abbrev put_record : Records → String → Option (Configuration Route) → Records
put_record s id none = delete id s
put_record s id (some cfg) = insert id cfg s

abbrev found_or : Option (Configuration Route) → Result GetError (Configuration Route)
found_or none = err not_found
found_or (some cfg) = ok cfg

abbrev records : Client Records Route
records = record {
  get = λ s id. found_or (lookup id s);
  put = λ s id c. (ok tt, put_record s id c);
}

abbrev is_blank : Configuration Route → Bool
is_blank c = is_empty c.routes && not (is_there c.settings)

abbrev checks : Checks Route
checks = record {
  less = route_less;
  address = λ r. r.from;
  certificates = cert_tools;
  validate = λ cfg id. ok tt;
  is_same = λ a b. is_blank a && is_blank b;
}

blank_parts :
    (rs : List Route) (o : Option Settings)
    → is_blank (record { routes = rs; settings = o }) ≡ true
    → ◌≡◌ {A = Configuration Route} (record { routes = rs; settings = o }) empty_configuration
blank_parts [] none h = refl
blank_parts [] (some s) h = cc
blank_parts (r ∷ rs) o h = cc

both_blank : (a b : Configuration Route) → (is_blank a && is_blank b) ≡ true → a ≡ b
both_blank a b h =
    blank_parts a.routes a.settings (ground (arith, h))
    ∙ sym (blank_parts b.routes b.settings (ground (arith, h)))

put_elsewhere :
    (s : Records) (id elsewhere : String) (c : Option (Configuration Route))
    → id == elsewhere ≡ false
    → found_or (lookup elsewhere (put_record s id c)) ≡ found_or (lookup elsewhere s)
put_elsewhere s id elsewhere none h =
    ap found_or (lookup-delete id elsewhere s ∙ ap (λ b. if b then none else lookup elsewhere s) h)
put_elsewhere s id elsewhere (some c) h =
    ap found_or
      (lookup-insert id elsewhere c s ∙ ap (λ b. if b then some c else lookup elsewhere s) h)

laws : Laws records checks
laws = record {
  get-put = λ s t id c h.
      ap (λ o. found_or (lookup id o.1)) (sym h) ∙ ap found_or (lookup-insert_self id c s);
  put_elsewhere = put_elsewhere;
  is_same-eq = both_blank;
}

abbrev pub cart : IngressConfig
cart = record shop {
  ingress = record shop.ingress { default_backend = none };
  secrets =
      (
        named "cert",
        record {
          namespaced_name = named "cert";
          secret_type = tls;
          contents = ("tls.crt", "shop.example.com") ∷ ("tls.key", "k") ∷ [];
          annotations = [];
        },
      )
      ∷ [];
}

abbrev after_upsert : Records
after_upsert = (upsert records checks ingress_reconciler externals cart []).1

upsert_made : upsert records checks ingress_reconciler externals cart [] ≡ (ok true, after_upsert)
unfolding contains lookup has_prefix drop_prefix trim_prefix to_lower insert delete file_key
    file_keys remove_key_prefix apply_tls_annotations apply_secret_annotations apply_mcp_annotations
    apply_upstream_annotations parse_policy unmarshal_policy_annotations apply_annotations
    is_http01_solver route_template derive_host_from_tls is_annotation_set is_ssh_upstream
    is_tcp_upstream is_udp_upstream is_secure_upstream is_path_regex use_service_proxy
    get_service_port_by_name find_port get_service_from_path find_target get_endpoint_port_matcher
    hosts_of_ports hosts_of_addresses hosts_of_subsets get_endpoints_urls endpoint_hosts
    get_path_service_hosts get_upstream_scheme set_service_urls set_tunnel_path set_match_path
    set_route_path set_route_from set_route_name_id escape_host url_string join_host_port itoa_from
    itoa sort insert_sorted path_to_route paths_to_routes rule_to_route default_backend_route
    rules_to_routes ingress_to_routes remove_unused_certs get_all_domains route_domains
    to_domain_map get_certs_in_use mark_all mark_in_use add add_names add_if_newer parse_domain_key
    cut certs_at numbers_in_use parse_cert insert_all remove_where remove_name merge to_list
    route_less has_key index_routes to_map merge_routes upsert_routes add_tls_cert add_tls_certs
    add_certs drop_unused_certs ensure_config_order prepare put_if_changed save_config get_config
    reconcile upsert_next upsert
upsert_made = refl

abbrev MadeByUpsert : Records → Type 0
MadeByUpsert t =
    (prev final : Configuration Route) × (new : List Route) × (get_config records checks
        ingress_reconciler []
      ≡ ok prev)
    × (get_config records checks ingress_reconciler t ≡ ok final)
    × (ingress_to_routes externals cart ≡ ok new)
    × ((k : RouteId)
        → find_route externals k final.routes
          ≡ first_of (find_route externals k new)
              (if is_id_of (named "shop") k then none else find_route externals k prev.routes))

upsert-find_route_example : MadeByUpsert after_upsert
upsert-find_route_example =
    upsert-find_route records checks ingress_reconciler externals laws cart [] after_upsert true
      upsert_made

upsert-covered_example :
    (prev final : Configuration Route) × (get_config records checks ingress_reconciler [] ≡ ok prev)
    × (get_config records checks ingress_reconciler after_upsert ≡ ok final)
    × ((d : String)
        → has_host checks d final.routes ≡ true
        → any (covers_host cert_tools d) (certificates_of final) ≡ (
            any (covers_host cert_tools d) (certificates_of prev)
            || secret_covers cert_tools d cart.secrets))
upsert-covered_example =
    upsert-covered records checks ingress_reconciler externals laws cart [] after_upsert true refl
      upsert_made

abbrev after_delete : Records
after_delete =
    (delete_ingress records checks ingress_reconciler externals (named "shop") after_upsert).1

delete_made :
    delete_ingress records checks ingress_reconciler externals (named "shop") after_upsert
    ≡ (ok true, after_delete)
unfolding contains lookup has_prefix drop_prefix trim_prefix to_lower insert delete file_key
    file_keys remove_key_prefix apply_tls_annotations apply_secret_annotations apply_mcp_annotations
    apply_upstream_annotations parse_policy unmarshal_policy_annotations apply_annotations
    is_http01_solver route_template derive_host_from_tls is_annotation_set is_ssh_upstream
    is_tcp_upstream is_udp_upstream is_secure_upstream is_path_regex use_service_proxy
    get_service_port_by_name find_port get_service_from_path find_target get_endpoint_port_matcher
    hosts_of_ports hosts_of_addresses hosts_of_subsets get_endpoints_urls endpoint_hosts
    get_path_service_hosts get_upstream_scheme set_service_urls set_tunnel_path set_match_path
    set_route_path set_route_from set_route_name_id escape_host url_string join_host_port itoa_from
    itoa sort insert_sorted path_to_route paths_to_routes rule_to_route default_backend_route
    rules_to_routes ingress_to_routes remove_unused_certs get_all_domains route_domains
    to_domain_map get_certs_in_use mark_all mark_in_use add add_names add_if_newer parse_domain_key
    cut certs_at numbers_in_use parse_cert insert_all remove_where remove_name merge to_list
    route_less has_key index_routes to_map merge_routes upsert_routes add_tls_cert add_tls_certs
    add_certs drop_unused_certs ensure_config_order prepare put_if_changed save_config get_config
    reconcile upsert_next upsert delete_routes delete_next delete_ingress
delete_made = refl

delete_ingress-find_route_example :
    (prev final : Configuration Route) × (get_config records checks ingress_reconciler after_upsert
      ≡ ok prev)
    × (get_config records checks ingress_reconciler after_delete ≡ ok final)
    × ((k : RouteId)
        → find_route externals k final.routes
          ≡ (if is_id_of (named "shop") k then none else find_route externals k prev.routes))
delete_ingress-find_route_example =
    delete_ingress-find_route records checks ingress_reconciler externals laws (named "shop")
      after_upsert after_delete true delete_made

abbrev after_set : Records
after_set = (set_ingresses records checks ingress_reconciler externals (cart ∷ []) []).1

set_made :
    set_ingresses records checks ingress_reconciler externals (cart ∷ []) [] ≡ (ok true, after_set)
unfolding contains lookup has_prefix drop_prefix trim_prefix to_lower insert delete file_key
    file_keys remove_key_prefix apply_tls_annotations apply_secret_annotations apply_mcp_annotations
    apply_upstream_annotations parse_policy unmarshal_policy_annotations apply_annotations
    is_http01_solver route_template derive_host_from_tls is_annotation_set is_ssh_upstream
    is_tcp_upstream is_udp_upstream is_secure_upstream is_path_regex use_service_proxy
    get_service_port_by_name find_port get_service_from_path find_target get_endpoint_port_matcher
    hosts_of_ports hosts_of_addresses hosts_of_subsets get_endpoints_urls endpoint_hosts
    get_path_service_hosts get_upstream_scheme set_service_urls set_tunnel_path set_match_path
    set_route_path set_route_from set_route_name_id escape_host url_string join_host_port itoa_from
    itoa sort insert_sorted path_to_route paths_to_routes rule_to_route default_backend_route
    rules_to_routes ingress_to_routes remove_unused_certs get_all_domains route_domains
    to_domain_map get_certs_in_use mark_all mark_in_use add add_names add_if_newer parse_domain_key
    cut certs_at numbers_in_use parse_cert insert_all remove_where remove_name merge to_list
    route_less has_key index_routes to_map merge_routes upsert_routes add_tls_cert add_tls_certs
    add_certs drop_unused_certs ensure_config_order prepare put_if_changed save_config get_config
    reconcile upsert_next upsert set_step set_next set_ingresses
set_made = refl

set_ingresses-IsMade_example :
    (final : Configuration Route) × (get_config records checks ingress_reconciler after_set
      ≡ ok final)
    × ((k : RouteId) (route : Route)
        → find_route externals k final.routes ≡ some route
        → IsMade externals (cart ∷ []) k route)
set_ingresses-IsMade_example =
    set_ingresses-IsMade records checks ingress_reconciler externals laws (cart ∷ []) [] after_set
      true set_made

-- A databroker that refuses what it is given is not reached by an invalid configuration.
abbrev strict : Checks Route
strict = record checks { validate = λ cfg id. err "bad" }

rejected :
    is_ok (reconcile records strict ingress_reconciler (upsert_next externals cart) "u" []).0
    ≡ false
unfolding contains lookup has_prefix drop_prefix trim_prefix to_lower insert delete file_key
    file_keys remove_key_prefix apply_tls_annotations apply_secret_annotations apply_mcp_annotations
    apply_upstream_annotations parse_policy unmarshal_policy_annotations apply_annotations
    is_http01_solver route_template derive_host_from_tls is_annotation_set is_ssh_upstream
    is_tcp_upstream is_udp_upstream is_secure_upstream is_path_regex use_service_proxy
    get_service_port_by_name find_port get_service_from_path find_target get_endpoint_port_matcher
    hosts_of_ports hosts_of_addresses hosts_of_subsets get_endpoints_urls endpoint_hosts
    get_path_service_hosts get_upstream_scheme set_service_urls set_tunnel_path set_match_path
    set_route_path set_route_from set_route_name_id escape_host url_string join_host_port itoa_from
    itoa sort insert_sorted path_to_route paths_to_routes rule_to_route default_backend_route
    rules_to_routes ingress_to_routes remove_unused_certs get_all_domains route_domains
    to_domain_map get_certs_in_use mark_all mark_in_use add add_names add_if_newer parse_domain_key
    cut certs_at numbers_in_use parse_cert insert_all remove_where remove_name merge to_list
    route_less has_key index_routes to_map merge_routes upsert_routes add_tls_cert add_tls_certs
    add_certs drop_unused_certs ensure_config_order prepare put_if_changed save_config get_config
    reconcile upsert_next upsert
rejected = refl

not_put :
    is_put_error (reconcile records strict ingress_reconciler (upsert_next externals cart) "u" []).0
    ≡ false
unfolding contains lookup has_prefix drop_prefix trim_prefix to_lower insert delete file_key
    file_keys remove_key_prefix apply_tls_annotations apply_secret_annotations apply_mcp_annotations
    apply_upstream_annotations parse_policy unmarshal_policy_annotations apply_annotations
    is_http01_solver route_template derive_host_from_tls is_annotation_set is_ssh_upstream
    is_tcp_upstream is_udp_upstream is_secure_upstream is_path_regex use_service_proxy
    get_service_port_by_name find_port get_service_from_path find_target get_endpoint_port_matcher
    hosts_of_ports hosts_of_addresses hosts_of_subsets get_endpoints_urls endpoint_hosts
    get_path_service_hosts get_upstream_scheme set_service_urls set_tunnel_path set_match_path
    set_route_path set_route_from set_route_name_id escape_host url_string join_host_port itoa_from
    itoa sort insert_sorted path_to_route paths_to_routes rule_to_route default_backend_route
    rules_to_routes ingress_to_routes remove_unused_certs get_all_domains route_domains
    to_domain_map get_certs_in_use mark_all mark_in_use add add_names add_if_newer parse_domain_key
    cut certs_at numbers_in_use parse_cert insert_all remove_where remove_name merge to_list
    route_less has_key index_routes to_map merge_routes upsert_routes add_tls_cert add_tls_certs
    add_certs drop_unused_certs ensure_config_order prepare put_if_changed save_config get_config
    reconcile upsert_next upsert
not_put = refl

reconcile-error_example :
    (reconcile records strict ingress_reconciler (upsert_next externals cart) "u" []).1 ≡ []
reconcile-error_example =
    reconcile-error records strict ingress_reconciler (upsert_next externals cart) "u" [] rejected
      not_put

abbrev requests : List Request
requests = upsert_one cart ∷ delete_one (named "shop") ∷ delete_everything ∷ []

get-after_requests_example :
    records.get
      (after_requests records checks ingress_reconciler externals settings_tools requests [])
      "pomerium-crd"
    ≡ records.get [] "pomerium-crd"
get-after_requests_example =
    get-after_requests records checks ingress_reconciler externals settings_tools laws requests
      "pomerium-crd" [] refl refl

abbrev after_cart : Records
after_cart =
    after_request records checks ingress_reconciler externals settings_tools (upsert_one cart) []
