-- ===== src/Gateway/Translate.antt =====
-- pomerium/gateway: the routes of an HTTPRoute, from its matches, filters and backend references.
pub mod Answers
use ingress_controller.Externals.{Externals, route_id_eq}
use ingress_controller.Gateway.Hostname.Intersection.{matches}
use ingress_controller.Gateway.RefKey.{ref_key_eq}
use ingress_controller.IngressRoutes.{single}
use ingress_controller.Kube.{Service, ServicePort, int, str}
use ingress_controller.Prelude.{
  Bool, List, Option, String, [], false, if◌then◌else◌, is_empty, length, ltb, nat_eq, none, some,
  string_eq, suc, true, ℕ, ◌&&◌, ◌++◌, ◌==◌, ◌∷◌,
}
use ingress_controller.Prelude.Map.{Map, insert, lookup}
use ingress_controller.Prelude.Number.{itoa}
use ingress_controller.Prelude.Set.{remove}
use ingress_controller.Prelude.Text.{char_eq, ◌<>◌}
use ingress_controller.Prelude.Url.{url_string}
use ingress_controller.Route.{Policy}
use ingress_controller.Types.{NamespacedName, key_eq, namespaced_name_eq, secret_type_eq}

pub record DirectResponse : Type 0 where
  pub status : ℕ
  pub body : String

pub record Redirect : Type 0 where
  pub scheme : Option String
  pub host : Option String
  pub response_code : Option ℕ
  pub port : Option ℕ

-- pb.Route, with the fields that this conversion sets
pub record ProxyRoute : Type 0 where
  pub name : String
  pub from : String
  pub to : List String
  pub load_balancing_weights : List ℕ
  pub path : String
  pub prefix : String
  pub regex : String
  pub set_request_headers : Map String String
  pub remove_request_headers : List String
  pub redirect : Option Redirect
  pub response : Option DirectResponse
  pub policies : List Policy
  pub preserve_host_header : Bool

-- HTTPBackendRef; a valid reference is to a Service and has a port
pub record BackendRef : Type 0 where
  pub name : String
  pub namespace : Option String
  pub port : ℕ
  pub weight : Option ℕ

pub data PathMatchType : Type 0 where
  match_exact match_prefix match_regex : PathMatchType
  match_unknown : String → PathMatchType

pub record PathMatch : Type 0 where
  pub match_type : Option PathMatchType
  pub value : Option String

pub record RouteMatch : Type 0 where
  pub path : Option PathMatch
  pub headers : List String
  pub query_params : List String
  pub method : Option String

pub record ExtensionFilterKey : Type 0 where
  pub kind : String
  pub namespace : String
  pub name : String

pub record ExtensionRef : Type 0 where
  pub group : String
  pub kind : String
  pub name : String

pub data Filter : Type 0 where
  request_header_modifier : (set : Map String String) → (remove : List String) → Filter
  request_redirect : Redirect → Filter
  extension_ref : ExtensionRef → Filter
  unsupported_filter : String → Filter

-- PolicyFilter, with whether its object is deleted
pub record PolicyFilter : Type 0 where
  pub ppl : Option String
  pub rego : List String
  pub deleted : Bool

pub record RouteRule : Type 0 where
  pub matches : List RouteMatch
  pub filters : List Filter
  pub backend_refs : List BackendRef

-- GatewayHTTPRouteConfig, with what the conversion reads of the HTTPRoute and of GatewayConfig; the
-- look-up of an extension filter is a function of its key.
pub record RouteConfig : Type 0 where
  pub namespace : String
  pub name : String
  pub rules : List RouteRule
  pub hostnames : List String
  pub is_valid_ref : BackendRef → Bool
  pub services : Map NamespacedName Service
  pub extension_filters : ExtensionFilterKey → Option PolicyFilter

-- &pb.Route{}
abbrev pub empty_proxy_route : ProxyRoute
empty_proxy_route = record {
  name = "";
  from = "";
  to = [];
  load_balancing_weights = [];
  path = "";
  prefix = "";
  regex = "";
  set_request_headers = [];
  remove_request_headers = [];
  redirect = none;
  response = none;
  policies = [];
  preserve_host_header = false;
}

abbrev set_path : PathMatchType → String → ProxyRoute → ProxyRoute
set_path match_exact v r = record r { path = v }
set_path match_prefix v r = record r { prefix = v }
set_path match_regex v r = record r { regex = v }
set_path (match_unknown t) v r = r

-- applyPathMatch
pub apply_path_match : Option PathMatch → ProxyRoute → ProxyRoute
apply_path_match none r = r
apply_path_match (some m) r = elim (m.match_type) [
  | none ↦ r
  | some t ↦ elim (m.value) [ none ↦ r | some v ↦ set_path t v r ]
]

abbrev is_none : Option String → Bool
is_none none = true
is_none (some s) = false

-- applyMatch; `none` is a match that is not supported
pub apply_match : RouteMatch → ProxyRoute → Option ProxyRoute
unfolding apply_path_match
apply_match m r =
    if is_empty m.headers && is_empty m.query_params && is_none m.method
    then some (apply_path_match m.path r)
    else none

-- makeHeadersMap
pub make_headers_map : Map String String → Map String String → Map String String
make_headers_map [] m = m
make_headers_map ((name, value) ∷ headers) m = make_headers_map headers (insert name value m)

abbrev apply_policy : Option PolicyFilter → ProxyRoute → ProxyRoute × Bool
apply_policy none r = (r, false)
apply_policy (some f) r = if f.deleted then (r, false) else (
  record r {
    policies =
        r.policies
        ++ record { source_ppl = f.ppl; rego = f.rego; allowed_users = []; allowed_domains = [] }
          ∷ [];
  },
  true,
)

-- applyFilter, with applyExtensionFilter: the route, and whether there was no error
pub apply_filter : RouteConfig → Filter → ProxyRoute → ProxyRoute × Bool
unfolding make_headers_map
apply_filter rc (request_header_modifier set remove) r = (
  record r { set_request_headers = make_headers_map set []; remove_request_headers = remove },
  true,
)
apply_filter rc (request_redirect redirect) r = (record r { redirect = some redirect }, true)
apply_filter rc (extension_ref ref) r =
    if ref.group == "gateway.pomerium.io"
    then apply_policy
        (rc.extension_filters
          (record { kind = ref.kind; namespace = rc.namespace; name = ref.name }))
        r
    else (r, false)
apply_filter rc (unsupported_filter t) r = (r, false)

-- applyFilters: an error leaves what the filters before it have set
pub apply_filters : RouteConfig → List Filter → ProxyRoute → ProxyRoute × Bool
unfolding apply_filter
apply_filters rc [] r = (r, true)
apply_filters rc (f ∷ fs) r =
    let (r', fine) = apply_filter rc f r in
    let rest = apply_filters rc fs r' in if fine then rest else (r', false)

-- The loop of backendRefToToURLAndWeight over the ports of a headless service
pub headless_port : ℕ → List ServicePort → ℕ
headless_port port [] = port
headless_port port (p ∷ ps) =
    let rest = headless_port port ps in
    elim (p.target_port) [ int n ↦ if p.port == port then n else rest | str s ↦ rest ]

abbrev or_namespace : Option String → String → String
or_namespace none d = d
or_namespace (some s) d = s

abbrev or_one : Option ℕ → ℕ
or_one none = 1
or_one (some w) = w

abbrev service_port : Option Service → ℕ → ℕ
service_port none port = port
service_port (some s) port = if s.cluster_ip == "None" then headless_port port s.ports else port

-- backendRefToToURLAndWeight
pub backend_ref_to_url_and_weight : RouteConfig → BackendRef → String × ℕ
unfolding headless_port
backend_ref_to_url_and_weight rc ref =
    let namespace = or_namespace ref.namespace rc.namespace in
    let port =
      service_port (lookup (record { namespace = namespace; name = ref.name }) rc.services)
        ref.port in
    (
      "http://" <> ref.name <> "." <> namespace <> ".svc.cluster.local:" <> itoa port,
      or_one ref.weight,
    )

-- The loop of applyBackendRefs
pub add_backend_refs : RouteConfig → List BackendRef → ProxyRoute → ProxyRoute
unfolding backend_ref_to_url_and_weight
add_backend_refs rc [] r = r
add_backend_refs rc (ref ∷ refs) r =
    let (u, w) = backend_ref_to_url_and_weight rc ref in
    add_backend_refs rc refs (
      if rc.is_valid_ref ref && ltb 0 w
      then record r {
        to = r.to ++ u ∷ [];
        load_balancing_weights = r.load_balancing_weights ++ w ∷ [];
      }
      else r)

abbrev no_redirect : Option Redirect → Bool
no_redirect none = true
no_redirect (some r) = false

-- applyBackendRefs
pub apply_backend_refs : RouteConfig → List BackendRef → ProxyRoute → ProxyRoute
unfolding add_backend_refs
apply_backend_refs rc refs r =
    let added = add_backend_refs rc refs r in
    if no_redirect r.redirect && is_empty refs
    then record r { response = some (record { status = 404; body = "no backend specified" }) }
    else if no_redirect added.redirect && is_empty added.to
    then record added { response = some (record { status = 500; body = "no valid backend" }) }
    else added

-- The loop of templateRoutes over the matches of a rule
pub match_routes : List RouteMatch → ProxyRoute → List ProxyRoute
unfolding apply_match
match_routes [] r = []
match_routes (m ∷ ms) r = elim (apply_match m r) [
  | none ↦ match_routes ms r
  | some s ↦ s ∷ match_routes ms r
]

-- The route of a rule before its matches
pub rule_template : RouteConfig → RouteRule → ProxyRoute
unfolding apply_filters apply_backend_refs
rule_template rc rule =
    let (filtered, fine) =
      apply_filters rc rule.filters (record empty_proxy_route { preserve_host_header = true }) in
    if fine
    then apply_backend_refs rc rule.backend_refs filtered
    else record filtered { response = some (record { status = 500; body = "invalid filter" }) }

-- templateRoutes
pub template_routes : RouteConfig → List RouteRule → List ProxyRoute
unfolding match_routes rule_template
template_routes rc [] = []
template_routes rc (rule ∷ rules) =
    (if is_empty rule.matches
      then rule_template rc rule ∷ []
      else match_routes rule.matches (rule_template rc rule))
    ++ template_routes rc rules

-- `is_valid` is config.NewPolicyFromProto and Validate.
module _ (x : Externals) (is_valid : ProxyRoute → Bool) where
  -- The inner loop of TranslateRoutes; the routes of a single template are not numbered
  pub host_routes : String → String → Bool → ℕ → List ProxyRoute → List ProxyRoute
  host_routes from prefix_name single i [] = []
  host_routes from prefix_name single i (t ∷ ts) =
      let r = record t {
        from = from;
        name = if single then prefix_name else prefix_name <> "-" <> itoa i;
      } in
      let rest = host_routes from prefix_name single (suc i) ts in
      if is_valid r then r ∷ rest else rest

  -- The outer loop of TranslateRoutes
  pub routes_of_hosts : RouteConfig → List ProxyRoute → List String → List ProxyRoute
  unfolding host_routes
  routes_of_hosts rc ts [] = []
  routes_of_hosts rc ts (h ∷ hs) =
      host_routes (url_string "https" h)
        (x.slug (rc.namespace <> " " <> rc.name) <> "-" <> x.slug h) (length ts == 1) 0 ts
      ++ routes_of_hosts rc ts hs

  -- TranslateRoutes
  pub translate_routes : RouteConfig → List ProxyRoute
  unfolding template_routes routes_of_hosts
  translate_routes rc = routes_of_hosts rc (template_routes rc rc.rules) rc.hostnames
