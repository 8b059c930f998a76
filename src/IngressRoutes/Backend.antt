-- ===== src/IngressRoutes/Backend.antt =====
-- The upstream of a path: its service, and the hosts behind it.
pub mod Endpoints
use ingress_controller.Externals.{route_id_eq}
use ingress_controller.Gateway.RefKey.{ref_key_eq}
use ingress_controller.IngressConfig.{
  IngressConfig, get_namespaced_name, get_service_port_by_name, is_secure_upstream, is_ssh_upstream,
  is_tcp_upstream, is_udp_upstream, use_service_proxy,
}
use ingress_controller.IngressRoutes.Errors.{
  RouteError, at_step, port_by_name, service_not_fetched, service_required,
}
use ingress_controller.Kube.{
  EndpointPort, EndpointSubset, HttpIngressPath, Service, ServiceBackend, ServiceBackendPort,
  ServicePort, ServiceType, external_name_type, int_val,
}
use ingress_controller.Prelude.{
  Bool, List, Option, Result, String, [], err, false, if◌then◌else◌, is_empty, map, nat_eq, none,
  ok, some, string_eq, true, wrap, ℕ, ◌&&◌, ◌++◌, ◌==◌, ◌>>=◌, ◌>>◌, ◌||◌, ◌∷◌,
}
use ingress_controller.Prelude.Map.{lookup}
use ingress_controller.Prelude.Number.{itoa}
use ingress_controller.Prelude.Sort.{sort, str_lt}
use ingress_controller.Prelude.Text.{char_eq, ◌<>◌}
use ingress_controller.Prelude.Url.{url_string}
use ingress_controller.Route.{Route}
use ingress_controller.Types.{key_eq, namespaced_name_eq, secret_type_eq}

-- getServiceFromPath; the port of an unnamed port is the number that the path states
unfoldable pub get_service_from_path :
    HttpIngressPath → IngressConfig → Result RouteError (ServiceBackend × Service × ℕ)
get_service_from_path p ic = elim (p.backend.service) [
  | none ↦ err service_required
  | some backend ↦ do
    let service_name = get_namespaced_name ic backend.name
    port ←
        (if backend.port.name == ""
          then ok backend.port.number
          else wrap (port_by_name service_name backend.port.name)
              (get_service_port_by_name ic service_name backend.port.name))
    elim (lookup service_name ic.services) [
      | none ↦ err (service_not_fetched service_name)
      | some service ↦ ok (backend, service, port)
    ]
]

-- The port of the service that the ingress names by number
unfoldable pub find_target : ℕ → List ServicePort → Option ServicePort
find_target number [] = none
find_target number (p ∷ ps) = if number == p.port then some p else find_target number ps

abbrev target_matcher : Option ServicePort → Option (EndpointPort → Bool)
target_matcher none = none
target_matcher (some p) = some (λ q. q.port == int_val p.target_port)

-- getEndpointPortMatcher; `none` is a nil matcher
unfoldable pub get_endpoint_port_matcher :
    ServiceBackendPort → List ServicePort → Option (EndpointPort → Bool)
unfolding find_target
get_endpoint_port_matcher ingress_port service_ports =
    if ingress_port.name == ""
    then target_matcher (find_target ingress_port.number service_ports)
    else some (λ q. q.name == ingress_port.name)

-- The two inner loops of getEndpointsURLs
unfoldable pub hosts_of_ports : (EndpointPort → Bool) → String → List EndpointPort → List String
hosts_of_ports port_match ip [] = []
hosts_of_ports port_match ip (q ∷ qs) =
    let rest = hosts_of_ports port_match ip qs in
    if port_match q then (ip <> ":" <> itoa q.port) ∷ rest else rest

unfoldable pub hosts_of_addresses :
    (EndpointPort → Bool) → List String → List EndpointPort → List String
unfolding hosts_of_ports
hosts_of_addresses port_match [] ports = []
hosts_of_addresses port_match (ip ∷ ips) ports =
    hosts_of_ports port_match ip ports ++ hosts_of_addresses port_match ips ports

unfoldable pub hosts_of_subsets : (EndpointPort → Bool) → List EndpointSubset → List String
unfolding hosts_of_addresses
hosts_of_subsets port_match [] = []
hosts_of_subsets port_match (s ∷ subsets) =
    hosts_of_addresses port_match s.addresses s.ports ++ hosts_of_subsets port_match subsets

-- getEndpointsURLs
unfoldable pub get_endpoints_urls :
    ServiceBackendPort → List ServicePort → List EndpointSubset → List String
unfolding get_endpoint_port_matcher hosts_of_subsets
get_endpoints_urls ingress_port service_ports subsets =
    elim (get_endpoint_port_matcher ingress_port service_ports) [
      | none ↦ []
      | some port_match ↦ hosts_of_subsets port_match subsets
    ]

-- The DNS name of a service within the cluster
abbrev pub cluster_host : ServiceBackend → IngressConfig → String
cluster_host backend ic =
    backend.name <> "." <> ic.ingress.namespaced_name.namespace <> ".svc.cluster.local"

abbrev with_port : String → ℕ → String
with_port host port = host <> ":" <> itoa port

abbrev is_external_name : ServiceType → Bool
is_external_name external_name_type = true
is_external_name _ = false

unfoldable pub endpoint_hosts : ServiceBackend → Service → IngressConfig → List String
unfolding get_endpoints_urls
endpoint_hosts backend service ic =
    elim (lookup (get_namespaced_name ic backend.name) ic.endpoints) [
      | none ↦ []
      | some subsets ↦ get_endpoints_urls backend.port service.ports subsets
    ]

-- getPathServiceHosts: the hosts, and the route with the name for TLS that it may set
unfoldable pub get_path_service_hosts :
    Route → HttpIngressPath → IngressConfig → Result RouteError (List String × Route)
unfolding get_service_from_path endpoint_hosts
get_path_service_hosts r p ic = do
  (backend, service, port) ← wrap (at_step "get service from path") (get_service_from_path p ic)
  let hosts = endpoint_hosts backend service ic
  let fallback = with_port (cluster_host backend ic) port ∷ []
  ok (
      if is_external_name service.service_type
      then (with_port service.external_name port ∷ [], r)
      else if use_service_proxy ic || is_empty hosts
      then (fallback, r)
      else if is_secure_upstream ic && r.tls_server_name == ""
      then (hosts, record r { tls_server_name = cluster_host backend ic })
      else (hosts, r))

-- getUpstreamScheme
unfoldable pub get_upstream_scheme : IngressConfig → String
get_upstream_scheme ic =
    if is_ssh_upstream ic
    then "ssh"
    else if is_tcp_upstream ic
    then "tcp"
    else if is_udp_upstream ic
    then "udp"
    else if is_secure_upstream ic
    then "https"
    else "http"

-- setServiceURLs
unfoldable pub set_service_urls : Route → HttpIngressPath → IngressConfig → Result RouteError Route
unfolding get_path_service_hosts get_upstream_scheme
set_service_urls r p ic = do
  (hosts, r') ← wrap (at_step "get service hosts") (get_path_service_hosts r p ic)
  ok (record r' { to = sort str_lt (map (url_string (get_upstream_scheme ic)) hosts) })
