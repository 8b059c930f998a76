-- ===== src/IngressRoutes/Stages.antt =====
-- What each stage of pathToRoute sets, and that it leaves the rest of the template alone.
use ingress_controller.Externals.{Externals, route_id_eq}
use ingress_controller.Gateway.RefKey.{ref_key_eq}
use ingress_controller.IngressConfig.{
  IngressConfig, is_path_regex, is_ssh_upstream, is_tcp_upstream, is_udp_upstream,
}
use ingress_controller.IngressRoutes.Backend.{
  get_path_service_hosts, get_upstream_scheme, set_service_urls,
}
use ingress_controller.IngressRoutes.Errors.{at_step}
use ingress_controller.IngressRoutes.Path.{set_route_from, set_route_path}
use ingress_controller.Kube.{HttpIngressPath, implementation_specific, path_exact}
use ingress_controller.Prelude.{
  >>=-eq-ok, List, String, arith, if◌then◌else◌, length, length-map, map, nat_eq, ok, some,
  string_eq, wrap, wrap-eq-ok, ◌||◌, ◌≡◌, ◌≢◌,
}
use ingress_controller.Prelude.Sort.{length-sort, sort, str_lt}
use ingress_controller.Prelude.Text.{char_eq}
use ingress_controller.Prelude.Url.{url_string}
use ingress_controller.Route.{Route}
use ingress_controller.Types.{key_eq, namespaced_name_eq, secret_type_eq}

-- The route is the template, but for what pathToRoute sets in it.
abbrev pub FromTemplate : Route → Route → Type 0
FromTemplate tmpl r = r ≡ record tmpl {
  id = r.id;
  name = r.name;
  stat_name = r.stat_name;
  from = r.from;
  to = r.to;
  path = r.path;
  prefix = r.prefix;
  regex = r.regex;
  tls_server_name = r.tls_server_name;
}

-- Of the three ways to match a path, the route has the one that the path's type asks for, and keeps
-- what the template has of the others.
unfoldable pub matched_as : Route → IngressConfig → HttpIngressPath → Route
matched_as tmpl ic p =
    if is_ssh_upstream ic || is_tcp_upstream ic || is_udp_upstream ic
    then tmpl
    else elim (p.path_type) [
      | some path_exact ↦ record tmpl { path = p.path }
      | some implementation_specific ↦
          if is_path_regex ic
          then record tmpl { regex = p.path }
          else record tmpl { prefix = p.path }
      | _ ↦ record tmpl { prefix = p.path }
    ]

pub set_route_from-FromTemplate :
    (r : Route) (host : String) (p : HttpIngressPath) (ic : IngressConfig) {s : Route}
    → set_route_from r host p ic ≡ ok s
    → s ≡ record r { from = s.from }
unfolding set_route_from
set_route_from-FromTemplate r host p ic h = ground arith

pub set_route_path_lem :
    (r : Route) (p : HttpIngressPath) (ic : IngressConfig) {s : Route}
    → set_route_path r p ic ≡ ok s
    → s ≡ matched_as r ic p
unfolding set_route_path matched_as
set_route_path_lem r p ic h = ground arith

-- The route that pathToRoute makes of a template: matched as the path's type asks for, identified
-- by the ingress, the host and the path, with at least one upstream.
abbrev pub IsRouteOf : Externals → IngressConfig → Route → String → HttpIngressPath → Route → Type 0
IsRouteOf x ic tmpl host p r =
    (r ≡ record (matched_as tmpl ic p) {
      id = some (
          x.marshal_route_id (record {
            name = ic.ingress.namespaced_name.name;
            namespace = ic.ingress.namespaced_name.namespace;
            host = host;
            path = p.path;
          }));
      name = r.name;
      stat_name = r.stat_name;
      from = r.from;
      to = r.to;
      tls_server_name = r.tls_server_name;
    })
    × (length r.to ≢ 0)

-- What set_service_urls sets, and that the upstreams are as many as the hosts.
pub get_path_service_hosts-eq_ok :
    (r : Route) (p : HttpIngressPath) (ic : IngressConfig) {hosts : List String} {s : Route}
    → get_path_service_hosts r p ic ≡ ok (hosts, s)
    → (s ≡ record r { tls_server_name = s.tls_server_name }) × (length hosts ≢ 0)
unfolding get_path_service_hosts
get_path_service_hosts-eq_ok r p ic h = ground arith

pub set_service_urls_lem :
    (r : Route) (p : HttpIngressPath) (ic : IngressConfig) {s : Route}
    → set_service_urls r p ic ≡ ok s
    → (s ≡ record r { to = s.to; tls_server_name = s.tls_server_name }) × (length s.to ≢ 0)
unfolding set_service_urls
set_service_urls_lem r p ic {s} h =
    let (pair, got, done) =
      >>=-eq-ok (wrap (at_step "get service hosts") (get_path_service_hosts r p ic))
        (λ (hosts, r').
          ok (record r' { to = sort str_lt (map (url_string (get_upstream_scheme ic)) hosts) }))
        h in
    let facts =
      get_path_service_hosts-eq_ok r p ic {hosts = pair.0} {s = pair.1}
        (wrap-eq-ok (at_step "get service hosts") (get_path_service_hosts r p ic) got) in
    let url = url_string (get_upstream_scheme ic) in
    ground (arith, facts, done, length-sort str_lt (map url pair.0), length-map url pair.0)
