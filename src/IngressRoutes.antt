-- ===== src/IngressRoutes.antt =====
-- pomerium/ingress_to_route.go: the routes of an ingress. The logging is left out, and an error
-- holds what its message names.
pub mod Errors
pub mod Backend
pub mod Path
pub mod Stages
pub mod Results
pub mod Access
use ingress_controller.Annotations.{apply_annotations}
use ingress_controller.Externals.{Externals, route_id_eq}
use ingress_controller.Gateway.RefKey.{ref_key_eq}
use ingress_controller.IngressConfig.{
  IngressConfig, get_ingress_namespaced_name, is_annotation_set, is_http01_solver,
}
use ingress_controller.IngressConfig.Names.{subtle_allow_empty_host}
use ingress_controller.IngressRoutes.Backend.{set_service_urls}
use ingress_controller.IngressRoutes.Errors.{
  RouteError, annotations_failed, at_path, at_step, empty_host, http_required, route_count,
}
use ingress_controller.IngressRoutes.Path.{
  derive_host_from_tls, set_route_from, set_route_name_id, set_route_path,
}
use ingress_controller.Kube.{HttpIngressPath, IngressBackend, IngressRule, path_prefix}
use ingress_controller.Prelude.{
  List, Option, Result, String, [], err, if◌then◌else◌, length, nat_eq, none, ok, some, string_eq,
  true, wrap, ◌++◌, ◌==◌, ◌>>=◌, ◌>>◌, ◌∷◌,
}
use ingress_controller.Prelude.Text.{char_eq}
use ingress_controller.Route.{Route, empty_route}
use ingress_controller.Types.{key_eq, namespaced_name_eq, secret_type_eq}

module _ (x : Externals) where
  -- pathToRoute, on the clone of the template
  unfoldable pub path_to_route :
      Route → String → HttpIngressPath → IngressConfig → Result RouteError Route
  path_to_route r host p ic = do
    from ← wrap (at_step "from") (set_route_from r host p ic)
    matched ← wrap (at_step "path") (set_route_path from p ic)
    let named = set_route_name_id x matched (get_ingress_namespaced_name ic) host p.path
    wrap (at_step "backend") (set_service_urls named p ic)

  abbrev pub host_or_star : IngressConfig → String → Result RouteError String
  host_or_star ic host =
      if host == ""
      then (if is_annotation_set ic subtle_allow_empty_host
          then ok "*"
          else err (empty_host ic.annotation_prefix))
      else ok host

  abbrev pub paths_of : Option (List HttpIngressPath) → Result RouteError (List HttpIngressPath)
  paths_of none = err http_required
  paths_of (some paths) = ok paths

  -- The loop of ruleToRoute over the paths
  unfoldable pub paths_to_routes :
      Route → String → List HttpIngressPath → IngressConfig → Result RouteError (List Route)
  unfolding path_to_route
  paths_to_routes tmpl host [] ic = ok []
  paths_to_routes tmpl host (p ∷ ps) ic = do
    r ← wrap (at_path p) (path_to_route tmpl host p ic)
    rs ← paths_to_routes tmpl host ps ic
    ok (r ∷ rs)

  -- ruleToRoute
  unfoldable pub rule_to_route :
      IngressRule → Route → IngressConfig → Result RouteError (List Route)
  unfolding paths_to_routes
  rule_to_route rule tmpl ic = do
    host ← host_or_star ic rule.host
    paths ← paths_of rule.http
    paths_to_routes tmpl host paths ic

  abbrev pub single : List Route → Result RouteError Route
  single (r ∷ []) = ok r
  single rs = err (route_count (length rs))

  -- defaultBackend
  unfoldable pub default_backend_route :
      IngressBackend → Route → IngressConfig → Result RouteError Route
  unfolding rule_to_route
  default_backend_route backend tmpl ic = do
    host ← wrap (at_step "deriving host") (derive_host_from_tls ic.ingress.tls)
    rs ←
        rule_to_route
          (record {
            host = host;
            http =
                some (record { path = "/"; path_type = some path_prefix; backend = backend } ∷ []);
          })
          tmpl ic
    single rs

  abbrev pub default_routes :
      Option IngressBackend → Route → IngressConfig → Result RouteError (List Route)
  default_routes none tmpl ic = ok []
  default_routes (some backend) tmpl ic = do
    r ← wrap (at_step "defaultBackend") (default_backend_route backend tmpl ic)
    ok (r ∷ [])

  -- The loop of ingressToRoutes over the rules
  unfoldable pub rules_to_routes :
      List IngressRule → Route → IngressConfig → Result RouteError (List Route)
  unfolding rule_to_route
  rules_to_routes [] tmpl ic = ok []
  rules_to_routes (rule ∷ rules) tmpl ic = do
    rs ← rule_to_route rule tmpl ic
    rest ← rules_to_routes rules tmpl ic
    ok (rs ++ rest)

  -- The template: an HTTP-01 solver is public, and its annotations are not read.
  unfoldable pub route_template : IngressConfig → Result RouteError Route
  route_template ic =
      if is_http01_solver ic.ingress
      then ok (record empty_route {
        allow_public_unauthenticated_access = true;
        preserve_host_header = true;
      })
      else wrap annotations_failed (apply_annotations x empty_route ic)

  -- ingressToRoutes
  unfoldable pub ingress_to_routes : IngressConfig → Result RouteError (List Route)
  unfolding route_template default_backend_route rules_to_routes
  ingress_to_routes ic = do
    tmpl ← route_template ic
    first ← default_routes ic.ingress.default_backend tmpl ic
    rest ← rules_to_routes ic.ingress.rules tmpl ic
    ok (first ++ rest)
