-- ===== src/IngressRoutes/Results.antt =====
-- The routes of an ingress against the paths that it declares.
use ingress_controller.Externals.{Externals, route_id_eq}
use ingress_controller.Gateway.RefKey.{ref_key_eq}
use ingress_controller.IngressConfig.{IngressConfig, get_ingress_namespaced_name}
use ingress_controller.IngressRoutes.{
  default_backend_route, default_routes, host_or_star, ingress_to_routes, path_to_route, paths_of,
  paths_to_routes, route_template, rule_to_route, rules_to_routes, single,
}
use ingress_controller.IngressRoutes.Errors.{at_path, at_step}
use ingress_controller.IngressRoutes.Path.{
  derive_host_from_tls, set_route_from, set_route_name_id, set_route_path,
}
use ingress_controller.IngressRoutes.Stages.{
  IsRouteOf, matched_as, set_route_from-FromTemplate, set_route_path_lem, set_service_urls_lem,
}
use ingress_controller.Kube.{
  HttpIngressPath, Ingress, IngressBackend, IngressRule, IngressTls, path_prefix,
}
use ingress_controller.Prelude.{
  >>=-eq-ok, List, Option, Pairwise, Pairwise-append, String, [], arith, if◌then◌else◌, map, nat_eq,
  none, ok, ok_injective, some, string_eq, sym, wrap, wrap-eq-ok, ◌++◌, ◌==◌, ◌∙◌, ◌∷◌, ◌≡◌,
}
use ingress_controller.Prelude.Text.{char_eq}
use ingress_controller.Route.{Route}
use ingress_controller.Types.{key_eq, namespaced_name_eq, secret_type_eq}
use mathlib.Core.Path.{subst}
use text.Mathlib.TextEquality.{eq_iff}

-- The host of a rule or of the default backend: an empty one that is allowed stands for any host.
abbrev declared_host : String → String
declared_host host = if host == "" then "*" else host

abbrev declared_paths : Option (List HttpIngressPath) → List HttpIngressPath
declared_paths none = []
declared_paths (some paths) = paths

abbrev default_host : List IngressTls → String
default_host [] = "*"
default_host (t ∷ _) = elim (t.hosts) [ [] ↦ "*" | h ∷ _ ↦ declared_host h ]

abbrev of_rule : IngressRule → List (String × HttpIngressPath)
of_rule rule = map (λ p. (declared_host rule.host, p)) (declared_paths rule.http)

abbrev of_rules : List IngressRule → List (String × HttpIngressPath)
of_rules [] = []
of_rules (rule ∷ rules) = of_rule rule ++ of_rules rules

abbrev of_default : List IngressTls → Option IngressBackend → List (String × HttpIngressPath)
of_default tls_specs none = []
of_default tls_specs (some backend) =
    (default_host tls_specs, record { path = "/"; path_type = some path_prefix; backend = backend })
    ∷ []

-- What an ingress declares: its default backend for the host of its TLS section, then the paths
-- of its rules, in the order in which they stand.
pub declared : Ingress → List (String × HttpIngressPath)
declared ingress = of_default ingress.tls ingress.default_backend ++ of_rules ingress.rules

module _ (x : Externals) (ic : IngressConfig) (tmpl : Route) where
  abbrev IsRoute : String × HttpIngressPath → Route → Type 0
  IsRoute (host, p) r = IsRouteOf x ic tmpl host p r

  path_to_route_lem :
      (host : String) (p : HttpIngressPath) {r : Route}
      → path_to_route x tmpl host p ic ≡ ok r
      → IsRoute (host, p) r
  unfolding path_to_route matched_as set_route_name_id
  path_to_route_lem host p {r} h =
      let (a, ha, h1) = >>=-eq-ok (wrap (at_step "from") (set_route_from tmpl host p ic)) _ h in
      let (b, hb, h2) = >>=-eq-ok (wrap (at_step "path") (set_route_path a p ic)) _ h1 in
      let e1 = set_route_from-FromTemplate tmpl host p ic {s = a} (wrap-eq-ok _ _ ha) in
      let e2 = set_route_path_lem a p ic {s = b} (wrap-eq-ok _ _ hb) in
      let e3 =
        set_service_urls_lem (set_route_name_id x b (get_ingress_namespaced_name ic) host p.path) p
          ic {s = r} (wrap-eq-ok _ _ h2) in
      ground (arith, e1, e2, e3)

  abbrev AreRoutes : List (String × HttpIngressPath) → List Route → Type 0
  AreRoutes = Pairwise IsRoute

  paths_to_routes_lem :
      (host : String) (ps : List HttpIngressPath) {rs : List Route}
      → paths_to_routes x tmpl host ps ic ≡ ok rs
      → AreRoutes (map (λ p. (host, p)) ps) rs
  unfolding paths_to_routes
  paths_to_routes_lem host [] {rs = []} h = tt
  paths_to_routes_lem host [] {rs = r ∷ rs} h = cc
  paths_to_routes_lem host (p ∷ ps) {rs} h =
      let (a, ha, h1) = >>=-eq-ok (wrap (at_path p) (path_to_route x tmpl host p ic)) _ h in
      let (made, hm, h2) = >>=-eq-ok (paths_to_routes x tmpl host ps ic) _ h1 in
      let first = path_to_route_lem host p {r = a} (wrap-eq-ok _ _ ha) in
      let rest = paths_to_routes_lem host ps {rs = made} hm in
      subst (AreRoutes ((host, p) ∷ map (λ q. (host, q)) ps)) (ok_injective h2) (first, rest)

  host_or_star_lem :
      (h : String) {host : String} → host_or_star x ic h ≡ ok host → host ≡ declared_host h
  host_or_star_lem h e = ground (arith, eq_iff h "")

  paths_of_lem :
      (http : Option (List HttpIngressPath)) {paths : List HttpIngressPath}
      → paths_of x http ≡ ok paths
      → paths ≡ declared_paths http
  paths_of_lem none e = cc
  paths_of_lem (some ps) e = sym (ok_injective e)

  rule_to_route_lem :
      (rule : IngressRule) {rs : List Route}
      → rule_to_route x rule tmpl ic ≡ ok rs
      → AreRoutes (of_rule rule) rs
  unfolding rule_to_route
  rule_to_route_lem rule {rs} h =
      let (host, eh, h1) = >>=-eq-ok (host_or_star x ic rule.host) _ h in
      let (paths, ep, h2) = >>=-eq-ok (paths_of x rule.http) _ h1 in
      let made = paths_to_routes_lem host paths {rs = rs} h2 in
      let sh = host_or_star_lem rule.host {host = host} eh in
      let sp = paths_of_lem rule.http {paths = paths} ep in
      subst (λ qs. AreRoutes (map (λ p. (declared_host rule.host, p)) qs) rs) sp
        (subst (λ k. AreRoutes (map (λ p. (k, p)) paths) rs) sh made)

  rules_to_routes_lem :
      (rules : List IngressRule) {rs : List Route}
      → rules_to_routes x rules tmpl ic ≡ ok rs
      → AreRoutes (of_rules rules) rs
  unfolding rules_to_routes
  rules_to_routes_lem [] {rs = []} h = tt
  rules_to_routes_lem [] {rs = r ∷ rs} h = cc
  rules_to_routes_lem (rule ∷ rules) {rs} h =
      let (a, ha, h1) = >>=-eq-ok (rule_to_route x rule tmpl ic) _ h in
      let (b, hb, h2) = >>=-eq-ok (rules_to_routes x rules tmpl ic) _ h1 in
      let both =
        Pairwise-append IsRoute (of_rule rule) (of_rules rules) a b
          (rule_to_route_lem rule {rs = a} ha) (rules_to_routes_lem rules {rs = b} hb) in
      subst (AreRoutes (of_rule rule ++ of_rules rules)) (ok_injective h2) both

  default_host_lem :
      (tls_specs : List IngressTls) {host : String}
      → derive_host_from_tls tls_specs ≡ ok host
      → declared_host host ≡ default_host tls_specs
  unfolding derive_host_from_tls
  default_host_lem tls_specs h = ground arith

  single_lem : (rs : List Route) {r : Route} → single x rs ≡ ok r → rs ≡ r ∷ []
  single_lem rs h = ground arith

  default_routes_lem :
      (backend : Option IngressBackend) {rs : List Route}
      → default_routes x backend tmpl ic ≡ ok rs
      → AreRoutes (of_default ic.ingress.tls backend) rs
  unfolding default_backend_route
  default_routes_lem none {rs = []} h = tt
  default_routes_lem none {rs = r ∷ rs} h = cc
  default_routes_lem (some backend) {rs} h =
      let p : HttpIngressPath = record {
        path = "/";
        path_type = some path_prefix;
        backend = backend;
      } in
      let (r, hr, h1) =
        >>=-eq-ok (wrap (at_step "defaultBackend") (default_backend_route x backend tmpl ic)) _ h in
      let (host, hh, h2) =
        >>=-eq-ok (wrap (at_step "deriving host") (derive_host_from_tls ic.ingress.tls)) _
          (wrap-eq-ok _ _ hr) in
      let rule : IngressRule = record { host = host; http = some (p ∷ []) } in
      let (one, ho, h3) = >>=-eq-ok (rule_to_route x rule tmpl ic) _ h2 in
      let made = rule_to_route_lem rule {rs = one} ho in
      subst (AreRoutes (of_default ic.ingress.tls (some backend)))
        (single_lem one {r = r} h3 ∙ ok_injective h1)
        (subst (λ k. AreRoutes ((k, p) ∷ []) one)
          (default_host_lem ic.ingress.tls {host = host} (wrap-eq-ok _ _ hh)) made)

-- If an ingress is converted, its routes are those of its declared paths, one for each, in the
-- same order: each is the template, matched as the type of the path asks for, with the id of the
-- ingress, the host and the path, and at least one upstream.
pub ingress_to_routes_lem :
    (x : Externals) (ic : IngressConfig) (tmpl : Route) (rs : List Route)
    → route_template x ic ≡ ok tmpl
    → ingress_to_routes x ic ≡ ok rs
    → Pairwise (λ (host, p) r. IsRouteOf x ic tmpl host p r) (declared ic.ingress) rs
unfolding ingress_to_routes declared
ingress_to_routes_lem x ic tmpl rs ht h =
    let (tmpl', ht', h0) = >>=-eq-ok (route_template x ic) _ h in
    let same : tmpl' ≡ tmpl = ok_injective (sym ht' ∙ ht) in
    let (first, hf, h1) = >>=-eq-ok (default_routes x ic.ingress.default_backend tmpl' ic) _ h0 in
    let (rest, hr, h2) = >>=-eq-ok (rules_to_routes x ic.ingress.rules tmpl' ic) _ h1 in
    let both =
      Pairwise-append (IsRoute x ic tmpl') (of_default ic.ingress.tls ic.ingress.default_backend)
        (of_rules ic.ingress.rules) first rest
        (default_routes_lem x ic tmpl' ic.ingress.default_backend {rs = first} hf)
        (rules_to_routes_lem x ic tmpl' ic.ingress.rules {rs = rest} hr) in
    subst (λ t. AreRoutes x ic t (declared ic.ingress) rs) same
      (subst (AreRoutes x ic tmpl' (declared ic.ingress)) (ok_injective h2) both)
