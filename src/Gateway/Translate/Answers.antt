-- ===== src/Gateway/Translate/Answers.antt =====
-- Every route of an HTTPRoute answers, with weights that fit its upstreams.
use ingress_controller.Externals.{Externals, route_id_eq}
use ingress_controller.Gateway.RefKey.{ref_key_eq}
use ingress_controller.Gateway.Translate.{
  BackendRef, DirectResponse, Filter, PathMatch, ProxyRoute, RouteConfig, RouteMatch, RouteRule,
  add_backend_refs, apply_backend_refs, apply_filter, apply_filters, apply_match, apply_path_match,
  backend_ref_to_url_and_weight, empty_proxy_route, host_routes, is_none, match_routes, no_redirect,
  routes_of_hosts, rule_template, template_routes, translate_routes,
}
use ingress_controller.IngressRoutes.{single}
use ingress_controller.Prelude.{
  All, All-append, Bool, List, Option, String, [], arith, beq_refl, false, if-elim, if◌then◌else◌,
  is_empty, length, length-append, ltb, map, nat_eq, none, not, refl, some, string_eq, suc, true, ℕ,
  ◌&&◌, ◌++◌, ◌==◌, ◌||◌, ◌∙◌, ◌∷◌, ◌≡◌,
}
use ingress_controller.Prelude.Number.{itoa}
use ingress_controller.Prelude.Set.{contains}
use ingress_controller.Prelude.Text.{char_eq, ◌<>◌}
use ingress_controller.Prelude.Url.{url_string}
use ingress_controller.Types.{key_eq, namespaced_name_eq, secret_type_eq}

abbrev is_answered : Option DirectResponse → Bool
is_answered none = false
is_answered (some r) = true

-- The route redirects, responds by itself or has an upstream, and each upstream has its weight.
abbrev pub IsServable : ProxyRoute → Type 0
IsServable r =
    (not (no_redirect r.redirect) || is_answered r.response || not (is_empty r.to) ≡ true)
    × (length r.to ≡ length r.load_balancing_weights)

filter_keeps_upstreams :
    (rc : RouteConfig) (f : Filter) (r : ProxyRoute)
    → length r.to ≡ length r.load_balancing_weights
    → length (apply_filter rc f r).0.to ≡ length (apply_filter rc f r).0.load_balancing_weights
unfolding apply_filter
filter_keeps_upstreams rc f r h = ground arith

filters_keep_upstreams :
    (rc : RouteConfig) (fs : List Filter) (r : ProxyRoute)
    → length r.to ≡ length r.load_balancing_weights
    → length (apply_filters rc fs r).0.to ≡ length (apply_filters rc fs r).0.load_balancing_weights
unfolding apply_filters
filters_keep_upstreams rc [] r h = h
filters_keep_upstreams rc (f ∷ fs) r h =
    if-elim (λ (p : ProxyRoute × Bool). length p.0.to ≡ length p.0.load_balancing_weights)
      (apply_filter rc f r).1
      (λ e. filters_keep_upstreams rc fs (apply_filter rc f r).0 (filter_keeps_upstreams rc f r h))
      (λ e. filter_keeps_upstreams rc f r h)

add_backend_refs_lem :
    (rc : RouteConfig) (refs : List BackendRef) (r : ProxyRoute)
    → length r.to ≡ length r.load_balancing_weights
    → length (add_backend_refs rc refs r).to
      ≡ length (add_backend_refs rc refs r).load_balancing_weights
unfolding add_backend_refs
add_backend_refs_lem rc [] r h = h
add_backend_refs_lem rc (ref ∷ refs) r h =
    let (u, w) = backend_ref_to_url_and_weight rc ref in
    add_backend_refs_lem rc refs _ (
      if-elim (λ (s : ProxyRoute). length s.to ≡ length s.load_balancing_weights)
        (rc.is_valid_ref ref && ltb 0 w)
        (λ e.
          omega (
            arith,
            h,
            length-append r.to (u ∷ []),
            length-append r.load_balancing_weights (w ∷ []),
          ))
        (λ e. h))

add_backend_refs-redirect :
    (rc : RouteConfig) (refs : List BackendRef) (r : ProxyRoute)
    → (add_backend_refs rc refs r).redirect ≡ r.redirect
unfolding add_backend_refs
add_backend_refs-redirect rc [] r = refl
add_backend_refs-redirect rc (ref ∷ refs) r =
    let (u, w) = backend_ref_to_url_and_weight rc ref in
    let s : ProxyRoute =
      if rc.is_valid_ref ref && ltb 0 w
      then record r {
        to = r.to ++ u ∷ [];
        load_balancing_weights = r.load_balancing_weights ++ w ∷ [];
      }
      else r in
    add_backend_refs-redirect rc refs s
    ∙ if-elim (λ (t : ProxyRoute). t.redirect ≡ r.redirect) (rc.is_valid_ref ref && ltb 0 w)
        (λ e. refl) (λ e. refl)

apply_backend_refs_lem :
    (rc : RouteConfig) (refs : List BackendRef) (r : ProxyRoute)
    → length r.to ≡ length r.load_balancing_weights
    → IsServable (apply_backend_refs rc refs r)
unfolding apply_backend_refs
apply_backend_refs_lem rc refs r h =
    if-elim IsServable (no_redirect r.redirect && is_empty refs) (λ e. (ground arith, h))
      (λ e.
        if-elim IsServable
          (no_redirect (add_backend_refs rc refs r).redirect
            && is_empty (add_backend_refs rc refs r).to)
          (λ d. (ground arith, add_backend_refs_lem rc refs r h))
          (λ d. (ground (arith, d), add_backend_refs_lem rc refs r h)))

rule_template_lem : (rc : RouteConfig) (rule : RouteRule) → IsServable (rule_template rc rule)
unfolding rule_template
rule_template_lem rc rule =
    let blank = record empty_proxy_route { preserve_host_header = true } in
    let kept = filters_keep_upstreams rc rule.filters blank refl in
    if-elim IsServable (apply_filters rc rule.filters blank).1
      (λ e.
        apply_backend_refs_lem rc rule.backend_refs (apply_filters rc rule.filters blank).0 kept)
      (λ e. (ground arith, kept))

apply_path_match_lem :
    (m : Option PathMatch) (r : ProxyRoute) → IsServable r → IsServable (apply_path_match m r)
unfolding apply_path_match
apply_path_match_lem m r h = ground (arith, h)

match_routes_lem :
    (ms : List RouteMatch) (r : ProxyRoute) → IsServable r → All IsServable (match_routes ms r)
unfolding match_routes apply_match
match_routes_lem [] r h = tt
match_routes_lem (m ∷ ms) r h =
    if-elim
      (λ (o : Option ProxyRoute). All IsServable (elim o as (λ _. List ProxyRoute) [
        | none ↦ match_routes ms r
        | some s ↦ s ∷ match_routes ms r
      ]))
      (is_empty m.headers && is_empty m.query_params && is_none m.method)
      (λ e. (apply_path_match_lem m.path r h, match_routes_lem ms r h))
      (λ e. match_routes_lem ms r h)

template_routes_lem :
    (rc : RouteConfig) (rules : List RouteRule) → All IsServable (template_routes rc rules)
unfolding template_routes
template_routes_lem rc [] = tt
template_routes_lem rc (rule ∷ rules) =
    All-append IsServable
      (if is_empty rule.matches
        then rule_template rc rule ∷ []
        else match_routes rule.matches (rule_template rc rule))
      (template_routes rc rules)
      (if-elim (All IsServable) (is_empty rule.matches) (λ e. (rule_template_lem rc rule, tt))
        (λ e. match_routes_lem rule.matches (rule_template rc rule) (rule_template_lem rc rule)))
      (template_routes_lem rc rules)

-- A route for one of the hostnames, that passed the check.
abbrev pub IsFor : (ProxyRoute → Bool) → List String → ProxyRoute → Type 0
IsFor is_valid hostnames r =
    IsServable r
    × (contains r.from (map (url_string "https") hostnames) ≡ true)
    × (is_valid r ≡ true)

host_routes_lem :
    (x : Externals) (is_valid : ProxyRoute → Bool) (h name : String) (hs : List String)
    (single : Bool) (i : ℕ) (ts : List ProxyRoute)
    → All IsServable ts
    → All (IsFor is_valid (h ∷ hs)) (host_routes x is_valid (url_string "https" h) name single i ts)
unfolding host_routes contains
host_routes_lem x is_valid h name hs single i [] s = tt
host_routes_lem x is_valid h name hs single i (t ∷ ts) s =
    let r : ProxyRoute = record t {
      from = url_string "https" h;
      name = if single then name else name <> "-" <> itoa i;
    } in
    let rest = host_routes_lem x is_valid h name hs single (suc i) ts s.1 in
    if-elim (All (IsFor is_valid (h ∷ hs))) (is_valid r)
      (λ e. ((s.0, ground (arith, beq_refl (url_string "https" h)), e), rest)) (λ e. rest)

weaken :
    (is_valid : ProxyRoute → Bool) (h : String) (hs : List String) (rs : List ProxyRoute)
    → All (IsFor is_valid hs) rs
    → All (IsFor is_valid (h ∷ hs)) rs
unfolding contains
weaken is_valid h hs [] a = tt
weaken is_valid h hs (r ∷ rs) a =
    ((a.0.0, ground (arith, a.0.1), a.0.2), weaken is_valid h hs rs a.1)

routes_of_hosts_lem :
    (x : Externals) (is_valid : ProxyRoute → Bool) (rc : RouteConfig) (ts : List ProxyRoute)
    (hs : List String)
    → All IsServable ts
    → All (IsFor is_valid hs) (routes_of_hosts x is_valid rc ts hs)
unfolding routes_of_hosts
routes_of_hosts_lem x is_valid rc ts [] s = tt
routes_of_hosts_lem x is_valid rc ts (h ∷ hs) s =
    let name = x.slug (rc.namespace <> " " <> rc.name) <> "-" <> x.slug h in
    All-append (IsFor is_valid (h ∷ hs))
      (host_routes x is_valid (url_string "https" h) name (length ts == 1) 0 ts)
      (routes_of_hosts x is_valid rc ts hs)
      (host_routes_lem x is_valid h name hs (length ts == 1) 0 ts s)
      (weaken is_valid h hs (routes_of_hosts x is_valid rc ts hs)
        (routes_of_hosts_lem x is_valid rc ts hs s))

-- Every route that TranslateRoutes makes of an HTTPRoute redirects, responds by itself or has an
-- upstream, has a weight for each upstream, is for one of the HTTPRoute's hostnames, and passed the
-- check.
pub translate_routes_lem :
    (x : Externals) (is_valid : ProxyRoute → Bool) (rc : RouteConfig)
    → All (IsFor is_valid rc.hostnames) (translate_routes x is_valid rc)
unfolding translate_routes
translate_routes_lem x is_valid rc =
    routes_of_hosts_lem x is_valid rc (template_routes rc rc.rules) rc.hostnames
      (template_routes_lem rc rc.rules)
