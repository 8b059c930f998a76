-- ===== src/IngressRoutes/Path.antt =====
-- What a path of an ingress becomes in its route: the address, the match and the name.
use ingress_controller.Externals.{Externals, route_id_eq}
use ingress_controller.Gateway.RefKey.{ref_key_eq}
use ingress_controller.IngressConfig.{
  IngressConfig, is_path_regex, is_ssh_upstream, is_tcp_upstream, is_udp_upstream,
}
use ingress_controller.IngressRoutes.Backend.{get_service_from_path}
use ingress_controller.IngressRoutes.Errors.{
  RouteError, must_not_specify_path, needs_implementation_specific, path_type_required,
  tls_host_count, tls_spec_count, unknown_path_type_value,
}
use ingress_controller.Kube.{
  HttpIngressPath, IngressTls, PathType, implementation_specific, path_exact, path_prefix,
  unknown_path_type,
}
use ingress_controller.Prelude.{
  Bool, List, Option, Result, String, [], err, false, guard, if◌then◌else◌, length, nat_eq, none,
  ok, some, string_eq, true, ◌==◌, ◌>>=◌, ◌>>◌, ◌∷◌,
}
use ingress_controller.Prelude.Number.{itoa}
use ingress_controller.Prelude.Text.{char_eq, ◌<>◌}
use ingress_controller.Prelude.Url.{join_host_port, url_string}
use ingress_controller.Route.{Route}
use ingress_controller.Types.{NamespacedName, key_eq, namespaced_name_eq, secret_type_eq}

abbrev one_host : List String → Result RouteError String
one_host (h ∷ []) = ok h
one_host hs = err (tls_host_count (length hs))

-- deriveHostFromTLS
unfoldable pub derive_host_from_tls : List IngressTls → Result RouteError String
derive_host_from_tls (t ∷ []) = one_host t.hosts
derive_host_from_tls tls_specs = err (tls_spec_count (length tls_specs))

abbrev is_implementation_specific : PathType → Bool
is_implementation_specific implementation_specific = true
is_implementation_specific _ = false

-- The branches of setRoutePath for a tunnelled upstream of the kind that the message names
unfoldable pub set_tunnel_path : String → PathType → String → Route → Result RouteError Route
set_tunnel_path kind path_type path r = do
  guard (is_implementation_specific path_type) (needs_implementation_specific kind)
  guard (path == "") (must_not_specify_path kind)
  ok r

-- The switch of setRoutePath on the type of the path
unfoldable pub set_match_path : PathType → String → IngressConfig → Route → Result RouteError Route
set_match_path implementation_specific path ic r =
    ok (if is_path_regex ic then record r { regex = path } else record r { prefix = path })
set_match_path path_exact path ic r = ok (record r { path = path })
set_match_path path_prefix path ic r = ok (record r { prefix = path })
set_match_path (unknown_path_type t) path ic r = err (unknown_path_type_value t)

-- setRoutePath
unfoldable pub set_route_path : Route → HttpIngressPath → IngressConfig → Result RouteError Route
unfolding set_tunnel_path set_match_path
set_route_path r p ic = elim (p.path_type) [
  | none ↦ err path_type_required
  | some path_type ↦
      if is_ssh_upstream ic
      then set_tunnel_path "ssh" path_type p.path r
      else if is_tcp_upstream ic
      then set_tunnel_path "tcp" path_type p.path r
      else if is_udp_upstream ic
      then set_tunnel_path "udp" path_type p.path r
      else set_match_path path_type p.path ic r
]

-- A scheme and a host, as setRouteFrom changes them before it writes the URL.
pub record Address : Type 0 where
  pub scheme : String
  pub host : String

abbrev tunnel_address :
    Bool → String → HttpIngressPath → IngressConfig → Address → Result RouteError Address
tunnel_address true scheme p ic u = do
  (backend, service, port) ← get_service_from_path p ic
  ok (record { scheme = scheme; host = join_host_port u.host (itoa port) })
tunnel_address false scheme p ic u = ok u

-- setRouteFrom: an ingress with several upstream annotations takes the last that applies
unfoldable pub set_route_from :
    Route → String → HttpIngressPath → IngressConfig → Result RouteError Route
set_route_from r host p ic = do
  v ←
      tunnel_address (is_tcp_upstream ic) "tcp+https" p ic
        (record { scheme = if is_ssh_upstream ic then "ssh" else "https"; host = host })
  w ← tunnel_address (is_udp_upstream ic) "udp+https" p ic v
  ok (record r { from = url_string w.scheme w.host })

module _ (x : Externals) where
  -- The slug of a path, with its dash
  abbrev path_suffix : String → String
  path_suffix path_slug = if path_slug == "" then "" else "-" <> path_slug

  abbrev name_or : Option String → String → String
  name_or none slug_name = slug_name
  name_or (some name) slug_name = if name == "" then slug_name else name

  -- setRouteNameID; json.Marshal of a routeID does not fail
  unfoldable pub set_route_name_id : Route → NamespacedName → String → String → Route
  set_route_name_id r name host path =
      let id =
        x.marshal_route_id
          (record { name = name.name; namespace = name.namespace; host = host; path = path }) in
      let slug_name =
        x.slug (name.namespace <> " " <> name.name <> " " <> host) <> path_suffix (x.slug path) in
      record r { id = some id; name = some (name_or r.name slug_name); stat_name = some slug_name }
