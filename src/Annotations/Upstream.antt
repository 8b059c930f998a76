-- ===== src/Annotations/Upstream.antt =====
-- applyUpstreamAnnotations: the tunnel to the upstream.
use ingress_controller.Annotations.Errors.{AnnotationError, unknown_annotation}
use ingress_controller.Externals.{route_id_eq}
use ingress_controller.Gateway.RefKey.{ref_key_eq}
use ingress_controller.IngressConfig.Names.{upstream_tunnel_annotation, upstream_tunnel_ssh_policy}
use ingress_controller.Prelude.{
  Option, Result, String, [], err, if◌then◌else◌, nat_eq, none, ok, some, string_eq, ◌==◌, ◌>>=◌,
  ◌∷◌,
}
use ingress_controller.Prelude.Map.{Map}
use ingress_controller.Prelude.Text.{char_eq}
use ingress_controller.Route.{Route, UpstreamTunnel}
use ingress_controller.Types.{key_eq, namespaced_name_eq, secret_type_eq}

abbrev or_tunnel : Option UpstreamTunnel → UpstreamTunnel
or_tunnel none = record { ssh_policy = none }
or_tunnel (some t) = t

-- The cases of the switch in applyUpstreamAnnotations
pub apply_upstream_annotation : String → String → Route → Result AnnotationError Route
apply_upstream_annotation k v r =
    if k == upstream_tunnel_annotation
    then ok (record r { upstream_tunnel = some (or_tunnel r.upstream_tunnel) })
    else if k == upstream_tunnel_ssh_policy
    then ok (record r { upstream_tunnel = some (record { ssh_policy = some v }) })
    else err (unknown_annotation k)

-- applyUpstreamAnnotations
unfoldable pub apply_upstream_annotations : Map String String → Route → Result AnnotationError Route
unfolding apply_upstream_annotation
apply_upstream_annotations [] r = ok r
apply_upstream_annotations ((k, v) ∷ kvs) r = do
  r' ← apply_upstream_annotation k v r
  apply_upstream_annotations kvs r'
