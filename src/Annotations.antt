-- ===== src/Annotations.antt =====
-- pomerium/ingress_annotations.go: the annotations of an ingress, applied to its route template.
pub mod Errors
pub mod Keys
pub mod Tls
pub mod Secrets
pub mod Mcp
pub mod Upstream
pub mod Policies
use ingress_controller.Annotations.Errors.{AnnotationError, decoding}
use ingress_controller.Annotations.Keys.{remove_key_prefix}
use ingress_controller.Annotations.Mcp.{apply_mcp_annotations}
use ingress_controller.Annotations.Policies.{unmarshal_policy_annotations}
use ingress_controller.Annotations.Secrets.{apply_secret_annotations}
use ingress_controller.Annotations.Tls.{apply_tls_annotations}
use ingress_controller.Annotations.Upstream.{apply_upstream_annotations}
use ingress_controller.Externals.{Externals, route_id_eq}
use ingress_controller.Gateway.RefKey.{ref_key_eq}
use ingress_controller.IngressConfig.{IngressConfig}
use ingress_controller.Prelude.{Result, [], nat_eq, ok, string_eq, wrap, ◌>>=◌, ◌>>◌, ◌∷◌}
use ingress_controller.Prelude.Text.{char_eq}
use ingress_controller.Route.{Route, empty_policy}
use ingress_controller.Types.{key_eq, namespaced_name_eq, secret_type_eq}

-- applyAnnotations; the template that an error leaves behind is dropped by the caller
module _ (x : Externals) where
  unfoldable pub apply_annotations : Route → IngressConfig → Result AnnotationError Route
  apply_annotations r ic = do
    kv ← remove_key_prefix ic.ingress.annotations ic.annotation_prefix
    based ← wrap decoding (x.unmarshal_route kv.base r)
    secured ← apply_tls_annotations x ic.secrets ic.ingress.namespaced_name.namespace kv.tls based
    keyed ←
        apply_secret_annotations ic.secrets ic.ingress.namespaced_name.namespace kv.secret secured
    served ← apply_mcp_annotations x kv.mcp_server kv.mcp_client keyed
    tunnelled ← apply_upstream_annotations kv.upstream_tunnel served
    p ← unmarshal_policy_annotations x kv.policy empty_policy
    ok (record tunnelled { policies = p ∷ [] })
