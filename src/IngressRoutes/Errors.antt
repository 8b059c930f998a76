-- ===== src/IngressRoutes/Errors.antt =====
-- The errors of pomerium/ingress_to_route.go.
use ingress_controller.Annotations.Errors.{AnnotationError}
use ingress_controller.Externals.{route_id_eq}
use ingress_controller.Gateway.RefKey.{ref_key_eq}
use ingress_controller.IngressConfig.{ServicePortError}
use ingress_controller.Kube.{HttpIngressPath}
use ingress_controller.Prelude.{String, nat_eq, string_eq, ℕ}
use ingress_controller.Prelude.Text.{char_eq}
use ingress_controller.Types.{NamespacedName, key_eq, namespaced_name_eq, secret_type_eq}

pub data RouteError : Type 0 where
  annotations_failed : AnnotationError → RouteError
  at_step : String → RouteError → RouteError
  at_path : HttpIngressPath → RouteError → RouteError
  tls_spec_count tls_host_count route_count : ℕ → RouteError
  empty_host : String → RouteError
  http_required path_type_required service_required : RouteError
  needs_implementation_specific must_not_specify_path unknown_path_type_value : String → RouteError
  port_by_name : NamespacedName → String → ServicePortError → RouteError
  service_not_fetched : NamespacedName → RouteError
