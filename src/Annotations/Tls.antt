-- ===== src/Annotations/Tls.antt =====
-- applyTLSAnnotations: certificates from secrets into the route, as base64.
use ingress_controller.Annotations.Errors.{
  AnnotationError, no_data, secret_not_fetched, unknown_annotation,
}
use ingress_controller.Externals.{Externals, route_id_eq}
use ingress_controller.Gateway.RefKey.{ref_key_eq}
use ingress_controller.IngressConfig.Names.{
  ca_key, tls_client_secret, tls_custom_ca_secret, tls_downstream_client_ca_secret,
}
use ingress_controller.Prelude.{
  Result, String, [], err, if◌then◌else◌, nat_eq, none, ok, some, string_eq, ◌==◌, ◌>>=◌, ◌∷◌,
}
use ingress_controller.Prelude.Map.{Map, get_text, lookup}
use ingress_controller.Prelude.Text.{char_eq}
use ingress_controller.Route.{Route}
use ingress_controller.Types.{NamespacedName, Secret, key_eq, namespaced_name_eq, secret_type_eq}

module _ (x : Externals) where
  -- b64
  pub b64 : Secret → String → String → Result AnnotationError String
  b64 secret annotation key =
      let bytes = get_text key secret.contents in
      if bytes == ""
      then err (no_data annotation secret.namespaced_name)
      else ok (x.encode_base64 bytes)

  -- The cases of the switch on the annotation
  pub apply_tls_secret : String → Secret → Route → Result AnnotationError Route
  unfolding b64
  apply_tls_secret k secret r =
      if k == tls_custom_ca_secret
      then (do ca ← b64 secret k ca_key; ok (record r { tls_custom_ca = ca }))
      else if k == tls_client_secret
      then (do
        cert ← b64 secret k "tls.crt"
        key ← b64 secret k "tls.key"
        ok (record r { tls_client_cert = cert; tls_client_key = key }))
      else if k == tls_downstream_client_ca_secret
      then (do ca ← b64 secret k ca_key; ok (record r { tls_downstream_client_ca = ca }))
      else err (unknown_annotation k)

  -- applyTLSAnnotations
  unfoldable pub apply_tls_annotations :
      Map NamespacedName Secret → String → Map String String → Route → Result AnnotationError Route
  unfolding apply_tls_secret
  apply_tls_annotations secrets namespace [] r = ok r
  apply_tls_annotations secrets namespace ((k, name) ∷ kvs) r =
      elim (lookup (record { namespace = namespace; name = name }) secrets) [
        | none ↦ err (secret_not_fetched k name)
        | some secret ↦ do
          r' ← apply_tls_secret k secret r
          apply_tls_annotations secrets namespace kvs r'
      ]
