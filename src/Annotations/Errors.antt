-- ===== src/Annotations/Errors.antt =====
-- The errors of pomerium/ingress_annotations.go, by the message that the code gives.
use ingress_controller.Externals.{route_id_eq}
use ingress_controller.Gateway.RefKey.{ref_key_eq}
use ingress_controller.Prelude.{String, nat_eq, string_eq}
use ingress_controller.Prelude.Text.{char_eq}
use ingress_controller.Types.{
  NamespacedName, SecretType, key_eq, namespaced_name_eq, secret_type_eq,
}

pub data AnnotationError : Type 0 where
  no_longer_supported unknown_key unknown_annotation : String → AnnotationError
  -- the message of a decoder outside the repository
  decoding : String → AnnotationError
  secret_not_fetched : (annotation secret : String) → AnnotationError
  no_data : (annotation : String) → NamespacedName → AnnotationError
  wrong_secret_type : (annotation : String) → (expected got : SecretType) → AnnotationError
  missing_token missing_client_id_and_secret : (annotation : String) → AnnotationError
  header_already_set : (annotation header : String) → AnnotationError
  already_client : (annotation : String) → AnnotationError
  server_and_client : AnnotationError
  not_true : (annotation value : String) → AnnotationError
  invalid_number invalid_auth_style : (value : String) → AnnotationError
