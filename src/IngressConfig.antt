-- ===== src/IngressConfig.antt =====
-- model/ingress_config.go: an ingress with the objects that it refers to, and the secrets of the
-- global settings. The names of the annotations are in `Names`.
pub mod Names
pub mod Laws
use ingress_controller.Certs.{domain_key_eq}
use ingress_controller.Externals.{route_id_eq}
use ingress_controller.Gateway.RefKey.{ref_key_eq}
use ingress_controller.IngressConfig.Names.{
  ca_key, path_regex_annotation, secure_upstream_annotation, ssh_upstream_annotation,
  storage_connection_string_key, tcp_upstream_annotation, udp_upstream_annotation,
  use_service_proxy_annotation,
}
use ingress_controller.Kube.{Endpoints, Ingress, Service, ServicePort}
use ingress_controller.Prelude.{
  Bool, List, Option, Result, String, [], err, guard, if◌then◌else◌, nat_eq, none, ok, some,
  string_eq, ℕ, ◌==◌, ◌>>=◌, ◌>>◌, ◌∷◌,
}
use ingress_controller.Prelude.Map.{Map, get_text, has_key, insert, lookup}
use ingress_controller.Prelude.Text.{char_eq, to_lower, ◌<>◌}
use ingress_controller.Types.{
  NamespacedName, Secret, SecretType, key_eq, namespaced_name_eq, secret_type_eq, ssh_auth, tls,
}

pub record IngressConfig : Type 0 where
  pub annotation_prefix : String
  pub ingress : Ingress
  pub endpoints : Map NamespacedName Endpoints
  pub secrets : Map NamespacedName Secret
  pub services : Map NamespacedName Service

-- IngressConfig.IsAnnotationSet; no letter but those of "true" has them as its lower case
unfoldable pub is_annotation_set : IngressConfig → String → Bool
is_annotation_set ic name =
    to_lower (get_text (ic.annotation_prefix <> "/" <> name) ic.ingress.annotations) == "true"

-- IngressConfig.IsSecureUpstream
unfoldable pub is_secure_upstream : IngressConfig → Bool
unfolding is_annotation_set
is_secure_upstream ic = is_annotation_set ic secure_upstream_annotation

-- IngressConfig.IsSSHUpstream
unfoldable pub is_ssh_upstream : IngressConfig → Bool
unfolding is_annotation_set
is_ssh_upstream ic = is_annotation_set ic ssh_upstream_annotation

-- IngressConfig.IsTCPUpstream
unfoldable pub is_tcp_upstream : IngressConfig → Bool
unfolding is_annotation_set
is_tcp_upstream ic = is_annotation_set ic tcp_upstream_annotation

-- IngressConfig.IsUDPUpstream
unfoldable pub is_udp_upstream : IngressConfig → Bool
unfolding is_annotation_set
is_udp_upstream ic = is_annotation_set ic udp_upstream_annotation

-- IngressConfig.IsPathRegex
unfoldable pub is_path_regex : IngressConfig → Bool
unfolding is_annotation_set
is_path_regex ic = is_annotation_set ic path_regex_annotation

-- IngressConfig.UseServiceProxy
unfoldable pub use_service_proxy : IngressConfig → Bool
unfolding is_annotation_set
use_service_proxy ic = is_annotation_set ic use_service_proxy_annotation

-- IngressConfig.GetNamespacedName
abbrev pub get_namespaced_name : IngressConfig → String → NamespacedName
get_namespaced_name ic name = record {
  namespace = ic.ingress.namespaced_name.namespace;
  name = name;
}

-- IngressConfig.GetIngressNamespacedName
abbrev pub get_ingress_namespaced_name : IngressConfig → NamespacedName
get_ingress_namespaced_name ic = ic.ingress.namespaced_name

pub data ServicePortError : Type 0 where
  not_prefetched : NamespacedName → ServicePortError
  port_not_found : String → NamespacedName → ServicePortError

-- The loop of GetServicePortByName
unfoldable pub find_port : String → List ServicePort → Option ℕ
find_port port [] = none
find_port port (p ∷ ps) = if p.name == port then some p.port else find_port port ps

abbrev port_or_error : String → NamespacedName → Option ℕ → Result ServicePortError ℕ
port_or_error port name none = err (port_not_found port name)
port_or_error port name (some p) = ok p

-- IngressConfig.GetServicePortByName
unfoldable pub get_service_port_by_name :
    IngressConfig → NamespacedName → String → Result ServicePortError ℕ
unfolding find_port
get_service_port_by_name ic name port = elim (lookup name ic.services) [
  | none ↦ err (not_prefetched name)
  | some svc ↦ port_or_error port name (find_port port svc.ports)
]

abbrev pub http_solver_label : String
http_solver_label = "acme.cert-manager.io/http01-solver"

-- IsHTTP01Solver
unfoldable pub is_http01_solver : Ingress → Bool
is_http01_solver ingress = to_lower (get_text http_solver_label ingress.labels) == "true"

-- The methods DeepCopy of the Kubernetes API's types
pub record DeepCopies : Type 0 where
  pub ingress : Ingress → Ingress
  pub secret : Secret → Secret
  pub service : Service → Service

-- A loop of Clone, which stores the copy of each object under its name
unfoldable pub copy_objects : {V : Type 0} → (V → V) → Map NamespacedName V → Map NamespacedName V
copy_objects deep_copy [] = []
copy_objects deep_copy ((k, v) ∷ src) = insert k (deep_copy v) (copy_objects deep_copy src)

-- IngressConfig.Clone: the endpoints are allocated and not filled
unfoldable pub clone : DeepCopies → IngressConfig → IngressConfig
unfolding copy_objects
clone x ic = record {
  annotation_prefix = ic.annotation_prefix;
  ingress = x.ingress ic.ingress;
  endpoints = [];
  secrets = copy_objects x.secret ic.secrets;
  services = copy_objects x.service ic.services;
}

-- SSHSecrets
pub record SshSecrets : Type 0 where
  pub host_keys : List Secret
  pub user_ca_key : Option Secret

pub data SecretsError : Type 0 where
  wrong_type : NamespacedName → SecretType → SecretsError
  storage_mandatory : SecretsError
  missing_key : NamespacedName → String → SecretsError

abbrev is_ssh_auth : Secret → Result SecretsError (Unit {0})
is_ssh_auth s = guard (s.secret_type == ssh_auth) (wrong_type s.namespaced_name s.secret_type)

pub validate_host_keys : List Secret → Result SecretsError (Unit {0})
validate_host_keys [] = ok tt
validate_host_keys (k ∷ ks) = do is_ssh_auth k; validate_host_keys ks

abbrev if_present :
    (Secret → Result SecretsError (Unit {0})) → Option Secret → Result SecretsError (Unit {0})
if_present check none = ok tt
if_present check (some s) = check s

-- SSHSecrets.Validate
pub validate_ssh_secrets : SshSecrets → Result SecretsError (Unit {0})
unfolding validate_host_keys
validate_ssh_secrets s = do validate_host_keys s.host_keys; if_present is_ssh_auth s.user_ca_key

-- StorageSecrets
pub record StorageSecrets : Type 0 where
  pub secret : Option Secret
  pub tls_secret : Option Secret
  pub ca_secret : Option Secret

abbrev needs_key : String → Secret → Result SecretsError (Unit {0})
needs_key k s = guard (has_key k s.contents) (missing_key s.namespaced_name k)

abbrev is_tls : Secret → Result SecretsError (Unit {0})
is_tls s = guard (s.secret_type == tls) (wrong_type s.namespaced_name s.secret_type)

abbrev mandatory : Option Secret → Result SecretsError (Unit {0})
mandatory none = err storage_mandatory
mandatory (some s) = needs_key storage_connection_string_key s

-- StorageSecrets.Validate
unfoldable pub validate_storage_secrets : StorageSecrets → Result SecretsError (Unit {0})
unfolding has_key
validate_storage_secrets s = do
  mandatory s.secret
  if_present is_tls s.tls_secret
  if_present (needs_key ca_key) s.ca_secret
