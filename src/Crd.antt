-- ===== src/Crd.antt =====
-- apis/ingress/v1/pomerium_types.go: the Pomerium custom resource, and the `Config` of
-- model/ingress_config.go, which is the resource with the secrets it names. The deprecated fields
-- that no code reads are left out.
use ingress_controller.Certs.{domain_key_eq}
use ingress_controller.Externals.{route_id_eq}
use ingress_controller.Gateway.RefKey.{ref_key_eq}
use ingress_controller.IngressConfig.{SshSecrets, StorageSecrets}
use ingress_controller.Prelude.{Bool, List, Option, String, false, ltb, nat_eq, string_eq, true, ℕ}
use ingress_controller.Prelude.Map.{Map}
use ingress_controller.Prelude.Text.{char_eq}
use ingress_controller.Types.{NamespacedName, Secret, key_eq, namespaced_name_eq, secret_type_eq}

-- An `int32` or a `time.Duration`, with its sign.
pub data ℤ : Type 0 where
  pos negsuc : ℕ → ℤ

pub lt_int : ℤ → ℤ → Bool
lt_int (pos m) (pos n) = ltb m n
lt_int (pos m) (negsuc n) = false
lt_int (negsuc m) (pos n) = true
lt_int (negsuc m) (negsuc n) = ltb n m

-- metav1.Duration, in nanoseconds
abbrev pub Duration : Type 0
Duration = ℤ

pub record IdentityProvider : Type 0 where
  pub provider : String
  pub url : Option String
  pub secret : String
  pub request_params : Map String String
  pub request_params_secret : Option String
  pub scopes : List String

pub record FileStorage : Type 0 where
  pub path : String

pub record PostgresStorage : Type 0 where
  pub secret : String
  pub tls_secret : Option String
  pub ca_secret : Option String

pub record Storage : Type 0 where
  pub file : Option FileStorage
  pub postgres : Option PostgresStorage

pub record Authenticate : Type 0 where
  pub url : String

pub record Cookie : Type 0 where
  pub name : Option String
  pub domain : Option String
  pub http_only : Option Bool
  pub expire : Option Duration
  pub same_site : Option String

pub record MatchSubjectAltNames : Type 0 where
  pub dns : String
  pub email : String
  pub ip_address : String
  pub uri : String
  pub user_principal_name : String

pub record DownstreamMtls : Type 0 where
  pub ca : String
  pub crl : String
  pub enforcement : Option String
  pub match_subject_alt_names : Option MatchSubjectAltNames
  pub max_verify_depth : Option ℕ

pub record Otel : Type 0 where
  pub endpoint : String
  pub protocol : String
  pub headers : Map String String
  pub timeout : Option Duration
  pub sampling : Option String
  pub resource_attributes : Map String String
  pub bsp_schedule_delay : Option Duration
  pub bsp_max_export_batch_size : Option ℤ
  pub log_level : Option String

pub record Timeouts : Type 0 where
  pub read : Option Duration
  pub write : Option Duration
  pub idle : Option Duration

pub record CircuitBreakerThresholds : Type 0 where
  pub max_connections : Option ℕ
  pub max_pending_requests : Option ℕ
  pub max_requests : Option ℕ
  pub max_retries : Option ℕ
  pub max_connection_pools : Option ℕ

pub record Dns : Type 0 where
  pub lookup_family : Option String
  pub failure_refresh_rate : Option Duration
  pub query_timeout : Option Duration
  pub query_tries : Option ℕ
  pub refresh_rate : Option Duration
  pub udp_max_queries : Option ℕ
  pub use_tcp : Option Bool

pub record Ssh : Type 0 where
  pub host_key_secrets : Option (List String)
  pub user_ca_key_secret : Option String

pub record PomeriumSpec : Type 0 where
  pub access_log_fields : Option (List String)
  pub authenticate : Option Authenticate
  pub authorize_log_fields : Option (List String)
  pub certificates : List String
  pub ca_secrets : List String
  pub cookie : Option Cookie
  pub identity_provider : Option IdentityProvider
  pub jwt_claim_headers : Map String String
  pub mcp_allowed_client_id_domains : List String
  pub mcp_allowed_as_metadata_domains : List String
  pub pass_identity_headers : Option Bool
  pub programmatic_redirect_domains : List String
  pub runtime_flags : Map String Bool
  pub secrets : String
  pub set_response_headers : Map String String
  pub storage : Option Storage
  pub timeouts : Option Timeouts
  pub use_proxy_protocol : Option Bool
  pub codec_type : Option String
  pub bearer_token_format : Option String
  pub idp_access_token_allowed_audiences : Option (List String)
  pub otel : Option Otel
  pub downstream_mtls : Option DownstreamMtls
  pub circuit_breaker_thresholds : Option CircuitBreakerThresholds
  pub dns : Option Dns
  pub ssh : Option Ssh
  pub allow_upgrades : Option (List String)
  pub envoy_dynamic_extensions : Option (List String)
  pub normalize_path : Option Bool
  pub merge_slashes : Option Bool
  pub path_with_escaped_slashes_action : Option String
  pub headers_with_underscores_action : Option String

-- model.Config
pub record Config : Type 0 where
  pub spec : PomeriumSpec
  pub secrets : Option Secret
  pub ca_secrets : List Secret
  pub certs : Map NamespacedName Secret
  pub request_params : Option Secret
  pub idp_secret : Option Secret
  pub ssh_secrets : SshSecrets
  pub storage_secrets : StorageSecrets
