-- ===== src/Settings.antt =====
-- The settings of Pomerium's configuration (package `configpb`, outside the repository), with the
-- fields that pomerium/config.go sets, in the groups that its functions set.
pub mod Groups
pub mod Apply
pub mod Outcomes
pub mod Accepted
use ingress_controller.Certs.{Certificate, domain_key_eq}
use ingress_controller.Crd.{CircuitBreakerThresholds, Duration, ℤ}
use ingress_controller.Externals.{route_id_eq}
use ingress_controller.Gateway.RefKey.{ref_key_eq}
use ingress_controller.Prelude.{Bool, List, Option, String, [], nat_eq, none, string_eq, ℕ}
use ingress_controller.Prelude.Map.{Map}
use ingress_controller.Prelude.Text.{char_eq}
use ingress_controller.Types.{
  NamespacedName, SecretType, key_eq, namespaced_name_eq, secret_type_eq,
}

pub data CodecType : Type 0 where
  codec_auto codec_http1 codec_http2 codec_http3 : CodecType

pub data BearerTokenFormat : Type 0 where
  format_unknown format_default format_idp_access_token format_idp_identity_token :
      BearerTokenFormat

pub data EnforcementMode : Type 0 where
  policy_with_default_deny policy_only reject_connection : EnforcementMode

pub data SanType : Type 0 where
  san_email san_dns san_uri san_ip_address san_user_principal_name : SanType

pub data EscapedSlashesAction : Type 0 where
  keep_unchanged reject_escaped unescape_and_redirect unescape_and_forward : EscapedSlashesAction

pub data UnderscoresAction : Type 0 where
  allow_underscores reject_underscores drop_header : UnderscoresAction

pub record CookieSettings : Type 0 where
  pub domain : Option String
  pub name : Option String
  pub http_only : Option Bool
  pub expire : Option Duration
  pub same_site : Option String

-- A float64 is given by its bits.
pub record OtelSettings : Type 0 where
  pub traces_exporter : Option String
  pub traces_endpoint : Option String
  pub traces_sampler_arg : Option ℕ
  pub resource_attributes : List String
  pub log_level : Option String
  pub traces_protocol : Option String
  pub traces_headers : List String
  pub traces_timeout : Option Duration
  pub bsp_schedule_delay : Option Duration
  pub bsp_max_export_batch_size : Option ℤ

pub record TimeoutSettings : Type 0 where
  pub idle : Option Duration
  pub read : Option Duration
  pub write : Option Duration

pub record IdpSettings : Type 0 where
  pub provider : Option String
  pub scopes : List String
  pub provider_url : Option String
  pub client_id : Option String
  pub client_secret : Option String
  pub request_params : Map String String

pub record MtlsSettings : Type 0 where
  pub ca : Option String
  pub crl : Option String
  pub enforcement : Option EnforcementMode
  pub match_subject_alt_names : List (SanType × String)
  pub max_verify_depth : Option ℕ

pub record DnsSettings : Type 0 where
  pub lookup_family : Option String
  pub failure_refresh_rate : Option Duration
  pub query_timeout : Option Duration
  pub query_tries : Option ℕ
  pub refresh_rate : Option Duration
  pub udp_max_queries : Option ℕ
  pub use_tcp : Option Bool

pub record SshSettings : Type 0 where
  pub host_keys : Option (List String)
  pub user_ca_key : Option String

pub record NormalizationSettings : Type 0 where
  pub normalize_path : Option Bool
  pub merge_slashes : Option Bool
  pub path_with_escaped_slashes_action : Option EscapedSlashesAction
  pub headers_with_underscores_action : Option UnderscoresAction

pub record OtherSettings : Type 0 where
  pub set_response_headers : Map String String
  pub programmatic_redirect_domain_whitelist : List String
  pub mcp_allowed_client_id_domains : List String
  pub mcp_allowed_as_metadata_domains : List String
  pub use_proxy_protocol : Option Bool
  pub codec_type : Option CodecType
  pub access_log_fields : Option (List String)
  pub authorize_log_fields : Option (List String)
  pub pass_identity_headers : Option Bool
  pub bearer_token_format : Option BearerTokenFormat
  pub idp_access_token_allowed_audiences : Option (List String)
  pub allow_upgrades : Option (List String)
  pub envoy_dynamic_extensions : Option (List String)

-- pb.Settings
pub record Settings : Type 0 where
  pub certificates : List Certificate
  pub certificate_authority : Option String
  pub authenticate_service_url : Option String
  pub jwt_claims_headers : Map String String
  pub cookie : CookieSettings
  pub otel : OtelSettings
  pub timeouts : TimeoutSettings
  pub idp : IdpSettings
  pub downstream_mtls : Option MtlsSettings
  pub circuit_breaker_thresholds : Option CircuitBreakerThresholds
  pub dns : DnsSettings
  pub ssh : SshSettings
  pub normalization : NormalizationSettings
  pub others : OtherSettings

-- new(pb.Settings)
abbrev pub new_settings : Settings
new_settings = record {
  certificates = [];
  certificate_authority = none;
  authenticate_service_url = none;
  jwt_claims_headers = [];
  cookie = record { domain = none; name = none; http_only = none; expire = none; same_site = none };
  otel = record {
    traces_exporter = none;
    traces_endpoint = none;
    traces_sampler_arg = none;
    resource_attributes = [];
    log_level = none;
    traces_protocol = none;
    traces_headers = [];
    traces_timeout = none;
    bsp_schedule_delay = none;
    bsp_max_export_batch_size = none;
  };
  timeouts = record { idle = none; read = none; write = none };
  idp = record {
    provider = none;
    scopes = [];
    provider_url = none;
    client_id = none;
    client_secret = none;
    request_params = [];
  };
  downstream_mtls = none;
  circuit_breaker_thresholds = none;
  dns = record {
    lookup_family = none;
    failure_refresh_rate = none;
    query_timeout = none;
    query_tries = none;
    refresh_rate = none;
    udp_max_queries = none;
    use_tcp = none;
  };
  ssh = record { host_keys = none; user_ca_key = none };
  normalization = record {
    normalize_path = none;
    merge_slashes = none;
    path_with_escaped_slashes_action = none;
    headers_with_underscores_action = none;
  };
  others = record {
    set_response_headers = [];
    programmatic_redirect_domain_whitelist = [];
    mcp_allowed_client_id_domains = [];
    mcp_allowed_as_metadata_domains = [];
    use_proxy_protocol = none;
    codec_type = none;
    access_log_fields = none;
    authorize_log_fields = none;
    pass_identity_headers = none;
    bearer_token_format = none;
    idp_access_token_allowed_audiences = none;
    allow_upgrades = none;
    envoy_dynamic_extensions = none;
  };
}

-- The libraries that read the values of the settings.
pub record SettingsTools : Type 0 where
  -- url.Parse succeeds
  pub is_url : String → Bool
  -- strconv.ParseFloat, and the tests `v < 0` and `v > 1`
  pub parse_float : String → Option ℕ
  pub is_below_zero : ℕ → Bool
  pub is_above_one : ℕ → Bool
  -- base64.StdEncoding.EncodeToString, strings.ToUpper
  pub encode_base64 : String → String
  pub to_upper : String → String
  -- The order in which a `range` visits the map of name patterns.
  pub range_order : List (SanType × String) → List (SanType × String)
  -- hosted.Name
  pub hosted_name : String

pub data SettingsError : Type 0 where
  bad_url bad_sampling sampling_out_of_range unknown_codec_type : String → SettingsError
  unknown_bearer_token_format unknown_path_action unknown_headers_action : String → SettingsError
  key_required duplicate_param : String → SettingsError
  read_not_below_write idp_secret_required : SettingsError
  unexpected_secret_type : NamespacedName → SecretType → SettingsError
  missing_host_key missing_user_ca_key : NamespacedName → SettingsError
  at_option : String → SettingsError → SettingsError

-- config.FieldMsg, by what it warns of
pub data FieldMsg : Type 0 where
  no_persistent_storage service_account_removed : FieldMsg
