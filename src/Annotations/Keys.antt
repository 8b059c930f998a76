-- ===== src/Annotations/Keys.antt =====
-- The groups of annotations, and removeKeyPrefix, which sorts the annotations of an ingress into
-- them.
pub mod Sorted
use ingress_controller.Annotations.Errors.{AnnotationError, no_longer_supported, unknown_key}
use ingress_controller.Externals.{route_id_eq}
use ingress_controller.Gateway.RefKey.{ref_key_eq}
use ingress_controller.IngressConfig.Names.{
  identity_provider_secret, kubernetes_service_account_token_secret, mcp_client_annotation,
  mcp_server_annotation, mcp_server_authorization_server_url, mcp_server_max_request_bytes,
  mcp_server_path, mcp_server_upstream_oauth2_auth_style, mcp_server_upstream_oauth2_auth_url,
  mcp_server_upstream_oauth2_authorization_url_params, mcp_server_upstream_oauth2_scopes,
  mcp_server_upstream_oauth2_secret, mcp_server_upstream_oauth2_token_url, path_regex_annotation,
  secure_upstream_annotation, set_request_headers_secret, set_response_headers_secret,
  ssh_upstream_annotation, subtle_allow_empty_host, tcp_upstream_annotation, tls_client_secret,
  tls_custom_ca_secret, tls_downstream_client_ca_secret, udp_upstream_annotation,
  upstream_tunnel_annotation, upstream_tunnel_ssh_policy, use_service_proxy_annotation,
}
use ingress_controller.Prelude.{
  List, Result, String, [], err, guard, if◌then◌else◌, nat_eq, not, ok, string_eq, ◌>>=◌, ◌>>◌, ◌∷◌,
}
use ingress_controller.Prelude.Map.{Map, insert}
use ingress_controller.Prelude.Set.{contains}
use ingress_controller.Prelude.Text.{char_eq, has_prefix, trim_prefix, ◌<>◌}
use ingress_controller.Types.{key_eq, namespaced_name_eq, secret_type_eq, tls}

abbrev pub base_annotations : List String
base_annotations =
    "allow_any_authenticated_user" ∷ "allow_public_unauthenticated_access" ∷ "allow_spdy"
    ∷ "allow_upgrades" ∷ "allow_websockets" ∷ "bearer_token_format" ∷ "circuit_breaker_thresholds"
    ∷ "cors_allow_preflight" ∷ "depends_on" ∷ "description"
    ∷ "enable_google_cloud_serverless_authentication" ∷ "health_checks" ∷ "healthy_panic_threshold"
    ∷ "host_path_regex_rewrite_pattern" ∷ "host_path_regex_rewrite_substitution"
    ∷ "host_rewrite_header" ∷ "host_rewrite" ∷ "idle_timeout" ∷ "idp_access_token_allowed_audiences"
    ∷ "load_balancing_policy" ∷ "logo_url" ∷ "name" ∷ "outlier_detection" ∷ "pass_identity_headers"
    ∷ "prefix_rewrite" ∷ "preserve_host_header" ∷ "regex_rewrite_pattern"
    ∷ "regex_rewrite_substitution" ∷ "remove_request_headers" ∷ "rewrite_response_headers"
    ∷ "set_request_headers" ∷ "set_response_headers" ∷ "timeout" ∷ "tls_server_name"
    ∷ "tls_skip_verify" ∷ []

abbrev pub policy_annotations : List String
policy_annotations = "allowed_domains" ∷ "allowed_idp_claims" ∷ "allowed_users" ∷ "policy" ∷ []

abbrev pub tls_annotations : List String
tls_annotations = tls_client_secret ∷ tls_custom_ca_secret ∷ tls_downstream_client_ca_secret ∷ []

abbrev pub secret_annotations : List String
secret_annotations =
    kubernetes_service_account_token_secret ∷ set_request_headers_secret
    ∷ set_response_headers_secret ∷ mcp_server_upstream_oauth2_secret ∷ identity_provider_secret
    ∷ []

abbrev pub mcp_server_annotations : List String
mcp_server_annotations =
    mcp_server_annotation ∷ mcp_server_max_request_bytes
    ∷ mcp_server_upstream_oauth2_authorization_url_params ∷ mcp_server_upstream_oauth2_token_url
    ∷ mcp_server_upstream_oauth2_auth_url ∷ mcp_server_upstream_oauth2_scopes
    ∷ mcp_server_upstream_oauth2_auth_style ∷ mcp_server_path ∷ mcp_server_authorization_server_url
    ∷ []

abbrev pub mcp_client_annotations : List String
mcp_client_annotations = mcp_client_annotation ∷ []

abbrev pub upstream_tunnel_annotations : List String
upstream_tunnel_annotations = upstream_tunnel_annotation ∷ upstream_tunnel_ssh_policy ∷ []

abbrev pub handled_elsewhere : List String
handled_elsewhere =
    path_regex_annotation ∷ secure_upstream_annotation ∷ ssh_upstream_annotation
    ∷ tcp_upstream_annotation ∷ udp_upstream_annotation ∷ use_service_proxy_annotation
    ∷ subtle_allow_empty_host ∷ []

abbrev pub unsupported : List String
unsupported = "allowed_groups" ∷ []

pub record Keys : Type 0 where
  pub base : Map String String
  pub policy : Map String String
  pub tls : Map String String
  pub etc : Map String String
  pub secret : Map String String
  pub mcp_server : Map String String
  pub mcp_client : Map String String
  pub upstream_tunnel : Map String String

abbrev pub no_keys : Keys
no_keys = record {
  base = [];
  policy = [];
  tls = [];
  etc = [];
  secret = [];
  mcp_server = [];
  mcp_client = [];
  upstream_tunnel = [];
}

-- The first group that knows the key, in the order in which removeKeyPrefix tries them, takes it.
unfoldable pub file_key : String → String → Keys → Result AnnotationError Keys
file_key k v kv =
    if contains k base_annotations
    then ok (record kv { base = insert k v kv.base })
    else if contains k policy_annotations
    then ok (record kv { policy = insert k v kv.policy })
    else if contains k tls_annotations
    then ok (record kv { tls = insert k v kv.tls })
    else if contains k secret_annotations
    then ok (record kv { secret = insert k v kv.secret })
    else if contains k mcp_server_annotations
    then ok (record kv { mcp_server = insert k v kv.mcp_server })
    else if contains k mcp_client_annotations
    then ok (record kv { mcp_client = insert k v kv.mcp_client })
    else if contains k upstream_tunnel_annotations
    then ok (record kv { upstream_tunnel = insert k v kv.upstream_tunnel })
    else if contains k handled_elsewhere
    then ok (record kv { etc = insert k v kv.etc })
    else err (unknown_key k)

-- The loop of removeKeyPrefix; `prefix` ends in a slash here
unfoldable pub file_keys : String → Map String String → Keys → Result AnnotationError Keys
unfolding file_key
file_keys prefix [] kv = ok kv
file_keys prefix ((key, v) ∷ src) kv =
    let skip = file_keys prefix src kv in
    let k = trim_prefix key prefix in
    let take = (do
      guard (not (contains k unsupported)) (no_longer_supported k)
      kv' ← file_key k v kv
      file_keys prefix src kv') in
    if has_prefix key prefix then take else skip

-- removeKeyPrefix
unfoldable pub remove_key_prefix : Map String String → String → Result AnnotationError Keys
unfolding file_keys
remove_key_prefix src prefix = file_keys (prefix <> "/") src no_keys
