-- ===== src/IngressConfig/Names.antt =====
-- The constants of model/ingress_config.go: annotation names and keys within secrets.
use Prim.Native.String.{String}

abbrev pub name_annotation : String
name_annotation = "name"

abbrev pub tls_custom_ca_secret : String
tls_custom_ca_secret = "tls_custom_ca_secret"

abbrev pub tls_client_secret : String
tls_client_secret = "tls_client_secret"

abbrev pub tls_downstream_client_ca_secret : String
tls_downstream_client_ca_secret = "tls_downstream_client_ca_secret"

abbrev pub tls_server_name_annotation : String
tls_server_name_annotation = "tls_server_name"

abbrev pub secure_upstream_annotation : String
secure_upstream_annotation = "secure_upstream"

abbrev pub path_regex_annotation : String
path_regex_annotation = "path_regex"

abbrev pub use_service_proxy_annotation : String
use_service_proxy_annotation = "service_proxy_upstream"

abbrev pub ssh_upstream_annotation : String
ssh_upstream_annotation = "ssh_upstream"

abbrev pub tcp_upstream_annotation : String
tcp_upstream_annotation = "tcp_upstream"

abbrev pub udp_upstream_annotation : String
udp_upstream_annotation = "udp_upstream"

abbrev pub subtle_allow_empty_host : String
subtle_allow_empty_host = "subtle_allow_empty_host"

abbrev pub kubernetes_service_account_token_secret : String
kubernetes_service_account_token_secret = "kubernetes_service_account_token_secret"

abbrev pub kubernetes_service_account_token_secret_key : String
kubernetes_service_account_token_secret_key = "token"

abbrev pub set_request_headers_secret : String
set_request_headers_secret = "set_request_headers_secret"

abbrev pub set_response_headers_secret : String
set_response_headers_secret = "set_response_headers_secret"

abbrev pub storage_connection_string_key : String
storage_connection_string_key = "connection"

abbrev pub ca_key : String
ca_key = "ca.crt"

abbrev pub ssh_private_key : String
ssh_private_key = "ssh-privatekey"

abbrev pub mcp_server_annotation : String
mcp_server_annotation = "mcp_server"

abbrev pub mcp_client_annotation : String
mcp_client_annotation = "mcp_client"

abbrev pub mcp_server_max_request_bytes : String
mcp_server_max_request_bytes = "mcp_server_max_request_bytes"

abbrev pub mcp_server_upstream_oauth2_authorization_url_params : String
mcp_server_upstream_oauth2_authorization_url_params =
    "mcp_server_upstream_oauth2_authorization_url_params"

abbrev pub mcp_server_upstream_oauth2_secret : String
mcp_server_upstream_oauth2_secret = "mcp_server_upstream_oauth2_secret"

abbrev pub mcp_server_upstream_oauth2_auth_url : String
mcp_server_upstream_oauth2_auth_url = "mcp_server_upstream_oauth2_auth_url"

abbrev pub mcp_server_upstream_oauth2_token_url : String
mcp_server_upstream_oauth2_token_url = "mcp_server_upstream_oauth2_token_url"

abbrev pub mcp_server_upstream_oauth2_scopes : String
mcp_server_upstream_oauth2_scopes = "mcp_server_upstream_oauth2_scopes"

abbrev pub mcp_server_path : String
mcp_server_path = "mcp_server_path"

abbrev pub mcp_server_authorization_server_url : String
mcp_server_authorization_server_url = "mcp_server_authorization_server_url"

abbrev pub mcp_server_upstream_oauth2_auth_style : String
mcp_server_upstream_oauth2_auth_style = "mcp_server_upstream_oauth2_auth_style"

abbrev pub mcp_server_upstream_oauth2_client_id_key : String
mcp_server_upstream_oauth2_client_id_key = "client_id"

abbrev pub mcp_server_upstream_oauth2_client_secret_key : String
mcp_server_upstream_oauth2_client_secret_key = "client_secret"

abbrev pub identity_provider_secret : String
identity_provider_secret = "identity_provider_secret"

abbrev pub identity_provider_client_id_key : String
identity_provider_client_id_key = "client_id"

abbrev pub identity_provider_client_secret_key : String
identity_provider_client_secret_key = "client_secret"

abbrev pub upstream_tunnel_annotation : String
upstream_tunnel_annotation = "upstream_tunnel"

abbrev pub upstream_tunnel_ssh_policy : String
upstream_tunnel_ssh_policy = "upstream_tunnel_ssh_policy"
