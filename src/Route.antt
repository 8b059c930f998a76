-- ===== src/Route.antt =====
-- The messages of Pomerium's configuration (package `configpb`, outside the repository) as the code
-- builds them: the fields that it names. An optional field is an `Option`; a text that is not set
-- is "".
use ingress_controller.Gateway.RefKey.{ref_key_eq}
use ingress_controller.Prelude.{Bool, List, Option, String, [], false, nat_eq, none, string_eq, ℕ}
use ingress_controller.Prelude.Map.{Map}
use ingress_controller.Prelude.Text.{char_eq}
use ingress_controller.Types.{key_eq, namespaced_name_eq, secret_type_eq}

pub record Policy : Type 0 where
  pub source_ppl : Option String
  pub rego : List String
  pub allowed_users : List String
  pub allowed_domains : List String

pub data AuthStyle : Type 0 where
  in_params in_header : AuthStyle

pub record OAuth2Endpoint : Type 0 where
  pub auth_url : String
  pub token_url : String
  pub auth_style : Option AuthStyle

pub record UpstreamOAuth2 : Type 0 where
  pub client_id : String
  pub client_secret : String
  pub oauth2_endpoint : Option OAuth2Endpoint
  pub scopes : List String
  pub authorization_url_params : Map String String

pub record McpServer : Type 0 where
  pub upstream_oauth2 : Option UpstreamOAuth2
  pub max_request_bytes : Option ℕ
  pub path : Option String
  pub authorization_server_url : Option String

-- configpb.MCP by its Mode
pub data Mcp : Type 0 where
  mcp_unset : Mcp
  mcp_server_mode : McpServer → Mcp
  mcp_client_mode : Mcp

pub record UpstreamTunnel : Type 0 where
  pub ssh_policy : Option String

pub record Route : Type 0 where
  pub id : Option String
  pub name : Option String
  pub stat_name : Option String
  pub from : String
  pub to : List String
  pub path : String
  pub prefix : String
  pub regex : String
  pub tls_server_name : String
  pub tls_custom_ca : String
  pub tls_client_cert : String
  pub tls_client_key : String
  pub tls_downstream_client_ca : String
  pub kubernetes_service_account_token : String
  pub set_request_headers : Map String String
  pub set_response_headers : Map String String
  pub idp_client_id : Option String
  pub idp_client_secret : Option String
  pub mcp : Option Mcp
  pub upstream_tunnel : Option UpstreamTunnel
  pub policies : List Policy
  pub allow_public_unauthenticated_access : Bool
  pub preserve_host_header : Bool

abbrev pub empty_policy : Policy
empty_policy = record { source_ppl = none; rego = []; allowed_users = []; allowed_domains = [] }

abbrev pub empty_endpoint : OAuth2Endpoint
empty_endpoint = record { auth_url = ""; token_url = ""; auth_style = none }

abbrev pub empty_oauth2 : UpstreamOAuth2
empty_oauth2 = record {
  client_id = "";
  client_secret = "";
  oauth2_endpoint = none;
  scopes = [];
  authorization_url_params = [];
}

abbrev pub empty_mcp_server : McpServer
empty_mcp_server = record {
  upstream_oauth2 = none;
  max_request_bytes = none;
  path = none;
  authorization_server_url = none;
}

-- &pb.Route{}
abbrev pub empty_route : Route
empty_route = record {
  id = none;
  name = none;
  stat_name = none;
  from = "";
  to = [];
  path = "";
  prefix = "";
  regex = "";
  tls_server_name = "";
  tls_custom_ca = "";
  tls_client_cert = "";
  tls_client_key = "";
  tls_downstream_client_ca = "";
  kubernetes_service_account_token = "";
  set_request_headers = [];
  set_response_headers = [];
  idp_client_id = none;
  idp_client_secret = none;
  mcp = none;
  upstream_tunnel = none;
  policies = [];
  allow_public_unauthenticated_access = false;
  preserve_host_header = false;
}
