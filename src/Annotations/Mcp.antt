-- ===== src/Annotations/Mcp.antt =====
-- applyMCPAnnotations: an MCP server or client, never both.
pub mod Modes
use ingress_controller.Annotations.Errors.{
  AnnotationError, already_client, decoding, invalid_auth_style, invalid_number, not_true,
  server_and_client, unknown_annotation,
}
use ingress_controller.Externals.{Externals, route_id_eq}
use ingress_controller.Gateway.RefKey.{ref_key_eq}
use ingress_controller.IngressConfig.Names.{
  mcp_client_annotation, mcp_server_annotation, mcp_server_authorization_server_url,
  mcp_server_max_request_bytes, mcp_server_path, mcp_server_upstream_oauth2_auth_style,
  mcp_server_upstream_oauth2_auth_url, mcp_server_upstream_oauth2_authorization_url_params,
  mcp_server_upstream_oauth2_scopes, mcp_server_upstream_oauth2_token_url,
}
use ingress_controller.Prelude.{
  Option, Result, String, [], err, guard, if◌then◌else◌, is_empty, map, nat_eq, none, not, ok, some,
  string_eq, wrap, ℕ, ◌&&◌, ◌==◌, ◌>>=◌, ◌>>◌, ◌||◌, ◌∷◌,
}
use ingress_controller.Prelude.Map.{Map}
use ingress_controller.Prelude.Number.{parse_uint32}
use ingress_controller.Prelude.Text.{char_eq, split, trim_space}
use ingress_controller.Route.{
  Mcp, McpServer, OAuth2Endpoint, Route, UpstreamOAuth2, empty_endpoint, empty_mcp_server,
  empty_oauth2, in_header, in_params, mcp_client_mode, mcp_server_mode,
}
use ingress_controller.Types.{key_eq, namespaced_name_eq, secret_type_eq}

abbrev or_oauth2 : Option UpstreamOAuth2 → UpstreamOAuth2
or_oauth2 none = empty_oauth2
or_oauth2 (some o) = o

abbrev or_endpoint : Option OAuth2Endpoint → OAuth2Endpoint
or_endpoint none = empty_endpoint
or_endpoint (some e) = e

abbrev with_oauth2 : (UpstreamOAuth2 → UpstreamOAuth2) → McpServer → McpServer
with_oauth2 f s = record s { upstream_oauth2 = some (f (or_oauth2 s.upstream_oauth2)) }

abbrev with_endpoint : (OAuth2Endpoint → OAuth2Endpoint) → McpServer → McpServer
with_endpoint f =
    with_oauth2 (λ o. record o { oauth2_endpoint = some (f (or_endpoint o.oauth2_endpoint)) })

abbrev set_max_bytes : String → Option ℕ → McpServer → Result AnnotationError McpServer
set_max_bytes v none s = err (invalid_number v)
set_max_bytes v (some n) s = ok (record s { max_request_bytes = some n })

abbrev set_auth_style : String → McpServer → Result AnnotationError McpServer
set_auth_style v s =
    if v == "in_params"
    then ok (with_endpoint (λ e. record e { auth_style = some in_params }) s)
    else if v == "in_header"
    then ok (with_endpoint (λ e. record e { auth_style = some in_header }) s)
    else err (invalid_auth_style v)

module _ (x : Externals) where
  -- The cases of the switch on an annotation whose value is not empty
  pub apply_mcp_server_value : String → String → McpServer → Result AnnotationError McpServer
  apply_mcp_server_value k v s =
      if k == mcp_server_max_request_bytes
      then set_max_bytes v (parse_uint32 v) s
      else if k == mcp_server_upstream_oauth2_authorization_url_params
      then (do
        params ←
            wrap decoding
              (x.unmarshal_params v (or_oauth2 s.upstream_oauth2).authorization_url_params)
        ok (with_oauth2 (λ o. record o { authorization_url_params = params }) s))
      else if k == mcp_server_upstream_oauth2_auth_url
      then ok (with_endpoint (λ e. record e { auth_url = v }) s)
      else if k == mcp_server_upstream_oauth2_token_url
      then ok (with_endpoint (λ e. record e { token_url = v }) s)
      else if k == mcp_server_upstream_oauth2_scopes
      then ok (with_oauth2 (λ o. record o { scopes = map trim_space (split v ",") }) s)
      else if k == mcp_server_path
      then ok (record s { path = some v })
      else if k == mcp_server_authorization_server_url
      then ok (record s { authorization_server_url = some v })
      else if k == mcp_server_upstream_oauth2_auth_style
      then set_auth_style v s
      else err (unknown_annotation k)

  -- One round of the loop of applyMCPServerAnnotations
  pub apply_mcp_server_annotation : String → String → McpServer → Result AnnotationError McpServer
  unfolding apply_mcp_server_value
  apply_mcp_server_annotation k v s =
      if k == mcp_server_annotation
      then (if v == "" || v == "true" then ok s else err (not_true k v))
      else if v == ""
      then ok s
      else apply_mcp_server_value k v s

  -- The loop of applyMCPServerAnnotations
  pub mcp_server_config : Map String String → McpServer → Result AnnotationError McpServer
  unfolding apply_mcp_server_annotation
  mcp_server_config [] s = ok s
  mcp_server_config ((k, v) ∷ kvs) s = do
    s' ← apply_mcp_server_annotation k v s
    mcp_server_config kvs s'

  abbrev existing_server : Option Mcp → McpServer
  existing_server (some (mcp_server_mode s)) = s
  existing_server _ = empty_mcp_server

  abbrev install_server : Option Mcp → McpServer → Result AnnotationError Mcp
  install_server (some mcp_client_mode) s = err (already_client mcp_server_annotation)
  install_server _ s = ok (mcp_server_mode s)

  -- applyMCPServerAnnotations; an existing server is changed in place
  pub apply_mcp_server_annotations : Map String String → Route → Result AnnotationError Route
  unfolding mcp_server_config
  apply_mcp_server_annotations kvs r = do
    s ← mcp_server_config kvs (existing_server r.mcp)
    mode ← install_server r.mcp s
    ok (record r { mcp = some mode })

  -- The loop of applyMCPClientAnnotations
  unfoldable pub check_mcp_client : Map String String → Result AnnotationError (Unit {0})
  check_mcp_client [] = ok tt
  check_mcp_client ((k, v) ∷ kvs) = do
    guard (k == mcp_client_annotation) (unknown_annotation k)
    guard (v == "" || v == "true") (not_true k v)
    check_mcp_client kvs

  -- applyMCPClientAnnotations
  unfoldable pub apply_mcp_client_annotations :
      Map String String → Route → Result AnnotationError Route
  unfolding check_mcp_client
  apply_mcp_client_annotations kvs r = do
    check_mcp_client kvs
    ok (record r { mcp = some mcp_client_mode })

  -- applyMCPAnnotations
  unfoldable pub apply_mcp_annotations :
      Map String String → Map String String → Route → Result AnnotationError Route
  unfolding apply_mcp_server_annotations apply_mcp_client_annotations
  apply_mcp_annotations server_kvs client_kvs r =
      if not (is_empty server_kvs) && not (is_empty client_kvs)
      then err server_and_client
      else if not (is_empty server_kvs)
      then apply_mcp_server_annotations server_kvs r
      else if not (is_empty client_kvs)
      then apply_mcp_client_annotations client_kvs r
      else ok (record r { mcp = none })
