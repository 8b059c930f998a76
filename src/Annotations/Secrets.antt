-- ===== src/Annotations/Secrets.antt =====
-- applySecretAnnotations, with its table of handlers, and util/merge_map.go.
pub mod Headers
use ingress_controller.Annotations.Errors.{
  AnnotationError, already_client, header_already_set, missing_client_id_and_secret, missing_token,
  secret_not_fetched, unknown_annotation, wrong_secret_type,
}
use ingress_controller.Externals.{route_id_eq}
use ingress_controller.Gateway.RefKey.{ref_key_eq}
use ingress_controller.IngressConfig.Names.{
  identity_provider_client_id_key, identity_provider_client_secret_key, identity_provider_secret,
  kubernetes_service_account_token_secret, kubernetes_service_account_token_secret_key,
  mcp_server_upstream_oauth2_client_id_key, mcp_server_upstream_oauth2_client_secret_key,
  mcp_server_upstream_oauth2_secret, set_request_headers_secret, set_response_headers_secret,
}
use ingress_controller.Prelude.{
  Option, Result, String, [], err, guard, if◌then◌else◌, nat_eq, none, ok, some, string_eq, wrap,
  ◌==◌, ◌>>=◌, ◌>>◌, ◌||◌, ◌∷◌,
}
use ingress_controller.Prelude.Map.{Map, has_key, insert, lookup}
use ingress_controller.Prelude.Text.{char_eq}
use ingress_controller.Route.{
  Mcp, McpServer, Route, UpstreamOAuth2, empty_mcp_server, empty_oauth2, mcp_client_mode,
  mcp_server_mode, mcp_unset,
}
use ingress_controller.Types.{
  NamespacedName, Secret, SecretType, key_eq, namespaced_name_eq, opaque, secret_type_eq,
  service_account_token,
}

-- The second loop of MergeMaps; `first` is what the keys are checked against
unfoldable pub merge_into :
    Map String String → Map String String → Map String String → Result String (Map String String)
merge_into first [] dst = ok dst
merge_into first ((key, data_value) ∷ second) dst =
    let rest = merge_into first second (insert key data_value dst) in
    if has_key key first then err key else rest

unfoldable pub copy_map : Map String String → Map String String → Map String String
copy_map [] dst = dst
copy_map ((key, val) ∷ first) dst = copy_map first (insert key val dst)

-- util.MergeMaps; the error names the key that is in both
unfoldable pub merge_maps :
    Map String String → Map String String → Result String (Map String String)
unfolding merge_into copy_map
merge_maps first second = merge_into first second (copy_map first [])

abbrev or_else : Option UpstreamOAuth2 → UpstreamOAuth2
or_else none = empty_oauth2
or_else (some o) = o

-- The server of an MCP route: a route without MCP or without a mode gets an empty one
pub server_for_secret : String → Option Mcp → Result AnnotationError McpServer
server_for_secret annotation none = ok empty_mcp_server
server_for_secret annotation (some mcp_unset) = ok empty_mcp_server
server_for_secret annotation (some (mcp_server_mode s)) = ok s
server_for_secret annotation (some mcp_client_mode) = err (already_client annotation)

abbrev set_or_keep : Option String → String → String
set_or_keep none old = old
set_or_keep (some new) old = new

abbrev some_or_keep : Option String → Option String → Option String
some_or_keep none old = old
some_or_keep (some new) old = some new

-- The handler of MCPServerUpstreamOAuth2Secret
pub apply_oauth2_secret : String → Map String String → Route → Result AnnotationError Route
unfolding server_for_secret
apply_oauth2_secret annotation contents r = do
  let client_id = lookup mcp_server_upstream_oauth2_client_id_key contents
  let client_secret = lookup mcp_server_upstream_oauth2_client_secret_key contents
  guard
      (has_key mcp_server_upstream_oauth2_client_id_key contents
        || has_key mcp_server_upstream_oauth2_client_secret_key contents)
      (missing_client_id_and_secret annotation)
  server ← server_for_secret annotation r.mcp
  let old = or_else server.upstream_oauth2
  let oauth2 = record old {
    client_id = set_or_keep client_id old.client_id;
    client_secret = set_or_keep client_secret old.client_secret;
  }
  ok (record r { mcp = some (mcp_server_mode (record server { upstream_oauth2 = some oauth2 })) })

-- The handlers, by annotation: `expectedType`
pub expected_type : String → Option SecretType
expected_type key =
    if key == kubernetes_service_account_token_secret
    then some service_account_token
    else if key == set_request_headers_secret
        || key == set_response_headers_secret
        || key == mcp_server_upstream_oauth2_secret
        || key == identity_provider_secret
    then some opaque
    else none

abbrev token_or_error : String → Option String → Route → Result AnnotationError Route
token_or_error key none r = err (missing_token key)
token_or_error key (some token) r = ok (record r { kubernetes_service_account_token = token })

-- The handlers, by annotation: `apply`
pub apply_secret_data : String → Map String String → Route → Result AnnotationError Route
unfolding apply_oauth2_secret merge_maps
apply_secret_data key contents r =
    if key == kubernetes_service_account_token_secret
    then token_or_error key (lookup kubernetes_service_account_token_secret_key contents) r
    else if key == set_request_headers_secret
    then (do
      dst ← wrap (header_already_set key) (merge_maps r.set_request_headers contents)
      ok (record r { set_request_headers = dst }))
    else if key == set_response_headers_secret
    then (do
      dst ← wrap (header_already_set key) (merge_maps r.set_response_headers contents)
      ok (record r { set_response_headers = dst }))
    else if key == mcp_server_upstream_oauth2_secret
    then apply_oauth2_secret key contents r
    else ok (record r {
      idp_client_id =
          some_or_keep (lookup identity_provider_client_id_key contents) r.idp_client_id;
      idp_client_secret =
          some_or_keep (lookup identity_provider_client_secret_key contents) r.idp_client_secret;
    })

-- One round of the loop of applySecretAnnotations
pub apply_secret_annotation :
    Map NamespacedName Secret → String → String → String → Route → Result AnnotationError Route
unfolding expected_type apply_secret_data
apply_secret_annotation secrets namespace key secret_name r = elim (expected_type key) [
  | none ↦ err (unknown_annotation key)
  | some expected ↦ elim (lookup (record { namespace = namespace; name = secret_name }) secrets) [
    | none ↦ err (secret_not_fetched key secret_name)
    | some secret ↦ do
      guard (secret.secret_type == expected) (wrong_secret_type key expected secret.secret_type)
      apply_secret_data key secret.contents r
  ]
]

-- applySecretAnnotations
unfoldable pub apply_secret_annotations :
    Map NamespacedName Secret → String → Map String String → Route → Result AnnotationError Route
unfolding apply_secret_annotation
apply_secret_annotations secrets namespace [] r = ok r
apply_secret_annotations secrets namespace ((key, secret_name) ∷ annotations) r = do
  r' ← apply_secret_annotation secrets namespace key secret_name r
  apply_secret_annotations secrets namespace annotations r'
