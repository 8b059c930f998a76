-- ===== src/Settings/Groups.antt =====
-- pomerium/config.go: the functions that each set a group of the settings. Each returns the new
-- settings; a function that fails leaves no settings, since SetConfig drops them.
use ingress_controller.Certs.{domain_key_eq}
use ingress_controller.Crd.{Config, Duration, lt_int}
use ingress_controller.Externals.{route_id_eq}
use ingress_controller.Gateway.RefKey.{ref_key_eq}
use ingress_controller.IngressConfig.Names.{ssh_private_key}
use ingress_controller.Prelude.{
  Bool, List, Option, Result, String, [], err, guard, if◌then◌else◌, nat_eq, none, ok, some,
  string_eq, true, ◌++◌, ◌==◌, ◌>>=◌, ◌>>◌, ◌∷◌,
}
use ingress_controller.Prelude.Map.{Map, get_text, lookup}
use ingress_controller.Prelude.Text.{char_eq, ◌<>◌}
use ingress_controller.Settings.{
  BearerTokenFormat, CodecType, EscapedSlashesAction, Settings, SettingsError, UnderscoresAction,
  allow_underscores, codec_auto, codec_http1, codec_http2, codec_http3, drop_header, format_default,
  format_idp_access_token, format_idp_identity_token, format_unknown, keep_unchanged,
  missing_host_key, missing_user_ca_key, read_not_below_write, reject_escaped, reject_underscores,
  unescape_and_forward, unescape_and_redirect, unexpected_secret_type, unknown_bearer_token_format,
  unknown_codec_type, unknown_headers_action, unknown_path_action,
}
use ingress_controller.Types.{
  NamespacedName, Secret, key_eq, namespaced_name_eq, secret_type_eq, tls,
}

abbrev pub Applied : Type 0
Applied = Result SettingsError Settings

-- `if v != nil { dst = v }`
abbrev pub set_if_given : {A : Type 0} → Option A → Option A → Option A
set_if_given none old = old
set_if_given (some v) old = some v

-- mapToKVSlice
unfoldable pub map_to_kv_slice : Map String String → List String
map_to_kv_slice [] = []
map_to_kv_slice ((k, v) ∷ m) = (k <> "=" <> v) ∷ map_to_kv_slice m

-- applyTimeouts
abbrev pub is_before : Option Duration → Option Duration → Bool
is_before (some a) (some b) = lt_int a b
is_before _ _ = true

unfoldable pub apply_timeouts : Config → Settings → Applied
apply_timeouts c s = elim c.spec.timeouts [
  | none ↦ ok s
  | some tm ↦ do
    guard (is_before tm.read tm.write) read_not_below_write
    ok (record s {
      timeouts = record {
        idle = set_if_given tm.idle s.timeouts.idle;
        read = set_if_given tm.read s.timeouts.read;
        write = set_if_given tm.write s.timeouts.write;
      };
    })
]

-- applyJWTClaimHeaders
unfoldable pub apply_jwt_claim_headers : Config → Settings → Applied
apply_jwt_claim_headers c s = ok (record s { jwt_claims_headers = c.spec.jwt_claim_headers })

-- The switches of applySetOtherOptions
unfoldable pub codec_type_of : String → Option CodecType
codec_type_of t =
    if t == "auto"
    then some codec_auto
    else if t == "http1"
    then some codec_http1
    else if t == "http2"
    then some codec_http2
    else if t == "http3"
    then some codec_http3
    else none

unfoldable pub bearer_token_format_of : String → Option BearerTokenFormat
bearer_token_format_of t =
    if t == ""
    then some format_unknown
    else if t == "default"
    then some format_default
    else if t == "idp_access_token"
    then some format_idp_access_token
    else if t == "idp_identity_token"
    then some format_idp_identity_token
    else none

-- A switch on an optional text: the old value where it is nil, an error at an unknown text.
abbrev pub switch :
    {A : Type 0}
    → (String → Option A)
    → (String → SettingsError)
    → Option A
    → Option String
    → Result SettingsError (Option A)
switch of unknown old none = ok old
switch of unknown old (some t) = elim (of t) [ none ↦ err (unknown t) | some a ↦ ok (some a) ]

-- applySetOtherOptions
unfoldable pub apply_set_other_options : Config → Settings → Applied
unfolding codec_type_of bearer_token_format_of
apply_set_other_options c s = do
  codec ← switch codec_type_of unknown_codec_type s.others.codec_type c.spec.codec_type
  format ← switch bearer_token_format_of unknown_bearer_token_format none c.spec.bearer_token_format
  ok (record s {
    others = record {
      set_response_headers = c.spec.set_response_headers;
      programmatic_redirect_domain_whitelist = c.spec.programmatic_redirect_domains;
      mcp_allowed_client_id_domains = c.spec.mcp_allowed_client_id_domains;
      mcp_allowed_as_metadata_domains = c.spec.mcp_allowed_as_metadata_domains;
      use_proxy_protocol = c.spec.use_proxy_protocol;
      codec_type = codec;
      access_log_fields = set_if_given c.spec.access_log_fields s.others.access_log_fields;
      authorize_log_fields = set_if_given c.spec.authorize_log_fields s.others.authorize_log_fields;
      pass_identity_headers = c.spec.pass_identity_headers;
      bearer_token_format = format;
      idp_access_token_allowed_audiences = c.spec.idp_access_token_allowed_audiences;
      allow_upgrades = c.spec.allow_upgrades;
      envoy_dynamic_extensions = c.spec.envoy_dynamic_extensions;
    };
  })

-- applyCookie
unfoldable pub apply_cookie : Config → Settings → Applied
apply_cookie c s = elim c.spec.cookie [
  | none ↦ ok s
  | some cookie ↦ ok (record s {
    cookie = record {
      domain = cookie.domain;
      name = cookie.name;
      http_only = cookie.http_only;
      expire = set_if_given cookie.expire s.cookie.expire;
      same_site = cookie.same_site;
    };
  })
]

-- addTLSCert
unfoldable pub add_tls_cert : Settings → Secret → Settings
add_tls_cert s secret = record s {
  certificates =
      s.certificates
      ++ record {
        id = "";
        cert_bytes = get_text "tls.crt" secret.contents;
        key_bytes = get_text "tls.key" secret.contents;
      }
        ∷ [];
}

-- The loop of applyCerts
unfoldable pub add_certs_of : Map NamespacedName Secret → Settings → Applied
unfolding add_tls_cert
add_certs_of [] s = ok s
add_certs_of ((name, secret) ∷ certs) s = do
  guard (secret.secret_type == tls)
      (unexpected_secret_type secret.namespaced_name secret.secret_type)
  add_certs_of certs (add_tls_cert s secret)

-- applyCerts
unfoldable pub apply_certs : Config → Settings → Applied
unfolding add_certs_of
apply_certs c s = add_certs_of c.certs s

-- applyCircuitBreakerThresholds
unfoldable pub apply_circuit_breaker_thresholds : Config → Settings → Applied
apply_circuit_breaker_thresholds c s =
    ok (record s { circuit_breaker_thresholds = c.spec.circuit_breaker_thresholds })

-- applySSH
abbrev pub host_key_texts : List Secret → Result SettingsError (List String)
host_key_texts [] = ok []
host_key_texts (secret ∷ secrets) = elim (lookup ssh_private_key secret.contents) [
  | none ↦ err (missing_host_key secret.namespaced_name)
  | some text ↦ do texts ← host_key_texts secrets; ok (text ∷ texts)
]

abbrev pub host_keys_of : List Secret → Result SettingsError (Option (List String))
host_keys_of [] = ok none
host_keys_of (secret ∷ secrets) = do texts ← host_key_texts (secret ∷ secrets); ok (some texts)

abbrev pub user_ca_key_of : Option Secret → Result SettingsError (Option String)
user_ca_key_of none = ok none
user_ca_key_of (some secret) = elim (lookup ssh_private_key secret.contents) [
  | none ↦ err (missing_user_ca_key secret.namespaced_name)
  | some text ↦ ok (some text)
]

unfoldable pub apply_ssh : Config → Settings → Applied
apply_ssh c s = do
  host_keys ← host_keys_of c.ssh_secrets.host_keys
  user_ca_key ← user_ca_key_of c.ssh_secrets.user_ca_key
  ok (record s { ssh = record { host_keys = host_keys; user_ca_key = user_ca_key } })

-- The switches of applyRequestNormalizationOptions
unfoldable pub escaped_slashes_action_of : String → Option EscapedSlashesAction
escaped_slashes_action_of t =
    if t == "keep_unchanged"
    then some keep_unchanged
    else if t == "reject_request"
    then some reject_escaped
    else if t == "unescape_and_redirect"
    then some unescape_and_redirect
    else if t == "unescape_and_forward"
    then some unescape_and_forward
    else none

unfoldable pub underscores_action_of : String → Option UnderscoresAction
underscores_action_of t =
    if t == "allow"
    then some allow_underscores
    else if t == "reject_request"
    then some reject_underscores
    else if t == "drop_header"
    then some drop_header
    else none

-- applyRequestNormalizationOptions
unfoldable pub apply_request_normalization_options : Config → Settings → Applied
unfolding escaped_slashes_action_of underscores_action_of
apply_request_normalization_options c s = do
  slashes ←
      switch escaped_slashes_action_of unknown_path_action
        s.normalization.path_with_escaped_slashes_action c.spec.path_with_escaped_slashes_action
  underscores ←
      switch underscores_action_of unknown_headers_action
        s.normalization.headers_with_underscores_action c.spec.headers_with_underscores_action
  ok (record s {
    normalization = record {
      normalize_path = c.spec.normalize_path;
      merge_slashes = c.spec.merge_slashes;
      path_with_escaped_slashes_action = slashes;
      headers_with_underscores_action = underscores;
    };
  })
