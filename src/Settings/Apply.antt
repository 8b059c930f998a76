-- ===== src/Settings/Apply.antt =====
-- pomerium/config.go: ApplyConfig, and the functions of it that call libraries.
use ingress_controller.Annotations.Secrets.{merge_maps}
use ingress_controller.Certs.{domain_key_eq}
use ingress_controller.Crd.{
  Config, Dns, DownstreamMtls, IdentityProvider, MatchSubjectAltNames, Storage,
}
use ingress_controller.Externals.{route_id_eq}
use ingress_controller.Gateway.RefKey.{ref_key_eq}
use ingress_controller.IngressConfig.Names.{ca_key}
use ingress_controller.Prelude.{
  Bool, List, Option, Result, String, [], err, false, guard, if◌then◌else◌, is_empty, is_there,
  map_option, nat_eq, none, ok, some, string_eq, wrap, ℕ, ◌++◌, ◌==◌, ◌>>=◌, ◌>>◌, ◌||◌, ◌∷◌,
}
use ingress_controller.Prelude.Map.{Map, get_text, has_key, lookup}
use ingress_controller.Prelude.Text.{char_eq, to_lower, ◌<>◌}
use ingress_controller.Settings.{
  DnsSettings, EnforcementMode, FieldMsg, MtlsSettings, SanType, Settings, SettingsError,
  SettingsTools, at_option, bad_sampling, bad_url, duplicate_param, idp_secret_required,
  key_required, new_settings, no_persistent_storage, policy_only, policy_with_default_deny,
  reject_connection, sampling_out_of_range, san_dns, san_email, san_ip_address, san_uri,
  san_user_principal_name, service_account_removed,
}
use ingress_controller.Settings.Groups.{
  apply_certs, apply_circuit_breaker_thresholds, apply_cookie, apply_jwt_claim_headers,
  apply_request_normalization_options, apply_set_other_options, apply_ssh, apply_timeouts,
  map_to_kv_slice, set_if_given,
}
use ingress_controller.Types.{Secret, key_eq, namespaced_name_eq, secret_type_eq}

-- What a function leaves: its result, and the messages that it adds to the collector (util/bin.go).
abbrev pub Outcome : Type 0
Outcome = Result SettingsError Settings × List FieldMsg

abbrev silent : (Config → Settings → Result SettingsError Settings) → Config → Settings → Outcome
silent f c s = (f c s, [])

-- checkForWarnings
abbrev has_storage : Option Storage → Bool
has_storage none = false
has_storage (some storage) = is_there storage.file || is_there storage.postgres

unfoldable pub check_for_warnings : Config → Settings → Outcome
check_for_warnings c s =
    (ok s, if has_storage c.spec.storage then [] else no_persistent_storage ∷ [])

-- applyDNS
abbrev dns_of : (String → String) → Dns → DnsSettings
dns_of to_upper dns = record {
  lookup_family = map_option to_upper dns.lookup_family;
  failure_refresh_rate = dns.failure_refresh_rate;
  query_timeout = dns.query_timeout;
  query_tries = dns.query_tries;
  refresh_rate = dns.refresh_rate;
  udp_max_queries = dns.udp_max_queries;
  use_tcp = dns.use_tcp;
}

-- getRequiredString
unfoldable pub get_required_string : Map String String → String → Result SettingsError String
get_required_string contents key = elim (lookup key contents) [
  | none ↦ err (key_required key)
  | some text ↦ if text == "" then err (key_required key) else ok text
]

-- applyIDP
abbrev provider_settings : IdentityProvider → Settings → Settings
provider_settings idp s = record s {
  idp = record s.idp { provider = some idp.provider; scopes = idp.scopes };
}

unfoldable pub apply_idp : IdentityProvider → Config → Settings → Result SettingsError Settings
apply_idp idp c s = ok (provider_settings idp s)

-- applyIDPSecret
unfoldable pub apply_idp_secret : Config → Settings → Outcome
unfolding get_required_string
apply_idp_secret c s = elim c.idp_secret [
  | none ↦ (err idp_secret_required, [])
  | some secret ↦ elim (get_required_string secret.contents "client_id") [
    | err e ↦ (err e, [])
    | ok client_id ↦ elim (get_required_string secret.contents "client_secret") [
      | err e ↦ (err e, [])
      | ok client_secret ↦ (
        ok (record s {
          idp = record s.idp { client_id = some client_id; client_secret = some client_secret };
        }),
        if has_key "service_account" secret.contents then service_account_removed ∷ [] else [],
      )
    ]
  ]
]

-- applyIDPRequestParams
unfoldable pub apply_idp_request_params :
    IdentityProvider → Config → Settings → Result SettingsError Settings
apply_idp_request_params idp c s = elim c.request_params [
  | none ↦ ok (record s { idp = record s.idp { request_params = idp.request_params } })
  | some secret ↦ do
    params ← wrap duplicate_param (merge_maps idp.request_params secret.contents)
    ok (record s { idp = record s.idp { request_params = params } })
]

-- The enforcement of applyDownstreamMTLS; an unknown text leaves it unset.
abbrev enforcement_of : String → Option EnforcementMode
enforcement_of t =
    if t == "policy_with_default_deny"
    then some policy_with_default_deny
    else if t == "policy"
    then some policy_only
    else if t == "reject_connection"
    then some reject_connection
    else none

abbrev san_patterns : MatchSubjectAltNames → List (SanType × String)
san_patterns m =
    (san_email, m.email)
    ∷ (san_dns, m.dns)
    ∷ (san_uri, m.uri)
    ∷ (san_ip_address, m.ip_address)
    ∷ (san_user_principal_name, m.user_principal_name)
    ∷ []

abbrev set_patterns : List (SanType × String) → List (SanType × String)
set_patterns [] = []
set_patterns ((t, pattern_text) ∷ rest) =
    let kept = set_patterns rest in if pattern_text == "" then kept else (t, pattern_text) ∷ kept

abbrev text_if_any : (String → String) → String → Option String
text_if_any f t = if t == "" then none else some (f t)

-- applyOption
pub record ApplyOpt : Type 0 where
  pub name : String
  pub fn : Config → Settings → Outcome

-- What follows an option in the loop of ApplyConfig
abbrev pub after_opt : String → Outcome → (Settings → Outcome) → Outcome
after_opt name (err e, messages) next = (err (at_option name e), messages)
after_opt name (ok s, messages) next = let rest = next s in (rest.0, messages ++ rest.1)

-- The loop of ApplyConfig
unfoldable pub apply_opts : List ApplyOpt → Config → Settings → Outcome
apply_opts [] c s = (ok s, [])
apply_opts (o ∷ os) c s = after_opt o.name (o.fn c s) (apply_opts os c)

abbrev pub or_new : Option Settings → Settings
or_new none = new_settings
or_new (some s) = s

module _ (x : SettingsTools) where
  abbrev check_url : String → Result SettingsError (Unit {0})
  check_url u = guard (x.is_url u) (bad_url u)

  -- applyCertificateAuthority
  abbrev ca_bytes : List Secret → String
  ca_bytes [] = ""
  ca_bytes (secret ∷ secrets) = get_text ca_key secret.contents <> "\n" <> ca_bytes secrets

  unfoldable pub apply_certificate_authority : Config → Settings → Result SettingsError Settings
  apply_certificate_authority c s =
      if is_empty c.ca_secrets
      then ok s
      else ok (record s { certificate_authority = some (x.encode_base64 (ca_bytes c.ca_secrets)) })

  -- applyAuthenticate
  unfoldable pub apply_authenticate : Config → Settings → Result SettingsError Settings
  apply_authenticate c s = elim c.spec.authenticate [
    | none ↦ ok s
    | some authenticate ↦ do
      check_url authenticate.url
      ok (record s { authenticate_service_url = some authenticate.url })
  ]

  -- The sampling of applyOTEL
  abbrev sampling_of : Option String → Result SettingsError (Option ℕ)
  sampling_of none = ok none
  sampling_of (some text) = elim (x.parse_float text) [
    | none ↦ err (bad_sampling text)
    | some v ↦
        if x.is_below_zero v || x.is_above_one v
        then err (sampling_out_of_range text)
        else ok (some v)
  ]

  -- applyOTEL
  unfoldable pub apply_otel : Config → Settings → Result SettingsError Settings
  unfolding map_to_kv_slice
  apply_otel c s = elim c.spec.otel [
    | none ↦ ok s
    | some otel ↦ do
      check_url otel.endpoint
      sampling ← sampling_of otel.sampling
      ok (record s {
        otel = record {
          traces_exporter = some "otlp";
          traces_endpoint = some otel.endpoint;
          traces_sampler_arg = sampling;
          resource_attributes = map_to_kv_slice otel.resource_attributes;
          log_level = otel.log_level;
          traces_protocol = some otel.protocol;
          traces_headers = map_to_kv_slice otel.headers;
          traces_timeout = set_if_given otel.timeout s.otel.traces_timeout;
          bsp_schedule_delay = set_if_given otel.bsp_schedule_delay s.otel.bsp_schedule_delay;
          bsp_max_export_batch_size =
              set_if_given otel.bsp_max_export_batch_size s.otel.bsp_max_export_batch_size;
        };
      })
  ]

  -- applyDownstreamMTLS
  abbrev mtls_of : DownstreamMtls → MtlsSettings
  mtls_of mtls = record {
    ca = text_if_any x.encode_base64 mtls.ca;
    crl = text_if_any x.encode_base64 mtls.crl;
    enforcement = elim mtls.enforcement [ none ↦ none | some t ↦ enforcement_of (to_lower t) ];
    match_subject_alt_names = elim mtls.match_subject_alt_names [
      | none ↦ []
      | some m ↦ set_patterns (x.range_order (san_patterns m))
    ];
    max_verify_depth = mtls.max_verify_depth;
  }

  unfoldable pub apply_downstream_mtls : Config → Settings → Result SettingsError Settings
  apply_downstream_mtls c s =
      ok (record s { downstream_mtls = map_option mtls_of c.spec.downstream_mtls })

  -- applyDNS
  abbrev no_dns : DnsSettings
  no_dns = new_settings.dns

  unfoldable pub apply_dns : Config → Settings → Result SettingsError Settings
  apply_dns c s = elim c.spec.dns [
    | none ↦ ok (record s { dns = no_dns })
    | some dns ↦ ok (record s { dns = dns_of x.to_upper dns })
  ]

  -- applyIDPProviderURL
  unfoldable pub apply_idp_provider_url :
      IdentityProvider → Config → Settings → Result SettingsError Settings
  apply_idp_provider_url idp c s = elim idp.url [
    | none ↦ ok s
    | some u ↦ do check_url u; ok (record s { idp = record s.idp { provider_url = some u } })
  ]

  abbrev opt : String → (Config → Settings → Result SettingsError Settings) → ApplyOpt
  opt name fn = record { name = name; fn = silent fn }

  -- The options of ApplyConfig that are always applied
  unfoldable pub base_opts : List ApplyOpt
  unfolding apply_certificate_authority apply_certs apply_authenticate apply_cookie
      check_for_warnings apply_jwt_claim_headers apply_timeouts apply_set_other_options apply_otel
      apply_downstream_mtls apply_circuit_breaker_thresholds apply_dns apply_ssh
      apply_request_normalization_options
  base_opts =
      opt "ca" apply_certificate_authority
      ∷ opt "certs" apply_certs
      ∷ opt "authenticate" apply_authenticate
      ∷ opt "cookie" apply_cookie
      ∷ record { name = "warnings"; fn = check_for_warnings }
      ∷ opt "jwt claim headers" apply_jwt_claim_headers
      ∷ opt "timeouts" apply_timeouts
      ∷ opt "misc opts" apply_set_other_options
      ∷ opt "otel" apply_otel
      ∷ opt "downstream mtls" apply_downstream_mtls
      ∷ opt "circuit breaker thresholds" apply_circuit_breaker_thresholds
      ∷ opt "dns" apply_dns
      ∷ opt "ssh" apply_ssh
      ∷ opt "request normalization" apply_request_normalization_options
      ∷ []

  -- Those for an identity provider
  abbrev pub idp_secret_opts : IdentityProvider → List ApplyOpt
  idp_secret_opts idp =
      if idp.provider == x.hosted_name
      then []
      else record { name = "idp secret"; fn = apply_idp_secret } ∷ []

  unfoldable pub provider_opts : IdentityProvider → List ApplyOpt
  unfolding apply_idp apply_idp_provider_url apply_idp_request_params
  provider_opts idp =
      opt "idp" (apply_idp idp)
      ∷ opt "idp url" (apply_idp_provider_url idp)
      ∷ opt "idp request params" (apply_idp_request_params idp)
      ∷ []

  unfoldable pub idp_opts : Option IdentityProvider → List ApplyOpt
  unfolding provider_opts apply_idp_secret
  idp_opts none = []
  idp_opts (some idp) = provider_opts idp ++ idp_secret_opts idp

  -- ApplyConfig, on the settings of the configuration, where the source is not nil
  unfoldable pub apply_config : Config → Option Settings → Outcome
  unfolding base_opts idp_opts apply_opts
  apply_config c s = apply_opts (base_opts ++ idp_opts c.spec.identity_provider) c (or_new s)
