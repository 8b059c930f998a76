-- ===== src/Settings/Outcomes.antt =====
-- When the functions of pomerium/config.go that ApplyConfig runs succeed.
use ingress_controller.Annotations.Secrets.Headers.{is_ok-merge_maps}
use ingress_controller.Certs.{domain_key_eq}
use ingress_controller.Crd.{Config, IdentityProvider, PomeriumSpec, Timeouts, lt_int}
use ingress_controller.Externals.{route_id_eq}
use ingress_controller.Gateway.RefKey.{ref_key_eq}
use ingress_controller.IngressConfig.{SshSecrets}
use ingress_controller.IngressConfig.Names.{ssh_private_key}
use ingress_controller.Prelude.{
  Bool, List, Option, Option-cases, Result, String, [], all, any, arith, err, false, inl, inr,
  is_ok, is_there, nat_eq, none, not, ok, refl, some, string_eq, true, ◌&&◌, ◌==◌, ◌>>=◌, ◌∷◌, ◌≡◌,
}
use ingress_controller.Prelude.Map.{Map, has_key, lookup}
use ingress_controller.Prelude.Text.{char_eq}
use ingress_controller.Settings.{
  BearerTokenFormat, CodecType, EscapedSlashesAction, Settings, SettingsError, UnderscoresAction,
  unknown_bearer_token_format, unknown_codec_type, unknown_headers_action, unknown_path_action,
}
use ingress_controller.Settings.Apply.{
  apply_idp_request_params, apply_idp_secret, get_required_string,
}
use ingress_controller.Settings.Groups.{
  add_certs_of, add_tls_cert, apply_cookie, apply_request_normalization_options,
  apply_set_other_options, apply_ssh, apply_timeouts, bearer_token_format_of, codec_type_of,
  escaped_slashes_action_of, host_key_texts, host_keys_of, switch, underscores_action_of,
  user_ca_key_of,
}
use ingress_controller.Types.{
  NamespacedName, Secret, key_eq, namespaced_name_eq, secret_type_eq, tls,
}

abbrev pub all_of : {A : Type 0} → (A → Bool) → Option A → Bool
all_of p none = true
all_of p (some a) = p a

abbrev pub are_tls : Map NamespacedName Secret → Bool
are_tls certs = all (λ (_, secret). secret.secret_type == tls) certs

abbrev pub has_private_key : Secret → Bool
has_private_key secret = has_key ssh_private_key secret.contents

abbrev pub has_text : String → Secret → Bool
has_text key secret =
    all_of (λ t. not (t == "")) (lookup key secret.contents) && has_key key secret.contents

abbrev pub has_credentials : Option Secret → Bool
has_credentials none = false
has_credentials (some secret) = has_text "client_id" secret && has_text "client_secret" secret

-- The values that the fields know
abbrev codec_types : List String
codec_types = "auto" ∷ "http1" ∷ "http2" ∷ "http3" ∷ []

abbrev token_formats : List String
token_formats = "" ∷ "default" ∷ "idp_access_token" ∷ "idp_identity_token" ∷ []

abbrev slashes_actions : List String
slashes_actions =
    "keep_unchanged" ∷ "reject_request" ∷ "unescape_and_redirect" ∷ "unescape_and_forward" ∷ []

abbrev underscores_actions : List String
underscores_actions = "allow" ∷ "reject_request" ∷ "drop_header" ∷ []

abbrev is_among : List String → Option String → Bool
is_among known = all_of (λ t. any (λ v. t == v) known)

abbrev pub has_known_formats : PomeriumSpec → Bool
has_known_formats spec =
    is_among codec_types spec.codec_type && is_among token_formats spec.bearer_token_format

-- A read timeout and a write timeout, where both are given, the first below the second
abbrev pub are_ordered : Timeouts → Bool
are_ordered timeouts = all_of (λ r. all_of (λ w. lt_int r w) timeouts.write) timeouts.read

abbrev pub has_ssh_keys : SshSecrets → Bool
has_ssh_keys ssh = all has_private_key ssh.host_keys && all_of has_private_key ssh.user_ca_key

abbrev pub has_known_actions : PomeriumSpec → Bool
has_known_actions spec =
    is_among slashes_actions spec.path_with_escaped_slashes_action
    && is_among underscores_actions spec.headers_with_underscores_action

is_ok-switch :
    {A : Type 0} (of : String → Option A) (e : String → SettingsError) (known : List String)
    → ((u : String) → is_there (of u) ≡ any (λ v. u == v) known)
    → (old : Option A) (t : Option String) → is_ok (switch of e old t) ≡ is_among known t
is_ok-switch of e known h old none = refl
is_ok-switch of e known h old (some t) = ground (arith, h t)

pub is_ok->>= :
    {E A B : Type 0} (m : Result E A) (f : A → Result E B) (b : Bool)
    → ((a : A) → is_ok (f a) ≡ b)
    → is_ok (m >>= f) ≡ (is_ok m && b)
is_ok->>= (ok a) f b h = h a
is_ok->>= (err e) f b h = refl

pub is_ok-add_certs_of :
    (certs : Map NamespacedName Secret) (s : Settings)
    → is_ok (add_certs_of certs s) ≡ are_tls certs
unfolding add_certs_of
is_ok-add_certs_of [] s = refl
is_ok-add_certs_of ((n, secret) ∷ certs) s =
    ground (arith, is_ok-add_certs_of certs (add_tls_cert s secret))

pub is_ok-host_key_texts :
    (secrets : List Secret) → is_ok (host_key_texts secrets) ≡ all has_private_key secrets
unfolding has_key
is_ok-host_key_texts [] = refl
is_ok-host_key_texts (secret ∷ secrets) = ground (arith, is_ok-host_key_texts secrets)

pub is_ok-host_keys_of :
    (secrets : List Secret) → is_ok (host_keys_of secrets) ≡ all has_private_key secrets
is_ok-host_keys_of [] = refl
is_ok-host_keys_of (secret ∷ secrets) = ground (arith, is_ok-host_key_texts (secret ∷ secrets))

pub is_ok-user_ca_key_of :
    (secret : Option Secret) → is_ok (user_ca_key_of secret) ≡ all_of has_private_key secret
unfolding has_key
is_ok-user_ca_key_of none = refl
is_ok-user_ca_key_of (some secret) = ground arith

pub is_ok-apply_timeouts :
    (c : Config) (s : Settings) → is_ok (apply_timeouts c s) ≡ all_of are_ordered c.spec.timeouts
unfolding apply_timeouts
is_ok-apply_timeouts c s = ground arith

pub is_ok-apply_ssh :
    (c : Config) (s : Settings) → is_ok (apply_ssh c s) ≡ has_ssh_keys c.ssh_secrets
unfolding apply_ssh
is_ok-apply_ssh c s = ground (
  arith,
  is_ok-host_keys_of c.ssh_secrets.host_keys,
  is_ok-user_ca_key_of c.ssh_secrets.user_ca_key,
)

is_ok-codec_type :
    (old : Option CodecType) (t : Option String)
    → is_ok (switch codec_type_of unknown_codec_type old t) ≡ is_among codec_types t
unfolding codec_type_of
is_ok-codec_type = is_ok-switch codec_type_of unknown_codec_type codec_types (λ u. ground arith)

is_ok-bearer_token_format :
    (old : Option BearerTokenFormat) (t : Option String)
    → is_ok (switch bearer_token_format_of unknown_bearer_token_format old t)
      ≡ is_among token_formats t
unfolding bearer_token_format_of
is_ok-bearer_token_format =
    is_ok-switch bearer_token_format_of unknown_bearer_token_format token_formats
      (λ u. ground arith)

is_ok-escaped_slashes_action :
    (old : Option EscapedSlashesAction) (t : Option String)
    → is_ok (switch escaped_slashes_action_of unknown_path_action old t)
      ≡ is_among slashes_actions t
unfolding escaped_slashes_action_of
is_ok-escaped_slashes_action =
    is_ok-switch escaped_slashes_action_of unknown_path_action slashes_actions (λ u. ground arith)

is_ok-underscores_action :
    (old : Option UnderscoresAction) (t : Option String)
    → is_ok (switch underscores_action_of unknown_headers_action old t)
      ≡ is_among underscores_actions t
unfolding underscores_action_of
is_ok-underscores_action =
    is_ok-switch underscores_action_of unknown_headers_action underscores_actions
      (λ u. ground arith)

pub is_ok-apply_set_other_options :
    (c : Config) (s : Settings) → is_ok (apply_set_other_options c s) ≡ has_known_formats c.spec
unfolding apply_set_other_options
is_ok-apply_set_other_options c s = ground (
  arith,
  is_ok-codec_type s.others.codec_type c.spec.codec_type,
  is_ok-bearer_token_format none c.spec.bearer_token_format,
)

pub is_ok-apply_request_normalization_options :
    (c : Config) (s : Settings)
    → is_ok (apply_request_normalization_options c s) ≡ has_known_actions c.spec
unfolding apply_request_normalization_options
is_ok-apply_request_normalization_options c s = ground (
  arith,
  is_ok-escaped_slashes_action s.normalization.path_with_escaped_slashes_action
      c.spec.path_with_escaped_slashes_action,
  is_ok-underscores_action s.normalization.headers_with_underscores_action
      c.spec.headers_with_underscores_action,
)

pub is_ok-get_required_string :
    (contents : Map String String) (key : String)
    → is_ok (get_required_string contents key)
      ≡ (all_of (λ t. not (t == "")) (lookup key contents) && has_key key contents)
unfolding get_required_string has_key
is_ok-get_required_string contents key = ground arith

pub is_ok-apply_idp_secret :
    (c : Config) (s : Settings) → is_ok (apply_idp_secret c s).0 ≡ has_credentials c.idp_secret
unfolding apply_idp_secret
is_ok-apply_idp_secret c s = elim (Option-cases c.idp_secret) [
  | inl missing ↦ ground (arith, missing)
  | inr (secret, found) ↦ ground (
    arith,
    found,
    is_ok-get_required_string secret.contents "client_id",
    is_ok-get_required_string secret.contents "client_secret",
  )
]

pub is_ok-apply_idp_request_params :
    (idp : IdentityProvider) (c : Config) (s : Settings)
    → is_ok (apply_idp_request_params idp c s)
      ≡ all_of
          (λ secret. all (λ (key, v). not (has_key key idp.request_params)) secret.contents)
          c.request_params
unfolding apply_idp_request_params
is_ok-apply_idp_request_params idp c s = elim (Option-cases c.request_params) [
  | inl missing ↦ ground (arith, missing)
  | inr (secret, found) ↦ ground (arith, found, is_ok-merge_maps idp.request_params secret.contents)
]

pub is_ok-apply_cookie : (c : Config) (s : Settings) → is_ok (apply_cookie c s) ≡ true
unfolding apply_cookie
is_ok-apply_cookie c s = ground arith
