-- ===== src/Settings/Accepted.antt =====
-- Which settings ApplyConfig accepts.
use ingress_controller.Certs.{domain_key_eq}
use ingress_controller.Crd.{Config, IdentityProvider}
use ingress_controller.Externals.{route_id_eq}
use ingress_controller.Gateway.RefKey.{ref_key_eq}
use ingress_controller.Prelude.{
  Bool, List, Option, Pairwise, String, [], all, arith, err, false, is_ok, nat_eq, none, not, ok,
  refl, some, string_eq, true, ◌&&◌, ◌++◌, ◌==◌, ◌||◌, ◌∙◌, ◌∷◌, ◌≡◌,
}
use ingress_controller.Prelude.Map.{has_key}
use ingress_controller.Prelude.Text.{char_eq}
use ingress_controller.Settings.{Settings, SettingsTools}
use ingress_controller.Settings.Apply.{
  ApplyOpt, Outcome, after_opt, apply_authenticate, apply_certificate_authority, apply_config,
  apply_dns, apply_downstream_mtls, apply_idp, apply_idp_provider_url, apply_idp_secret, apply_opts,
  apply_otel, base_opts, check_for_warnings, idp_opts, idp_secret_opts, or_new, provider_opts,
}
use ingress_controller.Settings.Groups.{
  apply_certs, apply_circuit_breaker_thresholds, apply_jwt_claim_headers,
}
use ingress_controller.Settings.Outcomes.{
  all_of, are_ordered, are_tls, has_credentials, has_known_actions, has_known_formats, has_ssh_keys,
  is_ok-add_certs_of, is_ok-apply_cookie, is_ok-apply_idp_request_params, is_ok-apply_idp_secret,
  is_ok-apply_request_normalization_options, is_ok-apply_set_other_options, is_ok-apply_ssh,
  is_ok-apply_timeouts,
}
use ingress_controller.Types.{Secret, key_eq, namespaced_name_eq, secret_type_eq}

module _ (x : SettingsTools) where
  abbrev is_sampling : String → Bool
  is_sampling text = elim (x.parse_float text) [
    | none ↦ false
    | some v ↦ not (x.is_below_zero v) && not (x.is_above_one v)
  ]

  abbrev is_provider : Option Secret → Option Secret → IdentityProvider → Bool
  is_provider params secret idp =
      all_of x.is_url idp.url
      && all_of (λ s. all (λ (key, v). not (has_key key idp.request_params)) s.contents) params
      && (idp.provider == x.hosted_name || has_credentials secret)

  -- What ApplyConfig asks of the settings.
  abbrev pub is_accepted : Config → Bool
  is_accepted c =
      are_tls c.certs
      && all_of (λ a. x.is_url a.url) c.spec.authenticate
      && all_of are_ordered c.spec.timeouts
      && has_known_formats c.spec
      && all_of (λ o. x.is_url o.endpoint && all_of is_sampling o.sampling) c.spec.otel
      && has_ssh_keys c.ssh_secrets
      && has_known_actions c.spec
      && all_of (is_provider c.request_params c.idp_secret) c.spec.identity_provider

conjuncts_assoc :
    (a b c d e f g k : Bool)
    → ((a && (b && (c && (d && (e && (f && (g && true))))))) && k)
      ≡ (a && b && c && d && e && f && g && k)
conjuncts_assoc a b c d e f g k = ground arith

-- The loop succeeds exactly if each option does, whatever the settings before it.
abbrev Tests : Config → ApplyOpt → Bool → Type 0
Tests c o b = (s : Settings) → is_ok (o.fn c s).0 ≡ b

is_ok-after_opt :
    (name : String) (out : Outcome) (next : Settings → Outcome) (b : Bool)
    → ((s : Settings) → is_ok (next s).0 ≡ b)
    → is_ok (after_opt name out next).0 ≡ (is_ok out.0 && b)
is_ok-after_opt name (err e, messages) next b h = refl
is_ok-after_opt name (ok s, messages) next b h = h s

is_ok-apply_opts :
    (c : Config) (os : List ApplyOpt) (bs : List Bool) (later : List ApplyOpt) (b : Bool)
    (s : Settings)
    → Pairwise (Tests c) os bs
    → ((next : Settings) → is_ok (apply_opts later c next).0 ≡ b)
    → is_ok (apply_opts (os ++ later) c s).0 ≡ (all (λ t. t) bs && b)
unfolding apply_opts
is_ok-apply_opts c [] [] later b s h l = l s
is_ok-apply_opts c [] (t ∷ bs) later b s h l = elim h [ ]
is_ok-apply_opts c (o ∷ os) [] later b s h l = elim h [ ]
is_ok-apply_opts c (o ∷ os) (t ∷ bs) later b s h l = ground (
  arith,
  is_ok-after_opt o.name (o.fn c s) (apply_opts (os ++ later) c) (all (λ t. t) bs && b)
      (λ next. is_ok-apply_opts c os bs later b next h.1 l),
  h.0 s,
)

module _ (x : SettingsTools) where
  is_ok-apply_certificate_authority :
      (c : Config) (s : Settings) → is_ok (apply_certificate_authority x c s) ≡ true
  unfolding apply_certificate_authority
  is_ok-apply_certificate_authority c s = ground arith

  is_ok-apply_authenticate :
      (c : Config) (s : Settings)
      → is_ok (apply_authenticate x c s) ≡ all_of (λ a. x.is_url a.url) c.spec.authenticate
  unfolding apply_authenticate
  is_ok-apply_authenticate c s = ground arith

  is_ok-apply_otel :
      (c : Config) (s : Settings)
      → is_ok (apply_otel x c s)
        ≡ all_of (λ o. x.is_url o.endpoint && all_of (is_sampling x) o.sampling) c.spec.otel
  unfolding apply_otel
  is_ok-apply_otel c s = ground arith

  is_ok-apply_dns : (c : Config) (s : Settings) → is_ok (apply_dns x c s) ≡ true
  unfolding apply_dns
  is_ok-apply_dns c s = ground arith

  is_ok-apply_idp_provider_url :
      (idp : IdentityProvider) (c : Config) (s : Settings)
      → is_ok (apply_idp_provider_url x idp c s) ≡ all_of x.is_url idp.url
  unfolding apply_idp_provider_url
  is_ok-apply_idp_provider_url idp c s = ground arith

  is_ok-idp_secret_opts :
      (idp : IdentityProvider) (c : Config) (s : Settings)
      → is_ok (apply_opts (idp_secret_opts x idp) c s).0
        ≡ (idp.provider == x.hosted_name || has_credentials c.idp_secret)
  unfolding apply_opts
  is_ok-idp_secret_opts idp c s = ground (
    arith,
    is_ok-after_opt "idp secret" (apply_idp_secret c s) (apply_opts [] c) true (λ n. refl),
    is_ok-apply_idp_secret c s,
  )

  is_ok-idp_opts :
      (idp : Option IdentityProvider) (c : Config) (s : Settings)
      → is_ok (apply_opts (idp_opts x idp) c s).0
        ≡ all_of (is_provider x c.request_params c.idp_secret) idp
  unfolding idp_opts provider_opts apply_opts apply_idp
  is_ok-idp_opts none c s = refl
  is_ok-idp_opts (some idp) c s =
      is_ok-apply_opts c (provider_opts x idp)
        (true
          ∷ all_of x.is_url idp.url
          ∷ all_of
              (λ secret. all (λ (key, v). not (has_key key idp.request_params)) secret.contents)
              c.request_params
          ∷ [])
        (idp_secret_opts x idp) (idp.provider == x.hosted_name || has_credentials c.idp_secret) s
        (
          λ next. refl,
          (is_ok-apply_idp_provider_url idp c, (is_ok-apply_idp_request_params idp c, tt)),
        )
        (is_ok-idp_secret_opts idp c)
      ∙ ground arith

  -- ApplyConfig succeeds exactly if the certificates are TLS secrets, the URLs of the authenticate
  -- service, of the traces and of the identity provider parse, a read timeout is below a write
  -- timeout, the codec, the token format and the actions of the request normalization are known
  -- values, a sampling parses and is neither below 0 nor above 1 (which NaN is not), each SSH key
  -- is there, and an identity provider has no request parameter twice and has its credentials
  -- unless it is the hosted one. It asks nothing else: every enforcement of downstream mTLS
  -- passes.
  pub is_ok-apply_config :
      (c : Config) (s : Option Settings) → is_ok (apply_config x c s).0 ≡ is_accepted x c
  unfolding apply_config base_opts apply_certs check_for_warnings apply_jwt_claim_headers
      apply_downstream_mtls apply_circuit_breaker_thresholds
  is_ok-apply_config c s =
      is_ok-apply_opts c (base_opts x)
        (true
          ∷ are_tls c.certs
          ∷ all_of (λ a. x.is_url a.url) c.spec.authenticate
          ∷ true
          ∷ true
          ∷ true
          ∷ all_of are_ordered c.spec.timeouts
          ∷ has_known_formats c.spec
          ∷ all_of (λ o. x.is_url o.endpoint && all_of (is_sampling x) o.sampling) c.spec.otel
          ∷ true
          ∷ true
          ∷ true
          ∷ has_ssh_keys c.ssh_secrets
          ∷ has_known_actions c.spec
          ∷ [])
        (idp_opts x c.spec.identity_provider)
        (all_of (is_provider x c.request_params c.idp_secret) c.spec.identity_provider) (or_new s)
        (
          is_ok-apply_certificate_authority c,
          (
            is_ok-add_certs_of c.certs,
            (
              is_ok-apply_authenticate c,
              (
                is_ok-apply_cookie c,
                (
                  (λ n. refl),
                  (
                    (λ n. refl),
                    (
                      is_ok-apply_timeouts c,
                      (
                        is_ok-apply_set_other_options c,
                        (
                          is_ok-apply_otel c,
                          (
                            (λ n. refl),
                            (
                              (λ n. refl),
                              (
                                is_ok-apply_dns c,
                                (
                                  is_ok-apply_ssh c,
                                  (is_ok-apply_request_normalization_options c, tt),
                                ),
                              ),
                            ),
                          ),
                        ),
                      ),
                    ),
                  ),
                ),
              ),
            ),
          ),
        )
        (is_ok-idp_opts c.spec.identity_provider c)
      ∙ conjuncts_assoc (are_tls c.certs) (all_of (λ a. x.is_url a.url) c.spec.authenticate)
          (all_of are_ordered c.spec.timeouts) (has_known_formats c.spec)
          (all_of (λ o. x.is_url o.endpoint && all_of (is_sampling x) o.sampling) c.spec.otel)
          (has_ssh_keys c.ssh_secrets) (has_known_actions c.spec)
          (all_of (is_provider x c.request_params c.idp_secret) c.spec.identity_provider)
