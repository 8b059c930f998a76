-- ===== src/Databroker/Covered.antt =====
-- The certificates that a stored configuration keeps for its hosts.
use ingress_controller.Certs.{
  CertTools, Certificate, authenticate_domain, bad_authenticate_url, bad_from, domain_key_eq,
  get_all_domains, host_of, remove_unused_certs, route_domains,
}
use ingress_controller.Certs.Kept.{remove_unused_certs-any, remove_unused_certs-hosts}
use ingress_controller.Certs.Marks.{covers_host}
use ingress_controller.Databroker.{
  Checks, Client, Configuration, Reconciler, add_certs, add_tls_certs, cannot_convert,
  cannot_remove_certs, drop_certs_if, drop_certs_of, drop_unused_certs, ensure_config_order,
  get_config, is_invalid, prepare, sort_certificates,
}
use ingress_controller.Databroker.Ingresses.{upsert, upsert_next}
use ingress_controller.Databroker.Saving.{Laws, drop_certs_if-routes, reconcile-ok}
use ingress_controller.Externals.{Externals, route_id_eq}
use ingress_controller.Gateway.RefKey.{ref_key_eq}
use ingress_controller.IngressConfig.{IngressConfig}
use ingress_controller.Prelude.{
  >>=-eq-ok, Bool, List, Option, String, [], any, ap, arith, false, map, map_option, nat_eq, none,
  ok, ok_injective, refl, some, string_eq, sym, true, wrap, wrap-eq-ok, ◌&&◌, ◌++◌, ◌==◌, ◌||◌, ◌∙◌,
  ◌∷◌, ◌≡◌,
}
use ingress_controller.Prelude.Map.{Map, get_text}
use ingress_controller.Prelude.Set.{contains, contains-add}
use ingress_controller.Prelude.Sort.{any-sort, str_lt}
use ingress_controller.Prelude.Text.{char_eq, ◌<>◌}
use ingress_controller.Route.{Route}
use ingress_controller.RouteList.{upsert_routes}
use ingress_controller.Settings.{Settings, new_settings}
use ingress_controller.Settings.Apply.{or_new}
use ingress_controller.Settings.Groups.{add_tls_cert}
use ingress_controller.Types.{
  NamespacedName, Secret, key_eq, namespaced_name_eq, secret_type_eq, tls,
}

abbrev settings_certificates : Option Settings → List Certificate
settings_certificates none = []
settings_certificates (some s) = s.certificates

abbrev pub certificates_of : {R : Type 0} → Configuration R → List Certificate
certificates_of cfg = settings_certificates cfg.settings

abbrev is_host : Option String → String → Bool
is_host none d = false
is_host (some h) d = h == d

-- One of the routes has an address on the host.
abbrev pub has_host : {R : Type 0} → Checks R → String → List R → Bool
has_host x d routes = any (λ r. is_host (x.certificates.hostname (x.address r)) d) routes

contains-route_domains :
    {R : Type 0} (x : Checks R) (d : String) (routes : List R) (hosts : List String)
    → route_domains x.certificates (map x.address routes) ≡ ok hosts
    → contains d hosts ≡ has_host x d routes
unfolding route_domains contains
contains-route_domains x d [] hosts h = ap (contains d) (sym (ok_injective h))
contains-route_domains x d (r ∷ routes) hosts h =
    let (host, parsed, h1) = >>=-eq-ok (host_of x.certificates bad_from (x.address r)) _ h in
    let (hs, later, h2) = >>=-eq-ok (route_domains x.certificates (map x.address routes)) _ h1 in
    ap (contains d) (sym (ok_injective h2))
    ∙ contains-add host d hs
    ∙ ground (arith, contains-route_domains x d routes hs later, parsed)

contains-authenticate_domain :
    (x : CertTools) (d : String) (url : Option String) (hs hosts : List String)
    → authenticate_domain x url hs ≡ ok hosts
    → contains d hs ≡ true
    → contains d hosts ≡ true
contains-authenticate_domain x d none hs hosts h m = ap (contains d) (sym (ok_injective h)) ∙ m
contains-authenticate_domain x d (some u) hs hosts h m =
    let (host, parsed, added) = >>=-eq-ok (host_of x bad_authenticate_url u) _ h in
    ap (contains d) (sym (ok_injective added)) ∙ contains-add host d hs ∙ ground (arith, m)

contains-get_all_domains :
    {R : Type 0} (x : Checks R) (d : String) (url : Option String) (routes : List R)
    (hosts : List String)
    → get_all_domains x.certificates (map x.address routes) url ≡ ok hosts
    → has_host x d routes ≡ true
    → contains d hosts ≡ true
unfolding get_all_domains
contains-get_all_domains x d url routes hosts h m =
    let (hs, parsed, h1) = >>=-eq-ok (route_domains x.certificates (map x.address routes)) _ h in
    let among = contains-route_domains x d routes hs parsed ∙ m in
    contains-authenticate_domain x.certificates d url hs hosts h1 among

module _ {R : Type 0} (x : Checks R) where
  drop_certs_of-covered :
      (next kept : Configuration R) (o : Option Settings) (d : String)
      → drop_certs_of x next o ≡ ok kept
      → has_host x d next.routes ≡ true
      → next.settings ≡ o
      → any (covers_host x.certificates d) (certificates_of kept)
        ≡ any (covers_host x.certificates d) (settings_certificates o)
  drop_certs_of-covered next kept none d h m q =
      ap (λ c. any (covers_host x.certificates d) (certificates_of c)) (sym (ok_injective h))
      ∙ ap (λ o. any (covers_host x.certificates d) (settings_certificates o)) q
  drop_certs_of-covered next kept (some s) d h m q =
      let (certs, removed, built) =
        >>=-eq-ok
          (remove_unused_certs x.certificates (map x.address next.routes) s.authenticate_service_url
            s.certificates)
          _ h in
      let (hosts, found) =
        remove_unused_certs-hosts x.certificates (map x.address next.routes)
          s.authenticate_service_url s.certificates certs removed in
      ap (λ c. any (covers_host x.certificates d) (certificates_of c)) (sym (ok_injective built))
      ∙ remove_unused_certs-any x.certificates (map x.address next.routes)
          s.authenticate_service_url s.certificates certs hosts d found
          (contains-get_all_domains x d s.authenticate_service_url next.routes hosts found m)
          removed

  order-any :
      (p : Certificate → Bool) (o : Option Settings)
      → any p (settings_certificates (map_option sort_certificates o))
        ≡ any p (settings_certificates o)
  order-any p none = refl
  order-any p (some s) = any-sort (λ a b. str_lt a.id b.id) p s.certificates

  -- Where a configuration is prepared without its unused certificates, a host of its routes is
  -- covered by a certificate exactly if it was covered before.
  pub prepare-covered :
      (next final : Configuration R) (id d : String)
      → prepare x true next id ≡ ok final
      → has_host x d final.routes ≡ true
      → any (covers_host x.certificates d) (certificates_of final)
        ≡ any (covers_host x.certificates d) (certificates_of next)
  unfolding prepare ensure_config_order drop_unused_certs
  prepare-covered next final id d h m =
      let (kept, dropped, h1) =
        >>=-eq-ok (wrap cannot_remove_certs (drop_certs_if true x next)) _ h in
      let (u, valid, h2) =
        >>=-eq-ok (wrap is_invalid (x.validate (ensure_config_order x.less kept) id)) _ h1 in
      let out = wrap-eq-ok cannot_remove_certs _ dropped in
      let among : has_host x d next.routes ≡ true =
        ap (has_host x d) (sym (drop_certs_if-routes x true next kept out))
        ∙ sym (any-sort x.less (λ r. is_host (x.certificates.hostname (x.address r)) d) kept.routes)
        ∙ ap (λ c. has_host x d c.routes) (ok_injective h2)
        ∙ m in
      ap (λ c. any (covers_host x.certificates d) (certificates_of c)) (sym (ok_injective h2))
      ∙ order-any (covers_host x.certificates d) kept.settings
      ∙ drop_certs_of-covered next kept next.settings d out among refl

any-append :
    {A : Type 0} (p : A → Bool) (xs ys : List A) → any p (xs ++ ys) ≡ (any p xs || any p ys)
any-append p [] ys = refl
any-append p (a ∷ xs) ys = ground (arith, any-append p xs ys)

-- The certificate that a TLS secret holds
abbrev pub certificate_in : Secret → Certificate
certificate_in secret = record {
  id = "";
  cert_bytes = get_text "tls.crt" secret.contents;
  key_bytes = get_text "tls.key" secret.contents;
}

-- One of the secrets is a TLS secret with a certificate that covers the host.
abbrev pub secret_covers : CertTools → String → Map NamespacedName Secret → Bool
secret_covers x d secrets =
    any (λ (_, secret). secret.secret_type == tls && covers_host x d (certificate_in secret))
      secrets

add_tls_certs-any :
    (x : CertTools) (d : String) (s : Settings) (secrets : Map NamespacedName Secret)
    → any (covers_host x d) (add_tls_certs s secrets).certificates
      ≡ (any (covers_host x d) s.certificates || secret_covers x d secrets)
unfolding add_tls_certs add_tls_cert
add_tls_certs-any x d s [] = ground arith
add_tls_certs-any x d s ((name, secret) ∷ secrets) = ground (
  arith,
  add_tls_certs-any x d s secrets,
  add_tls_certs-any x d (add_tls_cert s secret) secrets,
  any-append (covers_host x d) s.certificates (certificate_in secret ∷ []),
)

-- After the secrets are added, a host is covered if it was covered, or one of them covers it.
add_certs-any :
    (x : CertTools) (d : String) (o : Option Settings) (secrets : Map NamespacedName Secret)
    → any (covers_host x d) (add_tls_certs (or_new o) secrets).certificates
      ≡ (any (covers_host x d) (settings_certificates o) || secret_covers x d secrets)
add_certs-any x d none secrets = add_tls_certs-any x d new_settings secrets
add_certs-any x d (some s) secrets = add_tls_certs-any x d s secrets

module _ {S : Type 0} (client : Client S Route) (x : Checks Route) (r : Reconciler)
    (e : Externals) where
  -- Where the databroker obeys its laws, and Upsert succeeds in a reconciler that removes
  -- unreferenced certificates, a host of the stored routes is covered by a stored certificate
  -- exactly if a certificate of the configuration before, or the one of a TLS secret of the
  -- ingress, covers it.
  pub upsert-covered :
      (l : Laws client x) (ic : IngressConfig) (s t : S) (changed : Bool)
      → r.remove_unreferenced_certs ≡ true
      → upsert client x r e ic s ≡ (ok changed, t)
      → (prev final : Configuration Route) × (get_config client x r s ≡ ok prev)
        × (get_config client x r t ≡ ok final)
        × ((d : String)
            → has_host x d final.routes ≡ true
            → any (covers_host x.certificates d) (certificates_of final) ≡ (
                any (covers_host x.certificates d) (certificates_of prev)
                || secret_covers x.certificates d ic.secrets))
  unfolding upsert upsert_next add_certs
  upsert-covered l ic s t changed removes h =
      let (prev, next, final, got, made, prepared, stored, kept) =
        reconcile-ok client x r l (upsert_next e ic) _ s t changed h in
      let (routes, upserted, built) =
        >>=-eq-ok (wrap cannot_convert (upsert_routes e prev.routes ic)) _ made in
      (
        prev,
        final,
        got,
        stored,
        λ d m.
            prepare-covered x next final _ d
              (ap (λ b. prepare x b next (r.config_id <> "-" <> ic.ingress.uid)) (sym removes)
                ∙ prepared)
              m
            ∙ ap (λ c. any (covers_host x.certificates d) (certificates_of c))
                (sym (ok_injective built))
            ∙ add_certs-any x.certificates d prev.settings ic.secrets,
      )
