-- ===== src/IngressRoutes/Access.antt =====
-- Who may use the routes of an ingress.
use ingress_controller.Annotations.{apply_annotations}
use ingress_controller.Annotations.Errors.{decoding}
use ingress_controller.Annotations.Keys.{Keys, remove_key_prefix}
use ingress_controller.Annotations.Keys.Sorted.{annotated, lookup-remove_key_prefix, policy_group}
use ingress_controller.Annotations.Mcp.{apply_mcp_annotations}
use ingress_controller.Annotations.Policies.{
  parse_policy, retry_parse, unmarshal_policy_annotations, with_ppl,
}
use ingress_controller.Annotations.Secrets.{apply_secret_annotations}
use ingress_controller.Annotations.Tls.{apply_tls_annotations}
use ingress_controller.Annotations.Upstream.{apply_upstream_annotations}
use ingress_controller.Certs.{domain_key_eq}
use ingress_controller.Externals.{Externals, route_id_eq}
use ingress_controller.Gateway.RefKey.{ref_key_eq}
use ingress_controller.IngressConfig.{IngressConfig, is_http01_solver}
use ingress_controller.IngressRoutes.{ingress_to_routes, route_template}
use ingress_controller.IngressRoutes.Results.{declared, ingress_to_routes_lem}
use ingress_controller.IngressRoutes.Stages.{IsRouteOf, matched_as}
use ingress_controller.Kube.{HttpIngressPath}
use ingress_controller.Prelude.{
  >>=-eq-ok, All, Bool-cases, List, Option, Pairwise, Result, String, [], ap, arith, err, false,
  if◌then◌else◌, inl, inr, nat_eq, none, ok, ok_injective, refl, some, string_eq, sym, true, wrap,
  wrap-eq-ok, ◌==◌, ◌∙◌, ◌∷◌, ◌≡◌, ◌⊎◌,
}
use ingress_controller.Prelude.Map.{Map, delete, lookup, lookup-delete}
use ingress_controller.Prelude.Set.{contains}
use ingress_controller.Prelude.Text.{char_eq, contains_text, ◌<>◌}
use ingress_controller.Route.{Policy, Route, empty_policy, empty_route}
use ingress_controller.Types.{key_eq, namespaced_name_eq, secret_type_eq}
use mathlib.Core.Path.{subst}
use text.Mathlib.TextEquality.{eq_iff}

-- Open to everyone, without a policy.
abbrev pub IsPublic : Route → Type 0
IsPublic r = (r.allow_public_unauthenticated_access ≡ true) × (r.policies ≡ [])

-- The value of an annotation of the controller
abbrev annotation_of : IngressConfig → String → Option String
annotation_of ic k = annotated (ic.annotation_prefix <> "/") k ic.ingress.annotations

-- The annotations that are fields of a policy
abbrev field_annotations : List String
field_annotations = "allowed_domains" ∷ "allowed_idp_claims" ∷ "allowed_users" ∷ []

abbrev IsField : IngressConfig → Map String String → Type 0
IsField ic fields =
    (k : String)
    → lookup k fields ≡ (if contains k field_annotations then annotation_of ic k else none)

-- The module parses, as it is or after a package clause.
abbrev IsModule : Externals → String → Type 0
IsModule x rego =
    (x.parse_module rego ≡ ok tt) ⊎ (x.parse_module ("package pomerium.policy\n\n" <> rego) ≡ ok tt)

-- The policy has the source and the module that it compiles to, where a source is given.
abbrev IsCompiled : Externals → Policy → Option String → Policy → Type 0
IsCompiled x base none policy = policy ≡ base
IsCompiled x base (some src) policy =
    (rego : String) × (x.generate_rego src ≡ ok rego)
    × IsModule x rego
    × (policy ≡ record base { source_ppl = some src; rego = rego ∷ [] })

-- The policy that the annotations of an ingress spell out: its fields are decoded from their
-- annotations, and the annotation `policy` is compiled.
abbrev pub IsPolicyOf : Externals → IngressConfig → Policy → Type 0
IsPolicyOf x ic policy =
    (fields : Map String String) × (base : Policy) × IsField ic fields
    × (x.unmarshal_policy fields empty_policy ≡ ok base)
    × IsCompiled x base (annotation_of ic "policy") policy

retry_parse-IsModule :
    (x : Externals) (rego : String) (m : Result String (Unit {0})) {u : Unit {0}}
    → x.parse_module rego ≡ m
    → retry_parse x rego m ≡ ok u
    → IsModule x rego
retry_parse-IsModule x rego (ok v) p h = inl p
retry_parse-IsModule x rego (err e) p h = elim (Bool-cases (contains_text e "package expected")) [
  | inl retried ↦ inr (ground (arith, h, retried))
  | inr refused ↦ ground (arith, h, refused)
]

with_ppl-IsCompiled :
    (x : Externals) (base : Policy) (ppl : Option String) (policy : Policy)
    → with_ppl x ppl base ≡ ok policy
    → IsCompiled x base ppl policy
unfolding parse_policy
with_ppl-IsCompiled x base none policy h = sym (ok_injective h)
with_ppl-IsCompiled x base (some src) policy h =
    let (parsed, compiled, h1) = >>=-eq-ok (wrap decoding (parse_policy x src)) _ h in
    let (rego, generated, h2) =
      >>=-eq-ok (x.generate_rego src) _ (wrap-eq-ok decoding (parse_policy x src) compiled) in
    let (u, checked, h3) = >>=-eq-ok (retry_parse x rego (x.parse_module rego)) _ h2 in
    (rego, generated, retry_parse-IsModule x rego (x.parse_module rego) {u = u} refl checked, cc)

IsPolicyOf-unmarshal :
    (x : Externals) (ic : IngressConfig) (kv : Keys) (policy : Policy)
    → remove_key_prefix ic.ingress.annotations ic.annotation_prefix ≡ ok kv
    → unmarshal_policy_annotations x kv.policy empty_policy ≡ ok policy
    → IsPolicyOf x ic policy
unfolding unmarshal_policy_annotations contains
IsPolicyOf-unmarshal x ic kv policy sorted h =
    let (base, decoded, compiled) =
      >>=-eq-ok (wrap decoding (x.unmarshal_policy (delete "policy" kv.policy) empty_policy)) _ h in
    let given =
      lookup-remove_key_prefix ic.ingress.annotations ic.annotation_prefix kv sorted policy_group in
    (
      delete "policy" kv.policy,
      base,
      λ k. elim (Bool-cases ("policy" == k)) [
        | inl e ↦
            let at = (eq_iff "policy" k).0 e in
            lookup-delete "policy" k kv.policy
            ∙ ap (λ b. if b then none else lookup k kv.policy) e
            ∙ subst
                (λ j. none ≡ (if contains j field_annotations then annotation_of ic j else none)) at
                refl
        | inr e ↦ ground (arith, lookup-delete "policy" k kv.policy, given k, e)
      ],
      wrap-eq-ok decoding _ decoded,
      subst (λ ppl. IsCompiled x base ppl policy) (given "policy")
          (with_ppl-IsCompiled x base (lookup "policy" kv.policy) policy compiled),
    )

annotations_policies :
    (x : Externals) (ic : IngressConfig) (r : Route) {tmpl : Route}
    → apply_annotations x r ic ≡ ok tmpl
    → (policy : Policy) × IsPolicyOf x ic policy × (tmpl.policies ≡ policy ∷ [])
unfolding apply_annotations
annotations_policies x ic r {tmpl} h =
    let (kv, hk, h1) =
      >>=-eq-ok (remove_key_prefix ic.ingress.annotations ic.annotation_prefix) _ h in
    let (r1, _, h2) = >>=-eq-ok (wrap decoding (x.unmarshal_route kv.base r)) _ h1 in
    let (r2, _, h3) =
      >>=-eq-ok (apply_tls_annotations x ic.secrets ic.ingress.namespaced_name.namespace kv.tls r1)
        _ h2 in
    let (r3, _, h4) =
      >>=-eq-ok
        (apply_secret_annotations ic.secrets ic.ingress.namespaced_name.namespace kv.secret r2) _
        h3 in
    let (r4, _, h5) = >>=-eq-ok (apply_mcp_annotations x kv.mcp_server kv.mcp_client r3) _ h4 in
    let (r5, _, h6) = >>=-eq-ok (apply_upstream_annotations kv.upstream_tunnel r4) _ h5 in
    let (policy, hp, h7) = >>=-eq-ok (unmarshal_policy_annotations x kv.policy empty_policy) _ h6 in
    (
      policy,
      IsPolicyOf-unmarshal x ic kv policy hk hp,
      ap (λ s. s.policies) (sym (ok_injective h7)),
    )

-- A predicate of the template that survives the stages holds of every route.
routes_from :
    (P : Route → Type 0) (x : Externals) (ic : IngressConfig) (tmpl : Route)
    → ((host : String) (p : HttpIngressPath) (r : Route) → IsRouteOf x ic tmpl host p r → P r)
    → (ds : List (String × HttpIngressPath)) (rs : List Route)
    → Pairwise (λ (host, p) r. IsRouteOf x ic tmpl host p r) ds rs
    → All P rs
routes_from P x ic tmpl f [] [] h = tt
routes_from P x ic tmpl f [] (r ∷ rs) h = elim h [ ]
routes_from P x ic tmpl f (d ∷ ds) [] h = elim h [ ]
routes_from P x ic tmpl f (d ∷ ds) (r ∷ rs) h =
    (f d.0 d.1 r h.0, routes_from P x ic tmpl f ds rs h.1)

IsPublic-template :
    (x : Externals) (ic : IngressConfig) {tmpl : Route}
    → is_http01_solver ic.ingress ≡ true
    → route_template x ic ≡ ok tmpl
    → IsPublic tmpl
unfolding route_template
IsPublic-template x ic s h = ground arith

guarded_template :
    (x : Externals) (ic : IngressConfig) {tmpl : Route}
    → is_http01_solver ic.ingress ≡ false
    → route_template x ic ≡ ok tmpl
    → apply_annotations x empty_route ic ≡ ok tmpl
unfolding route_template
guarded_template x ic s h = ground arith

-- If an ingress is converted, its routes are open to everyone and without a policy where it is an
-- HTTP-01 solver, and otherwise each has the one policy that its annotations spell out: the
-- annotations of fields decode to it and, where there is the annotation `policy`, it has that as
-- its source and the one module that this compiles to.
pub ingress_to_routes-policies :
    (x : Externals) (ic : IngressConfig) (rs : List Route)
    → ingress_to_routes x ic ≡ ok rs
    → ((is_http01_solver ic.ingress ≡ true) × All IsPublic rs)
      ⊎ ((is_http01_solver ic.ingress ≡ false)
          × ((policy : Policy) × IsPolicyOf x ic policy × All (λ r. r.policies ≡ policy ∷ []) rs))
unfolding ingress_to_routes matched_as
ingress_to_routes-policies x ic rs h =
    let (tmpl, ht, _) = >>=-eq-ok (route_template x ic) _ h in
    let made = ingress_to_routes_lem x ic tmpl rs ht h in
    elim (Bool-cases (is_http01_solver ic.ingress)) [
      | inl solver ↦
          let public = IsPublic-template x ic {tmpl = tmpl} solver ht in
          inl (
            solver,
            routes_from IsPublic x ic tmpl (λ host p r is. ground (arith, is, public))
                (declared ic.ingress) rs made,
          )
      | inr plain ↦
          let (policy, spelled, same) =
            annotations_policies x ic empty_route {tmpl = tmpl} (guarded_template x ic plain ht) in
          inr (
            plain,
            (
              policy,
              spelled,
              routes_from (λ r. r.policies ≡ policy ∷ []) x ic tmpl
                  (λ host p r is. ground (arith, is, same)) (declared ic.ingress) rs made,
            ),
          )
    ]
