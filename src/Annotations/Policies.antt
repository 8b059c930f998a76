-- ===== src/Annotations/Policies.antt =====
-- unmarshalPolicyAnnotations, and internal/policy/policy.go.
use ingress_controller.Annotations.Errors.{AnnotationError, decoding}
use ingress_controller.Certs.{domain_key_eq}
use ingress_controller.Externals.{Externals, route_id_eq}
use ingress_controller.Gateway.RefKey.{ref_key_eq}
use ingress_controller.Prelude.{
  List, Option, Result, String, [], err, if◌then◌else◌, nat_eq, none, ok, some, string_eq, wrap,
  ◌>>=◌, ◌>>◌, ◌∷◌,
}
use ingress_controller.Prelude.Map.{Map, delete, lookup}
use ingress_controller.Prelude.Text.{char_eq, contains_text, ◌<>◌}
use ingress_controller.Route.{Policy}
use ingress_controller.Types.{key_eq, namespaced_name_eq, secret_type_eq}

module _ (x : Externals) where
  abbrev pub retry_parse : String → Result String (Unit {0}) → Result String (Unit {0})
  retry_parse rego (ok u) = ok u
  retry_parse rego (err e) =
      if contains_text e "package expected"
      then x.parse_module ("package pomerium.policy\n\n" <> rego)
      else err e

  -- policy.Parse: the policy's source, and the module that it compiles to
  unfoldable pub parse_policy : String → Result String (String × List String)
  parse_policy src = do
    rego ← x.generate_rego src
    retry_parse rego (x.parse_module rego)
    ok (src, rego ∷ [])

  abbrev pub with_ppl : Option String → Policy → Result AnnotationError Policy
  with_ppl none p = ok p
  with_ppl (some ppl) p = do
    parsed ← wrap decoding (parse_policy ppl)
    ok (record p { source_ppl = some parsed.0; rego = parsed.1 })

  -- unmarshalPolicyAnnotations
  unfoldable pub unmarshal_policy_annotations :
      Map String String → Policy → Result AnnotationError Policy
  unfolding parse_policy
  unmarshal_policy_annotations kvs p = do
    p' ← wrap decoding (x.unmarshal_policy (delete "policy" kvs) p)
    with_ppl (lookup "policy" kvs) p'
