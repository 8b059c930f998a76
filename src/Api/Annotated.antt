-- ===== src/Api/Annotated.antt =====
-- The annotations with the ids of the routes, after upsertOneIngress.
use ingress_controller.Api.{
  Clients, all_route_id_annotations, api_policy_id_annotation, api_route_id_annotation_prefix,
  delete_by_id, policy_kind, route_id_annotation_for_index, route_kind,
}
use ingress_controller.Api.Ingresses.{delete_api_routes}
use ingress_controller.Api.Policies.{
  Local, PplTools, delete_policy_for_object, remote, remove_annotation,
}
use ingress_controller.Api.Steps.{ApiError, Step, return, ◌>>◌}
use ingress_controller.Api.Upserted.{bind_out-ok}
use ingress_controller.Certs.{domain_key_eq}
use ingress_controller.Externals.{Externals, route_id_eq}
use ingress_controller.Gateway.RefKey.{ref_key_eq}
use ingress_controller.IngressConfig.{IngressConfig}
use ingress_controller.Prelude.{
  Bool, Bool-cases, List, Result, String, [], ap, arith, false, if◌then◌else◌, inl, inr, nat_eq,
  not, ok, string_eq, suc, sym, true, ℕ, ◌&&◌, ◌==◌, ◌∙◌, ◌∷◌, ◌≡◌,
}
use ingress_controller.Prelude.Map.{Map, delete, get_text, has_key, lookup, lookup-delete}
use ingress_controller.Prelude.Set.{contains}
use ingress_controller.Prelude.Text.{char_eq, has_prefix}
use ingress_controller.Route.{Route}
use ingress_controller.Types.{key_eq, namespaced_name_eq, secret_type_eq}
use mathlib.Core.Bool.{false≢true}
use text.Mathlib.TextEquality.{eq_iff}

-- The annotations of the routes, from an index.
abbrev pub index_keys : ℕ → List Route → List String
index_keys i [] = []
index_keys i (r ∷ routes) = route_id_annotation_for_index i ∷ index_keys (suc i) routes

has_key-delete :
    (k j : String) (m : Map String String) → has_key j (delete k m) ≡ (not (k == j) && has_key j m)
unfolding has_key
has_key-delete k j m = ground (arith, lookup-delete k j m)

pub contains-all_route_id_annotations :
    (k : String) (m : Map String String)
    → contains k (all_route_id_annotations m)
      ≡ (has_prefix k api_route_id_annotation_prefix && has_key k m)
unfolding all_route_id_annotations has_key lookup contains
contains-all_route_id_annotations k [] = ground arith
contains-all_route_id_annotations k ((j, v) ∷ m) = ground (
  arith,
  contains-all_route_id_annotations k m,
  eq_iff j k,
  ap (λ t. has_prefix t api_route_id_annotation_prefix) {x = j} {y = k},
)

-- The annotation of the policy does not have the prefix of those of routes.
pub not_policy :
    (k : String)
    → has_prefix k api_route_id_annotation_prefix ≡ true
    → (api_policy_id_annotation == k) ≡ false
unfolding has_prefix
not_policy k h = elim (Bool-cases (api_policy_id_annotation == k)) [
  | inr other1 ↦ other1
  | inl same ↦
      elim (false≢true (
        ap (λ t. has_prefix t api_route_id_annotation_prefix)
          ((eq_iff api_policy_id_annotation k).0 same)
        ∙ h)) [ ]
]

module _ {S : Type 0} (c : Clients S) (x : Externals) (y : PplTools) where
  pub remote-annotations :
      {A : Type 0} (m : Step S A) (a : A) (l l' : Local S)
      → remote m l ≡ (ok a, l')
      → l'.annotations ≡ l.annotations
  remote-annotations m a l l' h = sym (ap (λ p. p.1.annotations) h)

  pub has_key-delete_api_routes :
      (marks : Bool) (ks : List String) (l l' : Local S) (b : Bool) (k : String)
      → delete_api_routes c x y marks ks l ≡ (ok b, l')
      → has_key k l'.annotations ≡ (not (contains k ks) && has_key k l.annotations)
  unfolding delete_api_routes contains
  has_key-delete_api_routes marks [] l l' b k h = ap (λ p. has_key k p.1.annotations) (sym h)
  has_key-delete_api_routes marks (j ∷ ks) l l' b k h =
      let id = get_text j l.annotations in
      let (u, l₁, deleted, h₁) = bind_out-ok (remote (delete_by_id (route_kind c) id) l) _ h in
      let (b', l₂, later, h₂) = bind_out-ok (delete_api_routes c x y marks ks _) _ h₁ in
      let rest = has_key-delete_api_routes marks ks _ l₂ b' k later in
      let same = remote-annotations (delete_by_id (route_kind c) id) u l l₁ deleted in
      ground (
        arith,
        rest,
        has_key-delete j k l₁.annotations,
        ap (has_key k) same,
        ap (λ p. has_key k p.1.annotations) h₂,
      )

  pub has_key-delete_policy_for_object :
      (l l' : Local S) (b : Bool) (k : String)
      → (api_policy_id_annotation == k) ≡ false
      → delete_policy_for_object c x y l ≡ (ok b, l')
      → has_key k l'.annotations ≡ has_key k l.annotations
  unfolding delete_policy_for_object
  has_key-delete_policy_for_object l l' b k n h =
      let id = get_text api_policy_id_annotation l.annotations in
      let gone : Step (Local S) Bool =
        remote (delete_by_id (policy_kind c) id)
        >> (remove_annotation api_policy_id_annotation >> return true) in
      elim (Bool-cases (id == "")) [
        | inl blank ↦
            let out : ◌≡◌ {A = Result ApiError Bool × Local S} (ok false, l) (ok b, l') =
              ap (λ t. (if t then return false else gone) l) (sym blank) ∙ h in
            ap (λ p. has_key k p.1.annotations) (sym out)
        | inr given ↦
            let out : gone l ≡ (ok b, l') =
              ap (λ t. (if t then return false else gone) l) (sym given) ∙ h in
            let (u, l₁, deleted, h₁) =
              bind_out-ok (remote (delete_by_id (policy_kind c) id) l) _ out in
            let same = remote-annotations (delete_by_id (policy_kind c) id) u l l₁ deleted in
            ap (λ q. has_key k q.1.annotations) (sym h₁)
            ∙ has_key-delete api_policy_id_annotation k l₁.annotations
            ∙ ground (arith, n, ap (has_key k) same)
      ]
