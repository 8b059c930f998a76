-- ===== src/Api/Deleted.antt =====
-- What Delete leaves of an ingress.
use ingress_controller.Api.{
  Clients, all_route_id_annotations, api_policy_id_annotation, api_route_id_annotation_prefix,
  delete_by_id, policy_kind, route_kind,
}
use ingress_controller.Api.Annotated.{
  contains-all_route_id_annotations, has_key-delete_api_routes, has_key-delete_policy_for_object,
  not_policy, remote-annotations,
}
use ingress_controller.Api.Deletion.{delete_key_pairs_and_finalizer, delete_routes_and_policy}
use ingress_controller.Api.Ingresses.{delete_api_routes}
use ingress_controller.Api.Policies.{
  Local, PplTools, delete_policy_for_object, remote, remove_annotation,
}
use ingress_controller.Api.Secrets.{delete_key_pairs_for_secrets}
use ingress_controller.Api.Steps.{ApiError, Step, return, ◌>>◌}
use ingress_controller.Api.Upserted.{bind_out-ok}
use ingress_controller.Certs.{domain_key_eq}
use ingress_controller.Externals.{Externals, route_id_eq}
use ingress_controller.Gateway.RefKey.{ref_key_eq}
use ingress_controller.Prelude.{
  Bool, List, Result, String, [], ap, arith, false, if-elim, if◌then◌else◌, is_empty, nat_eq, not,
  ok, string_eq, sym, true, ◌==◌, ◌||◌, ◌∙◌, ◌∷◌, ◌≡◌,
}
use ingress_controller.Prelude.Map.{get_text, has_key}
use ingress_controller.Prelude.Text.{char_eq, has_prefix}
use ingress_controller.Types.{NamespacedName, key_eq, namespaced_name_eq, secret_type_eq}

module _ {S : Type 0} (c : Clients S) (x : Externals) (y : PplTools) where
  -- The flags of a state: the finalizer, and whether something changed.
  abbrev Flags : Type 0
  Flags = Bool × Bool

  abbrev flags : Local S → Flags
  flags l = (l.has_finalizer, l.changed)

  remote-flags :
      {A : Type 0} (m : Step S A) (a : A) (l l' : Local S)
      → remote m l ≡ (ok a, l')
      → flags l' ≡ flags l
  remote-flags m a l l' h = sym (ap (λ p. flags p.1) h)

  flags-delete_api_routes :
      (ks : List String) (l l' : Local S) (b : Bool)
      → delete_api_routes c x y true ks l ≡ (ok b, l')
      → (l'.has_finalizer ≡ l.has_finalizer) × (l'.changed ≡ (l.changed || not (is_empty ks)))
  unfolding delete_api_routes
  flags-delete_api_routes [] l l' b h =
      (sym (ap (λ p. p.1.has_finalizer) h), sym (ap (λ p. p.1.changed) h) ∙ ground arith)
  flags-delete_api_routes (j ∷ ks) l l' b h =
      let id = get_text j l.annotations in
      let (u, l₁, deleted, h₁) = bind_out-ok (remote (delete_by_id (route_kind c) id) l) _ h in
      let (b', l₂, later, h₂) = bind_out-ok (delete_api_routes c x y true ks _) _ h₁ in
      let rest = flags-delete_api_routes ks _ l₂ b' later in
      let same = remote-flags (delete_by_id (route_kind c) id) u l l₁ deleted in
      (
        sym (ap (λ p. p.1.has_finalizer) h₂) ∙ rest.0 ∙ ap (λ f. f.0) same,
        sym (ap (λ p. p.1.changed) h₂) ∙ rest.1 ∙ ground arith,
      )

  flags-delete_policy_for_object :
      (l l' : Local S) (b : Bool)
      → delete_policy_for_object c x y l ≡ (ok b, l')
      → flags l' ≡ flags l
  unfolding delete_policy_for_object
  flags-delete_policy_for_object l l' b h =
      let id = get_text api_policy_id_annotation l.annotations in
      let gone : Step (Local S) Bool =
        remote (delete_by_id (policy_kind c) id)
        >> (remove_annotation api_policy_id_annotation >> return true) in
      if-elim {A = Step (Local S) Bool} (λ m. m l ≡ (ok b, l') → flags l' ≡ flags l) (id == "")
        (λ q e. sym (ap (λ p. flags p.1) e))
        (λ q e.
          let (u, l₁, deleted, h₁) = bind_out-ok (remote (delete_by_id (policy_kind c) id) l) _ e in
          sym (ap (λ p. flags p.1) h₁)
          ∙ remote-flags (delete_by_id (policy_kind c) id) u l l₁ deleted)
        h

  -- Where both parts of Delete succeed on an ingress with the annotation of a route, the ingress
  -- that it patches has no annotation with the prefix of route ids, and it has the finalizer if it
  -- had it before: the finalizer is not removed, since something has changed.
  pub delete_keeps_finalizer :
      (names : List NamespacedName) (l l₁ l₂ : Local S)
      → is_empty (all_route_id_annotations l.annotations) ≡ false
      → delete_routes_and_policy c x y l ≡ (ok tt, l₁)
      → delete_key_pairs_and_finalizer c x y names l₁ ≡ (ok tt, l₂)
      → ((k : String)
          → has_prefix k api_route_id_annotation_prefix ≡ true
          → has_key k l₂.annotations ≡ false)
        × (l₂.has_finalizer ≡ l.has_finalizer)
        × (l₂.changed ≡ true)
  unfolding delete_routes_and_policy delete_key_pairs_and_finalizer
  delete_keeps_finalizer names l l₁ l₂ some_route first second =
      let keys = all_route_id_annotations l.annotations in
      let (b, m₁, routes, g₁) = bind_out-ok (delete_api_routes c x y true keys l) _ first in
      let (d, m₂, policy, g₂) = bind_out-ok (delete_policy_for_object c x y m₁) _ g₁ in
      let (r, m₃, pairs, g₃) =
        bind_out-ok (remote (delete_key_pairs_for_secrets c x names) l₁) _ second in
      let (kept, changed) = flags-delete_api_routes keys l m₁ b routes in
      let same = flags-delete_policy_for_object m₁ m₂ d policy in
      let also = remote-flags (delete_key_pairs_for_secrets c x names) r l₁ m₃ pairs in
      let was_changed : l₁.changed ≡ true =
        sym (ap (λ p. p.1.changed) g₂) ∙ ground (arith, ap (λ f. f.1) same, changed, some_route) in
      let is_changed : (m₃.changed || r) ≡ true = ground (arith, ap (λ f. f.1) also, was_changed) in
      let marked : Local S = record m₃ { changed = m₃.changed || r } in
      let out : ◌≡◌ {A = Result ApiError (Unit {0}) × Local S} (ok tt, marked) (ok tt, l₂) =
        ap
          (λ t.
            if t
            then (ok tt, marked)
            else (ok tt, record marked { has_finalizer = false; changed = marked.has_finalizer }))
          (sym is_changed)
        ∙ g₃ in
      (
        λ k prefixed.
            sym (ap (λ p. has_key k p.1.annotations) out)
            ∙ ap (has_key k)
                (remote-annotations c x y (delete_key_pairs_for_secrets c x names) r l₁ m₃ pairs)
            ∙ sym (ap (λ p. has_key k p.1.annotations) g₂)
            ∙ has_key-delete_policy_for_object c x y m₁ m₂ d k (not_policy k prefixed) policy
            ∙ has_key-delete_api_routes c x y true keys l m₁ b k routes
            ∙ ground (arith, contains-all_route_id_annotations k l.annotations, prefixed),
        sym (ap (λ p. p.1.has_finalizer) out)
            ∙ ap (λ f. f.0) also
            ∙ sym (ap (λ p. p.1.has_finalizer) g₂)
            ∙ ap (λ f. f.0) same
            ∙ kept,
        sym (ap (λ p. p.1.changed) out) ∙ is_changed,
      )
