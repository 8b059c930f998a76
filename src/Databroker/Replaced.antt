-- ===== src/Databroker/Replaced.antt =====
-- What Set leaves of the configuration before, and where its routes come from.
use ingress_controller.Certs.{domain_key_eq}
use ingress_controller.Databroker.{
  Checks, Client, Configuration, Reconciler, add_certs, empty_configuration, get_config,
}
use ingress_controller.Databroker.Ingresses.{set_ingresses, set_next, set_step}
use ingress_controller.Databroker.Saving.{Laws, reconcile-ok}
use ingress_controller.Databroker.Stored.{prepare-find_route}
use ingress_controller.Externals.{Externals, RouteId, route_id_eq}
use ingress_controller.Gateway.RefKey.{ref_key_eq}
use ingress_controller.IngressConfig.{IngressConfig}
use ingress_controller.IngressRoutes.{ingress_to_routes}
use ingress_controller.Prelude.{
  >>=-eq-ok, Bool, Bool-cases, List, Option, Option-cases, Result-cases, [], ap, first_of,
  if◌then◌else◌, inl, inr, nat_eq, none, ok, ok_injective, some, string_eq, sym, wrap, wrap-eq-ok,
  ◌∙◌, ◌∷◌, ◌≡◌, ◌⊎◌,
}
use ingress_controller.Prelude.Keyed.{IsDistinct, find_by}
use ingress_controller.Prelude.Text.{char_eq}
use ingress_controller.Route.{Route}
use ingress_controller.RouteList.{key_of, merge_routes, parsing_ingress, upsert_routes}
use ingress_controller.RouteList.Index.{find_route}
use ingress_controller.RouteList.Merging.{
  find_route-merge_routes, is_id_of, merge_routes-IsDistinct,
}
use ingress_controller.Types.{key_eq, namespaced_name_eq, secret_type_eq}
use mathlib.Core.Path.{subst}

-- One of the ingresses has the route under the key.
abbrev pub IsMade : Externals → List IngressConfig → RouteId → Route → Type 0
IsMade e [] k r = ⊥
IsMade e (ic ∷ ics) k r =
    ((new : List Route) × (ingress_to_routes e ic ≡ ok new) × (find_route e k new ≡ some r))
    ⊎ IsMade e ics k r

module _ (e : Externals) (x : Checks Route) where
  set_step-routes :
      (next : Configuration Route) (ic : IngressConfig)
      → ((set_step e x next ic).routes ≡ next.routes)
        ⊎ ((routes : List Route) × (upsert_routes e next.routes ic ≡ ok routes)
            × ((set_step e x next ic).routes ≡ routes))
  unfolding set_step add_certs
  set_step-routes next ic = elim (Result-cases (upsert_routes e next.routes ic)) [
    | inr (failed, h) ↦ inl cc
    | inl (routes, h) ↦
        let cfg : Configuration Route = record next { routes = routes } in
        elim (Result-cases (x.validate cfg ic.ingress.uid)) [
          | inr (bad, v) ↦ inl cc
          | inl (u, v) ↦ inr (routes, h, cc)
        ]
  ]

  upsert_routes-ok :
      (cfg : List Route) (ic : IngressConfig) (routes : List Route)
      → upsert_routes e cfg ic ≡ ok routes
      → (new : List Route) × (ingress_to_routes e ic ≡ ok new)
        × (merge_routes e cfg new ic.ingress.namespaced_name ≡ ok routes)
  unfolding upsert_routes
  upsert_routes-ok cfg ic routes h =
      let (new, converted, merged) =
        >>=-eq-ok (wrap parsing_ingress (ingress_to_routes e ic)) _ h in
      (new, wrap-eq-ok parsing_ingress _ converted, merged)

  set_step-IsDistinct :
      (next : Configuration Route) (ic : IngressConfig)
      → IsDistinct (key_of e) next.routes
      → IsDistinct (key_of e) (set_step e x next ic).routes
  set_step-IsDistinct next ic d = elim (set_step-routes next ic) [
    | inl kept ↦ subst (IsDistinct (key_of e)) (sym kept) d
    | inr (routes, upserted, same) ↦
        let (new, converted, merged) = upsert_routes-ok next.routes ic routes upserted in
        subst (IsDistinct (key_of e)) (sym same)
          (merge_routes-IsDistinct e next.routes new ic.ingress.namespaced_name routes merged)
  ]

  set_next-IsDistinct :
      (next : Configuration Route) (ics : List IngressConfig)
      → IsDistinct (key_of e) next.routes
      → IsDistinct (key_of e) (set_next e x next ics).routes
  unfolding set_next
  set_next-IsDistinct next [] d = d
  set_next-IsDistinct next (ic ∷ ics) d =
      set_next-IsDistinct (set_step e x next ic) ics (set_step-IsDistinct next ic d)

  -- A route after a step is the ingress's, or was there before.
  set_step-IsMade :
      (next : Configuration Route) (ic : IngressConfig) (k : RouteId) (r : Route)
      → find_route e k (set_step e x next ic).routes ≡ some r
      → ((new : List Route) × (ingress_to_routes e ic ≡ ok new) × (find_route e k new ≡ some r))
        ⊎ (find_route e k next.routes ≡ some r)
  set_step-IsMade next ic k r h = elim (set_step-routes next ic) [
    | inl kept ↦ inr (ap (find_route e k) (sym kept) ∙ h)
    | inr (routes, upserted, same) ↦
        let (new, converted, merged) = upsert_routes-ok next.routes ic routes upserted in
        let old : Option Route =
          if is_id_of ic.ingress.namespaced_name k then none else find_route e k next.routes in
        let found : first_of (find_route e k new) old ≡ some r =
          sym (find_route-merge_routes e next.routes new ic.ingress.namespaced_name routes merged k)
          ∙ ap (find_route e k) (sym same)
          ∙ h in
        elim (Option-cases (find_route e k new)) [
          | inr (s, made) ↦ inl (new, converted, made ∙ sym (ap (λ o. first_of o old) made) ∙ found)
          | inl none_made ↦
              let kept : old ≡ some r = sym (ap (λ o. first_of o old) none_made) ∙ found in
              elim (Bool-cases (is_id_of ic.ingress.namespaced_name k)) [
                | inl own ↦ cc
                | inr other_one ↦ inr (
                    sym (ap (λ b. if b then none else find_route e k next.routes) other_one) ∙ kept)
              ]
        ]
  ]

  set_next-IsMade :
      (next : Configuration Route) (ics : List IngressConfig) (k : RouteId) (r : Route)
      → find_route e k (set_next e x next ics).routes ≡ some r
      → IsMade e ics k r ⊎ (find_route e k next.routes ≡ some r)
  unfolding set_next
  set_next-IsMade next [] k r h = inr h
  set_next-IsMade next (ic ∷ ics) k r h = elim (set_next-IsMade (set_step e x next ic) ics k r h) [
    | inl later ↦ inl (inr later)
    | inr there ↦ elim (set_step-IsMade next ic k r there) [
      | inl made ↦ inl (inl made)
      | inr before ↦ inr before
    ]
  ]

no_route_in_none : (e : Externals) (k : RouteId) (r : Route) → ¬ (find_route e k [] ≡ some r)
unfolding find_by
no_route_in_none e k r h = cc

module _ {S : Type 0} (client : Client S Route) (x : Checks Route) (r : Reconciler)
    (e : Externals) where
  -- Where the databroker obeys its laws and Set succeeds, each route of the stored configuration
  -- is the one that one of the given ingresses has under its key, so no route that was there
  -- before stays unless an ingress has it.
  pub set_ingresses-IsMade :
      (l : Laws client x) (ics : List IngressConfig) (s t : S) (changed : Bool)
      → set_ingresses client x r e ics s ≡ (ok changed, t)
      → (final : Configuration Route) × (get_config client x r t ≡ ok final)
        × ((k : RouteId) (route : Route)
            → find_route e k final.routes ≡ some route
            → IsMade e ics k route)
  unfolding set_ingresses
  set_ingresses-IsMade l ics s t changed h =
      let (prev, next, final, got, made, prepared, stored, kept) =
        reconcile-ok client x r l (λ prev. ok (set_next e x empty_configuration ics)) r.config_id s
          t changed h in
      let same : set_next e x empty_configuration ics ≡ next = ok_injective made in
      let distinct =
        subst (λ (c : Configuration Route). IsDistinct (key_of e) c.routes) same
          (set_next-IsDistinct e x empty_configuration ics tt) in
      (
        final,
        stored,
        λ k route found.
            elim (set_next-IsMade e x empty_configuration ics k route (
              ap (λ (c : Configuration Route). find_route e k c.routes) same
              ∙ sym (
                  prepare-find_route client x r e next final _ r.remove_unreferenced_certs distinct
                    prepared k)
              ∙ found)) [
                | inl from_one ↦ from_one
                | inr before ↦ elim (no_route_in_none e k route before) [ ]
              ],
      )
