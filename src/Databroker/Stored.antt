-- ===== src/Databroker/Stored.antt =====
-- What the databroker holds after the operations on ingresses.
use ingress_controller.Certs.{domain_key_eq}
use ingress_controller.Databroker.{
  Checks, Client, Configuration, Reconciler, add_certs, cannot_convert, cannot_remove_certs,
  drop_certs_if, ensure_config_order, get_config, is_invalid, prepare,
}
use ingress_controller.Databroker.Ingresses.{delete_ingress, delete_next, upsert, upsert_next}
use ingress_controller.Databroker.Saving.{Laws, drop_certs_if-routes, reconcile-ok}
use ingress_controller.Externals.{Externals, RouteId, route_id_eq}
use ingress_controller.Gateway.RefKey.{ref_key_eq}
use ingress_controller.IngressConfig.{IngressConfig}
use ingress_controller.IngressRoutes.{ingress_to_routes}
use ingress_controller.Prelude.{
  >>=-eq-ok, Bool, List, String, ap, first_of, if◌then◌else◌, nat_eq, none, ok, ok_injective,
  string_eq, sym, wrap, wrap-eq-ok, ◌∙◌, ◌≡◌,
}
use ingress_controller.Prelude.Keyed.{IsDistinct, find_by-sort-IsDistinct}
use ingress_controller.Prelude.Set.{remove}
use ingress_controller.Prelude.Sort.{sort}
use ingress_controller.Prelude.Text.{char_eq}
use ingress_controller.Route.{Route}
use ingress_controller.RouteList.{delete_routes, key_of, parsing_ingress, upsert_routes}
use ingress_controller.RouteList.Index.{find_route}
use ingress_controller.RouteList.Merging.{
  delete_routes-IsDistinct, find_route-delete_routes, find_route-merge_routes, is_id_of,
  merge_routes-IsDistinct,
}
use ingress_controller.Types.{NamespacedName, key_eq, namespaced_name_eq, secret_type_eq}
use mathlib.Core.Path.{subst}

module _ {S : Type 0} (client : Client S Route) (x : Checks Route) (r : Reconciler)
    (e : Externals) where
  pub prepare-find_route :
      (next final : Configuration Route) (id : String) (remove : Bool)
      → IsDistinct (key_of e) next.routes
      → prepare x remove next id ≡ ok final
      → (k : RouteId) → find_route e k final.routes ≡ find_route e k next.routes
  unfolding prepare ensure_config_order
  prepare-find_route next final id remove d h k =
      let (kept, dropped, h1) =
        >>=-eq-ok (wrap cannot_remove_certs (drop_certs_if remove x next)) _ h in
      let (u, valid, h2) =
        >>=-eq-ok (wrap is_invalid (x.validate (ensure_config_order x.less kept) id)) _ h1 in
      let same =
        drop_certs_if-routes x remove next kept (wrap-eq-ok cannot_remove_certs _ dropped) in
      ap (λ c. find_route e k c.routes) (sym (ok_injective h2))
      ∙ ap (λ rs. find_route e k (sort x.less rs)) same
      ∙ find_by-sort-IsDistinct (key_of e) x.less k next.routes d

  upsert_next-ok :
      (ic : IngressConfig) (prev next : Configuration Route)
      → upsert_next e ic prev ≡ ok next
      → (routes : List Route) × (upsert_routes e prev.routes ic ≡ ok routes)
        × (next.routes ≡ routes)
  unfolding upsert_next add_certs
  upsert_next-ok ic prev next h =
      let (routes, upserted, built) =
        >>=-eq-ok (wrap cannot_convert (upsert_routes e prev.routes ic)) _ h in
      (routes, wrap-eq-ok cannot_convert _ upserted, ap (λ c. c.routes) (sym (ok_injective built)))

  -- Where the databroker obeys its laws and Upsert succeeds, the stored configuration has, by key,
  -- the routes of the ingress, and those that it had of other ingresses.
  pub upsert-find_route :
      (l : Laws client x) (ic : IngressConfig) (s t : S) (changed : Bool)
      → upsert client x r e ic s ≡ (ok changed, t)
      → (prev final : Configuration Route) × (new : List Route) × (get_config client x r s
          ≡ ok prev)
        × (get_config client x r t ≡ ok final)
        × (ingress_to_routes e ic ≡ ok new)
        × ((k : RouteId)
            → find_route e k final.routes
              ≡ first_of (find_route e k new) (
                  if is_id_of ic.ingress.namespaced_name k
                  then none
                  else find_route e k prev.routes))
  unfolding upsert upsert_routes
  upsert-find_route l ic s t changed h =
      let (prev, next, final, got, made, prepared, stored, kept) =
        reconcile-ok client x r l (upsert_next e ic) _ s t changed h in
      let (routes, upserted, same) = upsert_next-ok ic prev next made in
      let (new, converted, merged) =
        >>=-eq-ok (wrap parsing_ingress (ingress_to_routes e ic)) _ upserted in
      (
        prev,
        final,
        new,
        got,
        stored,
        wrap-eq-ok parsing_ingress _ converted,
        λ k.
            prepare-find_route next final _ r.remove_unreferenced_certs
              (subst (IsDistinct (key_of e)) (sym same) (
                merge_routes-IsDistinct e prev.routes new ic.ingress.namespaced_name routes merged))
              prepared k
            ∙ ap (find_route e k) same
            ∙ find_route-merge_routes e prev.routes new ic.ingress.namespaced_name routes merged k,
      )

  -- Where the databroker obeys its laws and Delete succeeds, the stored configuration has, by key,
  -- the routes that it had of other ingresses, and none of the ingress.
  pub delete_ingress-find_route :
      (l : Laws client x) (name : NamespacedName) (s t : S) (changed : Bool)
      → delete_ingress client x r e name s ≡ (ok changed, t)
      → (prev final : Configuration Route) × (get_config client x r s ≡ ok prev)
        × (get_config client x r t ≡ ok final)
        × ((k : RouteId)
            → find_route e k final.routes
              ≡ (if is_id_of name k then none else find_route e k prev.routes))
  unfolding delete_ingress delete_next
  delete_ingress-find_route l name s t changed h =
      let (prev, next, final, got, made, prepared, stored, kept) =
        reconcile-ok client x r l (delete_next e name) _ s t changed h in
      let (routes, deleted, built) =
        >>=-eq-ok (wrap cannot_convert (delete_routes e prev.routes name)) _ made in
      let out = wrap-eq-ok cannot_convert _ deleted in
      let same : routes ≡ next.routes = ap (λ c. c.routes) (ok_injective built) in
      (
        prev,
        final,
        got,
        stored,
        λ k.
            prepare-find_route next final _ r.remove_unreferenced_certs
              (subst (IsDistinct (key_of e)) same
                (delete_routes-IsDistinct e prev.routes name routes out))
              prepared k
            ∙ ap (find_route e k) (sym same)
            ∙ find_route-delete_routes e prev.routes name routes out k,
      )
