-- ===== src/RouteList/Index.antt =====
-- A list of routes and the index of it hold the same routes.
use ingress_controller.Certs.{domain_key_eq}
use ingress_controller.Externals.{Externals, RouteId, route_id_eq}
use ingress_controller.Gateway.RefKey.{ref_key_eq}
use ingress_controller.Prelude.{
  List, Option, Option-cases, [], arith, false, first_of, inl, inr, nat_eq, ok, ok_injective,
  string_eq, ◌∙◌, ◌∷◌, ◌≡◌,
}
use ingress_controller.Prelude.Keyed.{IsIndex, find_by, insert-IsIndex, insert-find_by}
use ingress_controller.Prelude.Map.{has_key, insert, lookup}
use ingress_controller.Prelude.Text.{char_eq}
use ingress_controller.Route.{Route}
use ingress_controller.RouteList.{RouteMap, index_routes, key_of, to_map}
use ingress_controller.Types.{key_eq, namespaced_name_eq, secret_type_eq}
use mathlib.Core.Path.{subst}

module _ (x : Externals) where
  -- The first route whose id decodes to the key.
  abbrev pub find_route : RouteId → List Route → Option Route
  find_route = find_by (key_of x)

  -- Each entry stands under the key of its route, and no key stands twice.
  abbrev pub IsRouteIndex : RouteMap → Type 0
  IsRouteIndex = IsIndex (key_of x)

  -- toMap makes an index.
  index_routes-IsRouteIndex :
      (routes : List Route) (m m' : RouteMap)
      → IsRouteIndex m
      → index_routes x routes m ≡ ok m'
      → IsRouteIndex m'
  unfolding index_routes
  index_routes-IsRouteIndex [] m m' hm h = subst IsRouteIndex (ok_injective h) hm
  index_routes-IsRouteIndex (r ∷ routes) m m' hm h = elim (Option-cases (key_of x r)) [
    | inl n ↦ ground (arith, n)
    | inr (j, e) ↦
        let rest : index_routes x routes (insert j r m) ≡ ok m' = ground (arith, e) in
        index_routes-IsRouteIndex routes (insert j r m) m' (insert-IsIndex (key_of x) j r m e hm)
          rest
  ]

  pub to_map-IsRouteIndex :
      (routes : List Route) (m : RouteMap) → to_map x routes ≡ ok m → IsRouteIndex m
  unfolding to_map
  to_map-IsRouteIndex routes m h = index_routes-IsRouteIndex routes [] m tt h

  -- An index that is made of a list.
  pub index_routes_lem :
      (k : RouteId) (routes : List Route) (m m' : RouteMap)
      → IsRouteIndex m
      → index_routes x routes m ≡ ok m'
      → IsRouteIndex m' × (lookup k m' ≡ first_of (lookup k m) (find_route k routes))
  unfolding index_routes find_by
  index_routes_lem k [] m m' hm h =
      (subst IsRouteIndex (ok_injective h) hm, ground (arith, ok_injective h))
  index_routes_lem k (r ∷ routes) m m' hm h = elim (Option-cases (key_of x r)) [
    | inl n ↦ ground (arith, n)
    | inr (j, e) ↦
        let fresh : has_key j m ≡ false = ground (arith, e) in
        let rest : index_routes x routes (insert j r m) ≡ ok m' = ground (arith, e) in
        let (indexed, found) =
          index_routes_lem k routes (insert j r m) m' (insert-IsIndex (key_of x) j r m e hm) rest in
        (indexed, found ∙ insert-find_by (key_of x) k j r m routes e fresh)
  ]

  pub to_map_lem :
      (k : RouteId) (routes : List Route) (m : RouteMap)
      → to_map x routes ≡ ok m
      → IsRouteIndex m × (lookup k m ≡ find_route k routes)
  unfolding to_map lookup
  to_map_lem k routes m h = index_routes_lem k routes [] m tt h
