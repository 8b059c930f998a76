-- ===== src/RouteList/Merging.antt =====
-- What a configuration routes after the routes of an ingress are merged into it or deleted from it.
use ingress_controller.Certs.{domain_key_eq}
use ingress_controller.Externals.{Externals, RouteId, route_id_eq}
use ingress_controller.Gateway.RefKey.{ref_key_eq}
use ingress_controller.Prelude.{
  >>=-eq-ok, Bool, List, ap, first_of, if◌then◌else◌, nat_eq, none, ok, ok_injective, string_eq,
  sym, wrap, wrap-eq-ok, ◌&&◌, ◌==◌, ◌∙◌, ◌≡◌,
}
use ingress_controller.Prelude.Keyed.{
  IsDistinct, find_by-sort, insert_all-IsIndex, lookup-insert_all, remove_where-IsIndex,
  sort-IsDistinct,
}
use ingress_controller.Prelude.Map.{insert_all, lookup, lookup-remove_where, remove_where}
use ingress_controller.Prelude.Text.{char_eq}
use ingress_controller.Route.{Route}
use ingress_controller.RouteList.{
  belongs_to, delete_routes, indexing_current, indexing_new, key_of, merge, merge_routes,
  remove_name, route_less, to_list, to_map,
}
use ingress_controller.RouteList.Index.{find_route, to_map-IsRouteIndex, to_map_lem}
use ingress_controller.Types.{NamespacedName, key_eq, namespaced_name_eq, secret_type_eq}
use mathlib.Core.Path.{subst}

-- The key of a route of the ingress of that namespace and name
abbrev pub is_id_of : NamespacedName → RouteId → Bool
is_id_of name k = k.name == name.name && k.namespace == name.namespace

-- After mergeRoutes, where it succeeds, the configuration has the new routes, and those of the old
-- ones that are not of the ingress and have no new one of the same key.
pub find_route-merge_routes :
    (x : Externals) (dst src : List Route) (name : NamespacedName) (out : List Route)
    → merge_routes x dst src name ≡ ok out
    → (k : RouteId)
    → find_route x k out
      ≡ first_of (find_route x k src) (if is_id_of name k then none else find_route x k dst)
unfolding merge_routes merge remove_name to_list
find_route-merge_routes x dst src name out h k =
    let (src_map, hs, h1) = >>=-eq-ok (wrap indexing_new (to_map x src)) _ h in
    let (dst_map, hd, h2) = >>=-eq-ok (wrap indexing_current (to_map x dst)) _ h1 in
    let (is, fs) = to_map_lem x k src src_map (wrap-eq-ok _ _ hs) in
    let (id, fd) = to_map_lem x k dst dst_map (wrap-eq-ok _ _ hd) in
    let kept = remove_where (belongs_to name) dst_map in
    let ik = remove_where-IsIndex (key_of x) (belongs_to name) dst_map id in
    let im = insert_all-IsIndex (key_of x) kept src_map ik is in
    ap (find_route x k) (sym (ok_injective h2))
    ∙ find_by-sort (key_of x) route_less k (insert_all kept src_map) im
    ∙ lookup-insert_all (key_of x) k kept src_map is
    ∙ ap (λ o. first_of o (lookup k kept)) fs
    ∙ ap (first_of (find_route x k src)) (
        lookup-remove_where (belongs_to name) k dst_map
        ∙ ap (λ o. if belongs_to name k then none else o) fd)

-- After deleteRoutes, where it succeeds, the configuration has the routes of the other ingresses,
-- as they were, and none of the ingress.
pub find_route-delete_routes :
    (x : Externals) (cfg : List Route) (name : NamespacedName) (out : List Route)
    → delete_routes x cfg name ≡ ok out
    → (k : RouteId) → find_route x k out ≡ (if is_id_of name k then none else find_route x k cfg)
unfolding delete_routes remove_name to_list
find_route-delete_routes x cfg name out h k =
    let (m, hm, h1) = >>=-eq-ok (to_map x cfg) _ h in
    let (i, f) = to_map_lem x k cfg m hm in
    let kept = remove_where (belongs_to name) m in
    ap (find_route x k) (sym (ok_injective h1))
    ∙ find_by-sort (key_of x) route_less k kept
        (remove_where-IsIndex (key_of x) (belongs_to name) m i)
    ∙ lookup-remove_where (belongs_to name) k m
    ∙ ap (λ o. if belongs_to name k then none else o) f

-- No two routes of a merged configuration have the same key.
pub merge_routes-IsDistinct :
    (x : Externals) (dst src : List Route) (name : NamespacedName) (out : List Route)
    → merge_routes x dst src name ≡ ok out
    → IsDistinct (key_of x) out
unfolding merge_routes merge remove_name to_list
merge_routes-IsDistinct x dst src name out h =
    let (src_map, hs, h1) = >>=-eq-ok (wrap indexing_new (to_map x src)) _ h in
    let (dst_map, hd, h2) = >>=-eq-ok (wrap indexing_current (to_map x dst)) _ h1 in
    let kept = remove_where (belongs_to name) dst_map in
    let ik =
      remove_where-IsIndex (key_of x) (belongs_to name) dst_map
        (to_map-IsRouteIndex x dst dst_map (wrap-eq-ok _ _ hd)) in
    subst (IsDistinct (key_of x)) (ok_injective h2) (
      sort-IsDistinct (key_of x) route_less (insert_all kept src_map) (
        insert_all-IsIndex (key_of x) kept src_map ik
          (to_map-IsRouteIndex x src src_map (wrap-eq-ok _ _ hs))))

pub delete_routes-IsDistinct :
    (x : Externals) (cfg : List Route) (name : NamespacedName) (out : List Route)
    → delete_routes x cfg name ≡ ok out
    → IsDistinct (key_of x) out
unfolding delete_routes remove_name to_list
delete_routes-IsDistinct x cfg name out h =
    let (m, hm, h1) = >>=-eq-ok (to_map x cfg) _ h in
    subst (IsDistinct (key_of x)) (ok_injective h1) (
      sort-IsDistinct (key_of x) route_less (remove_where (belongs_to name) m)
        (remove_where-IsIndex (key_of x) (belongs_to name) m (to_map-IsRouteIndex x cfg m hm)))
