-- ===== src/RouteList.antt =====
-- pomerium/route_list.go and pomerium/routes.go: the routes of a configuration, indexed by the
-- ingress, host and path that their ids hold.
pub mod Index
pub mod Merging
use ingress_controller.Externals.{Externals, RouteId, route_id_eq}
use ingress_controller.Gateway.RefKey.{ref_key_eq}
use ingress_controller.IngressConfig.{IngressConfig}
use ingress_controller.IngressRoutes.{ingress_to_routes}
use ingress_controller.IngressRoutes.Errors.{RouteError}
use ingress_controller.Prelude.{
  Bool, List, Option, Result, String, [], err, false, guard, if◌then◌else◌, map, nat_eq, none, not,
  ok, some, string_eq, true, wrap, ◌&&◌, ◌==◌, ◌>>=◌, ◌>>◌, ◌∷◌,
}
use ingress_controller.Prelude.Map.{Map, has_key, insert, insert_all, remove_where}
use ingress_controller.Prelude.Sort.{sort, str_lt}
use ingress_controller.Prelude.Text.{char_eq}
use ingress_controller.Route.{Route}
use ingress_controller.Types.{NamespacedName, key_eq, namespaced_name_eq, secret_type_eq}

-- routeMap
abbrev pub RouteMap : Type 0
RouteMap = Map RouteId Route

pub data RouteListError : Type 0 where
  cannot_decode : String → RouteListError
  duplicate_route : RouteId → RouteListError
  indexing_new indexing_current : RouteListError → RouteListError
  parsing_ingress : RouteError → RouteListError

abbrev pub text_or_empty : Option String → String
text_or_empty none = ""
text_or_empty (some s) = s

abbrev asc : String → String → Bool → Bool
asc a b rest = if str_lt a b then true else if str_lt b a then false else rest

abbrev desc : String → String → Bool → Bool
desc a b rest = if str_lt a b then false else if str_lt b a then true else rest

-- Less
unfoldable pub route_less : Route → Route → Bool
route_less a b = asc a.from b.from (
    desc a.path b.path (
      desc a.regex b.regex
        (desc a.prefix b.prefix (asc (text_or_empty a.id) (text_or_empty b.id) false))))

-- removeName's test
abbrev pub belongs_to : NamespacedName → RouteId → Bool
belongs_to name k = k.name == name.name && k.namespace == name.namespace

-- removeName
unfoldable pub remove_name : RouteMap → NamespacedName → RouteMap
unfolding remove_where
remove_name rm name = remove_where (belongs_to name) rm

-- merge
unfoldable pub merge : RouteMap → RouteMap → RouteMap
unfolding insert_all
merge rm src = insert_all rm src

-- toList
unfoldable pub to_list : RouteMap → List Route
to_list rm = sort route_less (map (λ (id, r). r) rm)

-- ensureDeterministicConfigOrder on the routes
unfoldable pub ensure_deterministic_order : List Route → List Route
ensure_deterministic_order routes = sort route_less routes

module _ (x : Externals) where
  -- The key of a route: its id, decoded.
  abbrev pub key_of : Route → Option RouteId
  key_of r = x.unmarshal_route_id (text_or_empty r.id)

  -- The loop of toMap
  unfoldable pub index_routes : List Route → RouteMap → Result RouteListError RouteMap
  index_routes [] m = ok m
  index_routes (r ∷ routes) m = elim (key_of r) [
    | none ↦ err (cannot_decode (text_or_empty r.id))
    | some key ↦ do
      guard (not (has_key key m)) (duplicate_route key)
      index_routes routes (insert key r m)
  ]

  -- toMap
  unfoldable pub to_map : List Route → Result RouteListError RouteMap
  unfolding index_routes
  to_map routes = index_routes routes []

  -- mergeRoutes, on the routes of the configuration
  unfoldable pub merge_routes :
      List Route → List Route → NamespacedName → Result RouteListError (List Route)
  unfolding to_map remove_name merge to_list
  merge_routes dst src name = do
    src_map ← wrap indexing_new (to_map src)
    dst_map ← wrap indexing_current (to_map dst)
    ok (to_list (merge (remove_name dst_map name) src_map))

  -- upsertRoutes
  unfoldable pub upsert_routes : List Route → IngressConfig → Result RouteListError (List Route)
  unfolding merge_routes
  upsert_routes cfg ic = do
    ing_routes ← wrap parsing_ingress (ingress_to_routes x ic)
    merge_routes cfg ing_routes ic.ingress.namespaced_name

  -- deleteRoutes
  unfoldable pub delete_routes : List Route → NamespacedName → Result RouteListError (List Route)
  unfolding to_map remove_name to_list
  delete_routes cfg name = do rm ← to_map cfg; ok (to_list (remove_name rm name))
