-- ===== src/Examples/Api.antt =====
-- The theorems on the API reconciler at concrete inputs.
use ingress_controller.Api.{
  ApiClient, ApiObject, Clients, KeyPairBody, KeyPairMetadata, PolicyMetadata, RouteBody,
  RouteMetadata, absent, all_route_id_annotations, api_route_id_annotation_prefix, create_new,
  delete_by_id, find_existing, route_kind, upsert_object, visible,
}
use ingress_controller.Api.Deleted.{delete_keeps_finalizer}
use ingress_controller.Api.Deletion.{delete_key_pairs_and_finalizer, delete_routes_and_policy}
use ingress_controller.Api.Ingresses.{delete_api_routes, route_object, upsert_local}
use ingress_controller.Api.Policies.{Local, PplTools, delete_policy_for_object}
use ingress_controller.Api.Secrets.{delete_key_pairs_for_secrets}
use ingress_controller.Api.Steps.{Code, code_not_found}
use ingress_controller.Api.Upserted.{ApiLaws, Holds, IsClear, upsert_object-Holds}
use ingress_controller.Certs.{domain_key_eq}
use ingress_controller.Examples.Routes.{externals, value_or}
use ingress_controller.Examples.Stored.{cart}
use ingress_controller.Externals.{route_id_eq}
use ingress_controller.Gateway.RefKey.{ref_key_eq}
use ingress_controller.IngressRoutes.{ingress_to_routes}
use ingress_controller.Prelude.{
  List, Option, Option-cases, Result, String, [], ap, err, false, inl, inr, is_empty, is_ok, nat_eq,
  none, ok, ok_injective, refl, some, string_eq, sym, true, ◌∙◌, ◌∷◌, ◌≡◌,
}
use ingress_controller.Prelude.Map.{Map, delete, has_key, insert, lookup, lookup-insert_self}
use ingress_controller.Prelude.Set.{contains}
use ingress_controller.Prelude.Text.{char_eq, has_prefix}
use ingress_controller.Route.{Policy, Route, empty_route}
use ingress_controller.RouteList.{text_or_empty}
use ingress_controller.Types.{key_eq, namespaced_name_eq, secret_type_eq}
use mathlib.Core.Bool.{false≢true}

-- An API that keeps its routes in a map, and gives a new one the id "new".
abbrev Stored : Type 0
Stored = ApiObject RouteBody RouteMetadata

abbrev Routes : Type 0
Routes = Map String Stored

abbrev with_id_of : String → Stored → Stored
with_id_of i o = record o { id = some i }

abbrev got : String → Option Stored → Result Code Stored
got i none = err code_not_found
got i (some o) = ok (with_id_of i o)

abbrev route_client : ApiClient Routes RouteBody RouteMetadata
route_client = record {
  get_object = λ s i. got i (lookup i s);
  list_by_name = λ s originator name. ok [];
  create_object = λ s o. (ok (with_id_of "new" o), insert "new" o s);
  update_object = λ s o. (ok tt, insert (text_or_empty o.id) o s);
  delete_object = λ s i. (ok tt, delete i s);
  is_same = λ a b. false;
}

abbrev idle_client : (B M : Type 0) → ApiClient Routes B M
idle_client B M = record {
  get_object = λ s i. err code_not_found;
  list_by_name = λ s originator name. ok [];
  create_object = λ s o. (ok (record o { id = some "p" }), s);
  update_object = λ s o. (ok tt, s);
  delete_object = λ s i. (ok tt, s);
  is_same = λ a b. false;
}

abbrev clients : Clients Routes
clients = record {
  routes = route_client;
  policies = idle_client Policy PolicyMetadata;
  key_pairs = idle_client KeyPairBody KeyPairMetadata;
  get_secret = λ s n. err absent;
  patch_secret = λ s secret f. (ok tt, s);
  get_ingress = λ s n. err absent;
  patch_ingress = λ s ingress. (ok tt, s);
  namespace_id = none;
}

id_of_got : (s : Routes) (i : String) (e : Stored) → got i (lookup i s) ≡ ok e → e.id ≡ some i
id_of_got s i e h = elim (Option-cases (lookup i s)) [
  | inl none_there ↦ elim (false≢true (ap is_ok (ap (got i) (sym none_there) ∙ h))) [ ]
  | inr (o, there) ↦ ap (λ c. c.id) (sym (ok_injective (ap (got i) (sym there) ∙ h)))
]

none_listed :
    {e : Stored} {es : List Stored} → ◌≡◌ {A = Result Code (List Stored)} (ok []) (ok (e ∷ es)) → ⊥
none_listed h = cc

route_laws : ApiLaws (route_kind clients)
route_laws = record {
  is_same-eq = λ a b h. elim (false≢true h) [ ];
  id_of_get = id_of_got;
  get_of_list = λ s originator name e es h. elim (none_listed h) [ ];
  get-create = λ s t o new h. (
    "new",
    with_id_of "new" o,
    ap (λ p. p.id) (sym (ok_injective (ap (λ p. p.0) h))),
    ap (λ p. got "new" (lookup "new" p.1)) (sym h) ∙ ap (got "new") (lookup-insert_self "new" o s),
    refl,
  );
  get-update = λ s t o i n h. (
    with_id_of i o,
    ap (λ p. got i (lookup i p.1)) (sym h)
        ∙ ap (λ j. got i (lookup i (insert (text_or_empty j) o s))) n
        ∙ ap (got i) (lookup-insert_self i o s),
    ap (λ j. visible (route_kind clients) o.namespace_id (record o { id = j })) (sym n),
  );
}

abbrev ppl_tools : PplTools
ppl_tools = record {
  read_base = λ kvs. ok (record {
    allow_any_authenticated_user = false;
    allow_public_unauthenticated_access = false;
  });
  to_ppl = λ flags policy. ok [];
  marshal_ppl = λ rules. ok "ppl";
}

abbrev wanted : Stored
wanted = route_object clients externals ppl_tools [] ((none, none), none) "" empty_route

abbrev after_upsert_object : Routes
after_upsert_object = (upsert_object (route_kind clients) wanted []).1

object_made :
    upsert_object (route_kind clients) wanted [] ≡ (ok (true, some "new"), after_upsert_object)
unfolding upsert_object find_existing create_new insert route_object
object_made = refl

wanted-IsClear : IsClear (route_kind clients) route_laws wanted
unfolding route_object
wanted-IsClear = refl

upsert_object-Holds_example :
    Holds (route_kind clients) route_laws after_upsert_object wanted (some "new")
upsert_object-Holds_example =
    upsert_object-Holds (route_kind clients) route_laws wanted true (some "new") []
      after_upsert_object wanted-IsClear object_made

abbrev cart_routes : List Route
cart_routes = value_or [] (ingress_to_routes externals cart)

-- The ingress as it stands before: it has the annotation of a second route that is gone.
abbrev before : Local Routes
before = record {
  world = [];
  annotations = ("api.pomerium.io/route-id-1", "old") ∷ cart.ingress.annotations;
  has_finalizer = true;
  changed = false;
}

abbrev after_local : Local Routes
after_local = (upsert_local clients externals ppl_tools cart cart_routes before).1

abbrev after_first : Local Routes
after_first = (delete_routes_and_policy clients externals ppl_tools before).1

abbrev after_second : Local Routes
after_second = (delete_key_pairs_and_finalizer clients externals ppl_tools [] after_first).1

first_made : delete_routes_and_policy clients externals ppl_tools before ≡ (ok tt, after_first)
unfolding contains lookup has_prefix insert delete has_key delete_by_id all_route_id_annotations
    delete_api_routes delete_policy_for_object delete_key_pairs_for_secrets delete_routes_and_policy
    delete_key_pairs_and_finalizer
first_made = refl

second_made :
    delete_key_pairs_and_finalizer clients externals ppl_tools [] after_first
    ≡ (ok tt, after_second)
unfolding contains lookup has_prefix insert delete has_key delete_by_id all_route_id_annotations
    delete_api_routes delete_policy_for_object delete_key_pairs_for_secrets delete_routes_and_policy
    delete_key_pairs_and_finalizer
second_made = refl

has_a_route : is_empty (all_route_id_annotations before.annotations) ≡ false
unfolding all_route_id_annotations has_prefix
has_a_route = refl

delete_keeps_finalizer_example :
    ((k : String)
      → has_prefix k api_route_id_annotation_prefix ≡ true
      → has_key k after_second.annotations ≡ false)
    × (after_second.has_finalizer ≡ before.has_finalizer)
    × (after_second.changed ≡ true)
delete_keeps_finalizer_example =
    delete_keeps_finalizer clients externals ppl_tools [] before after_first after_second
      has_a_route first_made second_made
