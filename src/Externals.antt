-- ===== src/Externals.antt =====
-- The code outside the repository that the conversion of an ingress calls: the YAML, JSON and
-- protobuf decoders, the policy compiler and the slug library. Each is a function here; what a
-- theorem needs of one stands in its hypotheses.
use ingress_controller.Gateway.RefKey.{ref_key_eq}
use ingress_controller.Prelude.{
  Bool, Eq, Option, Result, String, arith, nat_eq, string_eq, true, ◌&&◌, ◌==◌, ◌↔◌, ◌≡◌,
}
use ingress_controller.Prelude.Map.{Map}
use ingress_controller.Prelude.Text.{char_eq}
use ingress_controller.Route.{Policy, Route}
use ingress_controller.Types.{key_eq, namespaced_name_eq, secret_type_eq}
use text.Mathlib.TextEquality.{eq_iff}

-- pomerium/route_list.go: routeID
pub record RouteId : Type 0 where
  pub name : String
  pub namespace : String
  pub host : String
  pub path : String

abbrev route_id_beq : RouteId → RouteId → Bool
route_id_beq a b =
    a.name == b.name && a.namespace == b.namespace && a.host == b.host && a.path == b.path

pub route_id_beq_iff : (a b : RouteId) → (route_id_beq a b ≡ true) ↔ (a ≡ b)
route_id_beq_iff a b = ground (
  arith,
  eq_iff a.name b.name,
  eq_iff a.namespace b.namespace,
  eq_iff a.host b.host,
  eq_iff a.path b.path,
)

instance abbrev pub route_id_eq : Eq RouteId
route_id_eq = record { beq = route_id_beq; beq_iff = route_id_beq_iff }

pub record Externals : Type 0 where
  -- slug.Make
  pub slug : String → String
  -- json.Marshal and json.Unmarshal of a routeID
  pub marshal_route_id : RouteId → String
  pub unmarshal_route_id : String → Option RouteId
  -- unmarshalAnnotations into a route and into a policy (yaml, then protojson)
  pub unmarshal_route : Map String String → Route → Result String Route
  pub unmarshal_policy : Map String String → Policy → Result String Policy
  -- yaml.Unmarshal into a map of texts
  pub unmarshal_params : String → Map String String → Result String (Map String String)
  -- policy.GenerateRegoFromReader and ast.ParseModule
  pub generate_rego : String → Result String String
  pub parse_module : String → Result String (Unit {0})
  -- base64.StdEncoding.EncodeToString
  pub encode_base64 : String → String
