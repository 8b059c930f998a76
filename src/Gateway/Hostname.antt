-- ===== src/Gateway/Hostname.antt =====
-- controllers/gateway/httproute.go: the hostnames that a route serves through a listener.
pub mod Suffix
pub mod Intersection
pub mod Served
use ingress_controller.Gateway.RefKey.{ref_key_eq}
use ingress_controller.Prelude.{
  List, Option, String, [], if◌then◌else◌, nat_eq, none, some, string_eq, ◌&&◌, ◌==◌, ◌∷◌,
}
use ingress_controller.Prelude.Text.{char_eq, has_prefix, has_suffix}
use ingress_controller.Types.{key_eq, namespaced_name_eq, secret_type_eq}

-- s[1:]; the code takes it of a text with the prefix "*."
abbrev pub tail_of : String → String
tail_of String.[] = String.[]
tail_of (String.◌∷◌ c s) = s

-- hostnameIntersection
pub hostname_intersection : String → String → String
hostname_intersection a b =
    if a == b
    then a
    else if has_prefix a "*." && has_suffix b (tail_of a)
    then b
    else if has_prefix b "*." && has_suffix a (tail_of b)
    then a
    else ""

-- The loop of routeHostnames over the route's hostnames.
pub matching_hostnames : String → List String → List String
unfolding hostname_intersection
matching_hostnames l [] = []
matching_hostnames l (r ∷ rs) =
    let h = hostname_intersection l r in
    let rest = matching_hostnames l rs in if h == "" then rest else h ∷ rest

-- routeHostnames
pub route_hostnames : Option String → List String → List String
unfolding matching_hostnames
route_hostnames none [] = "*" ∷ []
route_hostnames none (r ∷ rs) = r ∷ rs
route_hostnames (some l) [] = l ∷ []
route_hostnames (some l) (r ∷ rs) = matching_hostnames l (r ∷ rs)
