-- ===== src/Gateway/Hostname/Served.antt =====
-- The hosts that a route serves through a listener.
use ingress_controller.Gateway.Hostname.{hostname_intersection, matching_hostnames, route_hostnames}
use ingress_controller.Gateway.Hostname.Intersection.{
  matches, matches-hostname_intersection, matches_empty,
}
use ingress_controller.Gateway.RefKey.{ref_key_eq}
use ingress_controller.Prelude.{
  All, Bool, List, Option, String, [], any, arith, false, inl, inr, nat_eq, none, refl, some,
  string_eq, true, ◌&&◌, ◌==◌, ◌||◌, ◌∷◌, ◌≡◌, ◌≢◌, ◌⊎◌,
}
use ingress_controller.Prelude.Text.{char_eq, has_prefix}
use ingress_controller.Types.{key_eq, namespaced_name_eq, secret_type_eq}
use text.Mathlib.TextEquality.{eq_iff}

-- A hostname of the result, where "*" stands for every host.
pub serves : List String → String → Bool
serves hostnames h = any (λ p. p == "*" || matches p h) hostnames

-- No hostname restricts the hosts where it is left out.
pub listener_accepts : Option String → String → Bool
listener_accepts none h = true
listener_accepts (some p) h = matches p h

pub route_accepts : List String → String → Bool
route_accepts [] h = true
route_accepts (r ∷ rs) h = matches r h || any (λ p. matches p h) rs

abbrev pub IsNoStar : Option String → Type 0
IsNoStar none = Unit
IsNoStar (some p) = p ≢ "*"

intersection_cases :
    (a b : String)
    → (hostname_intersection a b ≡ a)
      ⊎ ((hostname_intersection a b ≡ b) ⊎ (hostname_intersection a b ≡ ""))
unfolding hostname_intersection
intersection_cases a b = ground arith

intersection-ne-star :
    (a b : String) → a ≢ "*" → b ≢ "*" → (hostname_intersection a b == "*") ≡ false
intersection-ne-star a b na nb = elim (intersection_cases a b) [
  | inl e ↦ rw e (ground (arith, eq_iff a "*"))
  | inr (inl e) ↦ rw e (ground (arith, eq_iff b "*"))
  | inr (inr e) ↦ rw e refl
]

serves_of_no_star :
    (rs : List String) (h : String)
    → All (λ r. r ≢ "*") rs
    → serves rs h ≡ any (λ p. matches p h) rs
unfolding serves
serves_of_no_star [] h n = refl
serves_of_no_star (r ∷ rs) h n = ground (arith, serves_of_no_star rs h n.1, eq_iff r "*")

serves-matching_hostnames :
    (l : String) (rs : List String) (h : String)
    → h ≢ ""
    → has_prefix h "*." ≡ false
    → l ≢ "*"
    → All (λ r. r ≢ "*") rs
    → serves (matching_hostnames l rs) h ≡ (matches l h && any (λ p. matches p h) rs)
unfolding serves matching_hostnames
serves-matching_hostnames l [] h nh wh nl nr = ground arith
serves-matching_hostnames l (r ∷ rs) h nh wh nl nr = ground (
  arith,
  serves-matching_hostnames l rs h nh wh nl nr.1,
  matches-hostname_intersection l r h nh wh,
  intersection-ne-star l r nl nr.0,
  matches_empty h nh,
  eq_iff (hostname_intersection l r) "",
)

-- With hostnames that are not the bare "*", a host, whose name is not empty and is no wildcard, is
-- served exactly if both the listener and the route accept it, where a missing hostname accepts
-- every host.
pub serves-route_hostnames :
    (l : Option String) (rs : List String) (h : String)
    → h ≢ ""
    → has_prefix h "*." ≡ false
    → IsNoStar l
    → All (λ r. r ≢ "*") rs
    → serves (route_hostnames l rs) h ≡ (listener_accepts l h && route_accepts rs h)
unfolding route_hostnames listener_accepts route_accepts
serves-route_hostnames none [] h nh wh nl nr = unfold serves in refl
serves-route_hostnames none (r ∷ rs) h nh wh nl nr = serves_of_no_star (r ∷ rs) h nr
serves-route_hostnames (some l) [] h nh wh nl nr = unfold serves in ground (arith, eq_iff l "*")
serves-route_hostnames (some l) (r ∷ rs) h nh wh nl nr =
    serves-matching_hostnames l (r ∷ rs) h nh wh nl nr
