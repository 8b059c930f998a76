-- ===== src/Gateway/Hostname/Intersection.antt =====
-- The intersection of hostnames against what a hostname matches.
use ingress_controller.Certs.{domain_key_eq}
use ingress_controller.Externals.{route_id_eq}
use ingress_controller.Gateway.Hostname.{hostname_intersection, tail_of}
use ingress_controller.Gateway.Hostname.Suffix.{
  has_suffix_antisymm, has_suffix_refl, has_suffix_total, has_suffix_trans,
}
use ingress_controller.Gateway.RefKey.{ref_key_eq}
use ingress_controller.Prelude.{
  Bool, Bool-cases, String, ap, arith, false, inl, inr, nat_eq, refl, string_eq, true, ◌&&◌, ◌==◌,
  ◌||◌, ◌≡◌, ◌≢◌,
}
use ingress_controller.Prelude.Text.{char_beq_iff, char_eq, has_prefix, has_suffix}
use Prim.Native.Char.{Char}
use ingress_controller.Types.{key_eq, namespaced_name_eq, secret_type_eq}
use text.Mathlib.TextEquality.{eq_iff}

-- Whether a hostname, with its wildcard as a suffix match, matches the name of a host.
pub matches : String → String → Bool
matches p h = p == h || has_prefix p "*." && has_suffix h (tail_of p)

-- The suffix that a wildcard stands for is a suffix of the wildcard.
has_suffix-tail_of : (a : String) → has_suffix a (tail_of a) ≡ true
unfolding has_suffix
has_suffix-tail_of String.[] = refl
has_suffix-tail_of (String.◌∷◌ c s) = ground (arith, has_suffix_refl s)

-- A proper suffix of a text is one of its tail.
has_suffix_of_tail :
    (b t : String) → (b ≡ t → ⊥) → has_suffix b t ≡ true → has_suffix (tail_of b) t ≡ true
unfolding has_suffix
has_suffix_of_tail String.[] t n h = absurd (n ((eq_iff String.[] t).0 h))
has_suffix_of_tail (String.◌∷◌ c s) t n h = ground (arith, eq_iff (String.◌∷◌ c s) t)

first_is : Char → String → Bool
first_is c String.[] = false
first_is c (String.◌∷◌ d s) = d == c

first_is-wildcard : (a : String) → has_prefix a "*." ≡ true → first_is "*" a ≡ true
unfolding has_prefix first_is
first_is-wildcard String.[] h = cc
first_is-wildcard (String.◌∷◌ c s) h = ground arith

first_is-tail_of : (a : String) → has_prefix a "*." ≡ true → first_is "." (tail_of a) ≡ true
unfolding has_prefix first_is
first_is-tail_of String.[] h = cc
first_is-tail_of (String.◌∷◌ c String.[]) h = ground arith
first_is-tail_of (String.◌∷◌ c (String.◌∷◌ d s)) h = ground arith

first_is_unique : (s : String) → first_is "*" s ≡ true → first_is "." s ≡ true → ⊥
unfolding first_is
first_is_unique String.[] h k = cc
first_is_unique (String.◌∷◌ c s) h k = ground arith

wildcard-ne-tail_of :
    (a b : String) → has_prefix a "*." ≡ true → has_prefix b "*." ≡ true → b ≡ tail_of a → ⊥
wildcard-ne-tail_of a b wa wb e =
    first_is_unique (tail_of a) (rw (← e) (first_is-wildcard b wb)) (first_is-tail_of a wa)

-- A name that is no wildcard is matched by a wildcard only through its suffix.
matches_wildcard :
    (p h : String)
    → has_prefix p "*." ≡ true
    → has_prefix h "*." ≡ false
    → matches p h ≡ has_suffix h (tail_of p)
unfolding matches
matches_wildcard p h wp wh = ground (arith, eq_iff p h, ap (λ s. has_prefix s "*.") {x = p} {y = h})

matches_plain : (p h : String) → has_prefix p "*." ≡ false → matches p h ≡ (p == h)
unfolding matches
matches_plain p h wp = ground arith

-- Two wildcards of which each holds the other's suffix are equal.
tails_antisymm :
    (a b : String)
    → has_prefix a "*." ≡ true
    → has_prefix b "*." ≡ true
    → has_suffix (tail_of a) (tail_of b) ≡ true
    → has_suffix (tail_of b) (tail_of a) ≡ true
    → a ≡ b
unfolding has_prefix
tails_antisymm (String.◌∷◌ c s) (String.◌∷◌ d t) wa wb h k =
    ground (arith, has_suffix_antisymm s t h k, char_beq_iff c "*", char_beq_iff d "*")
tails_antisymm a b wa wb h k = cc

pub matches_empty : (h : String) → h ≢ "" → matches "" h ≡ false
unfolding matches has_prefix
matches_empty h n = ground (arith, eq_iff "" h)

-- Two wildcards: the longer suffix is the intersection, and the shorter follows from it.
intersection_wildcards :
    (a b h : String)
    → h ≢ ""
    → has_prefix h "*." ≡ false
    → has_prefix a "*." ≡ true
    → has_prefix b "*." ≡ true
    → matches (hostname_intersection a b) h ≡ (matches a h && matches b h)
unfolding hostname_intersection
intersection_wildcards a b h n wh wa wb = ground (
  arith,
  eq_iff a b,
  matches_empty h n,
  matches_wildcard a h wa wh,
  matches_wildcard b h wb wh,
  has_suffix_trans h (tail_of b) (tail_of a),
  has_suffix_trans h (tail_of a) (tail_of b),
  has_suffix_of_tail b (tail_of a) (wildcard-ne-tail_of a b wa wb),
  has_suffix_of_tail a (tail_of b) (wildcard-ne-tail_of b a wb wa),
  has_suffix_total h (tail_of a) (tail_of b),
  has_suffix_trans a (tail_of a) (tail_of b),
  has_suffix_trans b (tail_of b) (tail_of a),
  has_suffix-tail_of a,
  has_suffix-tail_of b,
)

intersection_left :
    (a b h : String)
    → h ≢ ""
    → has_prefix h "*." ≡ false
    → has_prefix a "*." ≡ true
    → has_prefix b "*." ≡ false
    → matches (hostname_intersection a b) h ≡ (matches a h && matches b h)
unfolding hostname_intersection
intersection_left a b h n wh wa wb = ground (
  arith,
  eq_iff a b,
  eq_iff b h,
  matches_empty h n,
  matches_wildcard a h wa wh,
  matches_plain b h wb,
)

intersection_right :
    (a b h : String)
    → h ≢ ""
    → has_prefix h "*." ≡ false
    → has_prefix a "*." ≡ false
    → has_prefix b "*." ≡ true
    → matches (hostname_intersection a b) h ≡ (matches a h && matches b h)
unfolding hostname_intersection
intersection_right a b h n wh wa wb = ground (
  arith,
  eq_iff a b,
  eq_iff a h,
  matches_empty h n,
  matches_wildcard b h wb wh,
  matches_plain a h wa,
)

intersection_plain :
    (a b h : String)
    → h ≢ ""
    → has_prefix a "*." ≡ false
    → has_prefix b "*." ≡ false
    → matches (hostname_intersection a b) h ≡ (matches a h && matches b h)
unfolding hostname_intersection
intersection_plain a b h n wa wb = ground (
  arith,
  eq_iff a b,
  eq_iff a h,
  eq_iff b h,
  matches_empty h n,
  matches_plain a h wa,
  matches_plain b h wb,
)

-- A host, whose name is not empty and is no wildcard, is matched by the intersection of two
-- hostnames exactly if it is matched by both.
pub matches-hostname_intersection :
    (a b h : String)
    → h ≢ ""
    → has_prefix h "*." ≡ false
    → matches (hostname_intersection a b) h ≡ (matches a h && matches b h)
matches-hostname_intersection a b h n wh = elim (Bool-cases (has_prefix a "*.")) [
  | inl wa ↦ elim (Bool-cases (has_prefix b "*.")) [
    | inl wb ↦ intersection_wildcards a b h n wh wa wb
    | inr wb ↦ intersection_left a b h n wh wa wb
  ]
  | inr wa ↦ elim (Bool-cases (has_prefix b "*.")) [
    | inl wb ↦ intersection_right a b h n wh wa wb
    | inr wb ↦ intersection_plain a b h n wa wb
  ]
]

-- The order of the listener's and the route's hostname does not matter.
hostname_intersection_comm : (a b : String) → hostname_intersection a b ≡ hostname_intersection b a
unfolding hostname_intersection
hostname_intersection_comm a b = elim (Bool-cases (has_prefix a "*." && has_prefix b "*.")) [
  | inl w ↦ ground (
    arith,
    eq_iff a b,
    eq_iff b a,
    has_suffix_of_tail b (tail_of a) (wildcard-ne-tail_of a b (ground arith) (ground arith)),
    has_suffix_of_tail a (tail_of b) (wildcard-ne-tail_of b a (ground arith) (ground arith)),
    tails_antisymm a b,
  )
  | inr w ↦ ground (arith, eq_iff a b, eq_iff b a)
]
