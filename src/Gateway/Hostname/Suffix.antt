-- ===== src/Gateway/Hostname/Suffix.antt =====
-- The suffixes of a text: `has_suffix` is an order on them.
use Prim.Native.String.count
use ingress_controller.Gateway.RefKey.{ref_key_eq}
use ingress_controller.Prelude.{
  Bool-cases, String, arith, beq_refl, inl, inr, nat_eq, refl, string_eq, true, ◌==◌, ◌≡◌, ◌≤◌, ◌⊎◌,
}
use ingress_controller.Prelude.Text.{char_eq, has_suffix}
use Prim.Native.String.{count}
use ingress_controller.Types.{key_eq, namespaced_name_eq, secret_type_eq}
use text.Mathlib.TextEquality.{eq_iff}

pub has_suffix_refl : (s : String) → has_suffix s s ≡ true
unfolding has_suffix
has_suffix_refl String.[] = refl
has_suffix_refl (String.◌∷◌ c s) = ground (arith, beq_refl (String.◌∷◌ c s))

pub has_suffix_trans :
    (s t u : String) → has_suffix s t ≡ true → has_suffix t u ≡ true → has_suffix s u ≡ true
unfolding has_suffix
has_suffix_trans String.[] t u h k = rw (← (eq_iff String.[] t).0 h) at k
has_suffix_trans (String.◌∷◌ c s) t u h k = elim (Bool-cases (String.◌∷◌ c s == t)) [
  | inl same ↦ rw (← (eq_iff (String.◌∷◌ c s) t).0 same) at k
  | inr differs ↦ ground (arith, has_suffix_trans s t u)
]

-- Of two suffixes of one text, one is a suffix of the other.
pub has_suffix_total :
    (s t u : String)
    → has_suffix s t ≡ true
    → has_suffix s u ≡ true
    → (has_suffix t u ≡ true) ⊎ (has_suffix u t ≡ true)
unfolding has_suffix
has_suffix_total String.[] t u h k = inl (rw (← (eq_iff String.[] t).0 h) k)
has_suffix_total (String.◌∷◌ c s) t u h k = elim (Bool-cases (String.◌∷◌ c s == t)) [
  | inl same ↦ inl (rw (← (eq_iff (String.◌∷◌ c s) t).0 same) k)
  | inr differs ↦ elim (Bool-cases (String.◌∷◌ c s == u)) [
    | inl same ↦ inr (rw (← (eq_iff (String.◌∷◌ c s) u).0 same) h)
    | inr other_differs ↦ has_suffix_total s t u (ground arith) (ground arith)
  ]
]

count-has_suffix-le : (s t : String) → has_suffix s t ≡ true → count t ≤ count s
unfolding has_suffix
count-has_suffix-le String.[] t h = rw (← (eq_iff String.[] t).0 h) (omega arith)
count-has_suffix-le (String.◌∷◌ c s) t h = elim (Bool-cases (String.◌∷◌ c s == t)) [
  | inl same ↦ rw (← (eq_iff (String.◌∷◌ c s) t).0 same) (omega arith)
  | inr differs ↦
      let ih : count t ≤ count s = count-has_suffix-le s t (ground arith) in
      omega (arith, count.cons c s)
]

pub has_suffix_antisymm : (s t : String) → has_suffix s t ≡ true → has_suffix t s ≡ true → s ≡ t
unfolding has_suffix
has_suffix_antisymm String.[] t h k = (eq_iff String.[] t).0 h
has_suffix_antisymm (String.◌∷◌ c s) t h k = elim (Bool-cases (String.◌∷◌ c s == t)) [
  | inl same ↦ (eq_iff (String.◌∷◌ c s) t).0 same
  | inr differs ↦
      let shorter : count t ≤ count s = count-has_suffix-le s t (ground arith) in
      let longer : count (String.◌∷◌ c s) ≤ count t = count-has_suffix-le t (String.◌∷◌ c s) k in
      absurd (omega (arith, count.cons c s))
]
