-- ===== src/Gateway/Conditions/Upsert.antt =====
-- What upsertCondition does to the conditions of each type.
use ingress_controller.Externals.{route_id_eq}
use ingress_controller.Gateway.Conditions.{
  Condition, same_content, stamp, upsert_condition, upsert_stamped,
}
use ingress_controller.Gateway.RefKey.{ref_key_eq}
use ingress_controller.Prelude.{
  Bool-cases, List, Option, String, [], arith, beq_refl, false, if◌then◌else◌, inl, inr, nat_eq,
  none, some, string_eq, true, ℕ, ◌==◌, ◌∷◌, ◌≡◌, ◌≢◌, ◌⊎◌,
}
use ingress_controller.Prelude.Text.{char_eq}
use ingress_controller.Types.{key_eq, namespaced_name_eq, secret_type_eq}
use text.Mathlib.TextEquality.{eq_iff}

-- The condition of a type: the first, as the code finds it.
pub condition_of : String → List Condition → Option Condition
condition_of t [] = none
condition_of t (d ∷ ds) = if d.condition_type == t then some d else condition_of t ds

-- The two conditions say the same, but for the time of the last transition.
pub record SameContent (c d : Condition) : Type 0 where
  pub condition_type : c.condition_type ≡ d.condition_type
  pub status : c.status ≡ d.status
  pub reason : c.reason ≡ d.reason
  pub message : c.message ≡ d.message
  pub observed_generation : c.observed_generation ≡ d.observed_generation

condition_of-upsert_ne :
    (c : Condition) (t : String) (conds : List Condition)
    → c.condition_type ≢ t
    → condition_of t (upsert_stamped c conds).0 ≡ condition_of t conds
unfolding upsert_stamped condition_of
condition_of-upsert_ne c t [] h = ground (arith, eq_iff c.condition_type t)
condition_of-upsert_ne c t (d ∷ ds) h = ground (
  arith,
  condition_of-upsert_ne c t ds h,
  eq_iff c.condition_type t,
  eq_iff d.condition_type t,
  eq_iff d.condition_type c.condition_type,
)

SameContent-of_test :
    (c d : Condition)
    → d.condition_type ≡ c.condition_type
    → same_content d c ≡ true
    → SameContent d c
unfolding same_content
SameContent-of_test c d e h =
    ground (arith, eq_iff d.status c.status, eq_iff d.reason c.reason, eq_iff d.message c.message)

same_content_refl : (c : Condition) → same_content c c ≡ true
unfolding same_content
same_content_refl c = ground (arith, beq_refl c.status, beq_refl c.reason, beq_refl c.message)

condition_of-upsert_self :
    (c : Condition) (conds : List Condition)
    → (d : Condition) × (condition_of c.condition_type (upsert_stamped c conds).0 ≡ some d)
      × SameContent d c
unfolding upsert_stamped condition_of
condition_of-upsert_self c [] = (c, ground (arith, beq_refl c.condition_type), ground arith)
condition_of-upsert_self c (d ∷ ds) = elim (Bool-cases (d.condition_type == c.condition_type)) [
  | inl here ↦ elim (Bool-cases (same_content d c)) [
    | inl same ↦ (
      d,
      rw (here, same) (rw here),
      SameContent-of_test c d ((eq_iff d.condition_type c.condition_type).0 here) same,
    )
    | inr changed ↦
        (c, rw (here, changed) (ground (arith, beq_refl c.condition_type)), ground arith)
  ]
  | inr differs ↦
      let (e, found, same) = condition_of-upsert_self c ds in
      (e, rw differs (rw differs found), same)
]

unmodified_iff :
    (c : Condition) (conds : List Condition)
    → (upsert_stamped c conds).1 ≡ false
    → (upsert_stamped c conds).0 ≡ conds
unfolding upsert_stamped
unmodified_iff c [] h = cc
unmodified_iff c (d ∷ ds) h = ground (arith, unmodified_iff c ds)

upsert_again :
    (c e : Condition) (conds : List Condition)
    → SameContent c e
    → upsert_stamped e (upsert_stamped c conds).0 ≡ ((upsert_stamped c conds).0, false)
unfolding upsert_stamped same_content
upsert_again c e [] s = ground (
  arith,
  eq_iff c.condition_type e.condition_type,
  eq_iff c.status e.status,
  eq_iff c.reason e.reason,
  eq_iff c.message e.message,
)
upsert_again c e (d ∷ ds) s = ground (
  arith,
  upsert_again c e ds s,
  eq_iff c.condition_type e.condition_type,
  eq_iff c.status e.status,
  eq_iff c.reason e.reason,
  eq_iff c.message e.message,
  eq_iff d.status e.status,
  eq_iff d.reason e.reason,
  eq_iff d.message e.message,
  eq_iff d.condition_type e.condition_type,
  eq_iff d.condition_type c.condition_type,
)

-- After upsertCondition the condition of the type has the status, reason, message and generation
-- asked for, and the conditions of any other type are as before; and it reports a modification or
-- leaves the list, its transition times included, as it was.
pub upsert_condition_lem :
    (now generation : ℕ) (c : Condition) (conds : List Condition) (t : String)
    → c.condition_type ≢ t
    → ((d : Condition) × (condition_of c.condition_type (upsert_condition now generation c conds).0
          ≡ some d)
        × SameContent d (stamp now generation c))
      × (condition_of t (upsert_condition now generation c conds).0 ≡ condition_of t conds)
      × (((upsert_condition now generation c conds).1 ≡ true)
          ⊎ ((upsert_condition now generation c conds).0 ≡ conds))
unfolding upsert_condition stamp
upsert_condition_lem now generation c conds t other_type = (
  condition_of-upsert_self (stamp now generation c) conds,
  condition_of-upsert_ne (stamp now generation c) t conds other_type,
  ground (arith, unmodified_iff (stamp now generation c) conds),
)

-- A second upsertCondition of the same condition, at any later time, changes nothing and reports no
-- modification, so that a reconciled status is not written again.
pub upsert_condition_idem :
    (now later generation : ℕ) (c : Condition) (conds : List Condition)
    → upsert_condition later generation c (upsert_condition now generation c conds).0
      ≡ ((upsert_condition now generation c conds).0, false)
unfolding upsert_condition stamp
upsert_condition_idem now later generation c conds =
    upsert_again (stamp now generation c) (stamp later generation c) conds (ground arith)
