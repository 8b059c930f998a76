-- ===== src/Gateway/Conditions.antt =====
-- controllers/gateway/conditions.go: the list of status conditions of an object.
pub mod Upsert
use ingress_controller.Gateway.RefKey.{ref_key_eq}
use ingress_controller.Prelude.{
  Bool, List, String, [], false, if◌then◌else◌, nat_eq, string_eq, true, ℕ, ◌&&◌, ◌==◌, ◌||◌, ◌∷◌,
}
use ingress_controller.Prelude.Text.{char_eq}
use ingress_controller.Types.{key_eq, namespaced_name_eq, secret_type_eq}

-- metav1.Condition; `message` and the times are the code's, status is "True", "False" or "Unknown".
pub record Condition : Type 0 where
  pub condition_type : String
  pub status : String
  pub reason : String
  pub message : String
  pub observed_generation : ℕ
  pub last_transition_time : ℕ

-- The fields that upsertCondition compares.
pub same_content : Condition → Condition → Bool
same_content c d =
    c.observed_generation == d.observed_generation
    && c.status == d.status
    && c.reason == d.reason
    && c.message == d.message

-- The loop of upsertCondition, for a condition that has its generation and time.
pub upsert_stamped : Condition → List Condition → List Condition × Bool
unfolding same_content
upsert_stamped c [] = (c ∷ [], true)
upsert_stamped c (d ∷ ds) =
    let (rest, modified) = upsert_stamped c ds in
    if d.condition_type == c.condition_type
    then (if same_content d c then (d ∷ ds, false) else (c ∷ ds, true))
    else (d ∷ rest, modified)

pub stamp : ℕ → ℕ → Condition → Condition
stamp now generation c = record c { observed_generation = generation; last_transition_time = now }

-- upsertCondition; `now` is what metav1.Now returns
pub upsert_condition : ℕ → ℕ → Condition → List Condition → List Condition × Bool
unfolding upsert_stamped stamp
upsert_condition now generation c conds = upsert_stamped (stamp now generation c) conds

-- upsertConditions
pub upsert_conditions : ℕ → ℕ → List Condition → List Condition → List Condition × Bool
unfolding upsert_condition
upsert_conditions now generation [] conds = (conds, false)
upsert_conditions now generation (c ∷ cs) conds =
    let (conds', changed) = upsert_condition now generation c conds in
    let (last, modified) = upsert_conditions now generation cs conds' in (last, changed || modified)
