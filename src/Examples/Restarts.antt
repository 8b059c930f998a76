-- ===== src/Examples/Restarts.antt =====
-- The theorem on restarts at a concrete run.
use ingress_controller.Certs.{domain_key_eq}
use ingress_controller.Externals.{route_id_eq}
use ingress_controller.Gateway.RefKey.{ref_key_eq}
use ingress_controller.Prelude.{
  Bool, [], false, length, nat_eq, refl, string_eq, true, ℕ, ◌==◌, ◌∷◌, ◌≤◌,
}
use ingress_controller.Prelude.Text.{char_eq}
use ingress_controller.Restart.{
  Reachable, State, Task, TaskStatus, after_step, at_start_of_run, awaiting, canceled, end_task,
  hand_over, restart, running, selecting, start, take, take_first, watching,
}
use ingress_controller.Restart.Single.{Reachable-single, RunsLatest}
use ingress_controller.Types.{key_eq, namespaced_name_eq, secret_type_eq}

abbrev same_config : ℕ → ℕ → Bool
same_config a b = a == b

abbrev Reaches : State ℕ → Type 0
Reaches = Reachable 0 same_config

abbrev task_of : ℕ → TaskStatus → Task ℕ
task_of n s = record { config = n; status = s }

-- A first configuration, its task, a second configuration, and the restart.
abbrev restarted : State ℕ
restarted = record { filter = watching 2; runner = selecting true; tasks = task_of 2 running ∷ [] }

run : Reaches restarted
run =
    after_step
      (after_step
        (after_step
          (after_step
            (after_step
              (after_step (after_step at_start_of_run (take_first 1 (selecting false) [] refl))
                (hand_over 1 false []))
              (start 1 (watching 1) []))
            (take 1 2 (selecting true) (task_of 1 running ∷ []) refl))
          (hand_over 2 true (task_of 1 running ∷ [])))
        (end_task (watching 2) (awaiting 2 true) [] (task_of 1 canceled) []))
      (restart 2 1 (watching 2) [])

Reachable-single_example : (length restarted.tasks ≤ 1) × RunsLatest 0 same_config restarted
Reachable-single_example = Reachable-single 0 same_config run
