-- ===== src/Restart.antt =====
-- util/restart.go: a task that is restarted where its configuration changes, as a step relation on
-- the loops of filterChanges and runTasks and the goroutines of the tasks. Each receive of a
-- channel is a step of both sides. The context may end at any time, so the theorems hold whenever
-- it does.
pub mod Single
use ingress_controller.Certs.{domain_key_eq}
use ingress_controller.Externals.{route_id_eq}
use ingress_controller.Gateway.RefKey.{ref_key_eq}
use ingress_controller.Prelude.{Bool, List, [], false, nat_eq, string_eq, true, ◌++◌, ◌∷◌, ◌≡◌}
use ingress_controller.Prelude.Text.{char_eq}
use ingress_controller.Types.{key_eq, namespaced_name_eq, secret_type_eq}

pub data TaskStatus : Type 0 where
  running canceled ended : TaskStatus

-- A goroutine of goRunTask that has not handed over its result
pub record Task (T : Type 0) : Type 0 where
  pub config : T
  pub status : TaskStatus

-- The loop of filterChanges: before the first change, waiting with the last configuration, sending
-- one to runTasks, or returned
pub data Filter (T : Type 0) : Type 0 where
  initial : Filter T
  watching : T → Filter T
  sending : T → Filter T
  stopped : Filter T

-- The loop of runTasks: selecting, in waitCompletion before it starts a task for a configuration
-- (each with whether there is a channel `done`), or returned
pub data Runner (T : Type 0) : Type 0 where
  selecting : Bool → Runner T
  awaiting : T → Bool → Runner T
  quit task_quit timed_out : Runner T

-- The goroutines of tasks stand with the latest first; it is the one that `done` belongs to.
pub record State (T : Type 0) : Type 0 where
  pub filter : Filter T
  pub runner : Runner T
  pub tasks : List (Task T)

-- cancel()
abbrev pub cancel_task : {T : Type 0} → Task T → Task T
cancel_task t = record t { status = elim t.status [ ended ↦ ended | _ ↦ canceled ] }

abbrev pub cancel_latest : {T : Type 0} → List (Task T) → List (Task T)
cancel_latest [] = []
cancel_latest (t ∷ ts) = cancel_task t ∷ ts

-- goRunTask
abbrev pub go_run_task : {T : Type 0} → T → List (Task T) → List (Task T)
go_run_task cfg ts = record { config = cfg; status = running } ∷ ts

abbrev pub at_run : {T : Type 0} → State T
at_run = record { filter = initial; runner = selecting false; tasks = [] }

module _ {T : Type 0} (zero_config : T) (equal : T → T → Bool) where
  pub data Step : State T → State T → Type 0 where
    -- filterChanges receives a configuration
    drop_first :
        (n : T) (r : Runner T) (ts : List (Task T))
        → equal zero_config n ≡ true
        → Step
            (record { filter = initial; runner = r; tasks = ts })
            (record { filter = initial; runner = r; tasks = ts })
    take_first :
        (n : T) (r : Runner T) (ts : List (Task T))
        → equal zero_config n ≡ false
        → Step
            (record { filter = initial; runner = r; tasks = ts })
            (record { filter = sending n; runner = r; tasks = ts })
    drop :
        (c n : T) (r : Runner T) (ts : List (Task T))
        → equal c n ≡ true
        → Step
            (record { filter = watching c; runner = r; tasks = ts })
            (record { filter = watching c; runner = r; tasks = ts })
    take :
        (c n : T) (r : Runner T) (ts : List (Task T))
        → equal c n ≡ false
        → Step
            (record { filter = watching c; runner = r; tasks = ts })
            (record { filter = sending n; runner = r; tasks = ts })
    -- runTasks receives the configuration, cancels the task and enters waitCompletion
    hand_over :
        (c : T) (b : Bool) (ts : List (Task T))
        → Step
            (record { filter = sending c; runner = selecting b; tasks = ts })
            (record { filter = watching c; runner = awaiting c b; tasks = cancel_latest ts })
    -- waitCompletion returns nil, and a task is started
    start :
        (c : T) (f : Filter T) (ts : List (Task T))
        → Step
            (record { filter = f; runner = awaiting c false; tasks = ts })
            (record { filter = f; runner = selecting true; tasks = go_run_task c ts })
    restart :
        (c d : T) (f : Filter T) (ts : List (Task T))
        → Step
            (record {
              filter = f;
              runner = awaiting c true;
              tasks = record { config = d; status = ended } ∷ ts;
            })
            (record { filter = f; runner = selecting true; tasks = go_run_task c ts })
    -- waitCompletion times out
    time_out :
        (c : T) (f : Filter T) (ts : List (Task T))
        → Step
            (record { filter = f; runner = awaiting c true; tasks = ts })
            (record { filter = f; runner = timed_out; tasks = cancel_latest ts })
    -- a task ends, and waits to hand over its result
    end_task :
        (f : Filter T) (r : Runner T) (before : List (Task T)) (t : Task T) (ts : List (Task T))
        → Step
            (record { filter = f; runner = r; tasks = before ++ t ∷ ts })
            (record { filter = f; runner = r; tasks = before ++ record t { status = ended } ∷ ts })
    -- runTasks receives the result of a task that it has not cancelled
    quit_task :
        (d : T) (f : Filter T) (ts : List (Task T))
        → Step
            (record {
              filter = f;
              runner = selecting true;
              tasks = record { config = d; status = ended } ∷ ts;
            })
            (record { filter = f; runner = task_quit; tasks = ts })
    -- the context is done
    stop_filter :
        (f : Filter T) (r : Runner T) (ts : List (Task T))
        → Step
            (record { filter = f; runner = r; tasks = ts })
            (record { filter = stopped; runner = r; tasks = ts })
    stop_runner :
        (f : Filter T) (b : Bool) (ts : List (Task T))
        → Step
            (record { filter = f; runner = selecting b; tasks = ts })
            (record { filter = f; runner = quit; tasks = cancel_latest ts })

  -- The states of a Run
  pub data Reachable : State T → Type 0 where
    at_start_of_run : Reachable at_run
    after_step : {s t : State T} → Reachable s → Step s t → Reachable t
