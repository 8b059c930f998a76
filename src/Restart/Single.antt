-- ===== src/Restart/Single.antt =====
-- Two tasks never run at once.
use ingress_controller.Certs.{domain_key_eq}
use ingress_controller.Externals.{route_id_eq}
use ingress_controller.Gateway.RefKey.{ref_key_eq}
use ingress_controller.Prelude.{
  Bool, List, [], ap, arith, false, length, length-map, map, nat_eq, refl, string_eq, sym, true,
  ◌++◌, ◌∙◌, ◌∷◌, ◌≡◌, ◌≤◌,
}
use ingress_controller.Prelude.Text.{char_eq}
use ingress_controller.Restart.{
  Filter, Reachable, Runner, State, Step, Task, TaskStatus, after_step, at_start_of_run, awaiting,
  cancel_latest, drop, drop_first, end_task, ended, hand_over, initial, quit, quit_task, restart,
  selecting, sending, start, stop_filter, stop_runner, stopped, take, take_first, task_quit,
  time_out, timed_out, watching,
}
use ingress_controller.Types.{key_eq, namespaced_name_eq, secret_type_eq}
use mathlib.Core.Path.{subst}

module _ {T : Type 0} where
  abbrev configs : List (Task T) → List T
  configs ts = map (λ t. t.config) ts

  -- A filter that waits has handed over this configuration last.
  abbrev Agrees : Filter T → T → Type 0
  Agrees (watching d) c = d ≡ c
  Agrees _ c = Unit

  abbrev HasSent : Filter T → Type 0
  HasSent (watching d) = Unit
  HasSent _ = ⊥

  abbrev IsSoundAt : Filter T → Runner T → List T → Type 0
  IsSoundAt f (selecting false) cs = (cs ≡ []) × ¬ HasSent f
  IsSoundAt f (selecting true) cs = (c : T) × (cs ≡ c ∷ []) × Agrees f c
  IsSoundAt f (awaiting c false) cs = (cs ≡ []) × Agrees f c
  IsSoundAt f (awaiting c true) cs = ((d : T) × (cs ≡ d ∷ [])) × Agrees f c
  IsSoundAt f _ cs = length cs ≤ 1

  abbrev IsSound : State T → Type 0
  IsSound s = IsSoundAt s.filter s.runner (configs s.tasks)

  configs-cancel_latest : (ts : List (Task T)) → configs (cancel_latest ts) ≡ configs ts
  configs-cancel_latest [] = refl
  configs-cancel_latest (t ∷ ts) = refl

  configs-ended :
      (before : List (Task T)) (t : Task T) (ts : List (Task T))
      → configs (before ++ t ∷ ts) ≡ configs (before ++ record t { status = ended } ∷ ts)
  configs-ended [] t ts = refl
  configs-ended (u ∷ before) t ts = ap (◌∷◌ u.config) (configs-ended before t ts)

  -- No task of a sound state stands beside another.
  at_most_one : (f : Filter T) (r : Runner T) (cs : List T) → IsSoundAt f r cs → length cs ≤ 1
  at_most_one f (selecting false) cs s = subst (λ l. length l ≤ 1) (sym s.0) (omega arith)
  at_most_one f (selecting true) cs s = subst (λ l. length l ≤ 1) (sym s.1) (omega arith)
  at_most_one f (awaiting c false) cs s = subst (λ l. length l ≤ 1) (sym s.0) (omega arith)
  at_most_one f (awaiting c true) cs s = subst (λ l. length l ≤ 1) (sym s.0.1) (omega arith)
  at_most_one f quit cs s = s
  at_most_one f task_quit cs s = s
  at_most_one f timed_out cs s = s

  IsSoundAt-stopped :
      (f : Filter T) (r : Runner T) (cs : List T) → IsSoundAt f r cs → IsSoundAt stopped r cs
  IsSoundAt-stopped f (selecting false) cs s = (s.0, λ h. h)
  IsSoundAt-stopped f (selecting true) cs s = (s.0, s.1, tt)
  IsSoundAt-stopped f (awaiting c false) cs s = (s.0, tt)
  IsSoundAt-stopped f (awaiting c true) cs s = (s.0, tt)
  IsSoundAt-stopped f quit cs s = s
  IsSoundAt-stopped f task_quit cs s = s
  IsSoundAt-stopped f timed_out cs s = s

  IsSoundAt-sending :
      (f : Filter T) (n : T) (r : Runner T) (cs : List T)
      → IsSoundAt f r cs
      → IsSoundAt (sending n) r cs
  IsSoundAt-sending f n (selecting false) cs s = (s.0, λ h. h)
  IsSoundAt-sending f n (selecting true) cs s = (s.0, s.1, tt)
  IsSoundAt-sending f n (awaiting c false) cs s = (s.0, tt)
  IsSoundAt-sending f n (awaiting c true) cs s = (s.0, tt)
  IsSoundAt-sending f n quit cs s = s
  IsSoundAt-sending f n task_quit cs s = s
  IsSoundAt-sending f n timed_out cs s = s

  IsSoundAt-cancel_latest :
      (f : Filter T) (r : Runner T) (ts : List (Task T))
      → IsSoundAt f r (configs ts)
      → IsSoundAt f r (configs (cancel_latest ts))
  IsSoundAt-cancel_latest f r ts = subst (IsSoundAt f r) (sym (configs-cancel_latest ts))

  handed_over :
      (c : T) (b : Bool) (cs : List T)
      → IsSoundAt (sending c) (selecting b) cs
      → IsSoundAt (watching c) (awaiting c b) cs
  handed_over c false cs s = (s.0, refl)
  handed_over c true cs s = ((s.0, s.1), refl)

  rest_empty : {d e : T} {cs : List T} → d ∷ cs ≡ e ∷ [] → cs ≡ []
  rest_empty h = cc

  started :
      (c : T) (f : Filter T) (cs : List T)
      → cs ≡ []
      → Agrees f c
      → IsSoundAt f (selecting true) (c ∷ cs)
  started c f cs empty a = (c, ap (◌∷◌ c) empty, a)

module _ {T : Type 0} (zero_config : T) (equal : T → T → Bool) where
  Step-IsSound : {s t : State T} → Step zero_config equal s t → IsSound s → IsSound t
  Step-IsSound (drop_first n r ts h) s = s
  Step-IsSound (take_first n r ts h) s = IsSoundAt-sending initial n r (configs ts) s
  Step-IsSound (drop c n r ts h) s = s
  Step-IsSound (take c n r ts h) s = IsSoundAt-sending (watching c) n r (configs ts) s
  Step-IsSound (hand_over c b ts) s =
      IsSoundAt-cancel_latest (watching c) (awaiting c b) ts (handed_over c b (configs ts) s)
  Step-IsSound (start c f ts) s = started c f (configs ts) s.0 s.1
  Step-IsSound (restart c d f ts) s = started c f (configs ts) (rest_empty s.0.1) s.1
  Step-IsSound (time_out c f ts) s =
      IsSoundAt-cancel_latest f timed_out ts (at_most_one f (awaiting c true) (configs ts) s)
  Step-IsSound (end_task f r before t ts) s = subst (IsSoundAt f r) (configs-ended before t ts) s
  Step-IsSound (quit_task d f ts) s = subst (λ l. length l ≤ 1) (sym (rest_empty s.1)) (omega arith)
  Step-IsSound (stop_filter f r ts) s = IsSoundAt-stopped f r (configs ts) s
  Step-IsSound (stop_runner f b ts) s =
      IsSoundAt-cancel_latest f quit ts (at_most_one f (selecting b) (configs ts) s)

  Reachable-IsSound : {s : State T} → Reachable zero_config equal s → IsSound s
  Reachable-IsSound at_start_of_run = (refl, λ h. h)
  Reachable-IsSound (after_step r step) = Step-IsSound step (Reachable-IsSound r)

  abbrev pub RunsLatest : State T → Type 0
  RunsLatest s =
      (c : T)
      → s.filter ≡ watching c
      → s.runner ≡ selecting true
      → (status : TaskStatus) × (s.tasks ≡ record { config = c; status = status } ∷ [])

  the_task :
      (ts : List (Task T)) (c : T)
      → configs ts ≡ c ∷ []
      → (status : TaskStatus) × (ts ≡ record { config = c; status = status } ∷ [])
  the_task [] c h = cc
  the_task (t ∷ []) c h = (t.status, cc)
  the_task (t ∷ u ∷ ts) c h = cc

  -- In every state of a Run, at whatever point the context is done or a task ends, there is at
  -- most one task that has not handed over its result; and where runTasks waits for a change after
  -- it has started a task, and filterChanges for a configuration, the one task is that of the last
  -- configuration that filterChanges passed on.
  pub Reachable-single :
      {s : State T} → Reachable zero_config equal s → (length s.tasks ≤ 1) × RunsLatest s
  Reachable-single {s} reached =
      let sound = Reachable-IsSound reached in
      (
        subst (λ n. n ≤ 1) (length-map (λ t. t.config) s.tasks)
            (at_most_one s.filter s.runner (configs s.tasks) sound),
        λ c watches selects.
            let (d, only, same) =
              subst (λ f. IsSoundAt f (selecting true) (configs s.tasks)) watches
                (subst (λ r. IsSoundAt s.filter r (configs s.tasks)) selects sound) in
            the_task s.tasks c (only ∙ ap (λ e. e ∷ []) (sym same)),
      )
