-- ===== src/Scheduler/Schedule/Written/Phases.antt =====
-- The three phases of Schedule of scheduler/scheduler.go keep what the backend holds for the task map.
use consul_scheduler.Prelude.{
  ℕ, zero, suc, ℤ, pos, ltb_ℤ, pos_part, sub64, String, ◌≡◌, refl, sym, inl, inr, Bool, true, false,
  List, [], ◌∷◌, if◌then◌else◌, str_eq, Bool-cases, Option-cases, Assoc, lookup, subst, length,
}
use consul_scheduler.Api.Types.{Cluster, Deployment, TaskDefinition, Task}
use consul_scheduler.Api.Results.{
  WhenReturns, WhenReturns-and_then, WhenReturns-any, WhenReturns-if,
}
use consul_scheduler.Api.Definitions.{task_id, make_task_id, new_task}
use consul_scheduler.Api.Backend.{SchedulerApi}
use consul_scheduler.Scheduler.Hosts.{select_host, update_host}
use consul_scheduler.Scheduler.Schedule.Entering.{Same, provide_all-Same}
use consul_scheduler.Scheduler.Schedule.Written.{
  TaskStore, IsNamed, Written, put-Written, unschedule-Written,
}
use consul_scheduler.Scheduler.Schedule.{
  Pass, unschedule, clean_task, cleanup, remove_instance, scale_down, shrink, provide_all,
  commit_task, place_on, add_instance, scale_up, grow, run_pass,
}

module _ {S : Type 0} (api : SchedulerApi S) (laws : TaskStore api) where
  -- The backend has every task of the map.
  abbrev pub IsWritten : Pass S → Type 0
  IsWritten p = Written api p.store p.task_map

  when-IsWritten :
      (b : Bool) (key : String) (t : Task) (p : Pass S)
      → task_id t ≡ key
      → IsWritten p
      → IsWritten (if b then unschedule api key t p else p)
  when-IsWritten true key t p n w = unschedule-Written api laws key t p n w
  when-IsWritten false key t p n w = w

  clean_task-IsWritten :
      (d : Deployment) (count : ℤ) (key : String) (t : Task) (p : Pass S)
      → task_id t ≡ key
      → IsWritten p
      → IsWritten (clean_task api d count key t p)
  unfolding clean_task
  clean_task-IsWritten d count key t p n w =
      when-IsWritten _ key t _ n
        (when-IsWritten t.rejected key t _ n (when-IsWritten _ key t p n w))

  pub cleanup-IsWritten :
      (d : Deployment) (count : ℤ) (m : Assoc Task) (p : Pass S)
      → IsNamed m
      → IsWritten p
      → IsWritten (cleanup api d count m p)
  unfolding cleanup
  cleanup-IsWritten d count [] p n w = w
  cleanup-IsWritten d count ((key, t) ∷ m) p n w =
      cleanup-IsWritten d count m (clean_task api d count key t p) n.1
        (clean_task-IsWritten d count key t p n.0 w)

  remove_instance-IsWritten :
      (cl : Cluster) (d : Deployment) (i : ℤ) (p : Pass S)
      → IsWritten p
      → IsWritten (remove_instance api cl d i p)
  unfolding remove_instance
  remove_instance-IsWritten cl d i p w =
      elim (Option-cases (lookup (make_task_id cl d i) p.task_map)) [
        | inl e ↦ rw (e, remove_instance) w
        | inr (t, e) ↦ rw (e, remove_instance) (unschedule-Written api laws _ t p (w _ t e).named w)
      ]

  scale_down-IsWritten :
      (fuel : ℕ) (cl : Cluster) (d : Deployment) (i : ℤ) (p : Pass S)
      → IsWritten p
      → IsWritten (scale_down api fuel cl d i p).1
  unfolding scale_down
  scale_down-IsWritten zero cl d i p w = w
  scale_down-IsWritten (suc fuel) cl d i p w =
      elim (Bool-cases (ltb_ℤ (sub64 d.desired (pos 1)) i)) [
        | inl e ↦
            rw (e, scale_down)
              (scale_down-IsWritten fuel cl d _ _ (remove_instance-IsWritten cl d i p w))
        | inr e ↦ rw (e, scale_down) w
      ]

  pub shrink-IsWritten :
      (cl : Cluster) (d : Deployment) (count : ℤ) (p : Pass S)
      → IsWritten p
      → IsWritten (shrink api cl d count p)
  unfolding shrink
  shrink-IsWritten cl d count p w = elim (Bool-cases (ltb_ℤ d.desired (sub64 count p.removed))) [
    | inl e ↦ rw e (scale_down-IsWritten _ cl d _ p w)
    | inr e ↦ rw e w
  ]

  module _ (draw : ℕ → ℕ → ℕ) (fuel : ℕ) where
    commit_task-IsWritten :
        (t : Task) (p : Pass S)
        → t.scheduled ≡ true
        → IsWritten p
        → WhenReturns IsWritten (commit_task api draw fuel t p)
    unfolding commit_task
    commit_task-IsWritten t p on w =
        WhenReturns-and_then (λ _. Unit {0}) IsWritten (update_host t p.hosts) _
          (WhenReturns-any (update_host t p.hosts))
          (λ hosts _. put-Written api laws t p.store p.task_map on w)

    place_on-IsWritten :
        (name : String) (t : Task) (p : Pass S)
        → IsWritten p
        → WhenReturns IsWritten (place_on api draw fuel name t p)
    unfolding place_on
    place_on-IsWritten name t p w = elim (Option-cases (lookup name p.hosts)) [
      | inl e ↦ rw (e, place_on) tt
      | inr (host, e) ↦
          let t0 = record t { host = name } in
          let cs = t.task_definition.containers in
          rw (e, place_on)
            (WhenReturns-and_then (Same api draw fuel t0 p) IsWritten
              (provide_all api draw fuel host cs t0 p) _
              (WhenReturns-if (Same api draw fuel t0 p) _
                (provide_all-Same api draw fuel host cs t0 p))
              (λ r k.
                commit_task-IsWritten (record (r.0) { scheduled = true }) r.1 refl
                  (subst (λ m. Written api (r.1).store m) (sym k.0)
                    (subst (λ s. Written api s p.task_map) (sym k.2) w))))
    ]

    add_instance-IsWritten :
        (cl : Cluster) (def : TaskDefinition) (d : Deployment) (i : ℤ) (p : Pass S)
        → IsWritten p
        → WhenReturns IsWritten (add_instance api draw fuel cl def d i p)
    unfolding add_instance
    add_instance-IsWritten cl def d i p w =
        elim (Option-cases (lookup (make_task_id cl d i) p.task_map)) [
          | inr (t, e) ↦ rw (e, add_instance) w
          | inl e ↦
              let t = new_task cl def d i in
              let name = (select_host d.scheduler t p.hosts).0 in
              elim (Bool-cases (str_eq name "")) [
                | inl q ↦ rw (e, q, add_instance) w
                | inr q ↦ rw (e, q, add_instance) (place_on-IsWritten name t p w)
              ]
        ]

    pub scale_up-IsWritten :
        (n i : ℕ) (cl : Cluster) (def : TaskDefinition) (d : Deployment) (p : Pass S)
        → IsWritten p
        → WhenReturns IsWritten (scale_up api draw fuel n i cl def d p)
    unfolding scale_up
    scale_up-IsWritten zero i cl def d p w = w
    scale_up-IsWritten (suc n) i cl def d p w =
        WhenReturns-and_then IsWritten IsWritten (add_instance api draw fuel cl def d (pos i) p) _
          (add_instance-IsWritten cl def d (pos i) p w)
          (λ q k. scale_up-IsWritten n (suc i) cl def d q k)

    grow-IsWritten :
        (cl : Cluster) (def : TaskDefinition) (d : Deployment) (count : ℤ) (p : Pass S)
        → IsWritten p
        → WhenReturns IsWritten (grow api draw fuel cl def d count p)
    unfolding grow
    grow-IsWritten cl def d count p w =
        elim (Bool-cases (ltb_ℤ (sub64 count p.removed) d.desired)) [
          | inl e ↦ rw e (scale_up-IsWritten (pos_part d.desired) 0 cl def d p w)
          | inr e ↦ rw e w
        ]

    -- A pass that comes back leaves a task map every task of which the backend has under its id,
    -- as one that is scheduled.
    pub run_pass-IsWritten :
        (cl : Cluster) (def : TaskDefinition) (d : Deployment) (tasks : List Task) (p : Pass S)
        → IsNamed p.task_map
        → IsWritten p
        → WhenReturns IsWritten (run_pass api draw fuel cl def d tasks p)
    unfolding run_pass
    run_pass-IsWritten cl def d tasks p n w = grow-IsWritten cl def d (pos (length tasks)) _ (
        shrink-IsWritten cl d (pos (length tasks)) _
          (cleanup-IsWritten d (pos (length tasks)) p.task_map p n w))
