-- ===== src/Scheduler/Schedule/Keeps.antt =====
-- The hosts and the backend through a pass of Schedule of scheduler/scheduler.go.
pub mod Placing
use consul_scheduler.Prelude.{
  ℕ, zero, suc, ℤ, pos, ltb_ℤ, sub64, String, ◌≡◌, refl, inl, inr, Bool, true, false, none, [], ◌∷◌,
  if◌then◌else◌, Bool-cases, Option-cases, Assoc, lookup,
}
use consul_scheduler.Api.Types.{Cluster, Deployment, Host, Task}
use consul_scheduler.Api.Definitions.{make_task_id}
use consul_scheduler.Api.Backend.{SchedulerApi}
use consul_scheduler.Scheduler.Hosts.{match_host}
use consul_scheduler.Scheduler.Hosts.Standing.{AllFit}
use consul_scheduler.Scheduler.Hosts.Choice.{IsKeyed}
use consul_scheduler.Scheduler.Schedule.{
  Pass, unschedule, clean_task, cleanup, remove_instance, scale_down, shrink,
}

module _ {S : Type 0} (api : SchedulerApi S) (P : S → Type 0) where
  -- The backend's invariant P survives the writing of a task that is not scheduled, and of a task
  -- on a host that accepts it.
  pub record Contract : Type 0 where
    pub off : (t : Task) (s : S) → t.scheduled ≡ false → P s → P (api.put_task t s).0
    pub on :
        (t : Task) (h : Host) (s : S)
        → t.scheduled ≡ true
        → t.host ≡ h.name
        → match_host t h ≡ none
        → P s
        → P (api.put_task t s).0

  pub record IsGood (p : Pass S) : Type 0 where
    pub keyed : IsKeyed p.hosts
    pub fit : AllFit p.hosts
    pub kept : P p.store

  module _ (c : Contract) where
    unschedule-IsGood :
        (key : String) (t : Task) (p : Pass S) → IsGood p → IsGood (unschedule api key t p)
    unfolding unschedule
    unschedule-IsGood key t p g = record {
      keyed = g.keyed;
      fit = g.fit;
      kept = c.off (record t { scheduled = false }) p.store refl g.kept;
    }

    when-IsGood :
        (b : Bool) (key : String) (t : Task) (p : Pass S)
        → IsGood p
        → IsGood (if b then unschedule api key t p else p)
    when-IsGood true key t p g = unschedule-IsGood key t p g
    when-IsGood false key t p g = g

    clean_task-IsGood :
        (d : Deployment) (count : ℤ) (key : String) (t : Task) (p : Pass S)
        → IsGood p
        → IsGood (clean_task api d count key t p)
    unfolding clean_task
    clean_task-IsGood d count key t p g =
        when-IsGood _ key t _ (when-IsGood t.rejected key t _ (when-IsGood _ key t p g))

    pub cleanup-IsGood :
        (d : Deployment) (count : ℤ) (m : Assoc Task) (p : Pass S)
        → IsGood p
        → IsGood (cleanup api d count m p)
    unfolding cleanup
    cleanup-IsGood d count [] p g = g
    cleanup-IsGood d count ((key, t) ∷ m) p g =
        cleanup-IsGood d count m _ (clean_task-IsGood d count key t p g)

    remove_instance-IsGood :
        (cl : Cluster) (d : Deployment) (i : ℤ) (p : Pass S)
        → IsGood p
        → IsGood (remove_instance api cl d i p)
    unfolding remove_instance
    remove_instance-IsGood cl d i p g =
        elim (Option-cases (lookup (make_task_id cl d i) p.task_map)) [
          | inl e ↦ rw (e, remove_instance) g
          | inr (t, e) ↦ rw (e, remove_instance) (unschedule-IsGood _ t p g)
        ]

    scale_down-IsGood :
        (fuel : ℕ) (cl : Cluster) (d : Deployment) (i : ℤ) (p : Pass S)
        → IsGood p
        → IsGood (scale_down api fuel cl d i p).1
    unfolding scale_down
    scale_down-IsGood zero cl d i p g = g
    scale_down-IsGood (suc fuel) cl d i p g =
        elim (Bool-cases (ltb_ℤ (sub64 d.desired (pos 1)) i)) [
          | inl e ↦
              rw (e, scale_down)
                (scale_down-IsGood fuel cl d _ _ (remove_instance-IsGood cl d i p g))
          | inr e ↦ rw (e, scale_down) g
        ]

    pub shrink-IsGood :
        (cl : Cluster) (d : Deployment) (count : ℤ) (p : Pass S)
        → IsGood p
        → IsGood (shrink api cl d count p)
    unfolding shrink
    shrink-IsGood cl d count p g = elim (Bool-cases (ltb_ℤ d.desired (sub64 count p.removed))) [
      | inl e ↦ rw e (scale_down-IsGood _ cl d _ p g)
      | inr e ↦ rw e g
    ]
