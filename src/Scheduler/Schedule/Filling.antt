-- ===== src/Scheduler/Schedule/Filling.antt =====
-- A call of Schedule of scheduler/scheduler.go that finds fewer tasks than are desired.
use consul_scheduler.Prelude.{
  ℕ, ◌*◌, ◌^◌, ◌<◌, pos, pos_part, ◌<ℤ◌, ◌≡◌, refl, subst, ◌≢◌, ◌⊎◌, inl, inr, none, some,
  none-some, List, [], ◌∷◌, length, All, Assoc, lookup,
}
use consul_scheduler.Api.Types.{Cluster, Deployment, Host, TaskDefinition, Task}
use consul_scheduler.Api.Results.{ok, returns, WhenReturns-at, Ensures, Returns, Returns-value}
use consul_scheduler.Api.Definitions.{task_id, make_task_id, new_task}
use consul_scheduler.Api.Backend.{SchedulerApi}
use consul_scheduler.Scheduler.Hosts.{match_host}
use consul_scheduler.Scheduler.Hosts.Choice.{IsKeyed, select_host_refused}
use consul_scheduler.Scheduler.Hosts.Standing.{AllFit}
use consul_scheduler.Scheduler.Schedule.Keeps.{Contract, IsGood, cleanup-IsGood}
use consul_scheduler.Scheduler.Schedule.Keeps.Placing.{scale_up-IsGood}
use consul_scheduler.Scheduler.Schedule.Returning.{FixedContainers, run_pass-Returns}
use consul_scheduler.Scheduler.Schedule.Syncing.{ListedHost, add_hosts-IsKeyed, add_hosts-AllFit}
use consul_scheduler.Scheduler.Schedule.Written.{
  TaskStore, IsWrittenAs, task_map_of-IsNamed, task_map_of-Written,
}
use consul_scheduler.Scheduler.Schedule.Written.Phases.{IsWritten, run_pass-IsWritten}
use consul_scheduler.Scheduler.Schedule.Counting.{cleanup_few, shrink_few}
use consul_scheduler.Scheduler.Schedule.Coverage.{NoHost, grow_covers}
use consul_scheduler.Scheduler.Schedule.{
  Scheduler, Pass, add_hosts, sync_hosts, task_map_of, start_pass, query_of, cleanup, scale_up,
  run_pass, finish, schedule_listed, schedule_synced, schedule,
}

module _ {S : Type 0} (api : SchedulerApi S) (draw : ℕ → ℕ → ℕ) (fuel : ℕ) where
  -- The backend has a scheduled task of the instance.
  abbrev pub Runs : Cluster → Deployment → ℕ → S → Type 0
  Runs c d i s = (t : Task) × IsWrittenAs api s (make_task_id c d (pos i)) t

  -- When the upward loop came to the instance, matchHost accepted its task on no host.
  abbrev pub IsRefused : Cluster → TaskDefinition → Deployment → ℕ → Pass S → Type 0
  IsRefused c def d i p =
      (r : Pass S) × (scale_up api draw fuel i 0 c def d p ≡ returns r)
      × All (λ e. match_host (new_task c def d (pos i)) e.1 ≢ none) r.hosts

  abbrev pub IsFilled : Cluster → TaskDefinition → Deployment → Pass S → S → Type 0
  IsFilled c def d p s = (i : ℕ) → i < pos_part d.desired → Runs c d i s ⊎ IsRefused c def d i p

  any_contract : Contract api (λ _. Unit {0})
  any_contract = record { off = λ t s o u. tt; on = λ t h s o named fits u. tt }

  any-IsGood : (p : Pass S) → IsKeyed p.hosts → AllFit p.hosts → IsGood api (λ _. Unit {0}) p
  any-IsGood p w f = record { keyed = w; fit = f; kept = tt }

  refused :
      (c : Cluster) (def : TaskDefinition) (d : Deployment) (i : ℕ) (p r : Pass S)
      → IsGood api (λ _. Unit {0}) p
      → NoHost api draw fuel c def d i p r
      → IsRefused c def d i p
  refused c def d i p r g (reached, empty) =
      let good : IsGood api (λ _. Unit {0}) r =
        subst (Ensures (IsGood api (λ _. Unit {0}))) reached
          (scale_up-IsGood api (λ _. Unit {0}) any_contract draw fuel i 0 c def d p g) in
      (
        r,
        reached,
        select_host_refused d.scheduler (new_task c def d (pos i)) r.hosts good.keyed empty,
      )

  -- The pass after the cleanup of the listed tasks.
  pub cleaned : Deployment → List Task → Scheduler S → Pass S
  unfolding start_pass
  cleaned d tasks s =
      cleanup api d (pos (length tasks)) (task_map_of [] tasks) (start_pass api s tasks)

  run_pass_fills :
      (c : Cluster) (def : TaskDefinition) (d : Deployment) (tasks : List Task) (s : Scheduler S)
      (q : Pass S)
      → TaskStore api
      → def.version ≡ d.task_version
      → 3 * length tasks < 2 ^ 63
      → pos (length tasks) <ℤ d.desired
      → All (λ t. IsWrittenAs api s.store (task_id t) t) tasks
      → IsGood api (λ _. Unit {0}) (start_pass api s tasks)
      → run_pass api draw fuel c def d tasks (start_pass api s tasks) ≡ returns q
      → IsFilled c def d (cleaned d tasks s) q.store
  unfolding run_pass start_pass cleaned lookup
  run_pass_fills c def d tasks s q laws v small few held g e i below =
      let n = pos (length tasks) in
      let left = cleanup_few api d tasks (start_pass api s tasks) small few refl refl in
      let same = shrink_few api c d n (cleaned d tasks s) left in
      let named = task_map_of-IsNamed [] tasks tt in
      let written = task_map_of-Written api s.store [] tasks (λ k t l. absurd (none-some l)) held in
      let kept =
        WhenReturns-at (IsWritten api laws) _
          (run_pass-IsWritten api laws draw fuel c def d tasks (start_pass api s tasks) named
            written)
          e in
      elim (grow_covers api draw fuel c def d n (cleaned d tasks s) q v left (rw same at e) i
        below) [
          | inl (t, l) ↦ inl (t, kept (make_task_id c d (pos i)) t l)
          | inr (r, reached) ↦ inr (
              refused c def d i (cleaned d tasks s) r
                (cleanup-IsGood api (λ _. Unit {0}) any_contract d n (task_map_of [] tasks) _ g)
                reached)
        ]

  -- What a call of Schedule reads, from its cluster on.
  pub record Reads (s : Scheduler S) (d : Deployment) (c : Cluster) (def : TaskDefinition)
      (listed : List Host) (tasks : List Task) : Type 0 where
    pub cluster : s.cluster ≡ some c
    pub hosts : api.list_hosts c.name s.store ≡ ok listed
    pub definition : api.get_task_definition d.task_name d.task_version s.store ≡ ok def
    pub listing : api.list_tasks (query_of c d) s.store ≡ returns (ok tasks)

  -- The scheduler with the hosts of the call.
  abbrev pub hosted : Scheduler S → List Host → Scheduler S
  hosted s listed = record s { hosts = add_hosts s.hosts listed }

  synced_is :
      (d : Deployment) (c : Cluster) (def : TaskDefinition) (tasks : List Task) (s1 : Scheduler S)
      (hosts : Assoc Host) (q : Pass S)
      → s1.hosts ≡ hosts
      → hosts ≢ []
      → api.get_task_definition d.task_name d.task_version s1.store ≡ ok def
      → api.list_tasks (query_of c d) s1.store ≡ returns (ok tasks)
      → run_pass api draw fuel c def d tasks (start_pass api s1 tasks) ≡ returns q
      → schedule_synced api draw fuel c d s1 ≡ returns (finish api s1 q, none)
  unfolding schedule_synced schedule_listed
  synced_is d c def tasks s1 [] q at some_host e l r = absurd (some_host refl)
  synced_is d c def tasks s1 (x ∷ xs) q at some_host e l r = rw (at, e, l, r, schedule_synced)

  -- Let a backend take every task that is put and give it back under its id, and let it have each
  -- listed task so, as one that is scheduled. Let the reads of a call of Schedule answer, let there be
  -- a host, let the scheduler's hosts stand under their own names and the listed ones have a name, all
  -- with no resource below zero, let the definition have the deployment's version and only fixed ports,
  -- and let fewer tasks be listed than are desired, fewer than a third of 2^63. Then Schedule returns
  -- without an error, and for each instance below the desired number the backend has a scheduled task
  -- under the instance's id, or the upward loop came to it in a pass in which matchHost accepted its
  -- task on no host.
  pub schedule_fills :
      (s : Scheduler S) (d : Deployment) (c : Cluster) (def : TaskDefinition) (listed : List Host)
      (tasks : List Task)
      → TaskStore api
      → Reads s d c def listed tasks
      → add_hosts s.hosts listed ≢ []
      → IsKeyed s.hosts
      → AllFit s.hosts
      → All ListedHost listed
      → def.version ≡ d.task_version
      → FixedContainers def.containers
      → 3 * length tasks < 2 ^ 63
      → pos (length tasks) <ℤ d.desired
      → All (λ t. IsWrittenAs api s.store (task_id t) t) tasks
      → Returns
          (λ r. (r.1 ≡ none) × IsFilled c def d (cleaned d tasks (hosted s listed)) (r.0).store)
          (schedule api draw fuel d s)
  unfolding schedule sync_hosts start_pass cleaned
  schedule_fills s d c def listed tasks laws reads some_host w f hs v fixed small few held =
      let s1 = hosted s listed in
      let good =
        any-IsGood (start_pass api s1 tasks) (add_hosts-IsKeyed s.hosts listed hs w)
          (add_hosts-AllFit s.hosts listed hs f) in
      let (q, e) = Returns-value _ _ (
        run_pass-Returns api draw fuel (λ _. Unit {0}) any_contract c def d tasks
          (start_pass api s1 tasks) fixed good) in
      let ends =
        synced_is d c def tasks s1 s1.hosts q refl some_host reads.definition reads.listing e in
      rw (reads.cluster, reads.hosts, ends, schedule)
        (refl, run_pass_fills c def d tasks s1 q laws v small few held good e)
