-- ===== src/Master/Dispatch.antt =====
-- master/master.go: what is requested, what a request does, and the garbage collection.
pub mod Requests
pub mod Release
use consul_scheduler.Prelude.{
  ℕ, ℤ, pos, add64, String, Bool, true, false, Option, none, some, List, [], ◌∷◌, if◌then◌else◌,
  str_eq, Assoc,
}
use consul_scheduler.Api.Types.{Cluster, Deployment, Task, any_task}
use consul_scheduler.Api.Results.{Error, ok, err, Outcome, returns, panics, and_then}
use consul_scheduler.Api.Backend.{SchedulerApi}
use Prim.Native.String.{◌++◌ as str_append}
use consul_scheduler.Master.Queue.{Request}
use consul_scheduler.Master.Lockers.{LockApi, SchedulerLocks, lock_service, unlock_service}
use consul_scheduler.Scheduler.Schedule.{Scheduler, schedule}

-- for _, v := range arr { if v == key { return true } }; return false
unfoldable pub in_array_str : String → List String → Bool
in_array_str key [] = false
in_array_str key (v ∷ vs) = if str_eq v key then true else in_array_str key vs

module _ {S : Type 0} (api : SchedulerApi S) where
  -- The loop of dispatchAll: the requests pushed, in order, and the error that ended it.
  unfoldable pub dispatch_loop : Cluster → List String → S → List Request × Option Error
  dispatch_loop c [] s = ([], none)
  dispatch_loop c (name ∷ names) s = elim (api.get_deployment name s) [
    | err e ↦ ([], some e)
    | ok d ↦
        let (rest, e) = dispatch_loop c names s in
        (record { cluster = c.name; service = d.name } ∷ rest, e)
  ]

  unfoldable pub dispatch_all : String → S → List Request × Option Error
  unfolding dispatch_loop
  dispatch_all name s = elim (api.get_cluster name s) [
    | err e ↦ ([], some e)
    | ok c ↦ dispatch_loop c c.deployments s
  ]

  -- The loop of runGarbageCollect, with `removed`.
  unfoldable pub collect : List String → List Task → S → ℤ → S × ℤ
  unfolding in_array_str
  collect deployments [] s removed = (s, removed)
  collect deployments (t ∷ ts) s removed = elim (in_array_str t.deployment deployments) [
    | true ↦ collect deployments ts s removed
    | false ↦
        collect deployments ts (api.put_task (record t { scheduled = false }) s).0
          (add64 removed (pos 1))
  ]

  unfoldable pub run_garbage_collect : String → S → Outcome (S × Option Error)
  unfolding collect
  run_garbage_collect name s = elim (api.get_cluster name s) [
    | err e ↦ returns (s, some e)
    | ok c ↦ and_then (api.list_tasks (record any_task { by_cluster = name }) s) (elim [
      | err e ↦ returns (s, some e)
      | ok tasks ↦ returns ((collect c.deployments tasks s (pos 0)).0, none)
    ])
  ]

-- The schedulers that have been registered: each name stands for the one default scheduler.
pub record Master (L S : Type 0) : Type 0 where
  pub schedulers : List String
  pub scheduler : Scheduler S
  pub locks : Assoc L

module _ {L S : Type 0} (api : SchedulerApi S) (lock_api : LockApi L S) (draw : ℕ → ℕ → ℕ)
    (fuel : ℕ) where
  abbrev lockers : Master L S → SchedulerLocks L S
  lockers m = record { locks = m.locks; store = (m.scheduler).store }

  abbrev with_lockers : Master L S → SchedulerLocks L S → Master L S
  with_lockers m s = record m {
    locks = s.locks;
    scheduler = record (m.scheduler) { store = s.store };
  }

  -- `defer s.locks.Unlock(l)`
  abbrev unlocked : String → Master L S → Master L S
  unlocked l m = with_lockers m (unlock_service lock_api l (lockers m))

  -- scheduler.SetCluster(cluster); scheduler.Schedule(deploy). An error is only logged.
  unfoldable pub run_scheduler : Cluster → Deployment → Master L S → Outcome (Master L S)
  run_scheduler c d m =
      and_then (schedule api draw fuel d (record (m.scheduler) { cluster = some c }))
        (λ r. returns (record m { scheduler = r.0 }))

  -- What is done under a lock that is held.
  unfoldable pub schedule_held : String → String → Master L S → Outcome (Master L S)
  unfolding run_scheduler in_array_str
  schedule_held cluster_name dep_name m = elim (api.get_cluster cluster_name (m.scheduler).store) [
    | err e ↦ if api.missing_is_nil then panics else returns m
    | ok c ↦ elim (api.get_deployment dep_name (m.scheduler).store) [
      | err e ↦ returns m
      | ok d ↦ if in_array_str d.scheduler m.schedulers then run_scheduler c d m else returns m
    ]
  ]

  -- Master.schedule, without the random sleep that it begins with.
  unfoldable pub master_schedule : String → String → Master L S → Outcome (Master L S)
  unfolding schedule_held
  master_schedule cluster_name dep_name m =
      let l = str_append cluster_name (str_append ":" dep_name) in
      let (s, got) = lock_service lock_api l (lockers m) in
      let m1 = with_lockers m s in
      elim got [
        | err e ↦ returns m1
        | ok locker ↦
            if lock_api.is_held locker s.store
            then and_then (schedule_held cluster_name dep_name m1) (λ m2. returns (unlocked l m2))
            else returns (unlocked l m1)
      ]
